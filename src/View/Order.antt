-- ===== src/View/Order.antt =====
-- src/view.rs: the best-first order of a peer's addresses and the backoff of a failed one.
use saved.Base.{
  ap, ◌∙◌, ℕ, ◌+◌, ◌-◌, ◌^◌, ◌≤◌, ◌≡◌, min, refl, Bool, true, false, not, inl, inr, Option, none,
  some, List, [], ◌∷◌, arith, if◌then◌else◌, Bool-cases, ltb, compare,
}
use saved.View.{attach, detach, insert_connection}
use saved.View.Count.{at_addr, same_addr-eq, total-resort}
use saved.View.Insert.{insert_connection_cases}
use saved.View.Invariant.{IsValid, insert_connection-IsValid}
use mathlib.Core.Option
use saved.Base.Lists.{
  find-modify_first_self, find-modify_first_ne, find-none, any, find, modify_first, total,
  total-modify_first_same,
}
use saved.Base.Sort.{IsSorted, IsBelow, sort-IsSorted, find-sort}
use saved.Libp2p.{Libp2p, ConnectionId, Multiaddr, same_addr}
use saved.View.Classify.{scope_rank, transport_rank}
use saved.View.Peer.{
  AddressMetadata, PeerInfoExt, has_addr, is_in_cooldown, backoff, from_secs, key_le, lex, flag,
  resort, mark_failure, failed_at, clear_backoff_on_success, cleared,
}

-- The lexicographic order of four keys, of which the last is any order.
key_trans :
    (a b c d e f g h i : ℕ) (x y z : Bool)
    → (x ≡ true → y ≡ true → z ≡ true)
    → lex (compare a b) (lex (compare d e) (lex (compare g h) x)) ≡ true
    → lex (compare b c) (lex (compare e f) (lex (compare h i) y)) ≡ true
    → lex (compare a c) (lex (compare d f) (lex (compare g i) z)) ≡ true
key_trans a b c d e f g h i x y z t p q = ground arith

key_connex :
    (a b d e g h : ℕ) (x y : Bool)
    → (x ≡ false → y ≡ true)
    → lex (compare a b) (lex (compare d e) (lex (compare g h) x)) ≡ false
    → lex (compare b a) (lex (compare e d) (lex (compare h g) y)) ≡ true
key_connex a b d e g h x y t p = ground arith

module _ ⦃L : Libp2p⦄ where
  key_le_trans :
      (now : ℕ) (a b c : AddressMetadata)
      → key_le now a b ≡ true
      → key_le now b c ≡ true
      → key_le now a c ≡ true
  unfolding key_le
  key_le_trans now a b c h k =
      key_trans (flag (is_in_cooldown now a)) (flag (is_in_cooldown now b))
        (flag (is_in_cooldown now c)) (scope_rank a.scope) (scope_rank b.scope) (scope_rank c.scope)
        (transport_rank a.transport) (transport_rank b.transport) (transport_rank c.transport) _ _ _
        (L.addr_le_trans a.address b.address c.address) h k

  key_le_connex : (now : ℕ) (a b : AddressMetadata) → key_le now a b ≡ false → key_le now b a ≡ true
  unfolding key_le
  key_le_connex now a b h =
      key_connex (flag (is_in_cooldown now a)) (flag (is_in_cooldown now b)) (scope_rank a.scope)
        (scope_rank b.scope) (transport_rank a.transport) (transport_rank b.transport) _ _
        (L.addr_le_connex a.address b.address) h

  -- The entries are sorted by the key.
  pub resort-IsSorted :
      (now : ℕ) (info : PeerInfoExt) → IsSorted (key_le now) (resort now info).addresses
  unfolding resort
  resort-IsSorted now info =
      sort-IsSorted (key_le now) (key_le_trans now) (key_le_connex now) info.addresses

  -- An address in cooldown stands behind every address that is not.
  key_le_cooldown :
      (now : ℕ) (a b : AddressMetadata)
      → key_le now a b ≡ true
      → is_in_cooldown now b ≡ false
      → is_in_cooldown now a ≡ false
  unfolding key_le
  key_le_cooldown now a b h fresh = ground arith

  IsBelow-cooldown :
      (now : ℕ) (m : AddressMetadata) (ms : List AddressMetadata)
      → IsBelow (key_le now) m ms
      → any (λ n. not (is_in_cooldown now n)) ms ≡ true
      → is_in_cooldown now m ≡ false
  unfolding any
  IsBelow-cooldown now m [] b h = cc
  IsBelow-cooldown now m (n ∷ ms) b h =
      ground (arith, key_le_cooldown now m n b.0, IsBelow-cooldown now m ms b.1)

  -- In entries sorted by `key_le`, the first one is out of cooldown if any is.
  pub head_is_fresh :
      (now : ℕ) (m : AddressMetadata) (ms : List AddressMetadata)
      → IsSorted (key_le now) (m ∷ ms)
      → any (λ n. not (is_in_cooldown now n)) (m ∷ ms) ≡ true
      → is_in_cooldown now m ≡ false
  unfolding any
  head_is_fresh now m ms s h = ground (arith, IsBelow-cooldown now m ms s.0)

  -- An address that fails is in cooldown for 2 ^ n seconds, where n is the number of its
  -- failures, this one included, but at most 6.
  pub failed_at-cooldown :
      (now t : ℕ) (m : AddressMetadata)
      → is_in_cooldown t (failed_at now m) ≡ ltb (t - now) (from_secs (2 ^ min (m.err_count + 1) 6))
  unfolding is_in_cooldown backoff
  failed_at-cooldown now t m =
      let e : min (min (m.err_count + 1) 4_294_967_295) 6 ≡ min (m.err_count + 1) 6 = omega arith in
      ap (λ k. ltb (t - now) (from_secs (2 ^ k))) e

  find-resort :
      (now : ℕ) (info : PeerInfoExt) (a : Multiaddr)
      → total (at_addr a) info.addresses ≤ 1
      → find (has_addr a) (resort now info).addresses ≡ find (has_addr a) info.addresses
  unfolding resort
  find-resort now info a h = find-sort (key_le now) (has_addr a) info.addresses h

  -- In a valid entry, `mark_failure` writes the failure at its address, if that is known, and
  -- leaves what is recorded at every other address.
  pub find-mark_failure :
      (now : ℕ) (info : PeerInfoExt) (a b : Multiaddr)
      → IsValid info
      → find (has_addr b) (mark_failure now info a).addresses
        ≡ Option.map
            (λ m. if same_addr b a then failed_at now m else m)
            (find (has_addr b) info.addresses)
  unfolding mark_failure
  find-mark_failure now info a b v =
      let failed = record info {
        addresses = modify_first (has_addr a) (failed_at now) info.addresses;
      } in
      let sorted = find-resort now failed b (
        omega (
          arith,
          total-modify_first_same (at_addr b) (has_addr a) (failed_at now) (λ m. refl)
              info.addresses,
          v.distinct b,
        )) in
      elim (Bool-cases (any (has_addr a) info.addresses)) [
        | inl known ↦ elim (Bool-cases (same_addr b a)) [
          | inl same ↦ ground (
            arith,
            known,
            same,
            sorted,
            same_addr-eq b a same,
            find-modify_first_self (has_addr b) (failed_at now) (λ m. refl) info.addresses,
          )
          | inr other ↦ ground (
            arith,
            known,
            other,
            sorted,
            find-modify_first_ne (has_addr b) (has_addr a) (failed_at now) (λ m. refl)
                (λ m at. ground (arith, same_addr-eq a m.address at, same_addr-eq b m.address))
                info.addresses,
          )
        ]
        | inr new ↦ ground (arith, new, same_addr-eq b a, find-none (has_addr a) info.addresses)
      ]

  clear-then-resort :
      (now : ℕ) (info : PeerInfoExt) (a : Multiaddr)
      → total (at_addr a) (resort now (clear_backoff_on_success info a)).addresses ≤ 1
      → find (has_addr a) (resort now (clear_backoff_on_success info a)).addresses
        ≡ Option.map cleared (find (has_addr a) info.addresses)
  unfolding clear_backoff_on_success
  clear-then-resort now info a h =
      find-resort now (clear_backoff_on_success info a) a
        (omega (arith, h, total-resort (at_addr a) now (clear_backoff_on_success info a)))
      ∙ find-modify_first_self (has_addr a) cleared (λ m. refl) info.addresses

  abbrev pub IsCleared : Option AddressMetadata → Type 0
  IsCleared none = Unit
  IsCleared (some m) = (m.err_count ≡ 0) × (m.last_err ≡ none)

  IsCleared-cleared : (o : Option AddressMetadata) → IsCleared (Option.map cleared o)
  IsCleared-cleared none = tt
  IsCleared-cleared (some m) = (refl, refl)

  attach-IsCleared :
      (now : ℕ) (info : PeerInfoExt) (d : ConnectionId) (remote : Multiaddr)
      → total (at_addr remote) (attach now d remote info).addresses ≤ 1
      → IsCleared (find (has_addr remote) (attach now d remote info).addresses)
  unfolding attach
  attach-IsCleared now info d remote h = rw (clear-then-resort now _ remote h) (IsCleared-cleared _)

  -- In a valid entry, a connection that is added leaves no failure recorded at its address.
  pub insert_connection-IsCleared :
      (now : ℕ) (info : PeerInfoExt) (d : ConnectionId) (remote : Multiaddr)
      → IsValid info
      → IsCleared (find (has_addr remote) (insert_connection now d remote info).addresses)
  insert_connection-IsCleared now info d remote v =
      insert_connection_cases
        (λ i.
          total (at_addr remote) i.addresses ≤ 1 → IsCleared (find (has_addr remote) i.addresses))
        d remote now info (v.single d) (λ free. attach-IsCleared now info d remote)
        (λ old e at h.
          let same : remote ≡ old.address = same_addr-eq remote old.address at in
          rw same (
            rw (clear-then-resort now info old.address (rw same at h))
              (IsCleared-cleared (find (has_addr old.address) info.addresses))))
        (λ held gone. attach-IsCleared now (detach d info) d remote)
        ((insert_connection-IsValid now d remote info v).distinct remote)
