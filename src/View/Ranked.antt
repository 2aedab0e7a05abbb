-- ===== src/View/Ranked.antt =====
-- src/view.rs: the order of a peer's addresses after `resort`, without ranks and keys.
use mathlib.Core.List.{Perm}
use mathlib.Core.List.Perm
use saved.Base.{ℕ, ◌≡◌, refl, Bool, true, false, inl, inr, List, [], ◌∷◌, ltb, arith, Bool-cases}
use saved.Base.Lists.{All}
use saved.Base.Sort.{IsBelow, IsSorted, insert, sort}
use saved.Libp2p.{Libp2p}
use saved.View.Classify.{
  Transport, quic, tcp, other, relay, NetScope, private_lan, link_local, public, scope_rank,
  transport_rank,
}
use saved.View.Peer.{AddressMetadata, PeerInfoExt, is_in_cooldown, key_le, resort}
use saved.View.Order.{resort-IsSorted}

-- The first scope goes before the second.
abbrev pub closer : NetScope → NetScope → Bool
closer private_lan link_local = true
closer private_lan public = true
closer link_local public = true
closer _ _ = false

-- The first transport goes before the second.
abbrev pub faster : Transport → Transport → Bool
faster quic tcp = true
faster quic other = true
faster quic relay = true
faster tcp other = true
faster tcp relay = true
faster other relay = true
faster _ _ = false

closer-ltb : (a b : NetScope) → closer a b ≡ ltb (scope_rank a) (scope_rank b)
unfolding scope_rank
closer-ltb private_lan private_lan = refl
closer-ltb private_lan link_local = refl
closer-ltb private_lan public = refl
closer-ltb link_local private_lan = refl
closer-ltb link_local link_local = refl
closer-ltb link_local public = refl
closer-ltb public private_lan = refl
closer-ltb public link_local = refl
closer-ltb public public = refl

faster-ltb : (a b : Transport) → faster a b ≡ ltb (transport_rank a) (transport_rank b)
unfolding transport_rank
faster-ltb quic quic = refl
faster-ltb quic tcp = refl
faster-ltb quic other = refl
faster-ltb quic relay = refl
faster-ltb tcp quic = refl
faster-ltb tcp tcp = refl
faster-ltb tcp other = refl
faster-ltb tcp relay = refl
faster-ltb other quic = refl
faster-ltb other tcp = refl
faster-ltb other other = refl
faster-ltb other relay = refl
faster-ltb relay quic = refl
faster-ltb relay tcp = refl
faster-ltb relay other = refl
faster-ltb relay relay = refl

module _ ⦃L : Libp2p⦄ where
  -- The entry `m` may stand before `n`.
  pub record InOrder (now : ℕ) (m n : AddressMetadata) : Type 0 where
    pub cooldown : is_in_cooldown now m ≡ true → is_in_cooldown now n ≡ true
    pub scope : is_in_cooldown now m ≡ is_in_cooldown now n → closer n.scope m.scope ≡ false
    pub transport :
        is_in_cooldown now m ≡ is_in_cooldown now n
        → m.scope ≡ n.scope
        → faster n.transport m.transport ≡ false
    pub address :
        is_in_cooldown now m ≡ is_in_cooldown now n
        → m.scope ≡ n.scope
        → m.transport ≡ n.transport
        → L.addr_le m.address n.address ≡ true

  -- Each entry may stand before all later ones.
  abbrev pub IsRanked : ℕ → List AddressMetadata → Type 0
  IsRanked now [] = Unit
  IsRanked now (m ∷ ms) = All (InOrder now m) ms × IsRanked now ms

  key_le-InOrder : (now : ℕ) (m n : AddressMetadata) → key_le now m n ≡ true → InOrder now m n
  unfolding key_le
  key_le-InOrder now m n h = record {
    cooldown = λ a. ground arith;
    scope = λ a. ground (arith, closer-ltb n.scope m.scope);
    transport = λ a b. ground (arith, faster-ltb n.transport m.transport);
    address = λ a b c. ground arith;
  }

  IsBelow-InOrder :
      (now : ℕ) (m : AddressMetadata) (ms : List AddressMetadata)
      → IsBelow (key_le now) m ms
      → All (InOrder now m) ms
  IsBelow-InOrder now m [] h = tt
  IsBelow-InOrder now m (n ∷ ms) h = (key_le-InOrder now m n h.0, IsBelow-InOrder now m ms h.1)

  IsSorted-IsRanked :
      (now : ℕ) (ms : List AddressMetadata) → IsSorted (key_le now) ms → IsRanked now ms
  IsSorted-IsRanked now [] h = tt
  IsSorted-IsRanked now (m ∷ ms) h = (IsBelow-InOrder now m ms h.0, IsSorted-IsRanked now ms h.1)

module _ {ℓ} {A : Type ℓ} (le : A → A → Bool) where
  insert-perm : (x : A) (xs : List A) → Perm (insert le x xs) (x ∷ xs)
  unfolding insert
  insert-perm x [] = Perm.rfl
  insert-perm x (y ∷ ys) = elim (Bool-cases (le x y)) [
    | inl h ↦ rw h Perm.rfl
    | inr h ↦ rw h (Perm.trans (Perm.cons y (insert-perm x ys)) (Perm.swap x y ys))
  ]

  sort-perm : (xs : List A) → Perm (sort le xs) xs
  unfolding sort
  sort-perm [] = Perm.rfl
  sort-perm (x ∷ xs) = Perm.trans (insert-perm x (sort le xs)) (Perm.cons x (sort-perm xs))

module _ ⦃L : Libp2p⦄ where
  -- After `resort` the entries are a permutation of those before, in which no entry in cooldown
  -- stands before one that is not; of two that are alike in this, private scope goes before
  -- link-local before public; of two with the same scope, QUIC goes before TCP before other
  -- before relayed transport; and of two with the same transport, the smaller address.
  pub resort-IsRanked :
      (now : ℕ) (info : PeerInfoExt)
      → IsRanked now (resort now info).addresses × Perm (resort now info).addresses info.addresses
  unfolding resort
  resort-IsRanked now info =
      (IsSorted-IsRanked now _ (resort-IsSorted now info), sort-perm (key_le now) info.addresses)
