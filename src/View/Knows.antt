-- ===== src/View/Knows.antt =====
-- src/view.rs: which addresses the entry of a peer knows after each method.
use saved.Base.{ℕ, ◌≡◌, refl, Bool, not, ◌&&◌, ◌||◌, inl, inr, [], ◌∷◌, ◌++◌, arith, Option-cases}
use saved.Base.Lists.{
  any, find, any-tally, any-append, total-remove_first, remove_first, modify_first,
  total-modify_first_same, find-holds, any_of_find-none,
}
use saved.Libp2p.{Libp2p, ConnectionId, Multiaddr, same_addr}
use saved.View.Peer.{PeerInfoExt, has_addr, new_metadata, resort, mark_failure, failed_at}
use saved.View.{insert_address, drop_address, detach, insert_connection}
use saved.View.Count.{at_addr, total-resort, same_addr-eq, detach_ne}
use saved.View.Insert.{insert_connection-at_addr}
use saved.View.Invariant.{IsValid}

module _ ⦃L : Libp2p⦄ where
  abbrev pub knows_addr : PeerInfoExt → Multiaddr → Bool
  knows_addr info a = any (has_addr a) info.addresses

  knows-resort :
      (now : ℕ) (info : PeerInfoExt) (b : Multiaddr)
      → knows_addr (resort now info) b ≡ knows_addr info b
  knows-resort now info b = ground (
    arith,
    any-tally (has_addr b) info.addresses,
    any-tally (has_addr b) (resort now info).addresses,
    total-resort (at_addr b) now info,
  )

  pub knows-insert_address :
      (now : ℕ) (info : PeerInfoExt) (a b : Multiaddr)
      → knows_addr (insert_address now a info).0 b ≡ (knows_addr info b || same_addr b a)
  unfolding insert_address any new_metadata
  knows-insert_address now info a b =
      let known = record info { addresses = info.addresses ++ new_metadata a ∷ [] } in
      ground (
        arith,
        knows-resort now info b,
        knows-resort now known b,
        any-append (has_addr b) info.addresses (new_metadata a ∷ []),
        same_addr-eq b a,
      )

  -- The Boolean of `add_address` says whether the address is new.
  pub insert_address-is_new :
      (now : ℕ) (info : PeerInfoExt) (a : Multiaddr)
      → (insert_address now a info).1 ≡ not (knows_addr info a)
  unfolding insert_address
  insert_address-is_new now info a = ground arith

  pub knows-drop_address :
      (now : ℕ) (info : PeerInfoExt) (a b : Multiaddr)
      → IsValid info
      → knows_addr (drop_address now a info) b ≡ (knows_addr info b && not (same_addr b a))
  unfolding drop_address
  knows-drop_address now info a b v =
      let rest = record info { addresses = remove_first (has_addr a) info.addresses } in
      elim (Option-cases (find (has_addr a) info.addresses)) [
        | inl e ↦ ground (
          arith,
          e,
          knows-resort now rest b,
          any-tally (has_addr b) info.addresses,
          any-tally (has_addr b) rest.addresses,
          any_of_find-none (has_addr a) info.addresses e,
          total-remove_first (at_addr b) (has_addr a) info.addresses,
          same_addr-eq b a,
        )
        | inr (m, e) ↦ ground (
          arith,
          e,
          knows-resort now rest b,
          any-tally (has_addr b) info.addresses,
          any-tally (has_addr b) rest.addresses,
          total-remove_first (at_addr b) (has_addr a) info.addresses,
          find-holds (has_addr a) info.addresses m e,
          same_addr-eq a m.address,
          same_addr-eq b m.address,
          same_addr-eq b a,
          v.distinct b,
        )
      ]

  pub knows-insert_connection :
      (now : ℕ) (info : PeerInfoExt) (d : ConnectionId) (remote b : Multiaddr)
      → IsValid info
      → knows_addr (insert_connection now d remote info) b
        ≡ (knows_addr info b || same_addr b remote)
  knows-insert_connection now info d remote b v = ground (
    arith,
    insert_connection-at_addr b remote d now info (v.single d),
    any-tally (has_addr b) info.addresses,
    any-tally (has_addr b) (insert_connection now d remote info).addresses,
    same_addr-eq b remote,
  )

  pub knows-detach :
      (now : ℕ) (info : PeerInfoExt) (d : ConnectionId) (b : Multiaddr)
      → knows_addr (resort now (detach d info)) b ≡ knows_addr info b
  knows-detach now info d b = ground (
    arith,
    knows-resort now (detach d info) b,
    any-tally (has_addr b) info.addresses,
    any-tally (has_addr b) (detach d info).addresses,
    detach_ne d d (at_addr b) info (λ m. refl),
  )

  pub knows-mark_failure :
      (now : ℕ) (info : PeerInfoExt) (a b : Multiaddr)
      → knows_addr (mark_failure now info a) b ≡ knows_addr info b
  unfolding mark_failure
  knows-mark_failure now info a b =
      let failed = record info {
        addresses = modify_first (has_addr a) (failed_at now) info.addresses;
      } in
      ground (
        arith,
        knows-resort now failed b,
        any-tally (has_addr b) info.addresses,
        any-tally (has_addr b) failed.addresses,
        total-modify_first_same (at_addr b) (has_addr a) (failed_at now) (λ m. refl) info.addresses,
      )
