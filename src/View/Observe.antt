-- ===== src/View/Observe.antt =====
-- src/view.rs: what the queries of `NetworkView` say of the connections of a peer.
use saved.Base.{
  ◌≤◌, ◌≡◌, refl, true, false, inl, inr, none, some, List, [], ◌∷◌, arith, Option-cases, Bool-cases,
  List-cases, sym, ◌∙◌,
}
use saved.Base.Lists.{any, find, find-holds, total}
use saved.Libp2p.{Libp2p, PeerId, ConnectionId, Multiaddr}
use saved.View.Peer.{AddressMetadata, PeerInfoExt, has_addr, is_active, get_connection_address}
use saved.View.{NetworkView, info_of, is_connected, is_connected_over}
use saved.View.Entry.{entry}
use saved.View.Count.{
  of_connection, of_connection_at, same_addr_refl, same_connection_refl, total-of_connection_at-le,
}
use saved.View.Invariant.{IsValid}
use saved.View.Consistent.{IsConsistent, entry-IsValid}
use saved.View.Locate.{locate-count, locate_of_count, of_connection_at-distinct}
use saved.View.Spec.{connectivity}

module _ ⦃L : Libp2p⦄ where
  -- A connection under an active address.
  active_connection :
      (m : AddressMetadata) → is_active m ≡ true → (c : ConnectionId) × (1 ≤ of_connection c m)
  unfolding total
  active_connection m h = elim (List-cases m.active_connections) [
    | inl e ↦ absurd (ground (arith, e, h))
    | inr (c, cs, e) ↦ (c, ground (arith, e, same_connection_refl c))
  ]

  active_of_count :
      (c : ConnectionId) (m : AddressMetadata) → 1 ≤ of_connection c m → is_active m ≡ true
  unfolding total
  active_of_count c m h = elim (List-cases m.active_connections) [
    | inl e ↦ absurd (ground (arith, e, h))
    | inr (d, ds, e) ↦ ground (arith, e)
  ]

  any_active :
      (ms : List AddressMetadata)
      → any is_active ms ≡ true
      → (c : ConnectionId) × (a : Multiaddr) × (1 ≤ total (of_connection_at c a) ms)
  unfolding any total
  any_active [] h = cc
  any_active (m ∷ ms) h = elim (Bool-cases (is_active m)) [
    | inl e ↦
        let (c, k) = active_connection m e in
        (c, m.address, ground (arith, k, same_addr_refl m.address))
    | inr e ↦ let (c, a, k) = any_active ms (ground (arith, e, h)) in (c, a, ground (arith, k))
  ]

  any_active_of_count :
      (c : ConnectionId) (a : Multiaddr) (ms : List AddressMetadata)
      → 1 ≤ total (of_connection_at c a) ms
      → any is_active ms ≡ true
  unfolding any total
  any_active_of_count c a [] h = ground arith
  any_active_of_count c a (m ∷ ms) h =
      ground (arith, active_of_count c m, any_active_of_count c a ms)

  -- In a valid entry, a connection that is counted under an address has that address, and the
  -- other way round.
  located :
      (info : PeerInfoExt) (c : ConnectionId) (a : Multiaddr)
      → IsValid info
      → 1 ≤ total (of_connection_at c a) info.addresses
      → get_connection_address info c ≡ some a
  located info c a v h =
      locate_of_count info c a v
        (ground (arith, h, v.single c, total-of_connection_at-le c a info.addresses))

  counted :
      (info : PeerInfoExt) (c : ConnectionId) (a : Multiaddr)
      → IsValid info
      → get_connection_address info c ≡ some a
      → 1 ≤ total (of_connection_at c a) info.addresses
  counted info c a v h = ground (arith, h, locate-count info c a v, same_addr_refl a)

  is_connected-entry :
      (view : NetworkView) (p : PeerId)
      → is_connected view p ≡ any is_active (entry view p).addresses
  unfolding is_connected any
  is_connected-entry view p = elim (Option-cases (info_of view p)) [
    | inl e ↦ rw (e, is_connected) refl
    | inr (info, e) ↦ rw (e, is_connected) refl
  ]

  -- In a consistent view, `is_connected` is true of a peer exactly if some connection of the
  -- peer has an address.
  pub is_connected-at :
      (view : NetworkView) (p : PeerId)
      → IsConsistent view
      → (is_connected view p ≡ true
          → (c : ConnectionId) × (a : Multiaddr) × ((connectivity view).at p c ≡ some a))
        × ((c : ConnectionId) (a : Multiaddr)
            → (connectivity view).at p c ≡ some a
            → is_connected view p ≡ true)
  is_connected-at view p v =
      let w = entry-IsValid view p v in
      (
        λ h.
            let (c, a, k) =
              any_active (entry view p).addresses (sym (is_connected-entry view p) ∙ h) in
            (c, a, located (entry view p) c a w k),
        λ c a h.
            is_connected-entry view p
            ∙ any_active_of_count c a (entry view p).addresses (counted (entry view p) c a w h),
      )

  over-entry :
      (view : NetworkView) (p : PeerId) (a : Multiaddr)
      → is_connected_over view p a
        ≡ elim (find (has_addr a) (entry view p).addresses) [ none ↦ false | some m ↦ is_active m ]
  unfolding is_connected_over find
  over-entry view p a = elim (Option-cases (info_of view p)) [
    | inl e ↦ rw (e, is_connected_over) refl
    | inr (info, e) ↦ rw (e, is_connected_over) refl
  ]

  over_counted :
      (info : PeerInfoExt) (a : Multiaddr) (m : AddressMetadata)
      → IsValid info
      → find (has_addr a) info.addresses ≡ some m
      → is_active m ≡ true
      → (c : ConnectionId) × (get_connection_address info c ≡ some a)
  over_counted info a m v e h =
      let (c, k) = active_connection m h in
      (
        c,
        located info c a v (
            ground (
              arith,
              e,
              k,
              find-holds (has_addr a) info.addresses m e,
              of_connection_at-distinct c a info.addresses (v.distinct a),
            )),
      )

  over_of_counted :
      (info : PeerInfoExt) (a : Multiaddr) (c : ConnectionId)
      → IsValid info
      → get_connection_address info c ≡ some a
      → elim (find (has_addr a) info.addresses) [ none ↦ false | some m ↦ is_active m ] ≡ true
  over_of_counted info a c v h = elim (Option-cases (find (has_addr a) info.addresses)) [
    | inl e ↦ absurd (
        ground (
          arith,
          e,
          counted info c a v h,
          of_connection_at-distinct c a info.addresses (v.distinct a),
        ))
    | inr (m, e) ↦ rw e (
        active_of_count c m (
          ground (
            arith,
            e,
            counted info c a v h,
            of_connection_at-distinct c a info.addresses (v.distinct a),
          )))
  ]

  over-at :
      (view : NetworkView) (p : PeerId) (a : Multiaddr)
      → IsConsistent view
      → is_connected_over view p a ≡ true
      → (c : ConnectionId) × ((connectivity view).at p c ≡ some a)
  over-at view p a v h = elim (Option-cases (find (has_addr a) (entry view p).addresses)) [
    | inl e ↦ absurd (ground (arith, h, e, over-entry view p a))
    | inr (m, e) ↦
        over_counted (entry view p) a m (entry-IsValid view p v) e
          (ground (arith, h, e, over-entry view p a))
  ]

  -- In a consistent view, `is_connected_over` is true of a peer and an address exactly if some
  -- connection of the peer has this address.
  pub is_connected_over-at :
      (view : NetworkView) (p : PeerId) (a : Multiaddr)
      → IsConsistent view
      → (is_connected_over view p a ≡ true
          → (c : ConnectionId) × ((connectivity view).at p c ≡ some a))
        × ((c : ConnectionId)
            → (connectivity view).at p c ≡ some a
            → is_connected_over view p a ≡ true)
  is_connected_over-at view p a v = (
    over-at view p a v,
    λ c h. over-entry view p a ∙ over_of_counted (entry view p) a c (entry-IsValid view p v) h,
  )
