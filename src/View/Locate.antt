-- ===== src/View/Locate.antt =====
-- src/view.rs: the entry of a peer read as a map from connections to addresses, by counts.
use mathlib.Core.Option.{get_or}
use saved.Base.{
  ◌∙◌, ℕ, ◌≤◌, ◌≡◌, refl, inl, inr, none, some, List, [], ◌∷◌, ◌++◌, arith, if◌then◌else◌,
  Bool-cases, Option-cases,
}
use saved.Base.Lists.{
  find, total, any_of_find-none, find-holds, find-none, remove_first, total-remove_first, weight?,
  total-append, modify_first, total-modify_first_same,
}
use saved.Libp2p.{Libp2p, ConnectionId, Multiaddr, same_connection, same_addr}
use saved.View.Peer.{
  AddressMetadata, PeerInfoExt, has_addr, holds, resort, get_connection_address, new_metadata,
  mark_failure, failed_at,
}
use saved.View.{insert_address, drop_address, detach, insert_connection}
use saved.View.Count.{
  at_addr, of_connection, of_connection_at, any-holds, of_connection_at-find, same_addr-eq,
  same_addr_refl, total-resort, detach_ne, detach_self, detach_absent, of_connection-swap_remove_ne,
  same_connection-eq, total-of_connection_at-le,
}
use saved.View.Insert.{insert_connection-of_connection_at}
use saved.View.Invariant.{
  mark_failure-IsValid, resort-IsValid, IsValid, insert_connection-IsValid, detach-IsValid,
  insert_address-IsValid, drop_address-IsValid,
}

module _ ⦃L : Libp2p⦄ where
  -- The address of a connection, where it is counted.
  pub locate-count :
      (info : PeerInfoExt) (c : ConnectionId) (a : Multiaddr)
      → IsValid info
      → total (of_connection_at c a) info.addresses ≡ elim (get_connection_address info c) [
        | none ↦ 0
        | some b ↦ if same_addr a b then 1 else 0
      ]
  unfolding get_connection_address
  locate-count info c a v = elim (Option-cases (find (holds c) info.addresses)) [
    | inl e ↦ ground (
      arith,
      e,
      any_of_find-none (holds c) info.addresses e,
      any-holds c info.addresses,
      total-of_connection_at-le c a info.addresses,
    )
    | inr (m, e) ↦ ground (arith, e, of_connection_at-find c a info.addresses m (v.single c) e)
  ]

  -- Entries with the same counts give a connection the same address.
  locate_ext :
      (i j : PeerInfoExt) (c d : ConnectionId)
      → IsValid i
      → IsValid j
      → ((a : Multiaddr)
          → total (of_connection_at c a) i.addresses ≡ total (of_connection_at d a) j.addresses)
      → get_connection_address i c ≡ get_connection_address j d
  locate_ext i j c d v w h = elim (Option-cases (get_connection_address i c)) [
    | inl e ↦ elim (Option-cases (get_connection_address j d)) [
      | inl f ↦ rw (e, f)
      | inr (b, f) ↦
          absurd (
            ground (arith, h b, locate-count i c b v, locate-count j d b w, e, f, same_addr_refl b))
    ]
    | inr (a, e) ↦ ground (
      arith,
      e,
      h a,
      locate-count i c a v,
      locate-count j d a w,
      same_addr_refl a,
      same_addr-eq a (get_or (get_connection_address j d) a),
    )
  ]

  -- A connection that is counted under an address has that address.
  pub locate_of_count :
      (info : PeerInfoExt) (c : ConnectionId) (a : Multiaddr)
      → IsValid info
      → total (of_connection_at c a) info.addresses ≡ 1
      → get_connection_address info c ≡ some a
  locate_of_count info c a v h =
      ground
        (arith, locate-count info c a v, same_addr-eq a (get_or (get_connection_address info c) a))

  -- A connection that is counted nowhere has no address.
  locate_absent :
      (info : PeerInfoExt) (c : ConnectionId)
      → total (of_connection c) info.addresses ≡ 0
      → get_connection_address info c ≡ none
  unfolding get_connection_address
  locate_absent info c h =
      ground (arith, any-holds c info.addresses, find-none (holds c) info.addresses)

  -- So has one that is counted under no address.
  locate_none :
      (info : PeerInfoExt) (c : ConnectionId)
      → IsValid info
      → ((a : Multiaddr) → total (of_connection_at c a) info.addresses ≡ 0)
      → get_connection_address info c ≡ none
  locate_none info c v h = elim (Option-cases (get_connection_address info c)) [
    | inl e ↦ e
    | inr (b, e) ↦ absurd (ground (arith, e, h b, locate-count info c b v, same_addr_refl b))
  ]

  of_connection_at_absent :
      (c : ConnectionId) (a : Multiaddr) (ms : List AddressMetadata)
      → total (at_addr a) ms ≡ 0
      → total (of_connection_at c a) ms ≡ 0
  unfolding total
  of_connection_at_absent c a [] h = refl
  of_connection_at_absent c a (m ∷ ms) h = ground (arith, of_connection_at_absent c a ms)

  -- Of distinct addresses, the connections under one are those of its entry.
  pub of_connection_at-distinct :
      (c : ConnectionId) (a : Multiaddr) (ms : List AddressMetadata)
      → total (at_addr a) ms ≤ 1
      → total (of_connection_at c a) ms ≡ weight? (of_connection_at c a) (find (has_addr a) ms)
  unfolding find total
  of_connection_at-distinct c a [] h = refl
  of_connection_at-distinct c a (m ∷ ms) h =
      ground (arith, of_connection_at-distinct c a ms, of_connection_at_absent c a ms)

  drop_address-count :
      (info : PeerInfoExt) (c : ConnectionId) (a addr : Multiaddr) (now : ℕ)
      → total (at_addr addr) info.addresses ≤ 1
      → total (of_connection_at c a) (drop_address now addr info).addresses
        ≡ (if same_addr a addr then 0 else total (of_connection_at c a) info.addresses)
  unfolding drop_address
  drop_address-count info c a addr now h =
      let rest = record info { addresses = remove_first (has_addr addr) info.addresses } in
      let total_after = total-resort (of_connection_at c a) now rest in
      let removed = total-remove_first (of_connection_at c a) (has_addr addr) info.addresses in
      elim (Option-cases (find (has_addr addr) info.addresses)) [
        | inl e ↦ ground (
          arith,
          e,
          total_after,
          removed,
          same_addr-eq a addr,
          of_connection_at-distinct c addr info.addresses h,
        )
        | inr (m, e) ↦ ground (
          arith,
          e,
          total_after,
          removed,
          same_addr-eq a addr,
          same_addr-eq addr m.address,
          same_addr-eq a m.address,
          find-holds (has_addr addr) info.addresses m e,
          of_connection_at-distinct c addr info.addresses h,
        )
      ]

  -- `add_connection` gives the connection the remote address, and leaves the others theirs.
  pub locate-insert_connection :
      (info : PeerInfoExt) (c d : ConnectionId) (remote : Multiaddr) (now : ℕ)
      → IsValid info
      → get_connection_address (insert_connection now d remote info) c
        ≡ (if same_connection c d then some remote else get_connection_address info c)
  locate-insert_connection info c d remote now v =
      let after = insert_connection-IsValid now d remote info v in
      let counts =
        λ (a : Multiaddr). insert_connection-of_connection_at c d a remote now info (v.single d) in
      elim (Bool-cases (same_connection c d)) [
        | inl e ↦ rw e (
            locate_of_count (insert_connection now d remote info) c remote after
              (ground (arith, counts remote, e, same_addr_refl remote)))
        | inr e ↦ rw e (
            locate_ext (insert_connection now d remote info) info c c after v
              (λ a. ground (arith, counts a, e)))
      ]

  -- A connection that leaves has no address, and the others keep theirs.
  pub locate-detach :
      (info : PeerInfoExt) (c d : ConnectionId) (now : ℕ)
      → IsValid info
      → get_connection_address (resort now (detach d info)) c
        ≡ (if same_connection c d then none else get_connection_address info c)
  locate-detach info c d now v =
      let after = resort-IsValid now _ (detach-IsValid d info v) in
      let left = resort now (detach d info) in
      let counts = λ (a : Multiaddr). total-resort (of_connection_at c a) now (detach d info) in
      elim (Bool-cases (same_connection c d)) [
        | inl e ↦ rw e (
            locate_absent left c (
              ground (
                arith,
                e,
                same_connection-eq c d,
                total-resort (of_connection c) now (detach d info),
                any-holds d info.addresses,
                any-holds d (detach d info).addresses,
                detach_absent d info,
                detach_self d info,
                v.single c,
              )))
        | inr e ↦ rw e (
            locate_ext left info c c after v (λ a. ground (
              arith,
              counts a,
              detach_ne c d (of_connection_at c a) info
                  (λ m. ground (arith, of_connection-swap_remove_ne c d m.active_connections e)),
            )))
      ]

  -- A new or known address changes no connection.
  pub locate-insert_address :
      (info : PeerInfoExt) (c : ConnectionId) (addr : Multiaddr) (now : ℕ)
      → IsValid info
      → get_connection_address (insert_address now addr info).0 c ≡ get_connection_address info c
  unfolding insert_address new_metadata total
  locate-insert_address info c addr now v =
      locate_ext (insert_address now addr info).0 info c c (insert_address-IsValid now addr info v)
        v
        (λ a.
          let known = record info { addresses = info.addresses ++ new_metadata addr ∷ [] } in
          ground (
            arith,
            total-resort (of_connection_at c a) now info,
            total-resort (of_connection_at c a) now known,
            total-append (of_connection_at c a) info.addresses (new_metadata addr ∷ []),
          ))

  -- An address that leaves takes the connections over it along.
  pub locate-drop_address :
      (info : PeerInfoExt) (c : ConnectionId) (addr : Multiaddr) (now : ℕ)
      → IsValid info
      → get_connection_address (drop_address now addr info) c
        ≡ elim (get_connection_address info c) [
          | none ↦ none
          | some b ↦ if same_addr addr b then none else some b
        ]
  locate-drop_address info c addr now v =
      let after = drop_address-IsValid now addr info v in
      let gone = drop_address now addr info in
      let counts = λ (a : Multiaddr). drop_address-count info c a addr now (v.distinct addr) in
      elim (Option-cases (get_connection_address info c)) [
        | inl e ↦ rw e (
            locate_ext gone info c c after v
              (λ a. ground (arith, e, counts a, locate-count info c a v))
            ∙ e)
        | inr (b, e) ↦ elim (Bool-cases (same_addr addr b)) [
          | inl at ↦
              rw (e, at)
                (locate_none gone c after (λ a. ground (
                  arith,
                  e,
                  at,
                  counts a,
                  locate-count info c a v,
                  same_addr-eq addr b,
                  same_addr-eq a b,
                )))
          | inr away ↦
              rw (e, away)
                (locate_ext gone info c c after v (λ a. ground (
                  arith,
                  e,
                  away,
                  counts a,
                  locate-count info c a v,
                  same_addr-eq a b,
                  same_addr-eq a addr,
                ))
                  ∙ e)
        ]
      ]

  -- A failure changes no connection.
  pub locate-mark_failure :
      (info : PeerInfoExt) (c : ConnectionId) (a : Multiaddr) (now : ℕ)
      → IsValid info
      → get_connection_address (mark_failure now info a) c ≡ get_connection_address info c
  unfolding mark_failure
  locate-mark_failure info c a now v =
      let failed = record info {
        addresses = modify_first (has_addr a) (failed_at now) info.addresses;
      } in
      locate_ext (mark_failure now info a) info c c (mark_failure-IsValid now info a v) v (λ b.
        ground (
          arith,
          total-resort (of_connection_at c b) now failed,
          total-modify_first_same (of_connection_at c b) (has_addr a) (failed_at now) (λ m. refl)
              info.addresses,
        ))
