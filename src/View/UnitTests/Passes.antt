-- ===== src/View/UnitTests/Passes.antt =====
-- src/view.rs: the unit tests pass.
use saved.Base.{
  ◌≡◌, ◌≢◌, refl, sym, ap, ◌∙◌, true, false, inl, inr, none, some, List, [], ◌∷◌, ◌++◌, arith,
  Bool-cases, Option-cases, ◌||◌, if◌then◌else◌,
}
use saved.Libp2p.{
  Libp2p, Protocol, PeerId, ConnectionId, Multiaddr, dialer, same_connection, same_addr,
  same_peer_refl,
}
use saved.View.{
  NetworkView, remote_addr, empty_view, info_of, add_address, insert_address, remove_address,
  prune_empty, drop_address, is_connected_over,
}
use saved.View.Peer.{get_connection_address, resort, new_metadata}
use saved.Base.Lists.{find, any, all, remove_first, length, length-append}
use saved.Base.Assoc.{get, upsert, modify, remove}
use saved.Base.Sort.{sort}
use saved.View.Count.{same_connection_refl, same_addr_refl, same_addr-eq}
use saved.View.Consistent.{
  Call, connects, disconnects, run, step, run-IsConsistent, empty_view-IsConsistent,
}
use saved.View.Spec.{Connectivity, connectivity, spec_step, spec_run, learn, run_refines}
use saved.View.Observe.{is_connected_over-at}
use saved.View.UnitTests.{
  contains_key, multiple_connections_same_addr, address_change_on_same_connection,
  remove_connection_updates_flags, add_and_remove_address, add_address_keeps_p2p,
}

module _ ⦃L : Libp2p⦄ where
  abbrev pub spec_of : List Call → Connectivity
  spec_of calls = spec_run (connectivity empty_view) calls

  pub connected_after :
      (calls : List Call) (p : PeerId) (a : Multiaddr) (c : ConnectionId)
      → (spec_of calls).at p c ≡ some a
      → is_connected_over (run empty_view calls) p a ≡ true
  connected_after calls p a c h =
      (is_connected_over-at (run empty_view calls) p a
          (run-IsConsistent empty_view calls empty_view-IsConsistent)).1
        c (ap (λ s. s.at p c) (run_refines empty_view calls empty_view-IsConsistent) ∙ h)

  unconnected_after :
      (calls : List Call) (p : PeerId) (a : Multiaddr)
      → ((c : ConnectionId) → (spec_of calls).at p c ≢ some a)
      → is_connected_over (run empty_view calls) p a ≡ false
  unconnected_after calls p a h = elim (Bool-cases (is_connected_over (run empty_view calls) p a)) [
    | inr e ↦ e
    | inl e ↦
        let (c, k) =
          (is_connected_over-at (run empty_view calls) p a
              (run-IsConsistent empty_view calls empty_view-IsConsistent)).0
            e in
        absurd (
          h c (sym (ap (λ s. s.at p c) (run_refines empty_view calls empty_view-IsConsistent)) ∙ k))
  ]

  moves :
      (peer : PeerId) (a b : Multiaddr) (c d : ConnectionId)
      → (spec_of (connects 0 peer c (dialer a) ∷ connects 1 peer c (dialer b) ∷ [])).at peer d
        ≡ (if same_connection d c then some b else none)
  unfolding spec_run spec_step get_connection_address find get remote_addr
  moves peer a b c d = ground (arith, same_peer_refl peer)

  pub opens :
      (peer : PeerId) (a : Multiaddr) (c d : ConnectionId)
      → (spec_of (connects 0 peer c (dialer a) ∷ [])).at peer d
        ≡ (if same_connection d c then some a else none)
  unfolding spec_run spec_step get_connection_address find get remote_addr
  opens peer a c d = ground (arith, same_peer_refl peer)

  pub address_change_on_same_connection_lem :
      (peer : PeerId) (a b : Multiaddr) (c : ConnectionId)
      → same_addr a b ≡ false
      → address_change_on_same_connection peer a b c ≡ true
  unfolding address_change_on_same_connection run step
  address_change_on_same_connection_lem peer a b c n =
      let before : List Call = connects 0 peer c (dialer a) ∷ [] in
      let after : List Call = connects 0 peer c (dialer a) ∷ connects 1 peer c (dialer b) ∷ [] in
      let at_a : (spec_of before).at peer c ≡ some a =
        ground (arith, opens peer a c c, same_connection_refl c) in
      let at_b : (spec_of after).at peer c ≡ some b =
        ground (arith, moves peer a b c c, same_connection_refl c) in
      let not_b : (d : ConnectionId) → (spec_of before).at peer d ≢ some b =
        λ d e. ground (arith, opens peer a c d, e, n, same_addr_refl a) in
      let not_a : (d : ConnectionId) → (spec_of after).at peer d ≢ some a =
        λ d e. ground (arith, moves peer a b c d, e, n, same_addr_refl a) in
      ground (
        arith,
        connected_after before peer a c at_a,
        unconnected_after before peer b not_b,
        unconnected_after after peer a not_a,
        connected_after after peer b c at_b,
      )

  -- After both connections over one address, and after the ends of one and of both.
  both_at :
      (peer : PeerId) (a : Multiaddr) (c d e : ConnectionId)
      → (spec_of (connects 0 peer c (dialer a) ∷ connects 1 peer d (dialer a) ∷ [])).at peer e
        ≡ (if same_connection e c || same_connection e d then some a else none)
  unfolding spec_run spec_step get_connection_address find get remote_addr
  both_at peer a c d e = ground (arith, same_peer_refl peer)

  abbrev pub ends : PeerId → Multiaddr → ConnectionId → ConnectionId → List Call → List Call
  ends peer a c d later =
      connects 0 peer c (dialer a) ∷ connects 1 peer d (dialer a) ∷ disconnects 2 peer c ∷ later

  second_at :
      (peer : PeerId) (a : Multiaddr) (c d : ConnectionId)
      → same_connection d c ≡ false
      → (spec_of (ends peer a c d [])).at peer d ≡ some a
  unfolding spec_run spec_step get_connection_address find get remote_addr
  second_at peer a c d n = ground (arith, same_peer_refl peer, same_connection_refl d)

  neither_at :
      (peer : PeerId) (a : Multiaddr) (c d e : ConnectionId)
      → (spec_of (ends peer a c d (disconnects 3 peer d ∷ []))).at peer e ≡ none
  unfolding spec_run spec_step get_connection_address find get remote_addr
  neither_at peer a c d e = ground (arith, same_peer_refl peer)

  pub multiple_connections_same_addr_lem :
      (peer : PeerId) (a : Multiaddr) (c d : ConnectionId)
      → same_connection d c ≡ false
      → multiple_connections_same_addr peer a c d ≡ true
  unfolding multiple_connections_same_addr run step
  multiple_connections_same_addr_lem peer a c d n = ground (
    arith,
    connected_after (connects 0 peer c (dialer a) ∷ connects 1 peer d (dialer a) ∷ []) peer a c
        (ground (arith, both_at peer a c d c, same_connection_refl c)),
    connected_after (ends peer a c d []) peer a d (second_at peer a c d n),
    unconnected_after (ends peer a c d (disconnects 3 peer d ∷ [])) peer a
        (λ e h. ground (arith, neither_at peer a c d e, h)),
  )

  -- A peer with a known address has an entry.
  contains_key_of_knows :
      (view : NetworkView) (peer : PeerId) (a : Multiaddr)
      → (connectivity view).knows peer a ≡ true
      → contains_key view peer ≡ true
  unfolding any
  contains_key_of_knows view peer a h = elim (Option-cases (info_of view peer)) [
    | inl e ↦ absurd (ground (arith, e, h))
    | inr (info, e) ↦ rw (e, contains_key) refl
  ]

  closed_at :
      (peer : PeerId) (a : Multiaddr) (c d : ConnectionId)
      → (spec_of (connects 0 peer c (dialer a) ∷ disconnects 1 peer c ∷ [])).at peer d ≡ none
  unfolding spec_run spec_step get_connection_address find get remote_addr
  closed_at peer a c d = ground (arith, same_peer_refl peer)

  closed_knows :
      (peer : PeerId) (a : Multiaddr) (c : ConnectionId)
      → (spec_of (connects 0 peer c (dialer a) ∷ disconnects 1 peer c ∷ [])).knows peer a ≡ true
  unfolding spec_run spec_step get any remote_addr learn
  closed_knows peer a c = ground (arith, same_peer_refl peer, same_addr_refl a)

  pub remove_connection_updates_flags_lem :
      (peer : PeerId) (a : Multiaddr) (c : ConnectionId)
      → remove_connection_updates_flags peer a c ≡ true
  unfolding remove_connection_updates_flags run step
  remove_connection_updates_flags_lem peer a c =
      let calls : List Call = connects 0 peer c (dialer a) ∷ disconnects 1 peer c ∷ [] in
      ground (
        arith,
        connected_after (connects 0 peer c (dialer a) ∷ []) peer a c
            (ground (arith, opens peer a c c, same_connection_refl c)),
        unconnected_after calls peer a (λ d h. ground (arith, closed_at peer a c d, h)),
        contains_key_of_knows (run empty_view calls) peer a (
            ap (λ s. s.knows peer a) (run_refines empty_view calls empty_view-IsConsistent)
            ∙ closed_knows peer a c),
      )

  pub add_and_remove_address_lem :
      (peer : PeerId) (a : Multiaddr) → add_and_remove_address peer a ≡ true
  unfolding add_and_remove_address add_address insert_address remove_address prune_empty
      drop_address upsert modify remove get any all find remove_first resort sort new_metadata
  add_and_remove_address_lem peer a = ground (arith, same_addr_refl a)

  with_protocol_ne : (a : Multiaddr) (p : Protocol PeerId) → L.with_protocol a p ≢ a
  with_protocol_ne a p h =
      let longer : length (L.iter a ++ p ∷ []) ≡ length (L.iter a) =
        ap length (sym (L.iter-with_protocol a p)) ∙ ap (λ b. length (L.iter b)) h in
      omega (arith, longer, length-append (L.iter a) (p ∷ []))

  pub add_address_keeps_p2p_lem :
      (peer : PeerId) (base : Multiaddr) → add_address_keeps_p2p peer base ≡ true
  unfolding add_address_keeps_p2p add_address insert_address upsert get any resort sort new_metadata
  add_address_keeps_p2p_lem peer base =
      let with_p2p = L.with_protocol base (Protocol.p2p peer) in
      ground (
        arith,
        same_addr_refl with_p2p,
        same_addr-eq base with_p2p,
        same_addr-eq with_p2p base,
        with_protocol_ne base (Protocol.p2p peer),
      )
