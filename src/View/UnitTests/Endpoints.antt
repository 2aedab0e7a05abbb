-- ===== src/View/UnitTests/Endpoints.antt =====
-- src/view.rs: the unit test of the two kinds of endpoint passes.
use saved.Base.{
  ℕ, ◌+◌, ◌≡◌, refl, sym, ap, ◌∙◌, true, false, inl, inr, none, some, List, [], ◌∷◌, arith,
  Option-cases, if◌then◌else◌,
}
use saved.Base.Lists.{find, any, total, length, length-append, any_of_find-none}
use saved.Base.Assoc.{get, upsert, value_or}
use saved.Libp2p.{
  Libp2p, PeerId, ConnectionId, Multiaddr, dialer, listener, same_connection, same_peer_refl,
}
use saved.View.{remote_addr, empty_view, info_of, add_connection, insert_connection, attach}
use saved.View.Peer.{
  PeerInfoExt, AddressMetadata, holds, get_connection_address, default_info, new_metadata,
}
use saved.View.Attach.{total-attach}
use saved.View.Count.{same_connection_refl, same_addr_refl}
use saved.View.Consistent.{Call, connects, run, step, empty_view-IsConsistent}
use saved.View.Spec.{spec_step, spec_run, run_refines}
use saved.View.UnitTests.{dialer_and_listener}
use saved.View.UnitTests.Passes.{spec_of, connected_after, opens}

module _ ⦃L : Libp2p⦄ where
  abbrev open_count : AddressMetadata → ℕ
  open_count m = length m.active_connections

  attach-open_count :
      (now : ℕ) (d : ConnectionId) (remote : Multiaddr) (info : PeerInfoExt)
      → any (holds d) info.addresses ≡ false
      → total open_count (attach now d remote info).addresses ≡ total open_count info.addresses + 1
  unfolding new_metadata
  attach-open_count now d remote info free =
      total-attach open_count 1 now d remote info refl (λ m. refl)
        (λ m at off. ground (arith, off, length-append m.active_connections (d ∷ []))) free

  -- A connection without an address is not recorded.
  unrecorded :
      (info : PeerInfoExt) (d : ConnectionId)
      → get_connection_address info d ≡ none
      → find (holds d) info.addresses ≡ none
  unfolding get_connection_address
  unrecorded info d h = elim (Option-cases (find (holds d) info.addresses)) [
    | inl e ↦ e
    | inr (m, e) ↦ ground (arith, e, h)
  ]

  inserted-open_count :
      (now : ℕ) (d : ConnectionId) (remote : Multiaddr) (info : PeerInfoExt)
      → get_connection_address info d ≡ none
      → total open_count (insert_connection now d remote info).addresses
        ≡ total open_count info.addresses + 1
  unfolding insert_connection
  inserted-open_count now d remote info h =
      let e = unrecorded info d h in
      ground (
        arith,
        e,
        attach-open_count now d remote info (any_of_find-none (holds d) info.addresses e),
      )

  -- The two connections.
  abbrev calls :
      PeerId → Multiaddr → Multiaddr → Multiaddr → ConnectionId → ConnectionId → List Call
  calls peer remote local_addr send_back c d =
      connects 0 peer c (dialer remote) ∷ connects 1 peer d (listener local_addr send_back) ∷ []

  both_at :
      (peer : PeerId) (remote local_addr send_back : Multiaddr) (c d e : ConnectionId)
      → (spec_of (calls peer remote local_addr send_back c d)).at peer e ≡ (
          if same_connection e d
          then some send_back
          else if same_connection e c
          then some remote
          else none)
  unfolding spec_run spec_step get_connection_address find get remote_addr
  both_at peer remote local_addr send_back c d e = ground (arith, same_peer_refl peer)

  -- The entry of the peer after the first, and after both.
  abbrev first_info : Multiaddr → ConnectionId → PeerInfoExt
  first_info remote c = insert_connection 0 c remote default_info

  abbrev both_info : Multiaddr → Multiaddr → ConnectionId → ConnectionId → PeerInfoExt
  both_info remote send_back c d = insert_connection 1 d send_back (first_info remote c)

  both_entry :
      (peer : PeerId) (remote local_addr send_back : Multiaddr) (c d : ConnectionId)
      → info_of (run empty_view (calls peer remote local_addr send_back c d)) peer
        ≡ some (both_info remote send_back c d)
  unfolding run step add_connection remote_addr upsert get
  both_entry peer remote local_addr send_back c d = ground (arith, same_peer_refl peer)

  -- What the specification says of a connection, of the entry of the peer.
  located :
      (cs : List Call) (peer : PeerId) (info : PeerInfoExt) (d : ConnectionId)
      → info_of (run empty_view cs) peer ≡ some info
      → get_connection_address info d ≡ (spec_of cs).at peer d
  located cs peer info d e =
      ap (λ o. get_connection_address (value_or L.peer_discrete default_info o) d) (sym e)
      ∙ ap (λ x. x.at peer d) (run_refines empty_view cs empty_view-IsConsistent)

  first_entry :
      (peer : PeerId) (remote : Multiaddr) (c : ConnectionId)
      → info_of (run empty_view (connects 0 peer c (dialer remote) ∷ [])) peer
        ≡ some (first_info remote c)
  unfolding run step add_connection remote_addr upsert get
  first_entry peer remote c = ground (arith, same_peer_refl peer)

  first_at :
      (peer : PeerId) (remote : Multiaddr) (c d : ConnectionId)
      → get_connection_address (first_info remote c) d
        ≡ (if same_connection d c then some remote else none)
  first_at peer remote c d =
      located (connects 0 peer c (dialer remote) ∷ []) peer (first_info remote c) d
        (first_entry peer remote c)
      ∙ opens peer remote c d

  two_connections :
      (peer : PeerId) (remote send_back : Multiaddr) (c d : ConnectionId)
      → same_connection d c ≡ false
      → total open_count (both_info remote send_back c d).addresses ≡ 2
  unfolding total get_connection_address find
  two_connections peer remote send_back c d n = ground (
    arith,
    inserted-open_count 0 c remote default_info refl,
    inserted-open_count 1 d send_back (first_info remote c),
    first_at peer remote c d,
  )

  -- The test passes for two different connections.
  pub dialer_and_listener_lem :
      (peer : PeerId) (remote local_addr send_back : Multiaddr) (c d : ConnectionId)
      → same_connection c d ≡ false
      → same_connection d c ≡ false
      → dialer_and_listener peer remote local_addr send_back c d ≡ true
  unfolding dialer_and_listener run step
  dialer_and_listener_lem peer remote local_addr send_back c d n n' =
      let both = calls peer remote local_addr send_back c d in
      let info = both_info remote send_back c d in
      let entry_is = both_entry peer remote local_addr send_back c d in
      ground (
        arith,
        connected_after (connects 0 peer c (dialer remote) ∷ []) peer remote c
            (ground (arith, opens peer remote c c, same_connection_refl c)),
        connected_after both peer send_back d (
            ground (arith, both_at peer remote local_addr send_back c d d, same_connection_refl d)),
        entry_is,
        two_connections peer remote send_back c d n',
        located both peer info c entry_is,
        located both peer info d entry_is,
        both_at peer remote local_addr send_back c d c,
        both_at peer remote local_addr send_back c d d,
        same_connection_refl c,
        same_connection_refl d,
        same_addr_refl remote,
        same_addr_refl send_back,
      )
