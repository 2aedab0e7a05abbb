-- ===== src/Network/Events.antt =====
-- src/network/mod.rs: `on_swarm_event`.
use saved.Base.{ℕ, Bool, true, false, Option, none, some, List, [], ◌∷◌, if◌then◌else◌}
use saved.Libp2p.{Libp2p, Protocol, PeerId, ConnectionId, Multiaddr, StreamProtocol, ConnectedPoint}
use saved.View.Peer.{get_connection_address}
use saved.View.{NetworkView, info_of, set_protocols, update_peer, remote_addr}
use saved.Relay.Address.{extract_relay_peer}
use saved.Relay.{can_reserve}
use saved.Network.State.{
  listening_on, kad_found_peer, Swarm, listens, ok, M, ◌>>◌, pure, emit, NatStatus, public, private,
}
use saved.Network.Handlers.{
  change_view, register_relay, update_relay_state, send_event, on_add_address, on_remove_address,
  on_peer_connection_closed, on_peer_connection_opened, on_nat_status_change,
}

module _ ⦃L : Libp2p⦄ where
  -- The arms of `on_swarm_event`. An outcome that another crate reports is its success value, or
  -- `none` for its failure; `unhandled` stands for the last arm and those that only print.
  pub data SwarmEvent : Type 0 where
    new_listen_addr : Multiaddr → SwarmEvent
    ping : PeerId → ConnectionId → Option ℕ → SwarmEvent
    mdns_discovered mdns_expired : List (PeerId × Multiaddr) → SwarmEvent
    connection_established : PeerId → ConnectionId → ConnectedPoint → SwarmEvent
    connection_closed : PeerId → ConnectionId → SwarmEvent
    new_external_addr_of_peer : PeerId → Multiaddr → SwarmEvent
    outgoing_connection_error external_addr_confirmed unhandled : SwarmEvent
    closest_peers : Option (List (PeerId × List Multiaddr)) → SwarmEvent
    identify_received : PeerId → List StreamProtocol → List Multiaddr → SwarmEvent
    reservation_req_accepted : PeerId → SwarmEvent
    autonat_v2 : Multiaddr → Bool → SwarmEvent
    autonat_status_changed : NatStatus → SwarmEvent

  unfoldable pub on_ping : PeerId → ConnectionId → Option ℕ → M (Unit {0})
  on_ping p c result s = elim (info_of s.view p) [
    | none ↦ (ok tt, s)
    | some info ↦ elim (get_connection_address info c) [
      | none ↦ (ok tt, s)
      | some addr ↦ elim result [
        | none ↦ (ok tt, s)
        | some rtt ↦ (ok tt, record s { view = update_peer (λ i. record i { rtt = rtt }) s.view p })
      ]
    ]
  ]

  -- `.map(|p| p.supports_relay_hop_v2).unwrap_or(false)`.
  unfoldable pub supports_hop : NetworkView → PeerId → Bool
  supports_hop view p = elim (info_of view p) [
    | none ↦ false
    | some info ↦ info.supports_relay_hop_v2
  ]

  -- `.and_then(|p| p.addresses.first())`.
  unfoldable pub first_addr : NetworkView → PeerId → Option Multiaddr
  first_addr view p = elim (info_of view p) [
    | none ↦ none
    | some info ↦ elim info.addresses [ [] ↦ none | m ∷ _ ↦ some m.address ]
  ]

  -- A request for a reservation: the swarm listens on the relayed address; a failure is printed.
  unfoldable pub request_reservation : PeerId → M (Unit {0})
  request_reservation p s =
      if supports_hop s.view p
      then (if can_reserve s.relay_manager p
          then elim (first_addr s.view p) [
            | none ↦ (ok tt, s)
            | some addr ↦
                emit
                  (listens
                    (L.with_protocol (L.with_protocol addr (Protocol.p2p p)) Protocol.p2p_circuit))
                  s
          ]
          else (ok tt, s))
      else (ok tt, s)

  -- After a connection over a relay.
  unfoldable pub track_relay : Option PeerId → M (Unit {0})
  track_relay none = pure tt
  track_relay (some r) = do register_relay r; update_relay_state

module _ ⦃L : Libp2p⦄ ⦃S : Swarm⦄ where
  unfoldable pub add_pairs : ℕ → ℕ → List (PeerId × Multiaddr) → M (Unit {0})
  add_pairs fuel now [] = pure tt
  add_pairs fuel now ((p, addr) ∷ rest) = do on_add_address fuel now p addr; add_pairs fuel now rest

  unfoldable pub remove_pairs : ℕ → ℕ → List (PeerId × Multiaddr) → M (Unit {0})
  remove_pairs fuel now [] = pure tt
  remove_pairs fuel now ((p, addr) ∷ rest) = do
    on_remove_address fuel now p addr
    remove_pairs fuel now rest

  unfoldable pub add_all : ℕ → ℕ → PeerId → List Multiaddr → M (Unit {0})
  add_all fuel now p [] = pure tt
  add_all fuel now p (addr ∷ rest) = do on_add_address fuel now p addr; add_all fuel now p rest

  unfoldable pub found_peers : ℕ → ℕ → List (PeerId × List Multiaddr) → M (Unit {0})
  found_peers fuel now [] = pure tt
  found_peers fuel now ((p, addrs) ∷ rest) = do
    send_event (kad_found_peer p addrs)
    add_all fuel now p addrs
    found_peers fuel now rest

  unfoldable pub on_swarm_event : ℕ → ℕ → SwarmEvent → M (Unit {0})
  on_swarm_event fuel now (new_listen_addr addr) =
      send_event (listening_on (L.with_protocol addr (Protocol.p2p S.local_peer_id)))
  on_swarm_event fuel now (ping p c result) = on_ping p c result
  on_swarm_event fuel now (mdns_discovered pairs) = add_pairs fuel now pairs
  on_swarm_event fuel now (mdns_expired pairs) = remove_pairs fuel now pairs
  on_swarm_event fuel now (connection_established p c endpoint) = do
    on_peer_connection_opened fuel now p c endpoint
    track_relay (extract_relay_peer (remote_addr endpoint))
  on_swarm_event fuel now (connection_closed p c) = on_peer_connection_closed fuel now p c
  on_swarm_event fuel now (new_external_addr_of_peer p addr) = on_add_address fuel now p addr
  on_swarm_event fuel now (closest_peers none) = pure tt
  on_swarm_event fuel now (closest_peers (some peers)) = found_peers fuel now peers
  on_swarm_event fuel now (identify_received p protocols addrs) = do
    change_view (λ view. set_protocols view p protocols)
    add_all fuel now p addrs
    request_reservation p
  on_swarm_event fuel now (reservation_req_accepted r) = do register_relay r; update_relay_state
  on_swarm_event fuel now (autonat_v2 addr true) = on_nat_status_change (public addr)
  on_swarm_event fuel now (autonat_v2 addr false) = on_nat_status_change private
  on_swarm_event fuel now (autonat_status_changed new) = on_nat_status_change new
  on_swarm_event fuel now outgoing_connection_error = pure tt
  on_swarm_event fuel now external_addr_confirmed = pure tt
  on_swarm_event fuel now unhandled = pure tt
