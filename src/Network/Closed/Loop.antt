-- ===== src/Network/Closed/Loop.antt =====
-- src/network/mod.rs: `on_swarm_event` and the event loop keep what every step of the network keeps,
-- and what the requests at the turns keep.
use saved.Base.{ℕ, ◌≡◌, true, false, none, some, List, [], ◌∷◌}
use saved.Libp2p.{Libp2p, PeerId, Multiaddr}
use saved.View.{set_protocols, remote_addr}
use saved.View.Consistent.{step, identifies}
use saved.Relay.Address.{extract_relay_peer}
use saved.Network.State.{SavedNetwork, kad_found_peer, Swarm, ◌>>◌}
use saved.Network.Handlers.{
  change_view, send_event, on_add_address, on_remove_address, on_peer_connection_opened,
}
use saved.Network.Events.{
  SwarmEvent, new_listen_addr, ping, mdns_discovered, mdns_expired, connection_established,
  connection_closed, new_external_addr_of_peer, outgoing_connection_error, external_addr_confirmed,
  unhandled, closest_peers, identify_received, reservation_req_accepted, autonat_v2,
  autonat_status_changed, request_reservation, track_relay, add_pairs, remove_pairs, add_all,
  found_peers, on_swarm_event,
}
use saved.Network.Rpc.{SavedNetworkRpc, dispatch_rpc}
use saved.Network.{Ready, Status, event_loop}
use saved.Network.Closed.{Keeps, IsClosed, Keeps-then}
use saved.Network.Shutdown.{continue}
use saved.Network.Closed.Turns
use saved.Network.Closed.Handlers.{
  change_view-Keeps, register_update-Keeps, on_ping-Keeps, request_reservation-Keeps,
  track_relay-Keeps, send_event-Keeps, on_add_address-Keeps, on_remove_address-Keeps,
  on_peer_connection_closed-Keeps, on_peer_connection_opened-Keeps, on_nat_status_change-Keeps,
}

module _ ⦃L : Libp2p⦄ ⦃S : Swarm⦄ (P : SavedNetwork → Type 0) (C : IsClosed P) where
  pub add_pairs-Keeps :
      (fuel now : ℕ) (pairs : List (PeerId × Multiaddr)) → Keeps P (add_pairs fuel now pairs)
  unfolding add_pairs
  add_pairs-Keeps fuel now [] s h = h
  add_pairs-Keeps fuel now ((p, addr) ∷ rest) s h =
      Keeps-then P (on_add_address fuel now p addr) (add_pairs fuel now rest)
        (on_add_address-Keeps P C fuel now p addr) (add_pairs-Keeps fuel now rest) s h

  remove_pairs-Keeps :
      (fuel now : ℕ) (pairs : List (PeerId × Multiaddr)) → Keeps P (remove_pairs fuel now pairs)
  unfolding remove_pairs
  remove_pairs-Keeps fuel now [] s h = h
  remove_pairs-Keeps fuel now ((p, addr) ∷ rest) s h =
      Keeps-then P (on_remove_address fuel now p addr) (remove_pairs fuel now rest)
        (on_remove_address-Keeps P C fuel now p addr) (remove_pairs-Keeps fuel now rest) s h

  pub add_all-Keeps :
      (fuel now : ℕ) (p : PeerId) (addrs : List Multiaddr) → Keeps P (add_all fuel now p addrs)
  unfolding add_all
  add_all-Keeps fuel now p [] s h = h
  add_all-Keeps fuel now p (addr ∷ rest) s h =
      Keeps-then P (on_add_address fuel now p addr) (add_all fuel now p rest)
        (on_add_address-Keeps P C fuel now p addr) (add_all-Keeps fuel now p rest) s h

  pub found_peers-Keeps :
      (fuel now : ℕ) (peers : List (PeerId × List Multiaddr)) → Keeps P (found_peers fuel now peers)
  unfolding found_peers
  found_peers-Keeps fuel now [] s h = h
  found_peers-Keeps fuel now ((p, addrs) ∷ rest) s h =
      Keeps-then P (send_event (kad_found_peer p addrs))
        (add_all fuel now p addrs >> found_peers fuel now rest)
        (send_event-Keeps P C.round (kad_found_peer p addrs))
        (Keeps-then P (add_all fuel now p addrs) (found_peers fuel now rest)
          (add_all-Keeps fuel now p addrs) (found_peers-Keeps fuel now rest))
        s h

  pub on_swarm_event-Keeps :
      (fuel now : ℕ) (event : SwarmEvent) (s : SavedNetwork)
      → P s
      → P (on_swarm_event fuel now event s).1
  unfolding on_swarm_event step
  on_swarm_event-Keeps fuel now (new_listen_addr addr) s h = send_event-Keeps P C.round _ s h
  on_swarm_event-Keeps fuel now (ping p c result) s h = on_ping-Keeps P C p c result s h
  on_swarm_event-Keeps fuel now (mdns_discovered pairs) s h = add_pairs-Keeps fuel now pairs s h
  on_swarm_event-Keeps fuel now (mdns_expired pairs) s h = remove_pairs-Keeps fuel now pairs s h
  on_swarm_event-Keeps fuel now (connection_established p c endpoint) s h =
      Keeps-then P (on_peer_connection_opened fuel now p c endpoint)
        (track_relay (extract_relay_peer (remote_addr endpoint)))
        (on_peer_connection_opened-Keeps P C fuel now p c endpoint)
        (track_relay-Keeps P C (extract_relay_peer (remote_addr endpoint))) s h
  on_swarm_event-Keeps fuel now (connection_closed p c) s h =
      on_peer_connection_closed-Keeps P C fuel now p c s h
  on_swarm_event-Keeps fuel now (new_external_addr_of_peer p addr) s h =
      on_add_address-Keeps P C fuel now p addr s h
  on_swarm_event-Keeps fuel now (closest_peers none) s h = h
  on_swarm_event-Keeps fuel now (closest_peers (some peers)) s h =
      found_peers-Keeps fuel now peers s h
  on_swarm_event-Keeps fuel now (identify_received p protocols addrs) s h =
      Keeps-then P (change_view (λ view. set_protocols view p protocols))
        (add_all fuel now p addrs >> request_reservation p)
        (change_view-Keeps P C (identifies p protocols))
        (Keeps-then P (add_all fuel now p addrs) (request_reservation p)
          (add_all-Keeps fuel now p addrs) (request_reservation-Keeps P C.round p))
        s h
  on_swarm_event-Keeps fuel now (reservation_req_accepted r) s h = register_update-Keeps P C r s h
  on_swarm_event-Keeps fuel now (autonat_v2 addr true) s h =
      on_nat_status_change-Keeps P C.round _ s h
  on_swarm_event-Keeps fuel now (autonat_v2 addr false) s h =
      on_nat_status_change-Keeps P C.round _ s h
  on_swarm_event-Keeps fuel now (autonat_status_changed status) s h =
      on_nat_status_change-Keeps P C.round status s h
  on_swarm_event-Keeps fuel now outgoing_connection_error s h = h
  on_swarm_event-Keeps fuel now external_addr_confirmed s h = h
  on_swarm_event-Keeps fuel now unhandled s h = h

  -- The requests at the turns are ones that keep the property.
  abbrev pub AllAllow : List Ready → Type 0
  AllAllow [] = Unit {0}
  AllAllow (ready ∷ turns) =
      ((rpc : SavedNetworkRpc) → ready.command ≡ some rpc → Keeps P (dispatch_rpc rpc))
      × AllAllow turns

  all_turns : (fuel : ℕ) (turns : List Ready) → AllAllow turns → Turns.AllAllow P fuel turns
  all_turns fuel [] k = tt
  all_turns fuel (ready ∷ turns) (a, k) =
      (a, (λ now event _. on_swarm_event-Keeps fuel now event), all_turns fuel turns k)

  pub event_loop-Keeps :
      (fuel : ℕ) (turns : List Ready) (s : SavedNetwork)
      → AllAllow turns
      → P s
      → P (event_loop fuel turns s).1
  event_loop-Keeps fuel turns s k = Turns.event_loop-Keeps P fuel turns s (all_turns fuel turns k)

  pub continue-Keeps :
      (fuel : ℕ) (turns : List Ready) (r : Status × SavedNetwork)
      → AllAllow turns
      → P r.1
      → P (continue fuel turns r).1
  continue-Keeps fuel turns r k = Turns.continue-Keeps P fuel turns r (all_turns fuel turns k)
