-- ===== src/Network/Unaffected/Events.antt =====
-- src/network/mod.rs: the swarm events by which no connection opens or closes keep what they do not
-- affect.
use saved.Base.{ℕ, Bool, true, false, none, some, List, ◌≡◌, refl}
use saved.Libp2p.{Libp2p, PeerId, Multiaddr, same_addr, StreamProtocol}
use saved.Base.Lists.{any}
use saved.View.Count.{same_addr_refl}
use saved.View.{remote_addr}
use saved.View.Consistent.{step, identifies}
use saved.Network.State.{SavedNetwork, listening_on, Swarm, ◌>>◌}
use saved.Network.Reconcile.{reconcile_peer_connections}
use saved.Network.Handlers.{update_relay_state, on_nat_status_change}
use saved.Network.Events.{
  SwarmEvent, new_listen_addr, ping, mdns_discovered, mdns_expired, connection_established,
  connection_closed, new_external_addr_of_peer, outgoing_connection_error, external_addr_confirmed,
  unhandled, closest_peers, identify_received, reservation_req_accepted, autonat_v2,
  autonat_status_changed, request_reservation, add_all, on_swarm_event,
}
use saved.Network.Closed.{Keeps, Keeps-then}
use saved.Network.Unaffected.{
  IsUnaffected, IsRelayFree, update_relay_state-Keep, send_event-Keep, reconcile-Keep,
  on_add_address-Keep, add_all-Keep, add_pairs-Keep, remove_pairs-Keep, found_peers-Keep,
  request_reservation-Keep, on_ping-Keep,
}

module _ ⦃L : Libp2p⦄ where
  -- Neither a connection that opens nor one that closes.
  abbrev pub other : SwarmEvent → Bool
  other (connection_established p c e) = false
  other (connection_closed p c) = false
  other event = true

  -- An event after which the relays in use are computed again.
  abbrev pub updates : SwarmEvent → Bool
  updates (connection_established p c e) = true
  updates (connection_closed p c) = true
  updates (reservation_req_accepted r) = true
  updates event = false

  -- The addresses that an event brings.
  abbrev pub carries : SwarmEvent → Multiaddr → Bool
  carries (mdns_discovered pairs) a = any (λ x. same_addr a x.1) pairs
  carries (connection_established p c e) a = same_addr a (remote_addr e)
  carries (new_external_addr_of_peer p b) a = same_addr a b
  carries (closest_peers (some peers)) a = any (λ x. any (same_addr a) x.1) peers
  carries (identify_received p ps addrs) a = any (same_addr a) addrs
  carries event a = false

module _ ⦃L : Libp2p⦄ ⦃S : Swarm⦄ (P : SavedNetwork → Type 0) (T : Multiaddr → Type 0)
    (U : IsUnaffected P T) where
  identified-Keep :
      (fuel now : ℕ) (p : PeerId) (ps : List StreamProtocol) (addrs : List Multiaddr)
      → ((a : Multiaddr) → any (same_addr a) addrs ≡ true → T a)
      → Keeps P (on_swarm_event fuel now (identify_received p ps addrs))
  unfolding on_swarm_event step
  identified-Keep fuel now p ps addrs t s h =
      Keeps-then P (add_all fuel now p addrs) (request_reservation p)
        (add_all-Keep P T U fuel now p addrs t) (request_reservation-Keep P T U p) _
        (U.neutral (identifies p ps) s refl h)

  pub other-Keep :
      (fuel now : ℕ) (event : SwarmEvent)
      → other event ≡ true
      → (updates event ≡ true → IsRelayFree P)
      → ((a : Multiaddr) → carries event a ≡ true → T a)
      → Keeps P (on_swarm_event fuel now event)
  unfolding on_swarm_event on_nat_status_change
  other-Keep fuel now (new_listen_addr addr) o free t =
      send_event-Keep P T U (listening_on _) (refl, λ b p c. refl)
  other-Keep fuel now (ping p c result) o free t = on_ping-Keep P T U p c result
  other-Keep fuel now (mdns_discovered pairs) o free t = add_pairs-Keep P T U fuel now pairs t
  other-Keep fuel now (mdns_expired pairs) o free t = remove_pairs-Keep P T U fuel now pairs
  other-Keep fuel now (connection_established p c e) o free t = cc
  other-Keep fuel now (connection_closed p c) o free t = cc
  other-Keep fuel now (new_external_addr_of_peer p a) o free t =
      on_add_address-Keep P T U fuel now p a (t a (same_addr_refl a))
  other-Keep fuel now (closest_peers none) o free t = λ s h. h
  other-Keep fuel now (closest_peers (some peers)) o free t =
      found_peers-Keep P T U fuel now peers t
  other-Keep fuel now (identify_received p ps addrs) o free t =
      identified-Keep fuel now p ps addrs t
  other-Keep fuel now (reservation_req_accepted r) o free t =
      λ s h. update_relay_state-Keep P T U (free refl) _ (free refl _ s h)
  other-Keep fuel now (autonat_v2 addr true) o free t = λ s h. U.nats _ s h
  other-Keep fuel now (autonat_v2 addr false) o free t = λ s h. U.nats _ s h
  other-Keep fuel now (autonat_status_changed status) o free t = λ s h. U.nats _ s h
  other-Keep fuel now outgoing_connection_error o free t = λ s h. h
  other-Keep fuel now external_addr_confirmed o free t = λ s h. h
  other-Keep fuel now unhandled o free t = λ s h. h

  -- What follows on the change of the mode in the two handlers of connections.
  pub end-Keep :
      (fuel now : ℕ) (p : PeerId)
      → IsRelayFree P
      → Keeps P (reconcile_peer_connections fuel now p >> update_relay_state)
  end-Keep fuel now p free =
      Keeps-then P (reconcile_peer_connections fuel now p) update_relay_state
        (reconcile-Keep P T U fuel now p) (update_relay_state-Keep P T U free)
