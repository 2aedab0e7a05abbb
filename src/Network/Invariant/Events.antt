-- ===== src/Network/Invariant/Events.antt =====
-- src/network/mod.rs: every swarm event, and the connections and the known addresses of the view,
-- also for the events that carry lists.
use saved.Base.{
  ℕ, ◌≡◌, refl, Bool, true, false, inl, inr, Option, none, some, List, [], ◌∷◌, ◌++◌, arith,
  if◌then◌else◌, Option-cases,
}
use mathlib.Core.List.{append-nil}
use mathlib.Core.Path.{subst}
use saved.Libp2p.{Libp2p, PeerId, ConnectionId, Multiaddr, StreamProtocol}
use saved.Relay.{register}
use saved.View.Peer.{get_connection_address}
use saved.View.{info_of, set_protocols}
use saved.View.Consistent.{
  Call, step, adds_address, removes_address, connects, disconnects as drops, identifies, pings,
}
use saved.View.Spec.{connectivity, spec_step, spec_run, step_refines}
use saved.Network.State.{SavedNetwork, kad_found_peer, Swarm, M, ◌>>◌, pure}
use saved.Network.Reconcile.{should_skip_for_dial}
use saved.Network.Handlers.{
  learn_address, change_view, update_relay_state, register_relay, send_event, on_add_address,
  on_remove_address, on_nat_status_change,
}
use saved.Network.Events.{
  SwarmEvent, new_listen_addr, ping, mdns_discovered, mdns_expired, connection_established,
  connection_closed, new_external_addr_of_peer, outgoing_connection_error, external_addr_confirmed,
  unhandled, closest_peers, identify_received, reservation_req_accepted, autonat_v2,
  autonat_status_changed, on_ping, request_reservation, add_pairs, remove_pairs, add_all,
  found_peers, on_swarm_event,
}
use saved.Network.Closed.Handlers.{
  change_view-Keeps, send_event-Keeps, on_add_address-Keeps, on_remove_address-Keeps,
}
use saved.Network.Closed.Loop.{add_all-Keeps}
use saved.Network.Invariant.{IsValid, IsValid-marked, IsValid-kept}
use saved.Network.Invariant.Steady.{Blind, update_relay_state-Blind, send_event-Blind}
use saved.Network.Invariant.Connectivity.{
  established-connectivity, closed-connectivity, removed-connectivity, learn-connectivity,
}
use saved.Network.Invariant.Does.{Follows, Does, whole, Does-then, Does-Blind, Does-call}

module _ ⦃L : Libp2p⦄ where
  -- The calls on the view that each event stands for. A ping and an identify message change
  -- neither the connections nor the known addresses by themselves.
  abbrev pub adds : ℕ → PeerId → Multiaddr → List Call
  adds now p a = if should_skip_for_dial a then [] else adds_address now p a ∷ []

  abbrev pub adds_all : ℕ → PeerId → List Multiaddr → List Call
  adds_all now p [] = []
  adds_all now p (a ∷ rest) = adds now p a ++ adds_all now p rest

  abbrev pub adds_pairs : ℕ → List (PeerId × Multiaddr) → List Call
  adds_pairs now [] = []
  adds_pairs now ((p, a) ∷ rest) = adds now p a ++ adds_pairs now rest

  abbrev pub removes_pairs : ℕ → List (PeerId × Multiaddr) → List Call
  removes_pairs now [] = []
  removes_pairs now ((p, a) ∷ rest) = removes_address now p a ∷ removes_pairs now rest

  abbrev pub adds_peers : ℕ → List (PeerId × List Multiaddr) → List Call
  adds_peers now [] = []
  adds_peers now ((p, addrs) ∷ rest) = adds_all now p addrs ++ adds_peers now rest

  abbrev pub calls_of : ℕ → SwarmEvent → List Call
  calls_of now (mdns_discovered pairs) = adds_pairs now pairs
  calls_of now (mdns_expired pairs) = removes_pairs now pairs
  calls_of now (connection_established p c e) = connects now p c e ∷ []
  calls_of now (connection_closed p c) = drops now p c ∷ []
  calls_of now (new_external_addr_of_peer p a) = adds now p a
  calls_of now (closest_peers (some peers)) = adds_peers now peers
  calls_of now (identify_received p protocols addrs) = adds_all now p addrs
  calls_of now event = []

module _ ⦃L : Libp2p⦄ ⦃S : Swarm⦄ where
  branch-Does :
      (b : Bool) (call : Call) (m : M (Unit {0}))
      → Does (call ∷ []) m
      → Does (if b then [] else call ∷ []) (if b then pure tt else m)
  unfolding spec_run
  branch-Does true call m d s v = refl
  branch-Does false call m d s v = d s v

  on_add_address-Does :
      (fuel now : ℕ) (p : PeerId) (a : Multiaddr)
      → Does (adds now p a) (on_add_address fuel now p a)
  unfolding on_add_address
  on_add_address-Does fuel now p a =
      branch-Does (should_skip_for_dial a) (adds_address now p a) (learn_address fuel now p a) (
        Does-call (adds_address now p a) (learn_address fuel now p a)
          (learn-connectivity fuel now p a))

  add_all-Does :
      (fuel now : ℕ) (p : PeerId) (addrs : List Multiaddr)
      → Does (adds_all now p addrs) (add_all fuel now p addrs)
  unfolding add_all spec_run
  add_all-Does fuel now p [] s v = refl
  add_all-Does fuel now p (a ∷ rest) s v =
      Does-then (adds now p a) (adds_all now p rest) (on_add_address fuel now p a)
        (add_all fuel now p rest) (on_add_address-Keeps IsValid IsValid-kept fuel now p a)
        (on_add_address-Does fuel now p a) (add_all-Does fuel now p rest) s v

  add_pairs-Does :
      (fuel now : ℕ) (pairs : List (PeerId × Multiaddr))
      → Does (adds_pairs now pairs) (add_pairs fuel now pairs)
  unfolding add_pairs spec_run
  add_pairs-Does fuel now [] s v = refl
  add_pairs-Does fuel now ((p, a) ∷ rest) s v =
      Does-then (adds now p a) (adds_pairs now rest) (on_add_address fuel now p a)
        (add_pairs fuel now rest) (on_add_address-Keeps IsValid IsValid-kept fuel now p a)
        (on_add_address-Does fuel now p a) (add_pairs-Does fuel now rest) s v

  remove_pairs-Does :
      (fuel now : ℕ) (pairs : List (PeerId × Multiaddr))
      → Does (removes_pairs now pairs) (remove_pairs fuel now pairs)
  unfolding remove_pairs spec_run
  remove_pairs-Does fuel now [] s v = refl
  remove_pairs-Does fuel now ((p, a) ∷ rest) s v =
      Does-then (removes_address now p a ∷ []) (removes_pairs now rest)
        (on_remove_address fuel now p a) (remove_pairs fuel now rest)
        (on_remove_address-Keeps IsValid IsValid-kept fuel now p a)
        (Does-call (removes_address now p a) (on_remove_address fuel now p a)
          (removed-connectivity fuel now p a))
        (remove_pairs-Does fuel now rest) s v

  found_peers-Does :
      (fuel now : ℕ) (peers : List (PeerId × List Multiaddr))
      → Does (adds_peers now peers) (found_peers fuel now peers)
  unfolding found_peers spec_run
  found_peers-Does fuel now [] s v = refl
  found_peers-Does fuel now ((p, addrs) ∷ rest) s v =
      Does-then [] (adds_peers now ((p, addrs) ∷ rest)) (send_event (kad_found_peer p addrs))
        (add_all fuel now p addrs >> found_peers fuel now rest)
        (send_event-Keeps IsValid IsValid-marked (kad_found_peer p addrs))
        (Does-Blind (send_event (kad_found_peer p addrs)) (send_event-Blind _))
        (Does-then (adds_all now p addrs) (adds_peers now rest) (add_all fuel now p addrs)
          (found_peers fuel now rest) (add_all-Keeps IsValid IsValid-kept fuel now p addrs)
          (add_all-Does fuel now p addrs) (found_peers-Does fuel now rest))
        s v

  request_reservation-Blind : (p : PeerId) → Blind (request_reservation p)
  unfolding request_reservation
  request_reservation-Blind p s = ground arith

  -- A ping keeps the round trip alone.
  on_ping-connectivity :
      (p : PeerId) (c : ConnectionId) (result : Option ℕ) (s : SavedNetwork)
      → IsValid s
      → connectivity (on_ping p c result s).1.view ≡ connectivity s.view
  unfolding on_ping step spec_step
  on_ping-connectivity p c result s v = elim (Option-cases (info_of s.view p)) [
    | inl e ↦ rw (e, on_ping) refl
    | inr (info, e) ↦ elim (Option-cases (get_connection_address info c)) [
      | inl n ↦ rw (e, on_ping, n) refl
      | inr (addr, n) ↦ elim (Option-cases result) [
        | inl r ↦ rw (e, on_ping, n, r) refl
        | inr (rtt, r) ↦ rw (e, on_ping, n, r) (step_refines s.view (pings p rtt) v.view_ok)
      ]
    ]
  ]

  identified-Does :
      (fuel now : ℕ) (p : PeerId) (protocols : List StreamProtocol) (addrs : List Multiaddr)
      → Does (adds_all now p addrs) (on_swarm_event fuel now (identify_received p protocols addrs))
  unfolding on_swarm_event spec_run step spec_step
  identified-Does fuel now p protocols addrs s v =
      subst
        (λ calls.
          Follows (connectivity s.view) calls
            (on_swarm_event fuel now (identify_received p protocols addrs) s))
        (append-nil (adds_all now p addrs))
        (Does-then [] (adds_all now p addrs ++ [])
          (change_view (λ view. set_protocols view p protocols))
          (add_all fuel now p addrs >> request_reservation p)
          (change_view-Keeps IsValid IsValid-kept (identifies p protocols))
          (λ t w. step_refines t.view (identifies p protocols) w.view_ok)
          (Does-then (adds_all now p addrs) [] (add_all fuel now p addrs) (request_reservation p)
            (add_all-Keeps IsValid IsValid-kept fuel now p addrs) (add_all-Does fuel now p addrs)
            (Does-Blind (request_reservation p) (request_reservation-Blind p)))
          s v)

  -- From a valid network, every swarm event changes the connections and the known addresses as
  -- `spec_run` says of the calls that `calls_of` names; where its handler fails or does not
  -- return, as it says of some first part of these calls.
  pub on_swarm_event-Does :
      (fuel now : ℕ) (event : SwarmEvent) (s : SavedNetwork)
      → IsValid s
      → Follows (connectivity s.view) (calls_of now event) (on_swarm_event fuel now event s)
  unfolding on_swarm_event spec_run on_nat_status_change
  on_swarm_event-Does fuel now (new_listen_addr addr) s v =
      Does-Blind (send_event _) (send_event-Blind _) s v
  on_swarm_event-Does fuel now (ping p c result) s v =
      whole (connectivity s.view) [] (on_ping p c result s) (on_ping-connectivity p c result s v)
  on_swarm_event-Does fuel now (mdns_discovered pairs) s v = add_pairs-Does fuel now pairs s v
  on_swarm_event-Does fuel now (mdns_expired pairs) s v = remove_pairs-Does fuel now pairs s v
  on_swarm_event-Does fuel now (connection_established p c e) s v =
      whole (connectivity s.view) (connects now p c e ∷ [])
        (on_swarm_event fuel now (connection_established p c e) s)
        (established-connectivity fuel now p c e s v)
  on_swarm_event-Does fuel now (connection_closed p c) s v =
      whole (connectivity s.view) (drops now p c ∷ [])
        (on_swarm_event fuel now (connection_closed p c) s) (closed-connectivity fuel now p c s v)
  on_swarm_event-Does fuel now (new_external_addr_of_peer p a) s v =
      on_add_address-Does fuel now p a s v
  on_swarm_event-Does fuel now (closest_peers none) s v = refl
  on_swarm_event-Does fuel now (closest_peers (some peers)) s v =
      found_peers-Does fuel now peers s v
  on_swarm_event-Does fuel now (identify_received p protocols addrs) s v =
      identified-Does fuel now p protocols addrs s v
  on_swarm_event-Does fuel now (reservation_req_accepted r) s v =
      Does-Blind (register_relay r >> update_relay_state)
        (λ t. update_relay_state-Blind (record t { relay_manager = register t.relay_manager r })) s
        v
  on_swarm_event-Does fuel now (autonat_v2 addr true) s v = refl
  on_swarm_event-Does fuel now (autonat_v2 addr false) s v = refl
  on_swarm_event-Does fuel now (autonat_status_changed status) s v = refl
  on_swarm_event-Does fuel now outgoing_connection_error s v = refl
  on_swarm_event-Does fuel now external_addr_confirmed s v = refl
  on_swarm_event-Does fuel now unhandled s v = refl
