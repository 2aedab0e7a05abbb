-- ===== src/Network/Invariant/Connectivity.antt =====
-- src/network/mod.rs: the swarm events about one connection or address, and the connections and the
-- known addresses of the view.
use saved.Base.{
  ℕ, ◌≡◌, ap, ◌∙◌, false, inl, inr, Option, none, some, arith, if◌then◌else◌, Bool-cases,
  some_injective,
}
use saved.Libp2p.{Libp2p, PeerId, ConnectionId, Multiaddr, ConnectedPoint}
use saved.View.{add_address, remote_addr}
use saved.View.Consistent.{
  Call, step, adds_address, removes_address, connects, disconnects as drops,
}
use saved.View.Spec.{connectivity, spec_step, step_refines}
use saved.Relay.Address.{extract_relay_peer}
use saved.Network.State.{
  SavedNetwork, SavedNetworkEvent, connected, disconnected, Swarm, kad_adds, kad_removes, M, ◌>>◌,
}
use saved.Network.Reconcile.{should_skip_for_dial, reconcile_peer_connections}
use saved.Network.Handlers.{
  change_view, if_kad, update_relay_state, send_event, learn_address, on_add_address,
  on_remove_address, leave_target, on_peer_connection_closed, meet_target,
  on_peer_connection_opened,
}
use saved.Network.Events.{
  SwarmEvent, connection_established, connection_closed, new_external_addr_of_peer, track_relay,
  on_swarm_event,
}
use saved.Network.Invariant.{IsValid, Keeps, IsValid-marked, IsValid-kept}
use saved.Network.Closed.{reconcile-Keeps}
use saved.Network.Closed.Handlers.{
  change_view-Keeps, if_kad-Keeps, send_event-Keeps, leave_target-Keeps, meet_target-Keeps,
  on_peer_connection_opened-Keeps,
}
use saved.Network.Invariant.Steady.{
  Blind, Steady, Blind-Steady, bind-Steady, Steady-then, update_relay_state-Blind, if_kad-Blind,
  track_relay-Blind, send_event-Blind, leave_target-Blind, meet_target-Blind,
  reconcile-connectivity,
}

module _ ⦃L : Libp2p⦄ ⦃S : Swarm⦄ where
  -- A change of the view, and then only what leaves the connections as they are.
  change_then :
      (call : Call) (k : M (Unit {0})) (s : SavedNetwork)
      → IsValid s
      → Steady k
      → connectivity ((change_view (λ view. step view call) >> k) s).1.view
        ≡ spec_step (connectivity s.view) call
  change_then call k s v sk =
      sk (spec_step (connectivity s.view) call) (record s { view = step s.view call })
        (change_view-Keeps IsValid IsValid-kept call s v) (step_refines s.view call v.view_ok)

  -- What the two handlers of connections do after the change of the view.
  abbrev pub afterwards : ℕ → ℕ → PeerId → SavedNetworkEvent → M (Unit {0}) → M (Unit {0})
  afterwards fuel now p e m =
      send_event e >> (m >> (reconcile_peer_connections fuel now p >> update_relay_state))

  after_change-Steady :
      (fuel now : ℕ) (p : PeerId) (e : SavedNetworkEvent) (m : M (Unit {0}))
      → Keeps m
      → Blind m
      → Steady (afterwards fuel now p e m)
  after_change-Steady fuel now p e m km bm =
      Steady-then (send_event e) _ (send_event-Keeps IsValid IsValid-marked e)
        (Blind-Steady (send_event e) (send_event-Blind e))
        (Steady-then m _ km (Blind-Steady m bm) (
          Steady-then (reconcile_peer_connections fuel now p) update_relay_state
            (reconcile-Keeps IsValid IsValid-marked fuel now p) (reconcile-connectivity fuel now p)
            (Blind-Steady update_relay_state update_relay_state-Blind)))

  opened-connectivity :
      (fuel now : ℕ) (p : PeerId) (c : ConnectionId) (e : ConnectedPoint) (s : SavedNetwork)
      → IsValid s
      → connectivity (on_peer_connection_opened fuel now p c e s).1.view
        ≡ spec_step (connectivity s.view) (connects now p c e)
  unfolding on_peer_connection_opened step
  opened-connectivity fuel now p c e s v =
      change_then (connects now p c e) (afterwards fuel now p (connected p c) (meet_target p)) s v (
        after_change-Steady fuel now p (connected p c) (meet_target p)
          (meet_target-Keeps IsValid IsValid-kept p) (meet_target-Blind p))

  pub closed-connectivity :
      (fuel now : ℕ) (p : PeerId) (c : ConnectionId) (s : SavedNetwork)
      → IsValid s
      → connectivity (on_peer_connection_closed fuel now p c s).1.view
        ≡ spec_step (connectivity s.view) (drops now p c)
  unfolding on_peer_connection_closed step
  closed-connectivity fuel now p c s v =
      change_then (drops now p c) (afterwards fuel now p (disconnected p c) (leave_target p)) s v (
        after_change-Steady fuel now p (disconnected p c) (leave_target p)
          (leave_target-Keeps IsValid IsValid-kept p) (leave_target-Blind p))

  pub removed-connectivity :
      (fuel now : ℕ) (p : PeerId) (a : Multiaddr) (s : SavedNetwork)
      → IsValid s
      → connectivity (on_remove_address fuel now p a s).1.view
        ≡ spec_step (connectivity s.view) (removes_address now p a)
  unfolding on_remove_address step
  removed-connectivity fuel now p a s v =
      change_then (removes_address now p a)
        (if_kad (kad_removes p a) >> reconcile_peer_connections fuel now p) s v
        (Steady-then (if_kad (kad_removes p a)) (reconcile_peer_connections fuel now p)
          (if_kad-Keeps IsValid IsValid-marked (kad_removes p a))
          (Blind-Steady (if_kad (kad_removes p a)) (if_kad-Blind (kad_removes p a)))
          (reconcile-connectivity fuel now p))

  pub learn-connectivity :
      (fuel now : ℕ) (p : PeerId) (a : Multiaddr) (s : SavedNetwork)
      → IsValid s
      → connectivity (learn_address fuel now p a s).1.view
        ≡ spec_step (connectivity s.view) (adds_address now p a)
  unfolding learn_address step
  learn-connectivity fuel now p a s v = elim (Bool-cases (add_address now s.view p a).1) [
    | inr old ↦ rw (old, learn_address) (step_refines s.view (adds_address now p a) v.view_ok)
    | inl fresh ↦
        rw (fresh, learn_address)
          (change_then (adds_address now p a)
            (if_kad (kad_adds p a) >> reconcile_peer_connections fuel now p) s v
            (Steady-then (if_kad (kad_adds p a)) (reconcile_peer_connections fuel now p)
              (if_kad-Keeps IsValid IsValid-marked (kad_adds p a))
              (Blind-Steady (if_kad (kad_adds p a)) (if_kad-Blind (kad_adds p a)))
              (reconcile-connectivity fuel now p)))
  ]

  -- The one call on the view that an event stands for, where it stands for one.
  abbrev pub call_of : ℕ → SwarmEvent → Option Call
  call_of now (connection_established p c e) = some (connects now p c e)
  call_of now (connection_closed p c) = some (drops now p c)
  call_of now (new_external_addr_of_peer p a) =
      if should_skip_for_dial a then none else some (adds_address now p a)
  call_of now e = none

  pub established-connectivity :
      (fuel now : ℕ) (p : PeerId) (c : ConnectionId) (e : ConnectedPoint) (s : SavedNetwork)
      → IsValid s
      → connectivity (on_swarm_event fuel now (connection_established p c e) s).1.view
        ≡ spec_step (connectivity s.view) (connects now p c e)
  unfolding on_swarm_event
  established-connectivity fuel now p c e s v =
      bind-Steady (on_peer_connection_opened fuel now p c e s)
        (λ _. track_relay (extract_relay_peer (remote_addr e))) _
        (on_peer_connection_opened-Keeps IsValid IsValid-kept fuel now p c e s v)
        (opened-connectivity fuel now p c e s v)
        (λ _.
          Blind-Steady (track_relay (extract_relay_peer (remote_addr e)))
            (track_relay-Blind (extract_relay_peer (remote_addr e))))

  pub added-connectivity :
      (fuel now : ℕ) (p : PeerId) (a : Multiaddr) (s : SavedNetwork)
      → IsValid s
      → should_skip_for_dial a ≡ false
      → connectivity (on_add_address fuel now p a s).1.view
        ≡ spec_step (connectivity s.view) (adds_address now p a)
  unfolding on_add_address
  added-connectivity fuel now p a s v h =
      rw (h, on_add_address) (learn-connectivity fuel now p a s v)

  -- From a valid network, a connection that opens or closes, or a reported address that is not
  -- skipped, changes the connections and the known addresses as `spec_step` says of the one call
  -- that `call_of` names, also where the handler fails or does not return.
  pub on_swarm_event-connectivity :
      (fuel now : ℕ) (event : SwarmEvent) (call : Call) (s : SavedNetwork)
      → IsValid s
      → call_of now event ≡ some call
      → connectivity (on_swarm_event fuel now event s).1.view ≡ spec_step (connectivity s.view) call
  unfolding on_swarm_event
  on_swarm_event-connectivity fuel now (connection_established p c e) call s v h =
      established-connectivity fuel now p c e s v
      ∙ ap (spec_step (connectivity s.view)) (some_injective _ _ h)
  on_swarm_event-connectivity fuel now (connection_closed p c) call s v h =
      closed-connectivity fuel now p c s v
      ∙ ap (spec_step (connectivity s.view)) (some_injective _ _ h)
  on_swarm_event-connectivity fuel now (new_external_addr_of_peer p a) call s v h =
      elim (Bool-cases (should_skip_for_dial a)) [
        | inl skips ↦ ground arith
        | inr used ↦
            added-connectivity fuel now p a s v used
            ∙ ap (spec_step (connectivity s.view))
                (some_injective (adds_address now p a) call (ground arith))
      ]
  on_swarm_event-connectivity fuel now _ call s v h = cc
