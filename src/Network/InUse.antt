-- ===== src/Network/InUse.antt =====
-- src/network/mod.rs: the relays in use after a swarm event that updates them, and the connections
-- that are open in the view.
pub mod Returns
pub mod Loop
use mathlib.Core.Path.{subst}
use saved.Base.{
  ℕ, ◌≡◌, ◌↔◌, refl, sym, ◌∙◌, true, false, inl, inr, Bool-cases, ap, Option, none, some, [],
}
use saved.Libp2p.{Libp2p, PeerId, ConnectionId, ConnectedPoint}
use saved.View.{remote_addr, empty_view}
use saved.View.Peer.{get_connection_address}
use saved.Base.Assoc.{get}
use saved.Base.Lists.{find, any}
use saved.View.Consistent.{step, connects, disconnects as drops}
use saved.View.Spec.{connectivity}
use saved.Relay.Address.{extract_relay_peer}
use saved.Relay.{RelayManager, contains}
use saved.Relay.Reserve.{register-IsSound}
use saved.Relay.Open.{OpenOver, used-open}
use saved.Network.State.{
  SavedNetwork, SavedNetworkEvent, connected, disconnected, Swarm, Outcome, ok, err, unfinished, M,
  ◌>>◌, bind,
}
use saved.Network.Reconcile.{reconcile_peer_connections}
use saved.Network.Handlers.{
  change_view, register_relay, send_event, update_relay_state, leave_target, meet_target,
  on_peer_connection_closed, on_peer_connection_opened,
}
use saved.Network.Events.{
  SwarmEvent, connection_established, connection_closed, reservation_req_accepted, track_relay,
  on_swarm_event,
}
use saved.Network.Invariant.{IsValid, Keeps, IsValid-marked, IsValid-kept}
use saved.Network.Invariant.Connectivity.{afterwards}
use saved.Network.Closed.{reconcile-Keeps}
use saved.Network.Closed.Handlers.{
  change_view-Keeps, send_event-Keeps, leave_target-Keeps, meet_target-Keeps,
  on_peer_connection_opened-Keeps,
}
use saved.Network.Unaffected.{Any, IsUnaffected}
use saved.Network.Unaffected.Events.{other, updates, other-Keep}
use saved.Network.Invariant.Events.{calls_of, on_swarm_event-Does}
use saved.Network.Announced.Told.{is_expiry}
use saved.Network.Announced.Calls.{is_quiet, quiet-at, first_part}
use saved.Network.Announced.Events.{calls_of-is_quiet, front_all}
use saved.Network.Relays.{update_relay_state-IsUpdated}

module _ ⦃L : Libp2p⦄ where
  -- A relay is in use if and only if some open connection has an address over it.
  abbrev pub IsInUse : SavedNetwork → Type 0
  IsInUse s =
      (r : PeerId)
      → (contains s.relay_manager.in_use r ≡ true) ↔ OpenOver r (connectivity s.view).at

  -- From a valid network, the relays in use are exact where the method returns.
  abbrev Ends : M (Unit {0}) → Type 0
  Ends m = (s : SavedNetwork) → IsValid s → (m s).0 ≡ ok tt → IsInUse (m s).1

  update_relay_state-Ends : Ends update_relay_state
  update_relay_state-Ends s v e r =
      let done = update_relay_state-IsUpdated s v.relays_ok in
      let (forth, back) = used-open s.view r v.view_ok in
      rw done.view_kept ((λ h. forth (sym (done.in_use r) ∙ h)), (λ o. done.in_use r ∙ back o))

  bind-Ends :
      (x : Outcome (Unit {0}) × SavedNetwork) (k : M (Unit {0}))
      → IsValid x.1
      → Ends k
      → (bind x (λ _. k)).0 ≡ ok tt
      → IsInUse (bind x (λ _. k)).1
  bind-Ends (ok a, s) k v h e = h s v e
  bind-Ends (err a, s) k v h e = cc
  bind-Ends (unfinished, s) k v h e = cc

  Ends-then : (m k : M (Unit {0})) → Keeps m → Ends k → Ends (m >> k)
  Ends-then m k km h s v e = bind-Ends (m s) k (km s v) h e

  register_relay-Keeps : (r : PeerId) → Keeps (register_relay r)
  register_relay-Keeps r s v = record {
    view_ok = v.view_ok;
    relays_ok = register-IsSound s.relay_manager r v.relays_ok;
    targets_ok = v.targets_ok;
  }

  -- What returned before, where nothing follows, or the relay is tracked.
  tracked :
      (x : Outcome (Unit {0}) × SavedNetwork) (r : Option PeerId)
      → IsValid x.1
      → (x.0 ≡ ok tt → IsInUse x.1)
      → (bind x (λ _. track_relay r)).0 ≡ ok tt
      → IsInUse (bind x (λ _. track_relay r)).1
  unfolding track_relay
  tracked x (some r) v h e =
      bind-Ends x (track_relay (some r)) v
        (Ends-then (register_relay r) update_relay_state (register_relay-Keeps r)
          update_relay_state-Ends)
        e
  tracked (ok a, s) none v h e = h refl
  tracked (err a, s) none v h e = cc
  tracked (unfinished, s) none v h e = cc

module _ ⦃L : Libp2p⦄ ⦃S : Swarm⦄ where
  -- The end of the two handlers of connections.
  afterwards-Ends :
      (fuel now : ℕ) (p : PeerId) (e : SavedNetworkEvent) (m : M (Unit {0}))
      → Keeps m
      → Ends (afterwards fuel now p e m)
  afterwards-Ends fuel now p e m km =
      Ends-then (send_event e) _ (send_event-Keeps IsValid IsValid-marked e) (
        Ends-then m _ km (
          Ends-then (reconcile_peer_connections fuel now p) update_relay_state
            (reconcile-Keeps IsValid IsValid-marked fuel now p) update_relay_state-Ends))

  opened-Ends :
      (fuel now : ℕ) (p : PeerId) (c : ConnectionId) (e : ConnectedPoint)
      → Ends (on_peer_connection_opened fuel now p c e)
  unfolding on_peer_connection_opened step
  opened-Ends fuel now p c e =
      Ends-then (change_view (λ view. step view (connects now p c e)))
        (afterwards fuel now p (connected p c) (meet_target p))
        (change_view-Keeps IsValid IsValid-kept (connects now p c e))
        (afterwards-Ends fuel now p (connected p c) (meet_target p)
          (meet_target-Keeps IsValid IsValid-kept p))

  closed-Ends :
      (fuel now : ℕ) (p : PeerId) (c : ConnectionId) → Ends (on_peer_connection_closed fuel now p c)
  unfolding on_peer_connection_closed step
  closed-Ends fuel now p c =
      Ends-then (change_view (λ view. step view (drops now p c)))
        (afterwards fuel now p (disconnected p c) (leave_target p))
        (change_view-Keeps IsValid IsValid-kept (drops now p c))
        (afterwards-Ends fuel now p (disconnected p c) (leave_target p)
          (leave_target-Keeps IsValid IsValid-kept p))

  -- A handler that computes the relays in use and returns leaves them exact.
  updated-IsInUse :
      (fuel now : ℕ) (event : SwarmEvent) (s : SavedNetwork)
      → updates event ≡ true
      → IsValid s
      → (on_swarm_event fuel now event s).0 ≡ ok tt
      → IsInUse (on_swarm_event fuel now event s).1
  unfolding on_swarm_event
  updated-IsInUse fuel now (connection_established p c e) s u v done =
      tracked (on_peer_connection_opened fuel now p c e s) (extract_relay_peer (remote_addr e))
        (on_peer_connection_opened-Keeps IsValid IsValid-kept fuel now p c e s v)
        (opened-Ends fuel now p c e s v) done
  updated-IsInUse fuel now (connection_closed p c) s u v done = closed-Ends fuel now p c s v done
  updated-IsInUse fuel now (reservation_req_accepted r) s u v done =
      Ends-then (register_relay r) update_relay_state (register_relay-Keeps r)
        update_relay_state-Ends s v done
  updated-IsInUse fuel now _ s u v done = cc

  -- The relay manager is the given one.
  abbrev With : RelayManager → SavedNetwork → Type 0
  With m s = s.relay_manager ≡ m

  With-IsUnaffected : (m : RelayManager) → IsUnaffected (With m) Any
  With-IsUnaffected m = record {
    logs = λ e s quiet h. h;
    dials_known = λ p a s k h. h;
    neutral = λ call s k h. h;
    adds = λ now p a s k h. h;
    nats = λ status s h. h;
  }

  not_updated : (event : SwarmEvent) → updates event ≡ false → (other event ≡ true)
  not_updated (connection_established p c e) u = cc
  not_updated (connection_closed p c) u = cc
  not_updated event u = refl

  other-relay_manager :
      (fuel now : ℕ) (event : SwarmEvent) (s : SavedNetwork)
      → updates event ≡ false
      → (on_swarm_event fuel now event s).1.relay_manager ≡ s.relay_manager
  other-relay_manager fuel now event s u =
      other-Keep (With s.relay_manager) Any (With-IsUnaffected s.relay_manager) fuel now event
        (not_updated event u) (λ k. cc) (λ a k. tt) s refl

  -- No connection opens or closes, and none loses its address.
  other-at :
      (fuel now : ℕ) (event : SwarmEvent) (s : SavedNetwork)
      → updates event ≡ false
      → is_expiry event ≡ false
      → IsValid s
      → (connectivity (on_swarm_event fuel now event s).1.view).at ≡ (connectivity s.view).at
  other-at fuel now event s u x v =
      let (front, back, split, does) =
        first_part (connectivity s.view) (calls_of now event) (on_swarm_event fuel now event s)
          (on_swarm_event-Does fuel now event s v) in
      ap (λ y. y.at) does
      ∙ quiet-at front (connectivity s.view) (
          front_all is_quiet (calls_of now event) front back
            (calls_of-is_quiet now event (not_updated event u) x) split)

  pub at-IsInUse :
      (s t : SavedNetwork)
      → t.relay_manager ≡ s.relay_manager
      → (connectivity t.view).at ≡ (connectivity s.view).at
      → IsInUse s
      → IsInUse t
  at-IsInUse s t m a h r =
      rw m (subst (λ f. (contains s.relay_manager.in_use r ≡ true) ↔ OpenOver r f) (sym a) (h r))

  -- From a valid network in which a relay is in use if and only if some open connection has an
  -- address over it: that is so after every swarm event but an mDNS expiry, if the handler returns
  -- without an error where the event is of a connection or of an accepted reservation.
  pub on_swarm_event-IsInUse :
      (fuel now : ℕ) (event : SwarmEvent) (s : SavedNetwork)
      → is_expiry event ≡ false
      → IsValid s
      → IsInUse s
      → (updates event ≡ true → (on_swarm_event fuel now event s).0 ≡ ok tt)
      → IsInUse (on_swarm_event fuel now event s).1
  on_swarm_event-IsInUse fuel now event s x v h done = elim (Bool-cases (updates event)) [
    | inl u ↦ updated-IsInUse fuel now event s u v (done u)
    | inr u ↦
        at-IsInUse s (on_swarm_event fuel now event s).1 (other-relay_manager fuel now event s u)
          (other-at fuel now event s u x v) h
  ]

  -- Nothing is in use over a view that is empty.
  pub empty-IsInUse :
      (s : SavedNetwork) → s.view ≡ empty_view → s.relay_manager.in_use ≡ [] → IsInUse s
  unfolding get_connection_address find get any
  empty-IsInUse s a b r = rw (a, b) ((λ h. cc), (λ (p, c, e). cc))
