-- ===== src/Network/Settings.antt =====
-- src/network/mod.rs: the active mode, the mode of Kademlia and the target peers after each swarm
-- event.
use mathlib.Core.Path.{fun_ext}
use saved.Base.{
  ℕ, ◌≡◌, refl, sym, ap, ◌∙◌, Bool, true, false, not, ◌&&◌, inl, inr, Option, none, some, List, ◌∷◌,
  arith, Bool-cases, Option-cases, if◌then◌else◌,
}
use saved.Base.Lists.{all, find}
use saved.Libp2p.{Libp2p, PeerId, ConnectionId, ConnectedPoint}
use saved.View.{NetworkView, is_connected, add_connection, remove_connection, remote_addr}
use saved.View.Consistent.{
  Call, IsConsistent, step, connects, disconnects as drops, step-IsConsistent,
}
use saved.View.Spec.{connectivity, step_refines}
use saved.View.Observe.{is_connected-at}
use saved.Relay.{contains}
use saved.Relay.Address.{extract_relay_peer}
use saved.Network.State.{
  KadMode, client, SavedNetwork, SavedNetworkEvent, connected, disconnected, broadcasts, Swarm, M,
  ◌>>◌,
}
use saved.Network.Api.{set_active_mode, set_kad_enabled, set_mdns_enabled}
use saved.Network.Handlers.{
  leave_target, meet_target, on_peer_connection_opened, on_peer_connection_closed, send_event,
  update_relay_state,
}
use saved.Network.Reconcile.{reconcile_peer_connections}
use saved.Network.Events.{
  SwarmEvent, connection_established, connection_closed, track_relay, on_swarm_event,
}
use saved.Network.Modes.{set_active_mode_lem, set_active_mode-io, find-all, find-not-all}
use saved.Network.Closed.{Keeps, bind-Keeps}
use saved.Network.Invariant.{IsValid}
use saved.Network.Invariant.Loop.{on_swarm_event-IsValid}
use saved.Network.Invariant.Connectivity.{call_of, on_swarm_event-connectivity}
use saved.Network.Unaffected.{Any, IsUnaffected, track_relay-Keep}
use saved.Network.Unaffected.Events.{other-Keep, end-Keep}
use saved.Network.Announced.Told.{IsListened}

module _ ⦃L : Libp2p⦄ where
  abbrev pub Settings : Type 0
  Settings = Bool × Option KadMode × List PeerId

  abbrev pub settings : SavedNetwork → Settings
  settings s = (s.active_mode, s.kad, s.target_peers)

  -- In active mode Kademlia runs as a client, and otherwise it does not run.
  abbrev pub in_mode : Bool → SavedNetwork → Settings
  in_mode active s = (active, if active then some client else none, s.target_peers)

  abbrev Has : Settings → SavedNetwork → Type 0
  Has x s = settings s ≡ x

  Has-IsUnaffected : (x : Settings) → IsUnaffected (Has x) Any
  Has-IsUnaffected x = record {
    logs = λ e s quiet h. h;
    dials_known = λ p a s k h. h;
    neutral = λ call s k h. h;
    adds = λ now p a s k h. h;
    nats = λ status s h. h;
  }

  connected_in :
      (v w : NetworkView) (p : PeerId)
      → IsConsistent v
      → IsConsistent w
      → connectivity v ≡ connectivity w
      → is_connected v p ≡ true
      → is_connected w p ≡ true
  connected_in v w p cv cw e h =
      let (c, a, at) = (is_connected-at v p cv).0 h in
      (is_connected-at w p cw).1 c a (ap (λ x. x.at p c) (sym e) ∙ at)

  -- Whether a peer is connected depends on the open connections alone.
  is_connected-same :
      (v w : NetworkView) (p : PeerId)
      → IsConsistent v
      → IsConsistent w
      → connectivity v ≡ connectivity w
      → is_connected v p ≡ is_connected w p
  is_connected-same v w p cv cw e =
      ground (arith, connected_in v w p cv cw e, connected_in w v p cw cv (sym e))

module _ ⦃L : Libp2p⦄ ⦃S : Swarm⦄ where
  set_active_mode-settings :
      (active : Bool) (s : SavedNetwork) → settings (set_active_mode active s).1 ≡ in_mode active s
  unfolding set_active_mode set_kad_enabled set_mdns_enabled
  set_active_mode-settings false s = refl
  set_active_mode-settings true s = elim (Bool-cases s.mdns) [
    | inl on ↦ ap (λ r. settings r.1) (set_active_mode_lem true s (inl on))
    | inr off ↦ elim (Bool-cases (S.mdns_ok s.log)) [
      | inl starts ↦ ap (λ r. settings r.1) (set_active_mode_lem true s (inr starts))
      | inr fails ↦ ap (λ r. settings r.1) (set_active_mode-io s off fails)
    ]
  ]

  meet_target-settings :
      (p : PeerId) (s : SavedNetwork)
      → settings (meet_target p s).1 ≡ (
          if contains s.target_peers p
          then in_mode (not (all (is_connected s.view) s.target_peers)) s
          else settings s)
  unfolding meet_target
  meet_target-settings p s =
      elim (Option-cases (find (λ t. not (is_connected s.view t)) s.target_peers)) [
        | inl n ↦
            ground (
              arith,
              find-all (is_connected s.view) s.target_peers,
              set_active_mode-settings false s,
            )
        | inr (t, n) ↦ ground (
          arith,
          find-not-all (is_connected s.view) s.target_peers t,
          set_active_mode-settings true s,
        )
      ]

  leave_target-settings :
      (p : PeerId) (s : SavedNetwork)
      → settings (leave_target p s).1 ≡ (
          if contains s.target_peers p && not (is_connected s.view p)
          then in_mode true s
          else settings s)
  unfolding leave_target
  leave_target-settings p s = ground (arith, set_active_mode-settings true s)

  -- The event is sent, `m` leaves the given settings, and what follows keeps them.
  sent_then :
      (e : SavedNetworkEvent) (m rest : M (Unit {0})) (s : SavedNetwork) (x : Settings)
      → IsListened
      → Has x (m (record s { log = broadcasts e ∷ s.log })).1
      → Keeps (Has x) rest
      → Has x ((send_event e >> (m >> rest)) s).1
  unfolding send_event
  sent_then e m rest s x l h k =
      rw (l s.log, send_event)
        (bind-Keeps (Has x) (m (record s { log = broadcasts e ∷ s.log })) (λ _. rest) h (λ _. k))

  -- The view after the change that an event makes, as far as `is_connected` reads it.
  settled_view :
      (fuel now : ℕ) (event : SwarmEvent) (call : Call) (s : SavedNetwork)
      → IsValid s
      → call_of now event ≡ some call
      → is_connected (step s.view call) ≡ is_connected (on_swarm_event fuel now event s).1.view
  settled_view fuel now event call s v e = fun_ext (λ q.
      is_connected-same (step s.view call) (on_swarm_event fuel now event s).1.view q
        (step-IsConsistent s.view call v.view_ok)
        (on_swarm_event-IsValid fuel now event s v).view_ok
        (step_refines s.view call v.view_ok
          ∙ sym (on_swarm_event-connectivity fuel now event call s v e)))

  -- The settings after an event, by the settings before it and the view after it.
  abbrev pub settled : SwarmEvent → SavedNetwork → NetworkView → Settings
  settled (connection_established p c e) s view =
      if contains s.target_peers p
      then in_mode (not (all (is_connected view) s.target_peers)) s
      else settings s
  settled (connection_closed p c) s view =
      if contains s.target_peers p && not (is_connected view p) then in_mode true s else settings s
  settled event s view = settings s

  opened-settings :
      (fuel now : ℕ) (p : PeerId) (c : ConnectionId) (e : ConnectedPoint) (s : SavedNetwork)
      → IsListened
      → settings (on_swarm_event fuel now (connection_established p c e) s).1
        ≡ settled (connection_established p c e) s (add_connection now s.view p c e)
  unfolding on_swarm_event on_peer_connection_opened
  opened-settings fuel now p c e s l =
      let x = settled (connection_established p c e) s (add_connection now s.view p c e) in
      let added = record s { view = add_connection now s.view p c e } in
      bind-Keeps (Has x) (on_peer_connection_opened fuel now p c e s)
        (λ _. track_relay (extract_relay_peer (remote_addr e)))
        (sent_then (connected p c) (meet_target p)
          (reconcile_peer_connections fuel now p >> update_relay_state) added x l
          (meet_target-settings p (record added { log = broadcasts (connected p c) ∷ s.log }))
          (end-Keep (Has x) Any (Has-IsUnaffected x) fuel now p (λ m s h. h)))
        (λ _.
          track_relay-Keep (Has x) Any (Has-IsUnaffected x) (λ m s h. h)
            (extract_relay_peer (remote_addr e)))

  closed-settings :
      (fuel now : ℕ) (p : PeerId) (c : ConnectionId) (s : SavedNetwork)
      → IsListened
      → settings (on_swarm_event fuel now (connection_closed p c) s).1
        ≡ settled (connection_closed p c) s (remove_connection now s.view p c)
  unfolding on_swarm_event on_peer_connection_closed
  closed-settings fuel now p c s l =
      let x = settled (connection_closed p c) s (remove_connection now s.view p c) in
      let removed = record s { view = remove_connection now s.view p c } in
      sent_then (disconnected p c) (leave_target p)
        (reconcile_peer_connections fuel now p >> update_relay_state) removed x l
        (leave_target-settings p (record removed { log = broadcasts (disconnected p c) ∷ s.log }))
        (end-Keep (Has x) Any (Has-IsUnaffected x) fuel now p (λ m s h. h))

  -- From a valid network whose events always have a receiver: when a connection to a target peer
  -- has opened, the node is in active mode exactly if some target peer is not connected; when
  -- one has closed, it is in active mode if the peer is a target that is not connected any more,
  -- and the mode is as before otherwise. Where the mode is set, Kademlia runs as a client in
  -- active mode and does not run else. No other event changes the mode or Kademlia, and none the
  -- target peers.
  pub on_swarm_event-settings :
      (fuel now : ℕ) (event : SwarmEvent) (s : SavedNetwork)
      → IsListened
      → IsValid s
      → settings (on_swarm_event fuel now event s).1
        ≡ settled event s (on_swarm_event fuel now event s).1.view
  unfolding step
  on_swarm_event-settings fuel now (connection_established p c e) s l v =
      opened-settings fuel now p c e s l
      ∙ ap
          (λ up.
            if contains s.target_peers p
            then in_mode (not (all up s.target_peers)) s
            else settings s)
          (settled_view fuel now (connection_established p c e) (connects now p c e) s v refl)
  on_swarm_event-settings fuel now (connection_closed p c) s l v =
      closed-settings fuel now p c s l
      ∙ ap (λ up. if contains s.target_peers p && not (up p) then in_mode true s else settings s)
          (settled_view fuel now (connection_closed p c) (drops now p c) s v refl)
  on_swarm_event-settings fuel now event s l v =
      other-Keep (Has (settings s)) Any (Has-IsUnaffected (settings s)) fuel now event refl
        (λ u m s h. h) (λ a k. tt) s refl
