-- ===== src/Network/Closed/Handlers.antt =====
-- src/network/mod.rs: the handlers keep what every step of the network keeps.
use saved.Base.{
  ℕ, refl, true, false, not, inl, inr, Option, none, some, List, [], ◌∷◌, arith, Bool-cases,
  Option-cases,
}
use saved.Base.Lists.{find}
use saved.Libp2p.{Libp2p, PeerId, ConnectionId, Multiaddr, ConnectedPoint}
use saved.View.Peer.{get_connection_address}
use saved.View.{
  info_of, add_address, remove_address, add_connection, remove_connection, is_connected,
}
use saved.View.Consistent.{
  Call, step, adds_address, removes_address, connects, disconnects as drops, pings,
}
use saved.Relay.{contains}
use saved.Network.State.{
  SavedNetwork, SavedNetworkEvent, connected, disconnected, Swarm, Effect, kad_adds, kad_removes,
  NatStatus, M, ◌>>◌, pure,
}
use saved.Network.Reconcile.{reconcile_peer_connections, should_skip_for_dial}
use saved.Network.Handlers.{
  change_view, if_kad, disconnect_all, update_relay_state, register_relay, send_event,
  learn_address, on_add_address, on_remove_address, leave_target, on_peer_connection_closed,
  meet_target, on_peer_connection_opened, on_nat_status_change,
}
use saved.Network.Events.{on_ping, request_reservation, track_relay}
use saved.Network.Closed.{Keeps, IsClosedRound, IsClosed, Keeps-then, Keeps-if, reconcile-Keeps}

module _ ⦃L : Libp2p⦄ ⦃S : Swarm⦄ (P : SavedNetwork → Type 0) (R : IsClosedRound P) where
  pub if_kad-Keeps : (e : Effect) → Keeps P (if_kad e)
  unfolding if_kad
  if_kad-Keeps e s h = R.same s _ h (ground arith) (ground arith) (ground arith) (ground arith)

  pub disconnect_all-Keeps : (ps : List PeerId) → Keeps P (disconnect_all ps)
  unfolding disconnect_all
  disconnect_all-Keeps [] s h = h
  disconnect_all-Keeps (p ∷ ps) s h = disconnect_all-Keeps ps _ (R.same s _ h refl refl refl refl)

  pub request_reservation-Keeps : (p : PeerId) → Keeps P (request_reservation p)
  unfolding request_reservation
  request_reservation-Keeps p s h =
      R.same s _ h (ground arith) (ground arith) (ground arith) (ground arith)

  pub send_event-Keeps : (e : SavedNetworkEvent) → Keeps P (send_event e)
  unfolding send_event
  send_event-Keeps e s h = R.same s _ h (ground arith) (ground arith) (ground arith) (ground arith)

  pub on_nat_status_change-Keeps : (n : NatStatus) → Keeps P (on_nat_status_change n)
  unfolding on_nat_status_change
  on_nat_status_change-Keeps n s h = R.same s _ h refl refl refl refl

module _ ⦃L : Libp2p⦄ ⦃S : Swarm⦄ (P : SavedNetwork → Type 0) (C : IsClosed P) where
  pub change_view-Keeps : (call : Call) → Keeps P (change_view (λ view. step view call))
  change_view-Keeps call s h = C.calls call s h

  pub update_relay_state-Keeps : Keeps P update_relay_state
  unfolding update_relay_state
  update_relay_state-Keeps s h = disconnect_all-Keeps P C.round _ _ (C.prunes s h)

  pub register_update-Keeps : (r : PeerId) → Keeps P (register_relay r >> update_relay_state)
  unfolding update_relay_state
  register_update-Keeps r s h = disconnect_all-Keeps P C.round _ _ (C.tracks r s h)

  pub on_ping-Keeps :
      (p : PeerId) (c : ConnectionId) (result : Option ℕ) → Keeps P (on_ping p c result)
  unfolding on_ping step
  on_ping-Keeps p c result s h = elim (Option-cases (info_of s.view p)) [
    | inl e ↦ rw (e, on_ping) h
    | inr (info, e) ↦ elim (Option-cases (get_connection_address info c)) [
      | inl n ↦ rw (e, on_ping, n) h
      | inr (addr, n) ↦ elim (Option-cases result) [
        | inl r ↦ rw (e, on_ping, n, r) h
        | inr (rtt, r) ↦ rw (e, on_ping, n, r) (C.calls (pings p rtt) s h)
      ]
    ]
  ]

  pub track_relay-Keeps : (r : Option PeerId) → Keeps P (track_relay r)
  unfolding track_relay
  track_relay-Keeps none s h = h
  track_relay-Keeps (some r) s h = register_update-Keeps r s h

  pub learn_address-Keeps :
      (fuel now : ℕ) (p : PeerId) (addr : Multiaddr) → Keeps P (learn_address fuel now p addr)
  unfolding learn_address step
  learn_address-Keeps fuel now p addr s h = elim (Bool-cases (add_address now s.view p addr).1) [
    | inr old ↦ rw (old, learn_address) (C.calls (adds_address now p addr) s h)
    | inl fresh ↦
        rw (fresh, learn_address)
          (Keeps-then P (if_kad (kad_adds p addr)) (reconcile_peer_connections fuel now p)
            (if_kad-Keeps P C.round (kad_adds p addr)) (reconcile-Keeps P C.round fuel now p) _
            (C.calls (adds_address now p addr) s h))
  ]

  pub on_add_address-Keeps :
      (fuel now : ℕ) (p : PeerId) (addr : Multiaddr) → Keeps P (on_add_address fuel now p addr)
  unfolding on_add_address
  on_add_address-Keeps fuel now p addr =
      Keeps-if P (should_skip_for_dial addr) (pure tt) (learn_address fuel now p addr) (λ s h. h)
        (learn_address-Keeps fuel now p addr)

  pub on_remove_address-Keeps :
      (fuel now : ℕ) (p : PeerId) (addr : Multiaddr) → Keeps P (on_remove_address fuel now p addr)
  unfolding on_remove_address step
  on_remove_address-Keeps fuel now p addr =
      Keeps-then P (change_view (λ view. remove_address now view p addr))
        (if_kad (kad_removes p addr) >> reconcile_peer_connections fuel now p)
        (change_view-Keeps (removes_address now p addr))
        (Keeps-then P (if_kad (kad_removes p addr)) (reconcile_peer_connections fuel now p)
          (if_kad-Keeps P C.round (kad_removes p addr)) (reconcile-Keeps P C.round fuel now p))

  pub leave_target-Keeps : (p : PeerId) → Keeps P (leave_target p)
  unfolding leave_target
  leave_target-Keeps p s h = elim (Bool-cases (contains s.target_peers p)) [
    | inr e ↦ rw (e, leave_target) h
    | inl e ↦ elim (Bool-cases (is_connected s.view p)) [
      | inl d ↦ rw (e, d, leave_target) h
      | inr d ↦ rw (e, d, leave_target) (C.modes true p s e h)
    ]
  ]

  pub meet_target-Keeps : (p : PeerId) → Keeps P (meet_target p)
  unfolding meet_target
  meet_target-Keeps p s h = elim (Bool-cases (contains s.target_peers p)) [
    | inr e ↦ rw (e, meet_target) h
    | inl e ↦ elim (Option-cases (find (λ t. not (is_connected s.view t)) s.target_peers)) [
      | inl n ↦ rw (e, meet_target, n) (C.modes false p s e h)
      | inr (t, n) ↦ rw (e, meet_target, n) (C.modes true p s e h)
    ]
  ]

  -- The end that the two handlers of connections share.
  abbrev then_reconcile : ℕ → ℕ → PeerId → M (Unit {0}) → M (Unit {0})
  then_reconcile fuel now p m = m >> (reconcile_peer_connections fuel now p >> update_relay_state)

  pub after_change-Keeps :
      (fuel now : ℕ) (p : PeerId) (e : SavedNetworkEvent) (m : M (Unit {0}))
      → Keeps P m
      → Keeps P (send_event e >> then_reconcile fuel now p m)
  after_change-Keeps fuel now p e m k =
      Keeps-then P (send_event e) (then_reconcile fuel now p m) (send_event-Keeps P C.round e) (
        Keeps-then P m _ k (
          Keeps-then P (reconcile_peer_connections fuel now p) update_relay_state
            (reconcile-Keeps P C.round fuel now p) update_relay_state-Keeps))

  pub on_peer_connection_closed-Keeps :
      (fuel now : ℕ) (p : PeerId) (c : ConnectionId)
      → Keeps P (on_peer_connection_closed fuel now p c)
  unfolding on_peer_connection_closed step
  on_peer_connection_closed-Keeps fuel now p c =
      Keeps-then P (change_view (λ view. remove_connection now view p c))
        (send_event (disconnected p c) >> then_reconcile fuel now p (leave_target p))
        (change_view-Keeps (drops now p c))
        (after_change-Keeps fuel now p (disconnected p c) (leave_target p) (leave_target-Keeps p))

  pub on_peer_connection_opened-Keeps :
      (fuel now : ℕ) (p : PeerId) (c : ConnectionId) (endpoint : ConnectedPoint)
      → Keeps P (on_peer_connection_opened fuel now p c endpoint)
  unfolding on_peer_connection_opened step
  on_peer_connection_opened-Keeps fuel now p c endpoint =
      Keeps-then P (change_view (λ view. add_connection now view p c endpoint))
        (send_event (connected p c) >> then_reconcile fuel now p (meet_target p))
        (change_view-Keeps (connects now p c endpoint))
        (after_change-Keeps fuel now p (connected p c) (meet_target p) (meet_target-Keeps p))
