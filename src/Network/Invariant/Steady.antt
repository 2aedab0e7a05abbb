-- ===== src/Network/Invariant/Steady.antt =====
-- src/network/mod.rs: the methods that leave the view as it is, and those that leave its connections
-- and its known addresses as they are.
use saved.Base.{ℕ, ◌≡◌, refl, ap, ◌∙◌, Bool, true, false, Option, none, some, List, [], ◌∷◌, arith}
use saved.Libp2p.{Libp2p, PeerId}
use saved.View.{NetworkView}
use saved.View.Consistent.{fails}
use saved.View.Spec.{Connectivity, connectivity, spec_step, step_refines}
use saved.Network.State.{
  KadMode, auto, client, SavedNetwork, SavedNetworkEvent, Swarm, Effect, disconnects, Outcome, ok,
  err, unfinished, M, ◌>>◌, bind,
}
use saved.Network.Api.{
  set_mdns_enabled, set_kad_enabled, kad_find_peer, find_targets, set_active_mode,
}
use saved.Network.Reconcile.{reconcile_peer_connections}
use saved.Network.Handlers.{
  if_kad, disconnect_all, update_relay_state, send_event, leave_target, meet_target,
}
use saved.Network.Events.{track_relay}
use saved.Network.Closed.{IsClosedRound, reconcile-Keeps}
use saved.Network.Invariant.{IsValid, Keeps, IsValid-marked}

module _ ⦃L : Libp2p⦄ where
  -- A method that leaves the view as it is.
  abbrev pub Blind : {A : Type 0} → M A → Type 0
  Blind m = (s : SavedNetwork) → (m s).1.view ≡ s.view

  pub bind-Blind :
      {A B : Type 0} (r : Outcome A × SavedNetwork) (f : A → M B) (view : NetworkView)
      → r.1.view ≡ view
      → ((a : A) → Blind (f a))
      → (bind r f).1.view ≡ view
  bind-Blind (ok a, s) f view h k = k a s ∙ h
  bind-Blind (err e, s) f view h k = h
  bind-Blind (unfinished, s) f view h k = h

  pub Blind-then : {B : Type 0} (m : M (Unit {0})) (k : M B) → Blind m → Blind k → Blind (m >> k)
  Blind-then m k bm bk s = bind-Blind (m s) (λ _. k) s.view (bm s) (λ _. bk)

  -- A method that leaves the connections and the known addresses as they are.
  abbrev pub Steady : {A : Type 0} → M A → Type 0
  Steady m =
      (c : Connectivity) (s : SavedNetwork)
      → IsValid s
      → connectivity s.view ≡ c
      → connectivity (m s).1.view ≡ c

  pub Blind-Steady : {A : Type 0} (m : M A) → Blind m → Steady m
  Blind-Steady m b c s v h = ap connectivity (b s) ∙ h

  pub bind-Steady :
      {A B : Type 0} (r : Outcome A × SavedNetwork) (f : A → M B) (c : Connectivity)
      → IsValid r.1
      → connectivity r.1.view ≡ c
      → ((a : A) → Steady (f a))
      → connectivity (bind r f).1.view ≡ c
  bind-Steady (ok a, s) f c v h k = k a c s v h
  bind-Steady (err e, s) f c v h k = h
  bind-Steady (unfinished, s) f c v h k = h

  pub Steady-then :
      {B : Type 0} (m : M (Unit {0})) (k : M B) → Keeps m → Steady m → Steady k → Steady (m >> k)
  Steady-then m k km sm sk c s v h = bind-Steady (m s) (λ _. k) c (km s v) (sm c s v h) (λ _. sk)

  pub disconnect_all-Blind : (ps : List PeerId) → Blind (disconnect_all ps)
  unfolding disconnect_all
  disconnect_all-Blind [] s = refl
  disconnect_all-Blind (p ∷ ps) s =
      disconnect_all-Blind ps (record s { log = disconnects p ∷ s.log })

  pub update_relay_state-Blind : Blind update_relay_state
  unfolding update_relay_state
  update_relay_state-Blind s = disconnect_all-Blind _ _

  pub if_kad-Blind : (e : Effect) → Blind (if_kad e)
  unfolding if_kad
  if_kad-Blind e s = ground arith

  pub track_relay-Blind : (r : Option PeerId) → Blind (track_relay r)
  unfolding track_relay
  track_relay-Blind none s = refl
  track_relay-Blind (some r) s = update_relay_state-Blind _

module _ ⦃L : Libp2p⦄ ⦃S : Swarm⦄ where
  pub send_event-Blind : (e : SavedNetworkEvent) → Blind (send_event e)
  unfolding send_event
  send_event-Blind e s = ground arith

  pub set_mdns_enabled-Blind : (b : Bool) → Blind (set_mdns_enabled b)
  unfolding set_mdns_enabled
  set_mdns_enabled-Blind b s = ground arith

  pub set_kad_enabled-Blind : (b : Bool) (mode : KadMode) → Blind (set_kad_enabled b mode)
  unfolding set_kad_enabled
  set_kad_enabled-Blind b mode s = ground arith

  pub kad_find_peer-Blind : (p : PeerId) → Blind (kad_find_peer p)
  unfolding kad_find_peer
  kad_find_peer-Blind p s = ground arith

  pub find_targets-Blind : (ts : List PeerId) → Blind (find_targets ts)
  unfolding find_targets
  find_targets-Blind [] s = refl
  find_targets-Blind (t ∷ ts) s =
      Blind-then (kad_find_peer t) (find_targets ts) (kad_find_peer-Blind t) (find_targets-Blind ts)
        s

  pub set_active_mode-Blind : (b : Bool) → Blind (set_active_mode b)
  unfolding set_active_mode
  set_active_mode-Blind false s =
      set_kad_enabled-Blind false auto (record s { active_mode = false })
  set_active_mode-Blind true s =
      Blind-then (set_kad_enabled true client) _ (set_kad_enabled-Blind true client)
        (Blind-then (set_mdns_enabled true) (λ t. find_targets t.target_peers t)
          (set_mdns_enabled-Blind true) (λ t. find_targets-Blind t.target_peers t))
        (record s { active_mode = true })

  pub leave_target-Blind : (p : PeerId) → Blind (leave_target p)
  unfolding leave_target
  leave_target-Blind p s = ground (arith, set_active_mode-Blind true s)

  pub meet_target-Blind : (p : PeerId) → Blind (meet_target p)
  unfolding meet_target
  meet_target-Blind p s =
      ground (arith, set_active_mode-Blind true s, set_active_mode-Blind false s)

  -- Validity, and the connections and known addresses that are given.
  abbrev pub ValidAt : Connectivity → SavedNetwork → Type 0
  ValidAt c s = IsValid s × (connectivity s.view ≡ c)

  pub ValidAt-marked : (c : Connectivity) → IsClosedRound (ValidAt c)
  unfolding spec_step
  ValidAt-marked c = record {
    same = λ s t h a b d e. (IsValid-marked.same s t h.0 a b d e, ap connectivity a ∙ h.1);
    marks = λ now p addr s h. (
      IsValid-marked.marks now p addr s h.0,
      step_refines s.view (fails now p addr) h.0.view_ok ∙ h.1,
    );
  }

  -- `reconcile_peer_connections` leaves the connections and the known addresses of the view as they
  -- are, however many addresses it dials in vain.
  pub reconcile-connectivity :
      (fuel now : ℕ) (p : PeerId) (c : Connectivity) (s : SavedNetwork)
      → IsValid s
      → connectivity s.view ≡ c
      → connectivity (reconcile_peer_connections fuel now p s).1.view ≡ c
  reconcile-connectivity fuel now p c s v h =
      (reconcile-Keeps (ValidAt c) (ValidAt-marked c) fuel now p s (v, h)).1
