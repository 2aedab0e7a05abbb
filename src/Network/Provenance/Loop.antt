-- ===== src/Network/Provenance/Loop.antt =====
-- src/network/mod.rs: the addresses that the turns of the event loop bring, and those that are
-- dialed.
use mathlib.Core.Path.{subst}
use saved.Base.{
  ℕ, ◌≡◌, refl, ap, Bool, true, false, ◌||◌, Option, none, some, List, [], ◌∷◌, arith,
  if◌then◌else◌,
}
use saved.Base.Lists.{any}
use saved.Base.Assoc.{get}
use saved.Libp2p.{Libp2p, PeerId, ConnectionId, Multiaddr, ConnectedPoint, same_addr}
use saved.Keygen.{Crypto}
use saved.View.{remote_addr}
use saved.View.Count.{same_addr_refl}
use saved.View.Consistent.{step, disconnects as drops, empty_view-IsConsistent}
use saved.Relay.Address.{extract_relay_peer, is_p2p}
use saved.Network.State.{
  KadMode, SavedNetwork, SavedNetworkEvent, SavedError, connected, disconnected,
  dial_addr_missing_p2p, Swarm, listens, kad_bootstraps, M, ◌>>=◌, ◌>>◌, pure, throw,
}
use saved.Network.Api.{kad_bootstrap, dial, swarm_dial, add_target_peer, remove_target_peer}
use saved.Network.Reconcile.{reconcile_peer_connections}
use saved.Network.Handlers.{
  send_event, leave_target, meet_target, update_relay_state, on_peer_connection_closed,
  on_peer_connection_opened,
}
use saved.Network.Events.{
  SwarmEvent, connection_established, connection_closed, track_relay, on_swarm_event,
}
use saved.Network.External.{Platform}
use saved.Network.Rpc.{SavedNetworkRpc, dispatch_rpc}
use saved.Network.Rpc
use saved.Network.{Ready, event_loop, initial, new}
use saved.Network.Start.{new-Keeps}
use saved.Network.Closed.{Keeps, Keeps-then, Keeps-if, Keeps-bind}
use saved.Network.Closed.Turns.{AllAllow, event_loop-Keeps}
use saved.Network.Unaffected.{track_relay-Keep}
use saved.Network.Unaffected.Events.{carries, other-Keep, end-Keep}
use saved.Network.Unaffected.Modes.{
  set_mdns_enabled-Keep, set_kad_enabled-Keep, kad_find_peer-Keep, leave_target-Keep,
  meet_target-Keep,
}
use saved.Network.Provenance.{
  AllDials, IsSourced, connect-IsSourced, IsSourced-IsUnaffected, IsSourced-IsRelayFree,
  IsSourced-IsModeFree, send_event-IsSourced,
}

module _ ⦃L : Libp2p⦄ where
  abbrev asks_for : Option SavedNetworkRpc → Multiaddr → Bool
  asks_for (some (Rpc.dial b)) a = same_addr a b
  asks_for _ a = false

  abbrev reports : Option (ℕ × SwarmEvent) → Multiaddr → Bool
  reports none a = false
  reports (some (now, event)) a = carries event a

  -- An address is among those that the requests `dial` and the swarm events of the turns name.
  abbrev pub told : List Ready → Multiaddr → Bool
  told turns a = any (λ r. asks_for r.command a || reports r.event a) turns

module _ ⦃L : Libp2p⦄ ⦃S : Swarm⦄ (T : Multiaddr → Type 0) where
  abbrev Keep : {A : Type 0} → M A → Type 0
  Keep m = Keeps (IsSourced T) m

  -- What the two handlers of connections do after the change of the view.
  afterwards-Keep :
      (fuel now : ℕ) (p : PeerId) (e : SavedNetworkEvent) (m : M (Unit {0}))
      → Keep m
      → Keep (send_event e >> (m >> (reconcile_peer_connections fuel now p >> update_relay_state)))
  afterwards-Keep fuel now p e m k =
      Keeps-then (IsSourced T) (send_event e) _ (send_event-IsSourced T e) (
        Keeps-then (IsSourced T) m _ k (
          end-Keep (IsSourced T) T (IsSourced-IsUnaffected T) fuel now p (IsSourced-IsRelayFree T)))

  closed-Keep :
      (fuel now : ℕ) (p : PeerId) (c : ConnectionId)
      → Keep (on_swarm_event fuel now (connection_closed p c))
  unfolding on_swarm_event on_peer_connection_closed step
  closed-Keep fuel now p c s h =
      afterwards-Keep fuel now p (disconnected p c) (leave_target p)
        (leave_target-Keep (IsSourced T) (IsSourced-IsModeFree T) p) _
        ((IsSourced-IsUnaffected T).neutral (drops now p c) s refl h)

  opened-Keep :
      (fuel now : ℕ) (p : PeerId) (c : ConnectionId) (e : ConnectedPoint)
      → T (remote_addr e)
      → Keep (on_peer_connection_opened fuel now p c e)
  unfolding on_peer_connection_opened step
  opened-Keep fuel now p c e t s h =
      afterwards-Keep fuel now p (connected p c) (meet_target p)
        (meet_target-Keep (IsSourced T) (IsSourced-IsModeFree T) p) _
        (connect-IsSourced T now p c e s t h)

  event-Keep :
      (fuel now : ℕ) (event : SwarmEvent)
      → ((a : Multiaddr) → carries event a ≡ true → T a)
      → Keep (on_swarm_event fuel now event)
  unfolding on_swarm_event
  event-Keep fuel now (connection_established p c e) t =
      Keeps-then (IsSourced T) (on_peer_connection_opened fuel now p c e)
        (track_relay (extract_relay_peer (remote_addr e)))
        (opened-Keep fuel now p c e (t (remote_addr e) (same_addr_refl (remote_addr e))))
        (track_relay-Keep (IsSourced T) T (IsSourced-IsUnaffected T) (IsSourced-IsRelayFree T)
          (extract_relay_peer (remote_addr e)))
  event-Keep fuel now (connection_closed p c) t = closed-Keep fuel now p c
  event-Keep fuel now event t =
      other-Keep (IsSourced T) T (IsSourced-IsUnaffected T) fuel now event refl
        (λ u. IsSourced-IsRelayFree T) t

  bootstrapped :
      (k : Option KadMode) (s : SavedNetwork)
      → IsSourced T s
      → IsSourced T (elim k [ some _ ↦ record s { log = kad_bootstraps ∷ s.log } | none ↦ s ])
  bootstrapped none s h = h
  bootstrapped (some m) s h = record { view_ok = h.view_ok; known = h.known; dialed = h.dialed }

  bootstrap-Keep : Keep kad_bootstrap
  unfolding kad_bootstrap
  bootstrap-Keep s h = subst (IsSourced T) (ground arith) (bootstrapped s.kad s h)

  dial-Keep : (a : Multiaddr) → T a → Keep (dial a)
  unfolding dial swarm_dial
  dial-Keep a t =
      let report : Bool → M (Unit {0}) =
        λ accepted. if accepted then pure tt else throw SavedError.dial in
      Keeps-if (IsSourced T) (any is_p2p (L.iter a)) (swarm_dial a >>= report)
        (throw (dial_addr_missing_p2p a))
        (Keeps-bind (IsSourced T) (swarm_dial a) report
          (λ s h. record { view_ok = h.view_ok; known = h.known; dialed = (t, h.dialed) })
          (λ accepted.
            Keeps-if (IsSourced T) accepted (pure tt) (throw SavedError.dial) (λ s h. h)
              (λ s h. h)))
        (λ s h. h)

  request-Keep :
      (rpc : SavedNetworkRpc)
      → ((a : Multiaddr) → asks_for (some rpc) a ≡ true → T a)
      → Keep (dispatch_rpc rpc)
  unfolding dispatch_rpc add_target_peer remove_target_peer
  request-Keep (Rpc.set_mdns_enabled enabled) t =
      set_mdns_enabled-Keep (IsSourced T) (IsSourced-IsModeFree T) enabled
  request-Keep (Rpc.set_kad_enabled enabled mode) t =
      set_kad_enabled-Keep (IsSourced T) (IsSourced-IsModeFree T) enabled mode
  request-Keep (Rpc.kad_find_peer target) t =
      kad_find_peer-Keep (IsSourced T) (IsSourced-IsModeFree T) target
  request-Keep Rpc.kad_bootstrap t = bootstrap-Keep
  request-Keep (Rpc.dial a) t = dial-Keep a (t a (same_addr_refl a))
  request-Keep (Rpc.add_target_peer target) t = λ s h. (IsSourced-IsModeFree T).same s _ h refl refl
  request-Keep (Rpc.remove_target_peer target) t =
      λ s h. (IsSourced-IsModeFree T).same s _ h refl refl

  all_turns :
      (fuel : ℕ) (turns : List Ready)
      → ((a : Multiaddr) → told turns a ≡ true → T a)
      → AllAllow (IsSourced T) fuel turns
  unfolding any
  all_turns fuel [] t = tt
  all_turns fuel (ready ∷ turns) t = (
    (λ rpc e. request-Keep rpc (λ a k. t a (ground (arith, ap (λ r. asks_for r a) e, k)))),
    (λ now event e.
        event-Keep fuel now event (λ a k. t a (ground (arith, ap (λ r. reports r a) e, k)))),
    all_turns fuel turns (λ a k. t a (ground (arith, k))),
  )

module _ ⦃L : Libp2p⦄ where
  initial-IsSourced : (T : Multiaddr → Type 0) → IsSourced T initial
  unfolding get any
  initial-IsSourced T = record {
    view_ok = empty_view-IsConsistent;
    known = λ p a h. cc;
    dialed = tt;
  }

module _ ⦃L : Libp2p⦄ ⦃S : Swarm⦄ ⦃C : Crypto⦄ ⦃T : Platform⦄ where
  -- From the start of the node, after any turns of the event loop, every address that was dialed
  -- is one that a request `dial` or a swarm event of these turns named.
  pub event_loop-AllDials :
      (fuel : ℕ) (turns : List Ready) (keypair : C.Keypair)
      → AllDials (λ a. told turns a ≡ true) (event_loop fuel turns (new keypair).1).1.log
  event_loop-AllDials fuel turns keypair =
      let Told : Multiaddr → Type 0 = λ a. told turns a ≡ true in
      let free = IsSourced-IsModeFree Told in
      (event_loop-Keeps (IsSourced Told) fuel turns (new keypair).1
        (all_turns Told fuel turns (λ a h. h))
        (new-Keeps (IsSourced Told)
          (λ addr s h. (IsSourced-IsUnaffected Told).logs (listens addr) s (refl, λ b q d. refl) h)
          (λ s h. free.same s _ h refl refl) (λ s h. free.same s _ h refl refl) keypair
          (initial-IsSourced Told))).dialed
