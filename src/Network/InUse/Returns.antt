-- ===== src/Network/InUse/Returns.antt =====
-- src/network/mod.rs: the handlers of connections return no error where the events have a receiver
-- and mDNS can be started.
use saved.Base.{
  ℕ, zero, suc, ◌≡◌, ◌⊎◌, refl, Bool, true, false, inl, inr, Option, none, some, List, [], ◌∷◌,
  Option-cases, if◌then◌else◌, arith,
}
use saved.Base.Lists.{find}
use saved.Libp2p.{Libp2p, PeerId, ConnectionId, Multiaddr}
use saved.View.{info_of, is_connected, is_connected_over, remote_addr}
use saved.View.Peer.{PeerInfoExt, AddressMetadata, has_addr, is_active}
use saved.Relay.Address.{extract_relay_peer}
use saved.Network.State.{
  SavedNetwork, SavedNetworkEvent, Swarm, Effect, Outcome, ok, err, unfinished, M, ◌>>◌, ◌>>=◌,
  bind, pure, connected, disconnected,
}
use saved.Network.Api.{swarm_dial, set_active_mode}
use saved.Network.Reconcile.{
  connections_of, is_prune_leader, close_all, note_failure, dial_best, migrate, reconcile_entry,
  reconcile_round, reconcile_peer_connections,
}
use saved.Network.Handlers.{
  disconnect_all, update_relay_state, send_event, leave_target, meet_target,
  on_peer_connection_closed, on_peer_connection_opened,
}
use saved.Network.Events.{
  SwarmEvent, connection_established, connection_closed, reservation_req_accepted, track_relay,
  on_swarm_event,
}
use saved.Network.Modes.{set_active_mode_lem}
use saved.Network.Invariant.Connectivity.{afterwards}
use saved.Network.Announced.Told.{IsListened}
use saved.Network.Unaffected.Events.{updates}

module _ ⦃L : Libp2p⦄ where
  -- An error, or no end within the fuel where that counts as well.
  abbrev pub fails : {A : Type 0} → Bool → Outcome A → Bool
  fails u (ok a) = false
  fails u (err e) = true
  fails u unfinished = u

module _ ⦃L : Libp2p⦄ ⦃S : Swarm⦄ where
  -- mDNS can be started at every call.
  abbrev pub IsMdnsStartable : Type 0
  IsMdnsStartable = (calls : List Effect) → S.mdns_ok calls ≡ true

  -- The swarm accepts every dial.
  abbrev pub IsAccepting : Type 0
  IsAccepting = (calls : List Effect) (addr : Multiaddr) → S.dial_ok calls addr ≡ true

module _ ⦃L : Libp2p⦄ ⦃S : Swarm⦄ (u : Bool) where
  abbrev NoErr : {A : Type 0} → M A → Type 0
  NoErr m = (s : SavedNetwork) → fails u (m s).0 ≡ false

  bind-NoErr :
      {A B : Type 0} (r : Outcome A × SavedNetwork) (f : A → M B)
      → fails u r.0 ≡ false
      → ((a : A) → NoErr (f a))
      → fails u (bind r f).0 ≡ false
  bind-NoErr (ok a, s) f h k = k a s
  bind-NoErr (err e, s) f h k = cc
  bind-NoErr (unfinished, s) f h k = h

  NoErr-then : {B : Type 0} (m : M (Unit {0})) (k : M B) → NoErr m → NoErr k → NoErr (m >> k)
  NoErr-then m k h g s = bind-NoErr (m s) (λ _. k) (h s) (λ _. g)

  NoErr-if : {A : Type 0} (b : Bool) (m k : M A) → NoErr m → NoErr k → NoErr (if b then m else k)
  NoErr-if true m k h g = h
  NoErr-if false m k h g = g

  close_all-NoErr : (cs : List ConnectionId) → NoErr (close_all cs)
  unfolding close_all
  close_all-NoErr [] s = refl
  close_all-NoErr (c ∷ cs) s = close_all-NoErr cs _

  disconnect_all-NoErr : (ps : List PeerId) → NoErr (disconnect_all ps)
  unfolding disconnect_all
  disconnect_all-NoErr [] s = refl
  disconnect_all-NoErr (p ∷ ps) s = disconnect_all-NoErr ps _

  update_relay_state-NoErr : NoErr update_relay_state
  unfolding update_relay_state
  update_relay_state-NoErr s = disconnect_all-NoErr _ _

  track_relay-NoErr : (r : Option PeerId) → NoErr (track_relay r)
  unfolding track_relay
  track_relay-NoErr none s = refl
  track_relay-NoErr (some r) s = update_relay_state-NoErr _

  -- What follows a refused dial does not fail, or no dial is refused.
  dialed-NoErr :
      (addr : Multiaddr) (k : M (Unit {0}))
      → NoErr k ⊎ IsAccepting
      → NoErr (swarm_dial addr >>= (λ accepted. if accepted then pure tt else k))
  unfolding swarm_dial
  dialed-NoErr addr k (inl h) s = NoErr-if (S.dial_ok s.log addr) (pure tt) k (λ t. refl) h _
  dialed-NoErr addr k (inr a) s = rw (a s.log addr) refl

  note_failure-NoErr : (now : ℕ) (p : PeerId) (addr : Multiaddr) → NoErr (note_failure now p addr)
  unfolding note_failure
  note_failure-NoErr now p addr s = refl

  dial_best-NoErr :
      (now : ℕ) (p : PeerId) (again : M (Unit {0})) (addr : Multiaddr)
      → NoErr again ⊎ IsAccepting
      → NoErr (dial_best now p again addr)
  unfolding dial_best
  dial_best-NoErr now p again addr (inl h) =
      dialed-NoErr addr (note_failure now p addr >> again)
        (inl (NoErr-then (note_failure now p addr) again (note_failure-NoErr now p addr) h))
  dial_best-NoErr now p again addr (inr a) =
      dialed-NoErr addr (note_failure now p addr >> again) (inr a)

  migrate-NoErr :
      (now : ℕ) (p : PeerId) (info : PeerInfoExt) (addr : Multiaddr)
      → NoErr (migrate now p info addr)
  unfolding migrate
  migrate-NoErr now p info addr =
      let active : Bool = elim (find (has_addr addr) info.addresses) [
        | none ↦ false
        | some m ↦ is_active m
      ] in
      let moved : M (Unit {0}) =
        swarm_dial addr >>= (λ accepted. if accepted then pure tt else note_failure now p addr) in
      NoErr-if active (pure tt) (if is_prune_leader p then moved else pure tt) (λ s. refl)
        (NoErr-if (is_prune_leader p) moved (pure tt)
          (dialed-NoErr addr (note_failure now p addr) (inl (note_failure-NoErr now p addr)))
          (λ s. refl))

  reconcile_entry-NoErr :
      (now : ℕ) (p : PeerId) (again : M (Unit {0})) (info : PeerInfoExt) (ms : List AddressMetadata)
      → NoErr again ⊎ IsAccepting
      → NoErr (reconcile_entry now p again info ms)
  unfolding reconcile_entry
  reconcile_entry-NoErr now p again info [] h s = refl
  reconcile_entry-NoErr now p again info (best ∷ others) h s =
      let close = close_all (connections_of others) in
      let move = migrate now p info best.address in
      let dial = dial_best now p again best.address in
      NoErr-if (is_connected_over s.view p best.address)
        (if is_prune_leader p then close else pure tt)
        (if is_connected s.view p then move else dial)
        (NoErr-if (is_prune_leader p) close (pure tt) (close_all-NoErr (connections_of others))
          (λ t. refl))
        (NoErr-if (is_connected s.view p) move dial (migrate-NoErr now p info best.address)
          (dial_best-NoErr now p again best.address h))
        s

  reconcile_round-NoErr :
      (now : ℕ) (p : PeerId) (again : M (Unit {0}))
      → NoErr again ⊎ IsAccepting
      → NoErr (reconcile_round now p again)
  unfolding reconcile_round
  reconcile_round-NoErr now p again h s = elim (Option-cases (info_of s.view p)) [
    | inl e ↦ rw (e, reconcile_round) refl
    | inr (info, e) ↦
        rw (e, reconcile_round) (reconcile_entry-NoErr now p again info info.addresses h s)
  ]

  send_event-NoErr : (e : SavedNetworkEvent) → IsListened → NoErr (send_event e)
  unfolding send_event
  send_event-NoErr e l s = ground (arith, l s.log)

  set_active_mode-NoErr : (active : Bool) → IsMdnsStartable → NoErr (set_active_mode active)
  set_active_mode-NoErr active i s = rw (set_active_mode_lem active s (inr (i s.log))) refl

  leave_target-NoErr : (p : PeerId) → IsMdnsStartable → NoErr (leave_target p)
  unfolding leave_target
  leave_target-NoErr p i s = ground (arith, set_active_mode-NoErr true i s)

  meet_target-NoErr : (p : PeerId) → IsMdnsStartable → NoErr (meet_target p)
  unfolding meet_target
  meet_target-NoErr p i s =
      ground (arith, set_active_mode-NoErr true i s, set_active_mode-NoErr false i s)

  afterwards-NoErr :
      (fuel now : ℕ) (p : PeerId) (e : SavedNetworkEvent) (m : M (Unit {0}))
      → IsListened
      → NoErr m
      → NoErr (reconcile_peer_connections fuel now p)
      → NoErr (afterwards fuel now p e m)
  afterwards-NoErr fuel now p e m l h r = NoErr-then (send_event e) _ (send_event-NoErr e l) (
      NoErr-then m _ h (
        NoErr-then (reconcile_peer_connections fuel now p) update_relay_state r
          update_relay_state-NoErr))

  updated-NoErr :
      (fuel now : ℕ) (event : SwarmEvent) (s : SavedNetwork)
      → updates event ≡ true
      → IsListened
      → IsMdnsStartable
      → ((p : PeerId) → NoErr (reconcile_peer_connections fuel now p))
      → fails u (on_swarm_event fuel now event s).0 ≡ false
  unfolding on_swarm_event on_peer_connection_opened on_peer_connection_closed
  updated-NoErr fuel now (connection_established p c e) s h l i r =
      bind-NoErr (on_peer_connection_opened fuel now p c e s) _
        (afterwards-NoErr fuel now p (connected p c) (meet_target p) l (meet_target-NoErr p i) (r p)
          _)
        (λ _. track_relay-NoErr (extract_relay_peer (remote_addr e)))
  updated-NoErr fuel now (connection_closed p c) s h l i r =
      afterwards-NoErr fuel now p (disconnected p c) (leave_target p) l (leave_target-NoErr p i)
        (r p) _
  updated-NoErr fuel now (reservation_req_accepted q) s h l i r = update_relay_state-NoErr _
  updated-NoErr fuel now _ s h l i r = cc

module _ ⦃L : Libp2p⦄ ⦃S : Swarm⦄ where
  -- No end within the fuel is no error.
  reconcile-NoErr :
      (fuel now : ℕ) (p : PeerId) → NoErr false (reconcile_peer_connections fuel now p)
  unfolding reconcile_peer_connections
  reconcile-NoErr zero now p s = refl
  reconcile-NoErr (suc fuel) now p s =
      reconcile_round-NoErr false now p (reconcile_peer_connections fuel now p)
        (inl (reconcile-NoErr fuel now p)) s

  reconcile-accepted :
      (fuel now : ℕ) (p : PeerId)
      → IsAccepting
      → NoErr true (reconcile_peer_connections (suc fuel) now p)
  unfolding reconcile_peer_connections
  reconcile-accepted fuel now p a s =
      reconcile_round-NoErr true now p (reconcile_peer_connections fuel now p) (inr a) s

  -- Where the events always have a receiver and mDNS can be started, no handler after which the
  -- relays in use are computed again returns an error.
  pub updates-NoErr :
      (fuel now : ℕ) (event : SwarmEvent) (s : SavedNetwork)
      → updates event ≡ true
      → IsListened
      → IsMdnsStartable
      → fails false (on_swarm_event fuel now event s).0 ≡ false
  updates-NoErr fuel now event s h l i =
      updated-NoErr false fuel now event s h l i (reconcile-NoErr fuel now)

  -- Where the swarm accepts every dial, it returns as well.
  pub updates-returns :
      (fuel now : ℕ) (event : SwarmEvent) (s : SavedNetwork)
      → updates event ≡ true
      → IsListened
      → IsMdnsStartable
      → IsAccepting
      → fails true (on_swarm_event (suc fuel) now event s).0 ≡ false
  updates-returns fuel now event s h l i a =
      updated-NoErr true (suc fuel) now event s h l i (λ p. reconcile-accepted fuel now p a)
