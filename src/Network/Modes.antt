-- ===== src/Network/Modes.antt =====
-- src/network/mod.rs: the active mode, the behaviours that it turns on and off, and `dial`.
use saved.Base.{
  ◌≡◌, refl, ap, Bool, true, false, not, ◌&&◌, ◌||◌, ◌⊎◌, inl, inr, none, some, List, [], ◌∷◌,
  arith, if◌then◌else◌, Bool-cases, Option-cases,
}
use saved.Base.Lists.{any, all, find}
use saved.Libp2p.{Libp2p, PeerId, ConnectionId, Multiaddr}
use saved.View.{is_connected}
use saved.Relay.{contains}
use saved.Relay.Address.{is_p2p}
use saved.Network.State.{
  KadMode, client, SavedNetwork, SavedError, io, dial_addr_missing_p2p, Swarm, kad_queries, closes,
  dials, ok, err,
}
use saved.Network.Api.{
  set_mdns_enabled, set_kad_enabled, kad_find_peer, swarm_dial, dial, find_targets, set_active_mode,
}
use saved.Network.Handlers.{leave_target, meet_target}
use saved.Network.Reconcile.{close_all}

module _ ⦃L : Libp2p⦄ where
  -- `f` of each element, pushed in order onto `out`.
  abbrev pub reversed : {A B : Type 0} → (A → B) → List A → List B → List B
  reversed f [] out = out
  reversed f (x ∷ xs) out = reversed f xs (f x ∷ out)

  pub close_all-log :
      (cs : List ConnectionId) (s : SavedNetwork)
      → close_all cs s ≡ (ok tt, record s { log = reversed closes cs s.log })
  unfolding close_all
  close_all-log [] s = refl
  close_all-log (c ∷ cs) s = close_all-log cs (record s { log = closes c ∷ s.log })

module _ ⦃L : Libp2p⦄ ⦃S : Swarm⦄ where
  find_targets-log :
      (ts : List PeerId) (s : SavedNetwork) (m : KadMode)
      → s.kad ≡ some m
      → find_targets ts s ≡ (ok tt, record s { log = reversed kad_queries ts s.log })
  unfolding find_targets kad_find_peer
  find_targets-log [] s m h = refl
  find_targets-log (t ∷ ts) s m h =
      ground (arith, find_targets-log ts (record s { log = kad_queries t ∷ s.log }) m)

  -- Where mDNS runs or can be started, `set_active_mode(true)` leaves Kademlia running as a
  -- client, mDNS running, and one query for each target peer; `set_active_mode(false)` stops
  -- Kademlia and changes nothing else but the mode.
  pub set_active_mode_lem :
      (active : Bool) (s : SavedNetwork)
      → s.mdns ≡ true ⊎ S.mdns_ok s.log ≡ true
      → set_active_mode active s ≡ (
        ok tt,
        if active
            then record s {
              active_mode = true;
              kad = some client;
              mdns = true;
              log = reversed kad_queries s.target_peers s.log;
            }
            else record s { active_mode = false; kad = none },
      )
  unfolding set_active_mode set_kad_enabled set_mdns_enabled
  set_active_mode_lem false s h = ground arith
  set_active_mode_lem true s h = ground (
    arith,
    h,
    find_targets-log s.target_peers
        (record s { active_mode = true; mdns = true; kad = some client }) client,
  )

  -- `set_active_mode(true)` where mDNS cannot be started fails, with Kademlia already on.
  pub set_active_mode-io :
      (s : SavedNetwork)
      → s.mdns ≡ false
      → S.mdns_ok s.log ≡ false
      → set_active_mode true s ≡ (err io, record s { active_mode = true; kad = some client })
  unfolding set_active_mode set_kad_enabled set_mdns_enabled
  set_active_mode-io s h k = ground arith

  pub find-all :
      (p : PeerId → Bool) (ts : List PeerId) → find (λ t. not (p t)) ts ≡ none → all p ts ≡ true
  unfolding find all
  find-all p [] h = refl
  find-all p (t ∷ ts) h = ground (arith, find-all p ts)

  pub find-not-all :
      (p : PeerId → Bool) (ts : List PeerId) (t : PeerId)
      → find (λ u. not (p u)) ts ≡ some t
      → all p ts ≡ false
  unfolding find all
  find-not-all p [] t h = cc
  find-not-all p (u ∷ ts) t h = ground (arith, find-not-all p ts t)

  active_mode-set :
      (active : Bool) (s : SavedNetwork) → (set_active_mode active s).1.active_mode ≡ active
  unfolding set_active_mode set_kad_enabled set_mdns_enabled
  active_mode-set false s = ground arith
  active_mode-set true s = elim (Bool-cases s.mdns) [
    | inl on ↦ ap (λ r. r.1.active_mode) (set_active_mode_lem true s (inl on))
    | inr off ↦ elim (Bool-cases (S.mdns_ok s.log)) [
      | inl starts ↦ ap (λ r. r.1.active_mode) (set_active_mode_lem true s (inr starts))
      | inr fails ↦ ap (λ r. r.1.active_mode) (set_active_mode-io s off fails)
    ]
  ]

  -- After `meet_target` for a target peer, the network is in active mode exactly if some target
  -- peer is not connected; for another peer the mode stays as it is.
  pub meet_target-active_mode :
      (p : PeerId) (s : SavedNetwork)
      → (meet_target p s).1.active_mode ≡ (
          if contains s.target_peers p
          then not (all (is_connected s.view) s.target_peers)
          else s.active_mode)
  unfolding meet_target
  meet_target-active_mode p s =
      elim (Option-cases (find (λ t. not (is_connected s.view t)) s.target_peers)) [
        | inl n ↦
            ground (arith, find-all (is_connected s.view) s.target_peers, active_mode-set false s)
        | inr (t, n) ↦
            ground
              (arith, find-not-all (is_connected s.view) s.target_peers t, active_mode-set true s)
      ]

  -- After `leave_target`, the network is in active mode if it was before, or if the peer is a
  -- target that is not connected, and in no other case.
  pub leave_target-active_mode :
      (p : PeerId) (s : SavedNetwork)
      → (leave_target p s).1.active_mode
        ≡ (s.active_mode || (contains s.target_peers p && not (is_connected s.view p)))
  unfolding leave_target
  leave_target-active_mode p s = ground (arith, active_mode-set true s)

  -- `dial` refuses an address without a `/p2p` before the swarm is asked, and otherwise makes
  -- one dial and reports whether it was accepted.
  pub dial_lem :
      (a : Multiaddr) (s : SavedNetwork)
      → dial a s ≡ (
          if any is_p2p (L.iter a)
          then (
            if S.dial_ok s.log a then ok tt else err SavedError.dial,
            record s { log = dials a ∷ s.log },
          )
          else (err (dial_addr_missing_p2p a), s))
  unfolding dial swarm_dial
  dial_lem a s = ground arith
