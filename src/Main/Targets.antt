-- ===== src/Main/Targets.antt =====
-- src/main.rs: the program asks Kademlia only while it runs, and ends with its two target peers.
use saved.Base.{
  ◌≡◌, ◌≢◌, refl, ap, ◌∙◌, Bool, true, false, inl, inr, Option, none, some, List, [], ◌∷◌, arith,
  Option-cases, Bool-cases,
}
use saved.Libp2p.{Libp2p, PeerId, Multiaddr}
use saved.Keygen.{Crypto}
use saved.Relay.{contains, set_insert}
use saved.Relay.Address.{is_p2p}
use saved.Network.State.{client, SavedNetwork, kad_disabled, Swarm}
use saved.Network.External.{Platform}
use saved.Network.Handle.{SavedHandle, TaskCall, take_task, drop, join}
use saved.Network.Api.{
  set_mdns_enabled, set_kad_enabled, kad_find_peer, kad_bootstrap, swarm_dial, dial,
  add_target_peer, find_targets, set_active_mode,
}
use saved.Network.Rpc.{SavedNetworkRpc, dispatch_rpc}
use saved.Network.{Status, stopped, running, hung}
use saved.Base.Lists.{any}
use saved.Network.Closed.{Keeps, Keeps-then, IsClosed}
use saved.Main.{
  Exit, returns, fails, panics, hangs, Session, Schedule, wait, call, parse_all, bootstrap_addrs,
  dial_all, bootstrap, add_parsed, add_seed, script, print_events, join_waits, join_task, finish,
}
use saved.Main.Triples.{Ends, Triple, Answers, Triple-then, wait_lem, call-Triple}

module _ ⦃L : Libp2p⦄ where
  abbrev pub Aims : List PeerId → SavedNetwork → Type 0
  Aims ts s = s.target_peers ≡ ts

  -- No target peer yet, and Kademlia runs as a client.
  abbrev pub Searches : SavedNetwork → Type 0
  Searches s = (s.target_peers ≡ []) × (s.kad ≡ some client)

module _ ⦃L : Libp2p⦄ ⦃S : Swarm⦄ where
  find_peer-Aims : (ts : List PeerId) (t : PeerId) → Keeps (Aims ts) (kad_find_peer t)
  unfolding kad_find_peer
  find_peer-Aims ts t s h = ground arith

  find_targets-Aims : (ts targets : List PeerId) → Keeps (Aims ts) (find_targets targets)
  unfolding find_targets
  find_targets-Aims ts [] s h = h
  find_targets-Aims ts (t ∷ targets) s h =
      Keeps-then (Aims ts) (kad_find_peer t) (find_targets targets) (find_peer-Aims ts t)
        (find_targets-Aims ts targets) s h

  set_mdns_enabled-Aims : (ts : List PeerId) (b : Bool) → Keeps (Aims ts) (set_mdns_enabled b)
  unfolding set_mdns_enabled
  set_mdns_enabled-Aims ts b s h = ground arith

  set_active_mode-Aims :
      (ts : List PeerId) (active : Bool) → Keeps (Aims ts) (set_active_mode active)
  unfolding set_active_mode set_kad_enabled
  set_active_mode-Aims ts false s h = h
  set_active_mode-Aims ts true s h =
      Keeps-then (Aims ts) (set_mdns_enabled true) (λ t. find_targets t.target_peers t)
        (set_mdns_enabled-Aims ts true) (λ t. find_targets-Aims ts t.target_peers t) _ h

  Aims-kept : (ts : List PeerId) → IsClosed (Aims ts)
  Aims-kept ts = record {
    round = record { same = λ s t h a b c d. c ∙ h; marks = λ now p addr s h. h };
    calls = λ c s h. h;
    tracks = λ r s h. h;
    prunes = λ s h. h;
    modes = λ active p s e h. set_active_mode-Aims ts active s h;
  }

  -- Without a target peer no connection changes the mode.
  no_target : (p : PeerId) (ts : List PeerId) → ts ≡ [] → contains ts p ≢ true
  unfolding any
  no_target p [] h e = cc
  no_target p (t ∷ ts) h e = cc

  Searches-kept : IsClosed Searches
  Searches-kept = record {
    round = record { same = λ s t h a b c d. (c ∙ h.0, d ∙ h.1); marks = λ now p addr s h. h };
    calls = λ c s h. h;
    tracks = λ r s h. h;
    prunes = λ s h. h;
    modes = λ active p s e h. absurd (no_target p s.target_peers h.0 e);
  }

module _ ⦃L : Libp2p⦄ ⦃S : Swarm⦄ ⦃C : Crypto⦄ ⦃T : Platform⦄ where
  set_mdns-Answers : (s : SavedNetwork) → Searches s → Answers Searches (set_mdns_enabled true s)
  unfolding set_mdns_enabled
  set_mdns-Answers s h = elim (Bool-cases s.mdns) [
    | inl m ↦ rw m h
    | inr m ↦ elim (Bool-cases (S.mdns_ok s.log)) [
      | inl o ↦ rw (m, o) h
      | inr o ↦ rw (m, o) (λ e. cc)
    ]
  ]

  dial-Answers : (addr : Multiaddr) (s : SavedNetwork) → Searches s → Answers Searches (dial addr s)
  unfolding dial swarm_dial
  dial-Answers addr s h = elim (Bool-cases (any is_p2p (L.iter addr))) [
    | inr m ↦ rw m (λ e. cc)
    | inl m ↦ elim (Bool-cases (S.dial_ok s.log addr)) [
      | inl o ↦ rw (m, o) h
      | inr o ↦ rw (m, o) (λ e. cc)
    ]
  ]

  find_peer-Answers :
      (p : PeerId) (s : SavedNetwork) → Searches s → Answers (Aims []) (kad_find_peer p s)
  unfolding kad_find_peer
  find_peer-Answers p s h = rw h.1 h.0

  bootstrap-Answers : (s : SavedNetwork) → Searches s → Answers Searches (kad_bootstrap s)
  unfolding kad_bootstrap
  bootstrap-Answers s h = elim (Bool-cases (S.bootstrap_ok s.log)) [
    | inl o ↦ rw (h.1, o) (h.0, refl)
    | inr o ↦ rw (h.1, o) (λ e. cc)
  ]

  set_kad-Answers :
      (s : SavedNetwork) → Aims [] s → Answers Searches (set_kad_enabled true client s)
  unfolding set_kad_enabled
  set_kad-Answers s h = elim (Option-cases s.kad) [
    | inl e ↦ rw e (h, refl)
    | inr (m, e) ↦ rw e (h, refl)
  ]

  dial_all-Triple :
      (plan : Schedule) (addrs : List Multiaddr) → Triple Searches (dial_all plan addrs) Searches
  unfolding dial_all dispatch_rpc
  dial_all-Triple plan [] w h = h
  dial_all-Triple plan (addr ∷ addrs) w h =
      Triple-then Searches Searches Searches (call plan (SavedNetworkRpc.dial addr))
        (dial_all plan addrs)
        (call-Triple Searches Searches Searches-kept plan (SavedNetworkRpc.dial addr)
          (dial-Answers addr))
        (dial_all-Triple plan addrs) w h

  bootstrap-Triple : (plan : Schedule) (b : Bool) → Triple Searches (bootstrap plan b) Searches
  unfolding bootstrap dispatch_rpc parse_all
  bootstrap-Triple plan false w h = h
  bootstrap-Triple plan true w h = elim (Option-cases (parse_all bootstrap_addrs)) [
    | inl e ↦ rw e tt
    | inr (addrs, e) ↦ rw e (
        Triple-then Searches Searches Searches (dial_all plan addrs)
          (call plan SavedNetworkRpc.kad_bootstrap) (dial_all-Triple plan addrs)
          (call-Triple Searches Searches Searches-kept plan SavedNetworkRpc.kad_bootstrap
            bootstrap-Answers)
          w h)
  ]

  -- The target peers with the one that a text names, if it names one.
  abbrev pub with_seed : Option PeerId → List PeerId → List PeerId
  with_seed none ts = ts
  with_seed (some p) ts = set_insert p ts

  add_parsed-Triple :
      (plan : Schedule) (parsed : Option PeerId) (ts : List PeerId)
      → Triple (Aims ts) (add_parsed plan parsed) (Aims (with_seed parsed ts))
  unfolding add_parsed dispatch_rpc add_target_peer
  add_parsed-Triple plan none ts w h = λ k. cc
  add_parsed-Triple plan (some p) ts w h =
      call-Triple (Aims ts) (Aims (set_insert p ts)) (Aims-kept ts) plan
        (SavedNetworkRpc.add_target_peer p) (λ s k. ap (set_insert p) k) w h

  -- The target peers at the end of the script.
  abbrev pub seeds : List PeerId
  seeds =
      with_seed (T.parse_peer "QmdoTQGmZi2EZKrXagxvL8Uy76ADpS5d53XLvuVXJxyvN1")
        (with_seed (T.parse_peer "QmUh4bvMXKXepae9V5pbRwmhd2XqcPHDLrfrAEwpJ6J8os") [])

  print_events-Triple :
      (plan : Schedule) (ts : List PeerId) → Triple (Aims ts) (print_events plan) (Aims ts)
  unfolding print_events
  print_events-Triple plan ts w h = wait_lem (Aims ts) (Aims-kept ts) plan w h

  pub script-Triple :
      (plan : Schedule) (b : Bool) (id : PeerId) → Triple (Aims []) (script plan b id) (Aims seeds)
  unfolding script dispatch_rpc add_seed
  script-Triple plan b id =
      Triple-then (Aims []) Searches (Aims seeds) _ _
        (call-Triple (Aims []) Searches (Aims-kept []) plan
          (SavedNetworkRpc.set_kad_enabled true client) set_kad-Answers)
        (Triple-then Searches Searches (Aims seeds) _ _
          (call-Triple Searches Searches Searches-kept plan (SavedNetworkRpc.set_mdns_enabled true)
            set_mdns-Answers)
          (Triple-then Searches Searches (Aims seeds) _ _ (bootstrap-Triple plan b) (
            Triple-then Searches (Aims []) (Aims seeds) _ _
              (call-Triple Searches (Aims []) Searches-kept plan (SavedNetworkRpc.kad_find_peer id)
                (find_peer-Answers id))
              (Triple-then (Aims []) (Aims []) (Aims seeds) _ _ (print_events-Triple plan []) (
                Triple-then (Aims []) _ (Aims seeds) _ _ (add_parsed-Triple plan _ [])
                  (add_parsed-Triple plan _ _))))))

  -- What holds at the end of the program.
  abbrev pub Ended : Exit (Unit {0}) × List TaskCall × Session → Type 0
  Ended (exit, calls, w) =
      (exit ≢ fails kad_disabled)
      × (exit ≡ returns tt → (w.task.0 ≡ stopped) × (w.task.1.target_peers ≡ seeds))

  join_task-Ended :
      (handle : SavedHandle) (spawned : T.JoinHandle) (task : Status × SavedNetwork) (w : Session)
      → handle.task_handle ≡ some spawned
      → Aims seeds task.1
      → Ended ((join_task handle task).0, (join_task handle task).1, record w { task = task })
  unfolding join_task join_waits join take_task drop
  join_task-Ended handle spawned (running, s) w t h = rw t (λ e. cc, λ e. cc)
  join_task-Ended handle spawned (hung, s) w t h = rw t (λ e. cc, λ e. cc)
  join_task-Ended handle spawned (stopped, s) w t h = elim (Option-cases handle.task_handle) [
    | inl e ↦ rw e (λ k. cc, λ k. (refl, h))
    | inr (task, e) ↦ elim (Bool-cases (T.join_ok task)) [
      | inl o ↦ rw (e, o) (λ k. cc, λ k. (refl, h))
      | inr o ↦ rw (e, o) (λ k. cc, λ k. cc)
    ]
  ]

  pub finish-Ended :
      (plan : Schedule) (handle : SavedHandle) (spawned : T.JoinHandle) (r : Exit Bool × Session)
      → handle.task_handle ≡ some spawned
      → Ends (Aims seeds) r
      → Ended (finish plan handle r)
  unfolding finish
  finish-Ended plan handle spawned (returns b, w) t h =
      join_task-Ended handle spawned (wait plan w) w t
        (wait_lem (Aims seeds) (Aims-kept seeds) plan w h)
  finish-Ended plan handle spawned (fails x, w) t h = (λ k. h (ground arith), λ k. cc)
  finish-Ended plan handle spawned (panics, w) t h = (λ k. cc, λ k. cc)
  finish-Ended plan handle spawned (hangs, w) t h = (λ k. cc, λ k. cc)
