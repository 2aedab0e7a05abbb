-- ===== src/Main/Seeds.antt =====
-- src/main.rs and `SavedNetwork::new` of src/network/mod.rs: the whole program from the new network
-- on, and the error `KadDisabled`.
use saved.Base.{
  ℕ, ◌≡◌, ◌≢◌, refl, Bool, true, false, inl, inr, Option, none, some, List, [], arith, Bool-cases,
  some_injective,
}
use mathlib.Core.Path.{subst}
use saved.Libp2p.{Libp2p, Multiaddr}
use saved.Keygen.{Crypto, keypair_from_seed}
use saved.Network.State.{
  auto, SavedNetwork, SavedError, io, libp2p_noise, kad_disabled, Swarm, Outcome, ok, err,
  unfinished, M, ◌>>=◌, ◌>>◌, bind, pure,
}
use saved.Network.External.{Platform}
use saved.Network.Handle.{SavedHandle, TaskCall}
use saved.Network.Api.{set_mdns_enabled, set_kad_enabled}
use saved.Network.{stopped, initial, builds, parsed, build_swarm, listen_on, new}
use saved.Network.Start.{handle_of}
use saved.Main.{Exit, returns, fails, Session, Schedule, session_of, after_new, with_keypair, main}
use saved.Main.Released.{new-spawned}
use saved.Main.Triples.{Answers}
use saved.Main.Targets.{Aims, seeds, Ended, script-Triple, finish-Ended}

module _ ⦃L : Libp2p⦄ where
  -- A step of the start: it leaves the network without a target peer, and does not fail with
  -- `KadDisabled`.
  abbrev Starts : {A : Type 0} → M A → Type 0
  Starts m = (s : SavedNetwork) → Aims [] s → Answers (Aims []) (m s)

  bind-Starts :
      {A B : Type 0} (r : Outcome A × SavedNetwork) (f : A → M B)
      → Answers (Aims []) r
      → ((a : A) → Starts (f a))
      → Answers (Aims []) (bind r f)
  bind-Starts (ok a, s) f h k = k a s h
  bind-Starts (err e, s) f h k = h
  bind-Starts (unfinished, s) f h k = h

  Starts-bind :
      {A B : Type 0} (m : M A) (f : A → M B)
      → Starts m
      → ((a : A) → Starts (f a))
      → Starts (m >>= f)
  Starts-bind m f a b s h = bind-Starts (m s) f (a s h) b

  Starts-then : {B : Type 0} (m : M (Unit {0})) (k : M B) → Starts m → Starts k → Starts (m >> k)
  Starts-then m k a b s h = bind-Starts (m s) (λ _. k) (a s h) (λ _. b)

module _ ⦃L : Libp2p⦄ ⦃T : Platform⦄ where
  builds-Starts : (b : Bool) (e : SavedError) → e ≢ kad_disabled → Starts (builds b e)
  builds-Starts true e k s h = h
  builds-Starts false e k s h = k

  parsed-Starts : (o : Option Multiaddr) → Starts (parsed o)
  parsed-Starts none s h = λ k. cc
  parsed-Starts (some addr) s h = h

  listen_on-Starts : (addr : Multiaddr) → Starts (listen_on addr)
  unfolding listen_on
  listen_on-Starts addr s h = elim (Bool-cases (T.listen_ok s.log addr)) [
    | inl o ↦ rw (o, listen_on, Answers) h
    | inr o ↦ rw (o, listen_on, Answers) (λ k. cc)
  ]

  build_swarm-Starts : Starts build_swarm
  unfolding build_swarm
  build_swarm-Starts =
      Starts-then (builds T.tcp_ok libp2p_noise) _ (builds-Starts T.tcp_ok libp2p_noise (λ k. cc)) (
        Starts-then (builds T.dns_ok io) _ (builds-Starts T.dns_ok io (λ k. cc)) (
          Starts-then (builds T.relay_ok libp2p_noise) _
            (builds-Starts T.relay_ok libp2p_noise (λ k. cc))
            (Starts-bind (parsed (T.parse_addr "/ip4/0.0.0.0/tcp/0")) _ (parsed-Starts _) (λ v4.
              Starts-bind (parsed (T.parse_addr "/ip6/::/tcp/0")) _ (parsed-Starts _)
                (λ v6. Starts-then (listen_on v4) _ (listen_on-Starts v4) (listen_on-Starts v6))))))

module _ ⦃L : Libp2p⦄ ⦃S : Swarm⦄ ⦃C : Crypto⦄ ⦃T : Platform⦄ where
  set_mdns-Starts : Starts (set_mdns_enabled true)
  unfolding set_mdns_enabled
  set_mdns-Starts s h = elim (Bool-cases s.mdns) [
    | inl m ↦ rw m h
    | inr m ↦ elim (Bool-cases (S.mdns_ok s.log)) [
      | inl o ↦ rw (m, o) h
      | inr o ↦ rw (m, o) (λ e. cc)
    ]
  ]

  new-Starts : (keypair : C.Keypair) → Answers (Aims []) (new keypair)
  unfolding new set_kad_enabled
  new-Starts keypair =
      let last = set_kad_enabled false auto >> pure (handle_of keypair) in
      Starts-then build_swarm (set_mdns_enabled true >> last) build_swarm-Starts
        (Starts-then (set_mdns_enabled true) last set_mdns-Starts (
          Starts-then (set_kad_enabled false auto) (pure (handle_of keypair)) (λ s h. h)
            (λ s h. h)))
        initial refl

  after_new-Ended :
      (plan : Schedule) (b : Bool) (r : Outcome SavedHandle × SavedNetwork)
      → Answers (Aims []) r
      → ((handle : SavedHandle) → r.0 ≡ ok handle → handle.task_handle ≡ some T.spawned)
      → Ended (after_new plan b r)
  unfolding after_new
  after_new-Ended plan b (ok handle, s) h t =
      finish-Ended plan handle T.spawned _ (t handle refl)
        (script-Triple plan b handle.id (session_of s) h)
  after_new-Ended plan b (err e, s) h t = (λ k. h (ground arith), λ k. cc)
  after_new-Ended plan b (unfinished, s) h t = (λ k. cc, λ k. cc)

  with_keypair-Ended :
      (plan : Schedule) (b : Bool) (o : Option C.Keypair)
      (end : Exit (Unit {0}) × List TaskCall × Session)
      → with_keypair plan b o ≡ some end
      → Ended end
  unfolding with_keypair
  with_keypair-Ended plan b none end h = cc
  with_keypair-Ended plan b (some keypair) end h =
      subst Ended (some_injective (after_new plan b (new keypair)) end h)
        (after_new-Ended plan b (new keypair) (new-Starts keypair) (new-spawned keypair))

  -- Where `main` returns, the event loop has stopped, and the target peers are those that the
  -- two texts of the seeds name.
  pub main-seeds :
      (plan : Schedule) (seed_phrase : List ℕ) (b : Bool) (calls : List TaskCall) (w : Session)
      → main plan seed_phrase b ≡ some (returns tt, calls, w)
      → (w.task.0 ≡ stopped) × (w.task.1.target_peers ≡ seeds)
  unfolding main
  main-seeds plan seed_phrase b calls w h =
      (with_keypair-Ended plan b (keypair_from_seed seed_phrase) (returns tt, calls, w) h).1 refl

  -- Whatever the loop finds ready between the calls of the program, and whatever the swarm
  -- answers, `main` does not end with the error `KadDisabled`.
  pub main-kad_disabled :
      (plan : Schedule) (seed_phrase : List ℕ) (b : Bool) (calls : List TaskCall) (w : Session)
      → main plan seed_phrase b ≢ some (fails kad_disabled, calls, w)
  unfolding main
  main-kad_disabled plan seed_phrase b calls w h =
      (with_keypair-Ended plan b (keypair_from_seed seed_phrase) (fails kad_disabled, calls, w) h).0
        refl
