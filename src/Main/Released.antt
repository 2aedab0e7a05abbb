-- ===== src/Main/Released.antt =====
-- src/main.rs and src/network/handle.rs: what becomes of the task that `new` starts.
use saved.Base.{◌≡◌, true, false, some, List, [], ◌∷◌, arith}
use saved.Libp2p.{Libp2p}
use saved.Keygen.{Crypto}
use saved.Network.State.{
  SavedNetwork, SavedError, Swarm, Outcome, ok, err, unfinished, M, ◌>>◌, bind, pure, auto,
}
use saved.Network.External.{Platform}
use saved.Network.Handle.{SavedHandle, TaskCall, awaits, aborts, join}
use saved.Network.Api.{set_mdns_enabled, set_kad_enabled}
use saved.Network.Start.{handle_of}
use saved.Network.{initial, build_swarm, new}
use saved.Main.{Exit, returns, fails, panics, hangs, Session}

module _ ⦃L : Libp2p⦄ ⦃T : Platform⦄ where
  -- By what `new` returned and how the program ends: what is done with the task of the handle.
  pub data Releases : Outcome SavedHandle → Exit (Unit {0}) → List TaskCall → Type 0 where
    -- No task was started.
    not_started : (e : SavedError) → Releases (err e) (fails e) []
    not_built : Releases unfinished hangs []
    -- The program waits for a reply.
    waiting : (handle : SavedHandle) → Releases (ok handle) hangs []
    -- The program awaits the end of the task, which does not come.
    joining :
        (handle : SavedHandle) (task : T.JoinHandle)
        → handle.task_handle ≡ some task
        → Releases (ok handle) hangs (awaits task ∷ [])
    -- The end of the task was awaited.
    joined :
        (handle : SavedHandle) (task : T.JoinHandle)
        → handle.task_handle ≡ some task
        → Releases (ok handle) (returns tt) (awaits task ∷ [])
    join_failed :
        (handle : SavedHandle) (task : T.JoinHandle)
        → handle.task_handle ≡ some task
        → Releases (ok handle) (fails SavedError.join) (awaits task ∷ [])
    -- The task was aborted, when the handle was dropped.
    aborted :
        (handle : SavedHandle) (task : T.JoinHandle) (e : SavedError)
        → handle.task_handle ≡ some task
        → Releases (ok handle) (fails e) (aborts task ∷ [])
    unwound :
        (handle : SavedHandle) (task : T.JoinHandle)
        → handle.task_handle ≡ some task
        → Releases (ok handle) panics (aborts task ∷ [])

  -- The same of an end of the program.
  abbrev pub Released : Outcome SavedHandle → Exit (Unit {0}) × List TaskCall × Session → Type 0
  Released started (exit, calls, w) = Releases started exit calls

module _ ⦃L : Libp2p⦄ ⦃S : Swarm⦄ ⦃C : Crypto⦄ ⦃T : Platform⦄ where
  -- A step that returns a handle returns one whose task is the spawned one.
  abbrev Spawns : M SavedHandle → Type 0
  Spawns m =
      (s : SavedNetwork) (handle : SavedHandle)
      → (m s).0 ≡ ok handle
      → handle.task_handle ≡ some T.spawned

  bind-Spawns :
      (r : Outcome (Unit {0}) × SavedNetwork) (k : M SavedHandle) (handle : SavedHandle)
      → Spawns k
      → (bind r (λ _. k)).0 ≡ ok handle
      → handle.task_handle ≡ some T.spawned
  bind-Spawns (ok a, s) k handle p h = p s handle h
  bind-Spawns (err e, s) k handle p h = cc
  bind-Spawns (unfinished, s) k handle p h = cc

  Spawns-then : (m : M (Unit {0})) (k : M SavedHandle) → Spawns k → Spawns (m >> k)
  Spawns-then m k p s handle h = bind-Spawns (m s) k handle p h

  pub new-spawned :
      (keypair : C.Keypair) (handle : SavedHandle)
      → (new keypair).0 ≡ ok handle
      → handle.task_handle ≡ some T.spawned
  unfolding new
  new-spawned keypair =
      let last = set_kad_enabled false auto >> pure (handle_of keypair) in
      Spawns-then build_swarm (set_mdns_enabled true >> last)
        (Spawns-then (set_mdns_enabled true) last (
          Spawns-then (set_kad_enabled false auto) (pure (handle_of keypair))
            (λ s handle h. ground arith)))
        initial
