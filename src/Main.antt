-- ===== src/Main.antt =====
-- src/main.rs: the program, as the calls that it makes through the handle of the network, while the
-- task of the network runs its event loop.
pub mod Calls
pub mod Triples
pub mod Targets
pub mod Seeds
pub mod Released
use Prim.Native.String.{String}
use saved.Base.{ℕ, zero, suc, Bool, true, false, Option, none, some, List, [], ◌∷◌, map}
use saved.Libp2p.{Libp2p, PeerId, Multiaddr}
use saved.Keygen.{Crypto, keypair_from_seed}
use saved.Network.State.{
  client, SavedNetwork, SavedError, libp2p_parse, Swarm, Outcome, ok, err, unfinished,
}
use saved.Network.External.{Platform}
use saved.Network.Handle.{SavedHandle, TaskCall, awaits, take_task, drop, join}
use saved.Network.Events.{SwarmEvent}
use saved.Network.Rpc.{SavedNetworkRpc, Answer, dispatch_rpc, handle_call}
use saved.Network.{Ready, Status, stopped, running, hung, turn, new}
use saved.Network.Shutdown.{continue}

module _ ⦃L : Libp2p⦄ where
  -- How a part of the program ends: `hangs` waits for what does not come.
  pub data Exit (A : Type 0) : Type 0 where
    returns : A → Exit A
    fails : SavedError → Exit A
    panics hangs : Exit A

  -- What the loop finds ready while the program sleeps or waits: the handle is the only sender of
  -- requests, and there are none between its calls.
  pub record Input : Type 0 where
    pub shutdown : Bool
    pub tick : Bool
    pub event : Option (ℕ × SwarmEvent)

  -- By the number of steps made, a call or the printing of events: the turns of the loop before the
  -- step, or during the printing, and whether the channel
  -- still takes a request for a loop that has ended.
  pub record Schedule : Type 0 where
    pub fuel : ℕ
    pub between : ℕ → List Input
    pub sent : ℕ → Bool

  -- The network's task, and the number of steps made.
  pub record Session : Type 0 where
    pub task : Status × SavedNetwork
    pub calls : ℕ

  abbrev pub ready_of : Input → Ready
  ready_of input = record {
    shutdown = input.shutdown;
    tick = input.tick;
    command = none;
    event = input.event;
  }

  abbrev pub Run : Type 0 → Type 0
  Run A = Session → Exit A × Session

  abbrev pub then_run : {A B : Type 0} → Exit A × Session → (A → Run B) → Exit B × Session
  then_run (returns a, w) f = f a w
  then_run (fails e, w) f = (fails e, w)
  then_run (panics, w) f = (panics, w)
  then_run (hangs, w) f = (hangs, w)

  infixl 5 ◌>>=◌ ◌>>◌
  abbrev pub ◌>>=◌ : {A B : Type 0} → Run A → (A → Run B) → Run B
  ◌>>=◌ m f w = then_run (m w) f

  abbrev pub ◌>>◌ : {A B : Type 0} → Run A → Run B → Run B
  ◌>>◌ m k w = then_run (m w) (λ _. k)

  -- `?` on the result of a method.
  abbrev pub exit_of : {A : Type 0} → Outcome A → Exit A
  exit_of (ok a) = returns a
  exit_of (err e) = fails e
  exit_of unfinished = hangs

module _ ⦃L : Libp2p⦄ ⦃S : Swarm⦄ ⦃C : Crypto⦄ ⦃T : Platform⦄ where
  -- The turns of the loop before a call.
  abbrev pub wait : Schedule → Session → Status × SavedNetwork
  wait plan w = continue plan.fuel (map ready_of (plan.between w.calls)) w.task

  -- A request that reaches the running loop is taken at one of its turns.
  abbrev pub asks : SavedNetworkRpc → Ready
  asks r = record { shutdown = false; tick = false; command = some r; event = none }

  -- The call of a method of the handle, with `?`.
  unfoldable pub answer :
      (plan : Schedule) (r : SavedNetworkRpc)
      → ℕ
      → Status × SavedNetwork
      → Exit (Answer r) × Session
  answer plan r calls (running, s) = (
    exit_of (handle_call r true (some (dispatch_rpc r s).0)),
    record { task = turn plan.fuel (asks r) s; calls = suc calls },
  )
  answer plan r calls (stopped, s) = (
    exit_of (handle_call r (plan.sent calls) none),
    record { task = (stopped, s); calls = suc calls },
  )
  answer plan r calls (hung, s) = (hangs, record { task = (hung, s); calls = suc calls })

  unfoldable pub call : Schedule → (r : SavedNetworkRpc) → Run (Answer r)
  call plan r w = answer plan r w.calls (wait plan w)

  -- `.map(|s| s.parse().expect(..)).collect()`: `none` is a panic.
  unfoldable pub parse_all : List String → Option (List Multiaddr)
  parse_all [] = some []
  parse_all (text ∷ texts) = elim (T.parse_addr text) [
    | none ↦ none
    | some addr ↦ elim (parse_all texts) [ none ↦ none | some addrs ↦ some (addr ∷ addrs) ]
  ]

  abbrev pub bootstrap_addrs : List String
  bootstrap_addrs =
      "/dnsaddr/bootstrap.libp2p.io/p2p/QmNnooDu7bfjPFoTZYxMNLWUQJyrVwtbZg5gBMjTezGAJN"
      ∷ "/dnsaddr/bootstrap.libp2p.io/p2p/QmQCU2EcMqAqQPR2i9bChDtGNJchTbq5TbXJJ16u19uLTa"
      ∷ "/dnsaddr/bootstrap.libp2p.io/p2p/QmbLHAnMoJPWSCR5Zhtx6BHJX9KiKNN6tpvbUcqanj75Nb"
      ∷ "/dnsaddr/bootstrap.libp2p.io/p2p/QmcZf59bWwK5XFi76CZX8cbJ4BhTzzA3gU1ZjYZcYW3dwt"
      ∷ "/ip4/104.131.131.82/tcp/4001/p2p/QmaCpDMGvV2BGHeYERUEnRQAwe3N8SzbUtfsmvsqQLuvuJ" ∷ []

  unfoldable pub dial_all : Schedule → List Multiaddr → Run (Unit {0})
  dial_all plan [] w = (returns tt, w)
  dial_all plan (addr ∷ addrs) w = (call plan (SavedNetworkRpc.dial addr) >> dial_all plan addrs) w

  -- The block of `if boostrap`.
  unfoldable pub bootstrap : Schedule → Bool → Run (Unit {0})
  bootstrap plan false w = (returns tt, w)
  bootstrap plan true w = elim (parse_all bootstrap_addrs) [
    | none ↦ (panics, w)
    | some addrs ↦ (dial_all plan addrs >> call plan SavedNetworkRpc.kad_bootstrap) w
  ]

  unfoldable pub add_parsed : Schedule → Option PeerId → Run Bool
  add_parsed plan none w = (fails libp2p_parse, w)
  add_parsed plan (some target) w = call plan (SavedNetworkRpc.add_target_peer target) w

  -- `network_handle.add_target_peer(PeerId::from_str(..)?).await?`.
  unfoldable pub add_seed : Schedule → String → Run Bool
  add_seed plan text = add_parsed plan (T.parse_peer text)

  -- The ten seconds in which the events that come are printed, under `timeout`: the loop takes its
  -- turns, and nothing is asked of it.
  unfoldable pub print_events : Schedule → Run (Unit {0})
  print_events plan w = (returns tt, record { task = wait plan w; calls = suc w.calls })

  -- From the first call through the handle to the last.
  unfoldable pub script : Schedule → Bool → PeerId → Run Bool
  script plan boostrap id = do
    call plan (SavedNetworkRpc.set_kad_enabled true client)
    call plan (SavedNetworkRpc.set_mdns_enabled true)
    bootstrap plan boostrap
    call plan (SavedNetworkRpc.kad_find_peer id)
    print_events plan
    add_seed plan "QmUh4bvMXKXepae9V5pbRwmhd2XqcPHDLrfrAEwpJ6J8os"
    add_seed plan "QmdoTQGmZi2EZKrXagxvL8Uy76ADpS5d53XLvuVXJxyvN1"

  -- `join` of a task that does not end: it has been taken out of the handle, and is awaited.
  unfoldable pub join_waits : SavedHandle → Exit (Unit {0}) × List TaskCall
  join_waits handle =
      let (taken, rest) = take_task handle in
      elim taken [ some task ↦ (hangs, awaits task ∷ []) | none ↦ (returns tt, drop rest) ]

  -- `network_handle.join().await?`: the task ends when its loop has stopped.
  unfoldable pub join_task : SavedHandle → Status × SavedNetwork → Exit (Unit {0}) × List TaskCall
  join_task handle (stopped, s) = let (result, calls) = join handle in (exit_of result, calls)
  join_task handle (running, s) = join_waits handle
  join_task handle (hung, s) = join_waits handle

  -- The end of `main`: the handle is joined after the script, and dropped where it fails or panics.
  unfoldable pub finish :
      Schedule → SavedHandle → Exit Bool × Session → Exit (Unit {0}) × List TaskCall × Session
  finish plan handle (returns _, w) =
      let (exit, calls) = join_task handle (wait plan w) in
      (exit, calls, record w { task = wait plan w })
  finish plan handle (fails e, w) = (fails e, drop handle, w)
  finish plan handle (panics, w) = (panics, drop handle, w)
  finish plan handle (hangs, w) = (hangs, [], w)

  -- The session in which the task of a new network starts.
  abbrev pub session_of : SavedNetwork → Session
  session_of s = record { task = (running, s); calls = zero }

  unfoldable pub after_new :
      Schedule
      → Bool
      → Outcome SavedHandle × SavedNetwork
      → Exit (Unit {0}) × List TaskCall × Session
  after_new plan boostrap (ok handle, s) =
      finish plan handle (script plan boostrap handle.id (session_of s))
  after_new plan boostrap (err e, s) = (fails e, [], session_of s)
  after_new plan boostrap (unfinished, s) = (hangs, [], session_of s)

  unfoldable pub with_keypair :
      Schedule → Bool → Option C.Keypair → Option (Exit (Unit {0}) × List TaskCall × Session)
  with_keypair plan boostrap none = none
  with_keypair plan boostrap (some keypair) = some (after_new plan boostrap (new keypair))

  -- `main`, by the two variables of the environment: how it ends, what it does with the task of the
  -- network, and the session at the end. `none` is the panic without a keypair.
  unfoldable pub main :
      Schedule → List ℕ → Bool → Option (Exit (Unit {0}) × List TaskCall × Session)
  main plan seed_phrase boostrap = with_keypair plan boostrap (keypair_from_seed seed_phrase)
