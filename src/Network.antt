-- ===== src/Network.antt =====
-- src/network/mod.rs: `SavedNetwork::new` and `event_loop`. The inputs of the loop are a sequence:
-- what is ready at each turn of `select!`.
pub mod State
pub mod External
pub mod Handle
pub mod Api
pub mod Reconcile
pub mod Handlers
pub mod Events
pub mod Rpc
mod Rounds
pub mod Settle
pub mod Leader
pub mod Modes
pub mod Surplus
pub mod InUse
pub mod UnitTests
pub mod Permitted
pub mod Pair
pub mod Relays
pub mod Dials
pub mod Shutdown
pub mod Start
pub mod Unaffected
pub mod Settings
pub mod Provenance
pub mod Requests
pub mod Reservations
pub mod Announced
pub mod Closed
pub mod Invariant
use saved.Base.{ℕ, Bool, true, false, Option, none, some, List, [], ◌∷◌, if◌then◌else◌}
use saved.Libp2p.{Libp2p, Multiaddr}
use saved.View.{empty_view}
use saved.Relay
use saved.Keygen.{Crypto}
use State.{
  ◌>>=◌, ◌>>◌, auto, SavedNetwork, unknown, Swarm, listens, SavedError, io, libp2p_noise,
  libp2p_multiaddress, libp2p_core_transport, Outcome, ok, err, unfinished, M, pure, throw,
}
use External.{Platform}
use Handle.{SavedHandle}
use Api.{set_mdns_enabled, set_kad_enabled}
use Events.{SwarmEvent, on_swarm_event}
use Rpc.{SavedNetworkRpc, dispatch_rpc}

module _ ⦃L : Libp2p⦄ where
  -- The fields that `new` gives the network.
  abbrev pub initial : SavedNetwork
  initial = record {
    view = empty_view;
    nat_status = unknown;
    relay_manager = Relay.new 4;
    target_peers = [];
    active_mode = true;
    mdns = false;
    kad = none;
    log = [];
  }

  -- What is ready at one turn of the loop; an event comes with the clock.
  pub record Ready : Type 0 where
    pub shutdown : Bool
    pub tick : Bool
    pub command : Option SavedNetworkRpc
    pub event : Option (ℕ × SwarmEvent)

  -- How the loop stands after some turns: stopped by the shutdown signal, still running, or in a
  -- handler that does not return.
  pub data Status : Type 0 where
    stopped running hung : Status

module _ ⦃L : Libp2p⦄ ⦃S : Swarm⦄ where
  -- The result of a handler: an error is printed, and the loop goes on.
  abbrev after_event : Outcome (Unit {0}) × SavedNetwork → Status × SavedNetwork
  after_event (unfinished, s) = (hung, s)
  after_event (ok a, s) = (running, s)
  after_event (err e, s) = (running, s)

  -- One turn of the biased `select!`: the first ready branch is taken.
  unfoldable pub turn : ℕ → Ready → SavedNetwork → Status × SavedNetwork
  turn fuel ready s =
      if ready.shutdown
      then (stopped, s)
      else if ready.tick
      then (running, s)
      else elim ready.command [
        | some rpc ↦ (running, (dispatch_rpc rpc s).1)
        | none ↦ elim ready.event [
          | some (now, event) ↦ after_event (on_swarm_event fuel now event s)
          | none ↦ (running, s)
        ]
      ]

  unfoldable pub event_loop : ℕ → List Ready → SavedNetwork → Status × SavedNetwork
  event_loop fuel [] s = (running, s)
  event_loop fuel (ready ∷ turns) s =
      let (status, s') = turn fuel ready s in
      elim status [
        | running ↦ event_loop fuel turns s'
        | stopped ↦ (stopped, s')
        | hung ↦ (hung, s')
      ]

module _ ⦃L : Libp2p⦄ ⦃T : Platform⦄ where
  -- A step of the builder, with `?`.
  abbrev pub builds : Bool → SavedError → M (Unit {0})
  builds success e = if success then pure tt else throw e

  -- `.parse()?`, of a multiaddress.
  abbrev pub parsed : Option Multiaddr → M Multiaddr
  parsed none = throw libp2p_multiaddress
  parsed (some addr) = pure addr

  -- `swarm.listen_on(addr)?`.
  unfoldable pub listen_on : Multiaddr → M (Unit {0})
  listen_on addr s =
      let called = record s { log = listens addr ∷ s.log } in
      if T.listen_ok s.log addr then (ok tt, called) else (err libp2p_core_transport, called)

  -- The swarm of `new`: it is built, and listens on all interfaces.
  unfoldable pub build_swarm : M (Unit {0})
  build_swarm = do
    builds T.tcp_ok libp2p_noise
    builds T.dns_ok io
    builds T.relay_ok libp2p_noise
    listen_addr_v4 ← parsed (T.parse_addr "/ip4/0.0.0.0/tcp/0")
    listen_addr_v6 ← parsed (T.parse_addr "/ip6/::/tcp/0")
    listen_on listen_addr_v4
    listen_on listen_addr_v6

module _ ⦃L : Libp2p⦄ ⦃S : Swarm⦄ ⦃C : Crypto⦄ ⦃T : Platform⦄ where
  -- `SavedNetwork::new`: the handle, and the network that its task runs.
  unfoldable pub new : C.Keypair → Outcome SavedHandle × SavedNetwork
  new keypair =
      (do
        build_swarm
        set_mdns_enabled true
        set_kad_enabled false auto
        pure (record { id = C.to_peer_id keypair; task_handle = some T.spawned }))
        initial
