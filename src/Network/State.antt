-- ===== src/Network/State.antt =====
-- src/network/mod.rs and src/error.rs: the state of `SavedNetwork`, the events and errors, and the
-- calls of the swarm and of the channels. A call is written into a log; what the swarm answers is
-- a parameter, a function of the calls before it.
use Prim.Native.String.{String}
use saved.Base.{Bool, Option, List, ◌∷◌}
use saved.Libp2p.{Libp2p, PeerId, ConnectionId, Multiaddr}
use saved.View.{NetworkView}
use saved.Relay.{RelayManager}

pub data KadMode : Type 0 where
  auto client server : KadMode

module _ ⦃L : Libp2p⦄ where
  pub data SavedNetworkEvent : Type 0 where
    connected disconnected : PeerId → ConnectionId → SavedNetworkEvent
    kad_found_peer : PeerId → List Multiaddr → SavedNetworkEvent
    listening_on : Multiaddr → SavedNetworkEvent

  pub data NatStatus : Type 0 where
    public : Multiaddr → NatStatus
    private unknown : NatStatus

  -- What other crates report is kept without its details.
  pub data SavedError : Type 0 where
    io libp2p_noise libp2p_multiaddress libp2p_core_transport infallible join : SavedError
    tokio_broadcast_net_event kad_no_known_peers kad_disabled dial : SavedError
    tokio_mpsc_send_net_rpc libp2p_parse : SavedError
    dial_addr_missing_p2p : Multiaddr → SavedError
    oneshot_canceled : String → SavedError

  -- The calls that change the swarm, its behaviours and the channel of events.
  pub data Effect : Type 0 where
    dials listens : Multiaddr → Effect
    closes : ConnectionId → Effect
    disconnects kad_queries : PeerId → Effect
    kad_adds kad_removes : PeerId → Multiaddr → Effect
    kad_bootstraps : Effect
    broadcasts : SavedNetworkEvent → Effect

  -- What the swarm and the channels answer to a call, by the calls before it, newest first.
  pub record Swarm : Type 0 where
    pub local_peer_id : PeerId
    pub dial_ok : List Effect → Multiaddr → Bool
    pub mdns_ok : List Effect → Bool
    pub bootstrap_ok : List Effect → Bool
    pub has_receiver : List Effect → Bool

  pub record SavedNetwork : Type 0 where
    pub view : NetworkView
    pub nat_status : NatStatus
    pub relay_manager : RelayManager
    pub target_peers : List PeerId
    pub active_mode : Bool
    -- The two toggled behaviours: whether mDNS runs, and the mode of Kademlia if it does.
    pub mdns : Bool
    pub kad : Option KadMode
    pub log : List Effect

  -- `unfinished` is a recursion that the fuel did not see the end of.
  pub data Outcome (A : Type 0) : Type 0 where
    ok : A → Outcome A
    err : SavedError → Outcome A
    unfinished : Outcome A

  -- A method on `&mut self` that may fail: the state stays as it is at the failure.
  abbrev pub M : Type 0 → Type 0
  M A = SavedNetwork → Outcome A × SavedNetwork

  abbrev pub bind : {A B : Type 0} → Outcome A × SavedNetwork → (A → M B) → Outcome B × SavedNetwork
  bind (ok a, s) f = f a s
  bind (err e, s) f = (err e, s)
  bind (unfinished, s) f = (unfinished, s)

  infixl 5 ◌>>=◌ ◌>>◌
  abbrev pub ◌>>=◌ : {A B : Type 0} → M A → (A → M B) → M B
  ◌>>=◌ m f s = bind (m s) f

  abbrev pub ◌>>◌ : {B : Type 0} → M (Unit {0}) → M B → M B
  ◌>>◌ m k s = bind (m s) (λ _. k)

  abbrev pub pure : {A : Type 0} → A → M A
  pure a s = (ok a, s)

  abbrev pub throw : {A : Type 0} → SavedError → M A
  throw e s = (err e, s)

  -- A call that cannot fail, or whose failure is ignored.
  abbrev pub emit : Effect → M (Unit {0})
  emit e s = (ok tt, record s { log = e ∷ s.log })
