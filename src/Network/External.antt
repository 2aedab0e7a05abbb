-- ===== src/Network/External.antt =====
-- src/network/mod.rs: what `SavedNetwork::new` uses of libp2p's builder and transports, of the
-- parsers, and of tokio's tasks. None of them is part of the repository: a parameter.
use Prim.Native.String.{String}
use saved.Base.{Bool, Option, List}
use saved.Libp2p.{Libp2p, PeerId, Multiaddr}
use saved.Network.State.{Effect}

-- A step of the builder that may fail is whether it succeeds; a parser gives `none` for its error.
pub record Platform ⦃L : Libp2p⦄ : Type 1 where
  pub tcp_ok : Bool
  pub dns_ok : Bool
  pub relay_ok : Bool
  pub listen_ok : List Effect → Multiaddr → Bool
  pub parse_addr : String → Option Multiaddr
  pub parse_peer : String → Option PeerId
  pub JoinHandle : Type 0
  -- The task that `tokio::task::spawn` makes, and whether awaiting its end gives no `JoinError`.
  pub spawned : JoinHandle
  pub join_ok : JoinHandle → Bool
