-- ===== src/Network/Rpc.antt =====
-- src/network/rpc_macros.rs and src/network/api.rs: the request enum that `saved_rpc!` makes of the
-- API, the dispatcher, and the methods of the handle.
use Prim.Native.String.{String}
use saved.Base.{Bool, true, false, Option, none, some}
use saved.Libp2p.{Libp2p, PeerId, Multiaddr}
use saved.Network.State.{KadMode, tokio_mpsc_send_net_rpc, oneshot_canceled, Swarm, Outcome, err, M}
use saved.Network.Api.{
  set_mdns_enabled as api_set_mdns, set_kad_enabled as api_set_kad, kad_find_peer as api_find_peer,
  kad_bootstrap as api_bootstrap, dial as api_dial, add_target_peer as api_add_target,
  remove_target_peer as api_remove_target,
}

module _ ⦃L : Libp2p⦄ where
  pub data SavedNetworkRpc : Type 0 where
    set_mdns_enabled : Bool → SavedNetworkRpc
    set_kad_enabled : Bool → KadMode → SavedNetworkRpc
    kad_find_peer : PeerId → SavedNetworkRpc
    kad_bootstrap : SavedNetworkRpc
    dial : Multiaddr → SavedNetworkRpc
    add_target_peer remove_target_peer : PeerId → SavedNetworkRpc

  -- What a request's method returns.
  abbrev pub Answer : SavedNetworkRpc → Type 0
  Answer (add_target_peer target) = Bool
  Answer (remove_target_peer target) = Bool
  Answer _ = Unit {0}

  -- `stringify!` of the method's name.
  unfoldable pub rpc_name : SavedNetworkRpc → String
  rpc_name (set_mdns_enabled enabled) = "set_mdns_enabled"
  rpc_name (set_kad_enabled enabled mode) = "set_kad_enabled"
  rpc_name (kad_find_peer target) = "kad_find_peer"
  rpc_name kad_bootstrap = "kad_bootstrap"
  rpc_name (dial addr) = "dial"
  rpc_name (add_target_peer target) = "add_target_peer"
  rpc_name (remove_target_peer target) = "remove_target_peer"

module _ ⦃L : Libp2p⦄ ⦃S : Swarm⦄ where
  -- `dispatch_rpc`: the method's result goes to the sender of the request, and the new state stays.
  unfoldable pub dispatch_rpc : (r : SavedNetworkRpc) → M (Answer r)
  dispatch_rpc (set_mdns_enabled enabled) = api_set_mdns enabled
  dispatch_rpc (set_kad_enabled enabled mode) = api_set_kad enabled mode
  dispatch_rpc (kad_find_peer target) = api_find_peer target
  dispatch_rpc kad_bootstrap = api_bootstrap
  dispatch_rpc (dial addr) = api_dial addr
  dispatch_rpc (add_target_peer target) = api_add_target target
  dispatch_rpc (remove_target_peer target) = api_remove_target target

module _ ⦃L : Libp2p⦄ where
  -- A method of the handle: it sends the request and awaits the reply. `sent` says whether the
  -- channel takes the request, and the reply is `none` where its sender is dropped.
  unfoldable pub handle_call :
      (r : SavedNetworkRpc) → Bool → Option (Outcome (Answer r)) → Outcome (Answer r)
  handle_call r false reply = err tokio_mpsc_send_net_rpc
  handle_call r true none = err (oneshot_canceled (rpc_name r))
  handle_call r true (some result) = result
