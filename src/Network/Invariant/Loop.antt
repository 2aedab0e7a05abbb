-- ===== src/Network/Invariant/Loop.antt =====
-- src/network/mod.rs: `on_swarm_event`, the event loop and the fields that `new` gives the network,
-- with respect to its invariant.
use saved.Base.{ℕ, List, [], ◌∷◌, arith}
use saved.Base.Lists.{total}
use saved.Libp2p.{Libp2p}
use saved.View.Consistent.{empty_view-IsConsistent}
use saved.Network.State.{SavedNetwork, Swarm}
use saved.Network.Events.{SwarmEvent, on_swarm_event}
use saved.Network.Rpc.{
  SavedNetworkRpc, kad_find_peer, kad_bootstrap, dial, add_target_peer, remove_target_peer,
  dispatch_rpc,
}
use saved.Network.Rpc
use saved.Network.{Ready, event_loop, initial}
use saved.Network.Invariant.{
  IsValid, Keeps, IsValid-kept, set_mdns_enabled-Keeps, set_kad_enabled-Keeps, kad_find_peer-Keeps,
  kad_bootstrap-Keeps, dial-Keeps, add_target_peer-Keeps, remove_target_peer-Keeps,
}
use saved.Network.Closed.Loop.{AllAllow, on_swarm_event-Keeps, event_loop-Keeps}

module _ ⦃L : Libp2p⦄ ⦃S : Swarm⦄ where
  -- Every swarm event keeps the network valid, whether its handler succeeds, fails or does not
  -- return.
  pub on_swarm_event-IsValid :
      (fuel now : ℕ) (event : SwarmEvent) (s : SavedNetwork)
      → IsValid s
      → IsValid (on_swarm_event fuel now event s).1
  on_swarm_event-IsValid = on_swarm_event-Keeps IsValid IsValid-kept

  pub dispatch_rpc-Keeps : (rpc : SavedNetworkRpc) → Keeps (dispatch_rpc rpc)
  unfolding dispatch_rpc
  dispatch_rpc-Keeps (Rpc.set_mdns_enabled enabled) = set_mdns_enabled-Keeps enabled
  dispatch_rpc-Keeps (Rpc.set_kad_enabled enabled mode) = set_kad_enabled-Keeps enabled mode
  dispatch_rpc-Keeps (kad_find_peer target) = kad_find_peer-Keeps target
  dispatch_rpc-Keeps kad_bootstrap = kad_bootstrap-Keeps
  dispatch_rpc-Keeps (dial addr) = dial-Keeps addr
  dispatch_rpc-Keeps (add_target_peer target) = add_target_peer-Keeps target
  dispatch_rpc-Keeps (remove_target_peer target) = remove_target_peer-Keeps target

  all_requests : (turns : List Ready) → AllAllow IsValid IsValid-kept turns
  all_requests [] = tt
  all_requests (ready ∷ turns) = ((λ rpc _. dispatch_rpc-Keeps rpc), all_requests turns)

  -- From a valid network, the network is valid after any sequence of turns of the event loop,
  -- also where a handler fails or does not return.
  pub event_loop-IsValid :
      (fuel : ℕ) (turns : List Ready) (s : SavedNetwork)
      → IsValid s
      → IsValid (event_loop fuel turns s).1
  event_loop-IsValid fuel turns s h =
      event_loop-Keeps IsValid IsValid-kept fuel turns s (all_requests turns) h

module _ ⦃L : Libp2p⦄ where
  pub initial-IsValid : IsValid initial
  unfolding total
  initial-IsValid = record {
    view_ok = empty_view-IsConsistent;
    relays_ok = record {
      reserved_distinct = λ q. ground arith;
      in_use_distinct = λ q. ground arith;
    };
    targets_ok = λ q. ground arith;
  }
