-- ===== src/Network/Requests.antt =====
-- src/network/mod.rs: the methods of the API change neither the view nor the relays.
use saved.Base.{◌≡◌, refl, arith}
use saved.Libp2p.{Libp2p}
use saved.Network.State.{SavedNetwork, Swarm}
use saved.Network.Api.{
  set_mdns_enabled, set_kad_enabled, kad_find_peer, kad_bootstrap, swarm_dial, dial,
  add_target_peer, remove_target_peer,
}
use saved.Network.Rpc.{SavedNetworkRpc, dispatch_rpc}
use saved.Network.Rpc

module _ ⦃L : Libp2p⦄ ⦃S : Swarm⦄ where
  pub request-view :
      (rpc : SavedNetworkRpc) (s : SavedNetwork) → (dispatch_rpc rpc s).1.view ≡ s.view
  unfolding dispatch_rpc set_mdns_enabled set_kad_enabled kad_find_peer kad_bootstrap swarm_dial
      dial add_target_peer remove_target_peer
  request-view (Rpc.set_mdns_enabled enabled) s = ground arith
  request-view (Rpc.set_kad_enabled enabled mode) s = ground arith
  request-view (Rpc.kad_find_peer target) s = ground arith
  request-view Rpc.kad_bootstrap s = ground arith
  request-view (Rpc.dial addr) s = ground arith
  request-view (Rpc.add_target_peer target) s = refl
  request-view (Rpc.remove_target_peer target) s = refl

  pub request-relays :
      (rpc : SavedNetworkRpc) (s : SavedNetwork)
      → (dispatch_rpc rpc s).1.relay_manager ≡ s.relay_manager
  unfolding dispatch_rpc set_mdns_enabled set_kad_enabled kad_find_peer kad_bootstrap swarm_dial
      dial add_target_peer remove_target_peer
  request-relays (Rpc.set_mdns_enabled enabled) s = ground arith
  request-relays (Rpc.set_kad_enabled enabled mode) s = ground arith
  request-relays (Rpc.kad_find_peer target) s = ground arith
  request-relays Rpc.kad_bootstrap s = ground arith
  request-relays (Rpc.dial addr) s = ground arith
  request-relays (Rpc.add_target_peer target) s = refl
  request-relays (Rpc.remove_target_peer target) s = refl
