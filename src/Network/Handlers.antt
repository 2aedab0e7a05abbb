-- ===== src/Network/Handlers.antt =====
-- src/network/mod.rs: the handlers of addresses and connections. A handler reads the clock once,
-- `now`, and hands `fuel` to `reconcile_peer_connections`.
use saved.Base.{ℕ, true, false, not, ◌&&◌, none, some, List, [], ◌∷◌, if◌then◌else◌}
use saved.Base.Lists.{find}
use saved.Libp2p.{Libp2p, PeerId, ConnectionId, Multiaddr, ConnectedPoint}
use saved.View.{
  NetworkView, add_address, remove_address, add_connection, remove_connection, is_connected,
}
use saved.Relay.{recompute_in_use, register, prune_relays}
use saved.Network.State.{
  SavedNetworkEvent, connected, disconnected, tokio_broadcast_net_event, Swarm, Effect, disconnects,
  kad_adds, kad_removes, broadcasts, ok, err, M, ◌>>◌, pure, emit, NatStatus,
}
use saved.Relay.{contains}
use saved.Network.Api.{set_active_mode}
use saved.Network.Reconcile.{should_skip_for_dial, reconcile_peer_connections}

module _ ⦃L : Libp2p⦄ where
  abbrev pub change_view : (NetworkView → NetworkView) → M (Unit {0})
  change_view f s = (ok tt, record s { view = f s.view })

  -- A call on the Kademlia behaviour, where it runs.
  unfoldable pub if_kad : Effect → M (Unit {0})
  if_kad e s = elim s.kad [ some _ ↦ emit e s | none ↦ (ok tt, s) ]

  unfoldable pub disconnect_all : List PeerId → M (Unit {0})
  disconnect_all [] = pure tt
  disconnect_all (p ∷ ps) = do emit (disconnects p); disconnect_all ps

  -- `update_relay_state`: the relays in use, and then `prune_relays`.
  unfoldable pub update_relay_state : M (Unit {0})
  update_relay_state s =
      let (manager, pruned) = prune_relays s.view (recompute_in_use s.relay_manager s.view) in
      disconnect_all pruned (record s { relay_manager = manager })

  -- `relay_manager.register(relay_id)`.
  abbrev pub register_relay : PeerId → M (Unit {0})
  register_relay r s = (ok tt, record s { relay_manager = register s.relay_manager r })

module _ ⦃L : Libp2p⦄ ⦃S : Swarm⦄ where
  -- `events_tx.send(event)?`: it fails where nobody receives.
  unfoldable pub send_event : SavedNetworkEvent → M (Unit {0})
  send_event e s =
      if S.has_receiver s.log
      then (ok tt, record s { log = broadcasts e ∷ s.log })
      else (err tokio_broadcast_net_event, s)

  -- `on_add_address` behind the test of `should_skip_for_dial`.
  unfoldable pub learn_address : ℕ → ℕ → PeerId → Multiaddr → M (Unit {0})
  learn_address fuel now p addr s =
      let (view, is_new) = add_address now s.view p addr in
      let s' = record s { view = view } in
      elim is_new [
        | false ↦ (ok tt, s')
        | true ↦ (if_kad (kad_adds p addr) >> reconcile_peer_connections fuel now p) s'
      ]

  unfoldable pub on_add_address : ℕ → ℕ → PeerId → Multiaddr → M (Unit {0})
  on_add_address fuel now p addr =
      if should_skip_for_dial addr then pure tt else learn_address fuel now p addr

  unfoldable pub on_remove_address : ℕ → ℕ → PeerId → Multiaddr → M (Unit {0})
  on_remove_address fuel now p addr = do
    change_view (λ view. remove_address now view p addr)
    if_kad (kad_removes p addr)
    reconcile_peer_connections fuel now p

  -- The active mode after a connection to a target peer has closed.
  unfoldable pub leave_target : PeerId → M (Unit {0})
  leave_target p s =
      if contains s.target_peers p && not (is_connected s.view p)
      then set_active_mode true s
      else (ok tt, s)

  unfoldable pub on_peer_connection_closed : ℕ → ℕ → PeerId → ConnectionId → M (Unit {0})
  on_peer_connection_closed fuel now p c = do
    change_view (λ view. remove_connection now view p c)
    send_event (disconnected p c)
    leave_target p
    reconcile_peer_connections fuel now p
    update_relay_state

  -- The active mode after a connection to a target peer has opened: the loop over the targets stops
  -- at the first one that is not connected.
  unfoldable pub meet_target : PeerId → M (Unit {0})
  meet_target p s =
      if contains s.target_peers p
      then elim (find (λ t. not (is_connected s.view t)) s.target_peers) [
        | some t ↦ set_active_mode true s
        | none ↦ set_active_mode false s
      ]
      else (ok tt, s)

  unfoldable pub on_peer_connection_opened :
      ℕ → ℕ → PeerId → ConnectionId → ConnectedPoint → M (Unit {0})
  on_peer_connection_opened fuel now p c endpoint = do
    change_view (λ view. add_connection now view p c endpoint)
    send_event (connected p c)
    meet_target p
    reconcile_peer_connections fuel now p
    update_relay_state

  unfoldable pub on_nat_status_change : NatStatus → M (Unit {0})
  on_nat_status_change status s = (ok tt, record s { nat_status = status })
