-- ===== src/Tests/Network.antt =====
-- The theorems on the network at a concrete state.
use saved.Base.{
  ◌+◌, ◌++◌, ℕ, ◌≤◌, ◌≡◌, inr, refl, true, false, ◌&&◌, none, some, List, [], ◌∷◌, arith,
  if◌then◌else◌, ℕ_discrete,
}
use saved.Base.Lists.{any, total}
use saved.Base.Assoc.{get}
use saved.Libp2p.{Protocol, ip6, dialer}
use saved.View.Peer.{PeerInfoExt, AddressMetadata, default_info, new_metadata, failed_at}
use saved.View.Peer.{is_in_cooldown}
use saved.View.{info_of, is_connected}
use saved.View.Invariant.{IsValid as EntryIsValid}
use saved.Network.State.{SavedNetwork, kad_queries, client, ok, unfinished}
use saved.Network.Api.{set_active_mode}
use saved.Network.Reconcile.{is_prune_leader, reconcile_peer_connections}
use saved.Network.Events.{
  connection_established, connection_closed, mdns_discovered, on_swarm_event,
}
use saved.Network.Rpc
use saved.Network.{Ready, initial, event_loop}
use saved.Network.Start.{started, started-IsValid}
use saved.Network.Invariant.Loop.{on_swarm_event-IsValid}
use saved.View.Consistent.{IsConsistent, connects}
use saved.View.Spec.{connectivity, spec_step}
use saved.Network.Invariant.Connectivity.{on_swarm_event-connectivity}
use saved.Network.Settle.{dialable, reconcile-returns, reconcile-unfinished}
use saved.Network.Shutdown.{stop, event_loop-shutdown}
use saved.Network.Modes.{set_active_mode_lem}
use saved.Network.Events.{SwarmEvent}
use saved.Network.Invariant.Does.{Follows}
use saved.Network.Invariant.Events.{calls_of, on_swarm_event-Does}
use saved.Network.Permitted.{Since, reconcile-permitted}
use saved.Network.Dials.{EndsInDial, reconcile-EndsInDial}
use saved.Network.Surplus.{closings, is_surplus, reconcile-closings}
use saved.Tests.{
  sample, willing, linux, toy_keys, any_ip4, any_ip6, refusing, lan_quic, wan_tcp, relayed,
}

-- The network that `new` starts.
abbrev pub node : SavedNetwork
node = started any_ip4 any_ip6

abbrev pub quiet : Ready
quiet = record { shutdown = false; tick = false; command = none; event = none }

-- A target peer, found over mDNS, that connects and leaves, and then the shutdown.
abbrev pub turns : List Ready
turns =
    record quiet { command = some (Rpc.add_target_peer 2) }
    ∷ record quiet { event = some (1, mdns_discovered ((2, lan_quic) ∷ [])) }
    ∷ record quiet { event = some (2, connection_established 2 7 (dialer lan_quic)) }
    ∷ record quiet { event = some (3, connection_closed 2 7) }
    ∷ record quiet { tick = true }
    ∷ record quiet { shutdown = true }
    ∷ []

abbrev signal : Ready
signal = record quiet { shutdown = true }

event_loop-shutdown_example :
    event_loop 3 (turns ++ signal ∷ turns) node ≡ stop (event_loop 3 turns node)
event_loop-shutdown_example = event_loop-shutdown 3 turns turns signal node refl

on_swarm_event-connectivity_example :
    connectivity (on_swarm_event 3 2 (connection_established 2 7 (dialer relayed)) node).1.view
    ≡ spec_step (connectivity node.view) (connects 2 2 7 (dialer relayed))
on_swarm_event-connectivity_example =
    on_swarm_event-connectivity 3 2 (connection_established 2 7 (dialer relayed))
      (connects 2 2 7 (dialer relayed)) node (started-IsValid any_ip4 any_ip6) refl

abbrev fresh_info : PeerInfoExt
fresh_info = record default_info {
  addresses = failed_at 5 (new_metadata lan_quic) ∷ new_metadata wan_tcp ∷ [];
}

abbrev with_info : PeerInfoExt → SavedNetwork
with_info info = record initial { view = record { peers = (2, info) ∷ [] } }

entry_of : (info : PeerInfoExt) → info_of (with_info info).view 2 ≡ some info
unfolding get ℕ_discrete
entry_of info = refl

wan_tcp-dialable : 1 ≤ total (dialable 6 wan_tcp) fresh_info.addresses
unfolding total new_metadata is_in_cooldown
wan_tcp-dialable = ground arith

fresh_info-unconnected : is_connected (with_info fresh_info).view 2 ≡ false
unfolding is_connected any new_metadata get ℕ_discrete
fresh_info-unconnected = refl

reconcile-returns_example : (reconcile_peer_connections 4 6 2 (with_info fresh_info)).0 ≡ ok tt
reconcile-returns_example =
    reconcile-returns 4 6 2 wan_tcp (with_info fresh_info) fresh_info (λ calls. refl)
      (entry_of fresh_info) wan_tcp-dialable (omega arith)

reconcile-EndsInDial_example :
    EndsInDial (reconcile_peer_connections 4 6 2 (with_info fresh_info)).1.log
reconcile-EndsInDial_example =
    reconcile-EndsInDial 4 6 2 wan_tcp (with_info fresh_info) fresh_info (λ calls. refl)
      (entry_of fresh_info) fresh_info-unconnected wan_tcp-dialable (omega arith)

reconcile-unfinished_example :
    (reconcile_peer_connections ⦃S = refusing⦄ 1_000 6 2 (with_info fresh_info)).0 ≡ unfinished
reconcile-unfinished_example =
    reconcile-unfinished ⦃S = refusing⦄ 1_000 6 2 (with_info fresh_info) fresh_info
      (λ calls a. refl) (entry_of fresh_info) (omega arith) fresh_info-unconnected

abbrev pub two_targets : SavedNetwork
two_targets = record initial { target_peers = 2 ∷ 3 ∷ [] }

set_active_mode_lem_example : set_active_mode true two_targets ≡ (
  ok tt,
  record two_targets {
    active_mode = true;
    kad = some client;
    mdns = true;
    log = kad_queries 3 ∷ kad_queries 2 ∷ [];
  },
)
set_active_mode_lem_example = set_active_mode_lem true two_targets (inr refl)

-- A connection on the best address, and one on another.
abbrev over : List ℕ → List (Protocol ℕ) → AddressMetadata
over cs addr = record (new_metadata addr) { active_connections = cs }

abbrev doubled : PeerInfoExt
doubled = record default_info { addresses = over (7 ∷ []) lan_quic ∷ over (8 ∷ []) wan_tcp ∷ [] }

doubled-IsValid : EntryIsValid doubled
unfolding total new_metadata
doubled-IsValid = record {
  distinct = λ a. ground arith;
  single = λ c. ground arith;
  classified = (
    record { transport_ok = refl; scope_ok = refl; failed = refl },
    (record { transport_ok = refl; scope_ok = refl; failed = refl }, tt),
  );
}

doubled-IsConsistent : IsConsistent (with_info doubled).view
unfolding total
doubled-IsConsistent = record { keys = λ p. ground arith; infos = (doubled-IsValid, tt) }

reconcile-closings_example :
    closings 8 (reconcile_peer_connections 1 6 2 (with_info doubled)).1.log
    ≡ closings 8 (with_info doubled).log
      + (if is_prune_leader 2 && is_surplus (with_info doubled).view 2 8 then 1 else 0)
reconcile-closings_example = reconcile-closings 2 0 6 (with_info doubled) 8 doubled-IsConsistent

-- An address that mDNS finds, and one that is skipped.
abbrev found : SwarmEvent
found = mdns_discovered ((2, lan_quic) ∷ (2, ip6 (254 ∷ 128 ∷ []) ∷ []) ∷ (3, wan_tcp) ∷ [])

on_swarm_event-Does_example :
    Follows (connectivity node.view) (calls_of 2 found) (on_swarm_event 3 2 found node)
on_swarm_event-Does_example = on_swarm_event-Does 3 2 found node (started-IsValid any_ip4 any_ip6)

-- The same network with a connection to the peer 2.
abbrev pub joined_node : SavedNetwork
joined_node = (on_swarm_event 3 2 (connection_established 2 7 (dialer relayed)) node).1

reconcile-permitted_example :
    Since
      (is_prune_leader 2)
      (connectivity joined_node.view)
      2
      joined_node.log
      (reconcile_peer_connections 3 4 2 joined_node).1.log
reconcile-permitted_example = reconcile-permitted 3 4 2 joined_node (
    on_swarm_event-IsValid 3 2 (connection_established 2 7 (dialer relayed)) node
      (started-IsValid any_ip4 any_ip6))
