-- ===== src/Tests/Node.antt =====
-- The theorems on the node from its start, on what its subscribers know, and on two nodes.
use saved.Base.{◌≡◌, ◌⊎◌, true, some, refl, List, [], ◌∷◌, arith}
use saved.Base.Lists.{total}
use saved.Libp2p.{dialer}
use saved.Network.State.{SavedNetwork, Swarm}
use saved.Network.InUse.{IsInUse}
use saved.Network.InUse.Loop.{turns-run, event_loop-IsInUse}
use saved.Network.Reconcile.{reconcile_peer_connections}
use saved.Network.Events.{connection_established, reservation_req_accepted, on_swarm_event}
use saved.Network.{Ready, event_loop, new}
use saved.Network.Start.{started_loop-IsValid, started-IsValid}
use saved.Network.Invariant.{IsValid}
use saved.Network.Invariant.Loop.{on_swarm_event-IsValid}
use saved.Network.Settings.{settings, settled, on_swarm_event-settings}
use saved.Network.Reservations.{IsWithin, event_loop-IsWithin}
use saved.Network.Announced.Events.{IsHeard, IsMirrored}
use saved.Network.Announced.Loop.{event_loop-IsHeard, event_loop-IsMirrored}
use saved.Network.Provenance.{AllDials}
use saved.Network.Provenance.Loop.{told, event_loop-AllDials}
use saved.Network.Pair.{ClosesNone, reconcile-ClosesNone}
use saved.Tests.{sample, willing, linux, toy_keys, any_ip4, any_ip6, willing, keypair, relayed}
use saved.Tests.Network.{quiet, turns, node, joined_node}

started_loop-IsValid_example : IsValid (event_loop 3 turns (new keypair).1).1
started_loop-IsValid_example = started_loop-IsValid 3 turns keypair

event_loop-IsWithin_example : IsWithin (event_loop 3 turns (new keypair).1).1.relay_manager
event_loop-IsWithin_example = event_loop-IsWithin 3 turns keypair

event_loop-AllDials_example :
    AllDials (λ a. told turns a ≡ true) (event_loop 3 turns (new keypair).1).1.log
event_loop-AllDials_example = event_loop-AllDials 3 turns keypair

event_loop-IsHeard_example : IsHeard (event_loop 3 turns (new keypair).1).1
event_loop-IsHeard_example = event_loop-IsHeard 3 turns keypair (λ calls. refl)

event_loop-IsMirrored_example : IsMirrored (event_loop 3 turns (new keypair).1).1
event_loop-IsMirrored_example =
    event_loop-IsMirrored 3 turns keypair (λ calls. refl)
      (refl, (refl, (refl, (refl, (refl, (refl, tt))))))

-- The peer 2 is a target, and so is 3.
abbrev searching : SavedNetwork
searching = record node { target_peers = 2 ∷ 3 ∷ [] }

joined_node-IsValid : IsValid joined_node
joined_node-IsValid =
    on_swarm_event-IsValid 3 2 (connection_established 2 7 (dialer relayed)) node
      (started-IsValid any_ip4 any_ip6)

searching-IsValid : IsValid searching
unfolding total
searching-IsValid = record {
  view_ok = (started-IsValid any_ip4 any_ip6).view_ok;
  relays_ok = (started-IsValid any_ip4 any_ip6).relays_ok;
  targets_ok = λ q. ground arith;
}

on_swarm_event-settings_example :
    settings (on_swarm_event 3 2 (connection_established 2 7 (dialer relayed)) searching).1
    ≡ settled
        (connection_established 2 7 (dialer relayed))
        searching
        (on_swarm_event 3 2 (connection_established 2 7 (dialer relayed)) searching).1.view
on_swarm_event-settings_example =
    on_swarm_event-settings 3 2 (connection_established 2 7 (dialer relayed)) searching
      (λ calls. refl) searching-IsValid

-- The peer that the network is connected to.
abbrev second : Swarm
second = record willing { local_peer_id = 2 }

reconcile-ClosesNone_example :
    ClosesNone joined_node.log (reconcile_peer_connections ⦃S = willing⦄ 3 4 2 joined_node).1.log
    ⊎ ClosesNone node.log (reconcile_peer_connections ⦃S = second⦄ 3 5 1 node).1.log
reconcile-ClosesNone_example =
    reconcile-ClosesNone willing second 3 3 4 5 joined_node node (omega arith) joined_node-IsValid
      (started-IsValid any_ip4 any_ip6)

-- A relay accepts a reservation, and a connection over it to the peer 2 opens.
abbrev relayed_turns : List Ready
relayed_turns =
    record quiet { event = some (1, reservation_req_accepted 9) }
    ∷ record quiet { event = some (2, connection_established 2 7 (dialer relayed)) }
    ∷ []

-- A swarm that accepts every dial.
abbrev eager : Swarm
eager = record willing { dial_ok = λ calls addr. true }

event_loop-IsInUse_example :
    IsInUse (event_loop ⦃S = eager⦄ 3 relayed_turns (new ⦃S = eager⦄ keypair).1).1
event_loop-IsInUse_example =
    event_loop-IsInUse ⦃S = eager⦄ 3 relayed_turns keypair (λ calls. refl) (λ calls. refl)
      (refl, (refl, tt))
      (turns-run ⦃S = eager⦄ 2 (λ calls. refl) (λ calls. refl) (λ calls addr. refl) relayed_turns
        (new ⦃S = eager⦄ keypair).1 (refl, (refl, tt)))
