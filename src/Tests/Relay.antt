-- ===== src/Tests/Relay.antt =====
-- The theorems on the relays at a concrete manager and view.
use saved.Base.{ℕ, ◌≡◌, refl, not, none, some, List, [], ◌∷◌, ◌++◌, arith}
use saved.Base.Lists.{any, total}
use saved.Libp2p.{Protocol, ip4, p2p, p2p_circuit, tcp, dialer}
use saved.View.{NetworkView, empty_view}
use saved.View.Consistent.{run, adds_address, connects, pings}
use saved.Relay.{
  RelayManager, contains, can_reserve, register, should_prune, remove, recompute_in_use,
  get_worst_unused, rtt_or_max, prune_relays,
}
use saved.Relay
use saved.Relay.Address.{extract_loop, extract_loop-relay}
use saved.Relay.Reserve.{IsSound, can_reserve-should_prune}
use saved.Relay.Prune.{IsPruned, prune_relays-IsPruned}
use saved.Relay.{recompute_in_use}
use saved.Network.State.{SavedNetwork}
use saved.Network.{initial}
use saved.Network.Handlers.{update_relay_state}
use saved.Network.Relays.{IsUpdated, update_relay_state-IsUpdated}
use saved.Tests.{sample, wan_tcp, relayed}

-- Peers 4, 5 and 6 with a round trip each, and a connection to peer 2 over the relay 9.
abbrev view : NetworkView
view = run empty_view (
    adds_address 1 4 wan_tcp
    ∷ pings 4 70
    ∷ adds_address 1 5 wan_tcp
    ∷ pings 5 90
    ∷ connects 2 2 7 (dialer relayed)
    ∷ [])

-- Three reservations, with room for one.
abbrev crowded : RelayManager
crowded = record { reserved = 4 ∷ 5 ∷ 9 ∷ []; in_use = 9 ∷ []; max_relays = 0 }

abbrev fresh : RelayManager
fresh = Relay.new 4

fresh-IsSound : IsSound fresh
unfolding total
fresh-IsSound = record { reserved_distinct = λ p. omega arith; in_use_distinct = λ p. omega arith }

crowded-IsSound : IsSound crowded
unfolding total
crowded-IsSound = record {
  reserved_distinct = λ p. ground arith;
  in_use_distinct = λ p. ground arith;
}

abbrev before : List (Protocol ℕ)
before = ip4 1 2 3 4 ∷ p2p 3 ∷ []

abbrev middle : List (Protocol ℕ)
middle = tcp 1 ∷ []

abbrev target : List (Protocol ℕ)
target = p2p 2 ∷ []

extract_loop-relay_example :
    extract_loop (before ++ p2p 9 ∷ (middle ++ p2p_circuit ∷ target)) none ≡ some 9
unfolding any
extract_loop-relay_example = extract_loop-relay before middle target 9 none refl refl refl

can_reserve-should_prune_example : should_prune (register fresh 3) ≡ not (can_reserve fresh 3)
unfolding should_prune
can_reserve-should_prune_example = can_reserve-should_prune fresh 3 refl

prune_relays-IsPruned_example :
    IsPruned view crowded (prune_relays view crowded).0 (prune_relays view crowded).1
prune_relays-IsPruned_example = prune_relays-IsPruned view crowded crowded-IsSound

abbrev crowded_network : SavedNetwork
crowded_network = record initial { view = view; relay_manager = crowded }

update_relay_state-IsUpdated_example :
    IsUpdated crowded_network
      (update_relay_state crowded_network).1
      (prune_relays view (recompute_in_use crowded view)).1
update_relay_state-IsUpdated_example = update_relay_state-IsUpdated crowded_network crowded-IsSound
