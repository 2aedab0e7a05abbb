-- ===== src/Tests/Program.antt =====
-- The theorems on the start and on the whole program at a concrete platform.
use saved.Base.{ℕ, ◌≡◌, ◌≢◌, refl, true, false, none, some, List, [], ◌∷◌, if◌then◌else◌, ◌==◌}
use saved.Keygen.{keypair_from_seed, keypair_of_key, copy_from_slice, zeros}
use saved.Network.State.{SavedError, kad_disabled, ok, err}
use saved.Network.{new, build_swarm, listen_on, event_loop, turn}
use saved.Network.Api.{
  set_mdns_enabled, set_kad_enabled, kad_find_peer, add_target_peer, dial, swarm_dial,
  kad_bootstrap,
}
use saved.Network.Handle.{join, take_task, drop}
use saved.Network.Rpc.{handle_call, dispatch_rpc}
use saved.Network.Events.{on_swarm_event}
use saved.Network.Handlers.{send_event}
use saved.Base.Lists.{any}
use saved.Relay.{set_insert}
use saved.Main.{
  with_keypair, finish, script, print_events, call, answer, bootstrap, parse_all, dial_all,
  add_seed, add_parsed, join_task,
}
use saved.Network.Start.{
  first_error, start_checks, started, started-IsValid, handle_of, new-first_error,
}
use saved.Network.Events.{new_listen_addr}
use saved.Network.Handle.{TaskCall}
use saved.Network.{stopped}
use saved.Network.Rpc.{SavedNetworkRpc}
use saved.Main.Calls.{Concluded, call-Concluded}
use saved.Main.{wait, session_of, returns, Exit, Input, Schedule, Session, main, after_new}
use saved.Main.Targets.{seeds}
use saved.Main.Seeds.{main-seeds, main-kad_disabled}
use saved.Main.Released.{Released}
use saved.Tests.{sample, willing, linux, toy_keys, keypair, any_ip4, any_ip6}

abbrev test_phrase : List ℕ
test_phrase = 116 ∷ 101 ∷ 115 ∷ 116 ∷ []

new-first_error_example :
    (first_error (start_checks any_ip4 any_ip6) ≡ none
      → new keypair ≡ (ok (handle_of keypair), started any_ip4 any_ip6))
    × ((e : SavedError)
        → first_error (start_checks any_ip4 any_ip6) ≡ some e
        → (new keypair).0 ≡ err e)
new-first_error_example = new-first_error keypair any_ip4 any_ip6 refl refl

abbrev nothing : Input
nothing = record { shutdown = false; tick = false; event = none }

-- An address to listen on is found before the fourth call; the shutdown comes when all calls are made.
abbrev plan : Schedule
plan = record {
  fuel = 3;
  between = λ n.
      if n == 3
      then record nothing { event = some (1, new_listen_addr any_ip4) } ∷ []
      else if n == 12
      then record nothing { shutdown = true } ∷ []
      else [];
  sent = λ n. false;
}

abbrev test_keypair : List ℕ × ℕ
test_keypair = (4 ∷ zeros 31, 2_048)

abbrev test_end : Exit (Unit {0}) × List TaskCall × Session
test_end = after_new plan true (new test_keypair)

test_end-returns : test_end.0 ≡ returns tt
unfolding after_new new build_swarm listen_on set_mdns_enabled set_kad_enabled kad_find_peer
    add_target_peer finish script call answer event_loop turn handle_call dispatch_rpc bootstrap
    print_events parse_all dial_all dial swarm_dial kad_bootstrap add_seed add_parsed join_task join
    take_task drop any set_insert on_swarm_event send_event
test_end-returns = refl

main-seeds_example : (test_end.2.task.0 ≡ stopped) × (test_end.2.task.1.target_peers ≡ seeds)
unfolding main with_keypair keypair_from_seed keypair_of_key copy_from_slice after_new new
    build_swarm listen_on set_mdns_enabled set_kad_enabled kad_find_peer add_target_peer finish
    script call answer event_loop turn handle_call dispatch_rpc bootstrap print_events parse_all
    dial_all dial swarm_dial kad_bootstrap add_seed add_parsed join_task join take_task drop any
    set_insert on_swarm_event send_event
main-seeds_example = main-seeds plan test_phrase true test_end.1 test_end.2 refl

main-kad_disabled_example :
    main plan test_phrase true ≢ some (Exit.fails kad_disabled, test_end.1, test_end.2)
main-kad_disabled_example = main-kad_disabled plan test_phrase true test_end.1 test_end.2

abbrev node : Session
node = session_of (started any_ip4 any_ip6)

call-Concluded_example :
    Concluded
      (plan.sent node.calls)
      (SavedNetworkRpc.add_target_peer 6)
      (wait plan node)
      (call plan (SavedNetworkRpc.add_target_peer 6) node)
unfolding event_loop
call-Concluded_example =
    call-Concluded plan (SavedNetworkRpc.add_target_peer 6) node
      (started-IsValid any_ip4 any_ip6).targets_ok
