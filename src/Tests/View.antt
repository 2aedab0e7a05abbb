-- ===== src/Tests/View.antt =====
-- The theorems on the view at concrete views and entries.
use mathlib.Core.Option
use saved.Base.{
  ℕ, ◌+◌, ◌-◌, ◌*◌, ◌^◌, ◌≤◌, ◌<◌, ◌≡◌, ◌↔◌, ◌⊎◌, min, refl, ltb, true, List, [], ◌∷◌, ◌++◌, arith,
  if◌then◌else◌,
}
use saved.Base.Lists.{any, find}
use mathlib.Core.List.{Perm}
use saved.View.Ranked.{IsRanked, resort-IsRanked}
use saved.Base.Sort.{sort}
use saved.Libp2p.{Protocol, tcp, p2p_circuit, p2p, dialer, listener, same_addr}
use saved.View.Classify.{
  private_lan, link_local, ip4_scope, ip6_scope, first_segment, is_unicast_link_local,
  classify_loop,
}
use saved.View.Classify
use saved.View.Scope.{decide_transport, ip4_scope-ranges, ip6_scope-octets, classify_loop-last}
use saved.View.Peer.{
  PeerInfoExt, default_info, new_metadata, has_addr, is_in_cooldown, backoff, failed_at, from_secs,
  key_le, resort, mark_failure,
}
use saved.View.{empty_view, insert_address, insert_connection}
use saved.View.Invariant.{IsValid, default_info-IsValid, insert_address-IsValid}
use saved.View.Observe.{is_connected_over-at, is_connected-at}
use saved.View.{NetworkView, is_connected, is_connected_over}
use saved.View.Consistent.{
  IsConsistent, Call, adds_address, removes_address, fails, connects, disconnects, identifies,
  pings, run, run-IsConsistent, empty_view-IsConsistent,
}
use saved.View.Order.{failed_at-cooldown, find-mark_failure, IsCleared, insert_connection-IsCleared}
use saved.View.Spec.{connectivity, spec_run, run_refines}
use saved.Base.{some}
use saved.Tests.{sample, lan_quic, wan_tcp, relayed}

-- Two addresses of peer 2, a connection that moves from one to the other, a failure and an end.
abbrev calls : List Call
calls =
    adds_address 5 2 wan_tcp
    ∷ connects 6 2 7 (dialer wan_tcp)
    ∷ connects 7 2 7 (listener [] lan_quic)
    ∷ fails 8 2 wan_tcp
    ∷ identifies 2 (0 ∷ 1 ∷ 0 ∷ [])
    ∷ pings 2 30
    ∷ disconnects 9 2 7
    ∷ removes_address 10 2 lan_quic
    ∷ []

run_refines_example : connectivity (run empty_view calls) ≡ spec_run (connectivity empty_view) calls
run_refines_example = run_refines empty_view calls empty_view-IsConsistent

-- A connection that has moved, and a known address besides.
abbrev moved : List Call
moved =
    adds_address 5 2 relayed
    ∷ connects 6 2 7 (dialer wan_tcp)
    ∷ connects 7 2 7 (listener [] lan_quic)
    ∷ []

abbrev seen : NetworkView
seen = run empty_view moved

is_connected_over-at_example :
    (is_connected_over seen 2 lan_quic ≡ true
      → (c : ℕ) × ((connectivity seen).at 2 c ≡ some lan_quic))
    × ((c : ℕ)
        → (connectivity seen).at 2 c ≡ some lan_quic
        → is_connected_over seen 2 lan_quic ≡ true)
is_connected_over-at_example =
    is_connected_over-at seen 2 lan_quic (run-IsConsistent empty_view moved empty_view-IsConsistent)

is_connected-at_example :
    (is_connected seen 2 ≡ true
      → (c : ℕ) × (a : List (Protocol ℕ)) × ((connectivity seen).at 2 c ≡ some a))
    × ((c : ℕ) (a : List (Protocol ℕ))
        → (connectivity seen).at 2 c ≡ some a
        → is_connected seen 2 ≡ true)
is_connected-at_example =
    is_connected-at seen 2 (run-IsConsistent empty_view moved empty_view-IsConsistent)

run-IsConsistent_example : IsConsistent (run empty_view calls)
run-IsConsistent_example = run-IsConsistent empty_view calls empty_view-IsConsistent

abbrev two_addrs : PeerInfoExt
two_addrs = record default_info {
  addresses = new_metadata wan_tcp ∷ failed_at 5 (new_metadata lan_quic) ∷ [];
}

resort-IsRanked_example :
    IsRanked 6 (resort 6 two_addrs).addresses
    × Perm (resort 6 two_addrs).addresses two_addrs.addresses
resort-IsRanked_example = resort-IsRanked 6 two_addrs

-- The failed address is the better one, but stands last.
resort_two : (resort 6 two_addrs).addresses ≡ two_addrs.addresses
unfolding resort sort key_le is_in_cooldown new_metadata backoff
resort_two = refl

failed_at-cooldown_example :
    is_in_cooldown 8 (failed_at 5 (new_metadata wan_tcp))
    ≡ ltb (8 - 5) (from_secs (2 ^ min (0 + 1) 6))
unfolding new_metadata
failed_at-cooldown_example = failed_at-cooldown 5 8 (new_metadata wan_tcp)

abbrev known : PeerInfoExt
known = (insert_address 1 lan_quic default_info).0

known-IsValid : IsValid known
known-IsValid = insert_address-IsValid 1 lan_quic default_info default_info-IsValid

find-mark_failure_example :
    find (has_addr lan_quic) (mark_failure 5 known lan_quic).addresses
    ≡ Option.map
        (λ m. if same_addr lan_quic lan_quic then failed_at 5 m else m)
        (find (has_addr lan_quic) known.addresses)
find-mark_failure_example = find-mark_failure 5 known lan_quic lan_quic known-IsValid

insert_connection-IsCleared_example :
    IsCleared (find (has_addr lan_quic) (insert_connection 6 3 lan_quic known).addresses)
insert_connection-IsCleared_example = insert_connection-IsCleared 6 known 3 lan_quic known-IsValid

ip4_scope-ranges_example :
    let n = ((172 * 256 + 31) * 256 + 0) * 256 + 9 in
    ((ip4_scope 172 31 ≡ private_lan) ↔ (
      ((0x0a_00_00_00 ≤ n) × (n < 0x0b_00_00_00))
      ⊎ (((0xac_10_00_00 ≤ n) × (n < 0xac_20_00_00))
          ⊎ ((0xc0_a8_00_00 ≤ n) × (n < 0xc0_a9_00_00)))))
    × ((ip4_scope 172 31 ≡ link_local) ↔ ((0xa9_fe_00_00 ≤ n) × (n < 0xa9_ff_00_00)))
ip4_scope-ranges_example = ip4_scope-ranges 172 31 0 9 (omega arith) (omega arith) (omega arith)

abbrev first : ℕ
first = 0xfe

abbrev second : ℕ
second = 0x80

ip6_scope-octets_example :
    let octets = first ∷ second ∷ [] in
    ((ip6_scope (first_segment octets) ≡ private_lan) ↔ ((0xfc ≤ first) × (first ≤ 0xfd)))
    × ((ip6_scope (first_segment octets) ≡ link_local)
        ↔ ((first ≡ 0xfe) × (0x80 ≤ second) × (second < 0xc0)))
    × ((is_unicast_link_local octets ≡ true) ↔ ((first ≡ 0xfe) × (0x80 ≤ second) × (second < 0xc0)))
ip6_scope-octets_example = ip6_scope-octets first second [] (omega arith) (omega arith)

abbrev circuit : List (Protocol ℕ)
circuit = p2p 9 ∷ p2p_circuit ∷ []

abbrev target : List (Protocol ℕ)
target = p2p 2 ∷ []

abbrev unknown : Classify.NetScope × Classify.Transport
unknown = (Classify.public, Classify.other)

-- A `tcp` behind a circuit: the address is classified as a direct one.
classify_loop-last_example :
    (classify_loop (circuit ++ tcp 1 ∷ target) unknown).1
    ≡ decide_transport {P = ℕ} (tcp 1) (classify_loop circuit unknown).1
unfolding any
classify_loop-last_example = classify_loop-last circuit target (tcp 1) unknown refl refl
