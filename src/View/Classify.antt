-- ===== src/View/Classify.antt =====
-- src/view.rs: the transports, the scopes, their ranks and `classify_addr`.
use Prim.Native.Nat.{bit_and}
use saved.Base.{ℕ, zero, suc, ◌+◌, ◌*◌, Bool, ◌&&◌, List, [], ◌∷◌, ltb, leb, ◌==◌, if◌then◌else◌}
use saved.Libp2p.{Libp2p, Protocol, Multiaddr}

pub data Transport : Type 0 where
  quic tcp other relay : Transport

pub data NetScope : Type 0 where
  link_local private_lan public : NetScope

-- `Ranked for Transport`: a smaller rank is preferred.
unfoldable pub transport_rank : Transport → ℕ
transport_rank quic = 0
transport_rank tcp = 1
transport_rank other = 2
transport_rank relay = 3

-- `Ranked for NetScope`.
unfoldable pub scope_rank : NetScope → ℕ
scope_rank private_lan = 0
scope_rank link_local = 1
scope_rank public = 2

-- The arms of the match on the octets of an IPv4 address, in order.
unfoldable pub ip4_scope : ℕ → ℕ → NetScope
ip4_scope a b =
    if a == 10
    then private_lan
    else if (a == 172) && (leb 16 b && leb b 31)
    then private_lan
    else if (a == 192) && (b == 168)
    then private_lan
    else if (a == 169) && (b == 254)
    then link_local
    else public

abbrev pub octet : List ℕ → ℕ → ℕ
octet [] i = 0
octet (x ∷ xs) zero = x
octet (x ∷ xs) (suc i) = octet xs i

-- `u16::from_be_bytes([octets[0], octets[1]])`.
abbrev pub first_segment : List ℕ → ℕ
first_segment octets = octet octets 0 * 256 + octet octets 1

unfoldable pub ip6_scope : ℕ → NetScope
ip6_scope seg0 =
    if bit_and seg0 0xfe00 == 0xfc00
    then private_lan
    else if bit_and seg0 0xffc0 == 0xfe80
    then link_local
    else public

-- `Ipv6Addr::is_unicast_link_local` of the standard library: fe80::/10.
unfoldable pub is_unicast_link_local : List ℕ → Bool
is_unicast_link_local octets = bit_and (first_segment octets) 0xffc0 == 0xfe80

module _ {P : Type 0} where
  -- One round of the loop of `classify_addr`.
  unfoldable pub classify_step : Protocol P → NetScope × Transport → NetScope × Transport
  unfolding transport_rank ip4_scope ip6_scope
  classify_step (Protocol.ip4 a b c d) (scope, transport) = (ip4_scope a b, transport)
  classify_step (Protocol.ip6 octets) (scope, transport) =
      (ip6_scope (first_segment octets), transport)
  classify_step Protocol.quic_v1 (scope, transport) = (scope, quic)
  classify_step Protocol.quic (scope, transport) = (scope, quic)
  classify_step (Protocol.tcp port) (scope, transport) =
      (scope, (if ltb (transport_rank tcp) (transport_rank transport) then tcp else transport))
  classify_step Protocol.p2p_circuit (scope, transport) = (scope, relay)
  classify_step _ acc = acc

  unfoldable pub classify_loop : List (Protocol P) → NetScope × Transport → NetScope × Transport
  unfolding classify_step
  classify_loop [] acc = acc
  classify_loop (p ∷ ps) acc = classify_loop ps (classify_step p acc)

module _ ⦃L : Libp2p⦄ where
  unfoldable pub classify_addr : Multiaddr → NetScope × Transport
  unfolding classify_loop
  classify_addr addr = classify_loop (L.iter addr) (public, other)
