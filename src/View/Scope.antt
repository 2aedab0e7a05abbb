-- ===== src/View/Scope.antt =====
-- src/view.rs: `classify_addr`, the scope by the ranges of the standards and the transport by the
-- last transport component.
use Prim.Native.Nat.{bit_and}
use saved.Base.{
  ℕ, zero, suc, ◌+◌, ◌*◌, ◌≤◌, ◌<◌, ◌≡◌, ◌↔◌, refl, Bool, true, false, not, ◌&&◌, ◌||◌, ◌⊎◌, List,
  [], ◌∷◌, ◌++◌, arith, if◌then◌else◌, ltb, leb, ◌==◌, ap, ◌∙◌,
}
use saved.Base.Lists.{any, all}
use saved.Libp2p.{Protocol}
use saved.View.Classify.{
  NetScope, link_local, private_lan, public, Transport, relay, quic, tcp, other, scope_rank,
  ip4_scope, ip6_scope, first_segment, is_unicast_link_local, classify_step, classify_loop,
}

-- An IPv4 address is private exactly in 10/8, 172.16/12 and 192.168/16, and link-local exactly
-- in 169.254/16, by its value as a 32-bit number.
pub ip4_scope-ranges :
    (a b c d : ℕ)
    → b < 256
    → c < 256
    → d < 256
    → let n = ((a * 256 + b) * 256 + c) * 256 + d in
      ((ip4_scope a b ≡ private_lan) ↔ (
        ((0x0a_00_00_00 ≤ n) × (n < 0x0b_00_00_00))
        ⊎ (((0xac_10_00_00 ≤ n) × (n < 0xac_20_00_00))
            ⊎ ((0xc0_a8_00_00 ≤ n) × (n < 0xc0_a9_00_00)))))
      × ((ip4_scope a b ≡ link_local) ↔ ((0xa9_fe_00_00 ≤ n) × (n < 0xa9_ff_00_00)))
unfolding ip4_scope
ip4_scope-ranges a b c d hb hc hd = ground arith

-- The scope of an IPv6 address by its first two octets.
ip6_ranges : ℕ → ℕ → NetScope
ip6_ranges b0 b1 =
    if (b0 == 0xfc) || (b0 == 0xfd)
    then private_lan
    else if (b0 == 0xfe) && (leb 0x80 b1 && ltb b1 0xc0)
    then link_local
    else public

-- A statement on two octets is decided by a look at all pairs.
countdown : ℕ → List ℕ
countdown zero = []
countdown (suc n) = n ∷ countdown n

all-countdown :
    (p : ℕ → Bool) (bound octet : ℕ)
    → octet < bound
    → all p (countdown bound) ≡ true
    → p octet ≡ true
unfolding countdown all
all-countdown p zero octet below h = ground arith
all-countdown p (suc bound) octet below h = ground (arith, all-countdown p bound octet)

every_pair : (ℕ → ℕ → Bool) → Bool
every_pair p = all (λ b0. all (p b0) (countdown 256)) (countdown 256)

pair_of_every :
    (p : ℕ → ℕ → Bool) (b0 b1 : ℕ) → b0 < 256 → b1 < 256 → every_pair p ≡ true → p b0 b1 ≡ true
unfolding every_pair
pair_of_every p b0 b1 h0 h1 table =
    all-countdown (p b0) 256 b1 h1 (all-countdown (λ b. all (p b) (countdown 256)) 256 b0 h0 table)

same_scope : ℕ → ℕ → Bool
same_scope b0 b1 = scope_rank (ip6_scope (b0 * 256 + b1)) == scope_rank (ip6_ranges b0 b1)

same_scope_table : every_pair same_scope ≡ true
unfolding every_pair all countdown same_scope ip6_ranges ip6_scope scope_rank
same_scope_table = refl

scope_rank_injective : (s t : NetScope) → scope_rank s ≡ scope_rank t → s ≡ t
unfolding scope_rank
scope_rank_injective s t h = ground arith

ip6_scope-ranges : (b0 b1 : ℕ) → b0 < 256 → b1 < 256 → ip6_scope (b0 * 256 + b1) ≡ ip6_ranges b0 b1
unfolding same_scope
ip6_scope-ranges b0 b1 h0 h1 =
    let cell = pair_of_every same_scope b0 b1 h0 h1 same_scope_table in
    scope_rank_injective _ _ (ground arith)

link_local_mask : ℕ → ℕ → Bool
link_local_mask b0 b1 = bit_and (b0 * 256 + b1) 0xffc0 == 0xfe80

mask_cases :
    (mask : Bool) (b0 b1 : ℕ)
    → (if mask
        then (b0 == 0xfe) && (leb 0x80 b1 && ltb b1 0xc0)
        else not ((b0 == 0xfe) && (leb 0x80 b1 && ltb b1 0xc0)))
      ≡ true
    → (mask ≡ true) ↔ ((b0 ≡ 0xfe) × (0x80 ≤ b1) × (b1 < 0xc0))
mask_cases mask b0 b1 h = ground arith

-- The mask of fe80::/10 says the same as the range.
same_mask : ℕ → ℕ → Bool
same_mask b0 b1 =
    if link_local_mask b0 b1
    then (b0 == 0xfe) && (leb 0x80 b1 && ltb b1 0xc0)
    else not ((b0 == 0xfe) && (leb 0x80 b1 && ltb b1 0xc0))

same_mask_sound :
    (b0 b1 : ℕ)
    → same_mask b0 b1 ≡ true
    → (link_local_mask b0 b1 ≡ true) ↔ ((b0 ≡ 0xfe) × (0x80 ≤ b1) × (b1 < 0xc0))
unfolding same_mask
same_mask_sound b0 b1 h = mask_cases (link_local_mask b0 b1) b0 b1 h

same_mask_table : every_pair same_mask ≡ true
unfolding every_pair all countdown same_mask link_local_mask
same_mask_table = refl

link_local_mask-range :
    (b0 b1 : ℕ)
    → b0 < 256
    → b1 < 256
    → (link_local_mask b0 b1 ≡ true) ↔ ((b0 ≡ 0xfe) × (0x80 ≤ b1) × (b1 < 0xc0))
link_local_mask-range b0 b1 h0 h1 =
    same_mask_sound b0 b1 (pair_of_every same_mask b0 b1 h0 h1 same_mask_table)

-- An IPv6 address is private exactly in fc00::/7 and link-local exactly in fe80::/10, and
-- `is_unicast_link_local` is true of the latter alone.
pub ip6_scope-octets :
    (b0 b1 : ℕ) (rest : List ℕ)
    → b0 < 256
    → b1 < 256
    → let octets = b0 ∷ b1 ∷ rest in
      ((ip6_scope (first_segment octets) ≡ private_lan) ↔ ((0xfc ≤ b0) × (b0 ≤ 0xfd)))
      × ((ip6_scope (first_segment octets) ≡ link_local)
          ↔ ((b0 ≡ 0xfe) × (0x80 ≤ b1) × (b1 < 0xc0)))
      × ((is_unicast_link_local octets ≡ true) ↔ ((b0 ≡ 0xfe) × (0x80 ≤ b1) × (b1 < 0xc0)))
unfolding ip6_ranges is_unicast_link_local link_local_mask
ip6_scope-octets b0 b1 rest h0 h1 = (
  ground (arith, ip6_scope-ranges b0 b1 h0 h1),
  ground (arith, ip6_scope-ranges b0 b1 h0 h1),
  link_local_mask-range b0 b1 h0 h1,
)

module _ {P : Type 0} where
  -- A component that decides the transport.
  abbrev pub is_transport : Protocol P → Bool
  is_transport Protocol.quic = true
  is_transport Protocol.quic_v1 = true
  is_transport Protocol.p2p_circuit = true
  is_transport (Protocol.tcp port) = true
  is_transport _ = false

  -- What the last such component makes of the transport before it.
  abbrev pub decide_transport : Protocol P → Transport → Transport
  decide_transport Protocol.p2p_circuit before = relay
  decide_transport (Protocol.tcp port) quic = quic
  decide_transport (Protocol.tcp port) _ = tcp
  decide_transport _ before = quic

  classify_step-neutral :
      (p : Protocol P) (acc : NetScope × Transport)
      → is_transport p ≡ false
      → (classify_step p acc).1 ≡ acc.1
  unfolding classify_step
  classify_step-neutral Protocol.quic acc h = cc
  classify_step-neutral Protocol.quic_v1 acc h = cc
  classify_step-neutral Protocol.p2p_circuit acc h = cc
  classify_step-neutral (Protocol.tcp port) acc h = cc
  classify_step-neutral (Protocol.ip4 a b c d) acc h = refl
  classify_step-neutral (Protocol.ip6 octets) acc h = refl
  classify_step-neutral _ acc h = refl

  classify_step-decides :
      (p : Protocol P) (acc : NetScope × Transport)
      → is_transport p ≡ true
      → (classify_step p acc).1 ≡ decide_transport p acc.1
  unfolding classify_step
  classify_step-decides Protocol.quic acc h = refl
  classify_step-decides Protocol.quic_v1 acc h = refl
  classify_step-decides Protocol.p2p_circuit acc h = refl
  classify_step-decides (Protocol.tcp port) (s, quic) h = refl
  classify_step-decides (Protocol.tcp port) (s, tcp) h = refl
  classify_step-decides (Protocol.tcp port) (s, other) h = refl
  classify_step-decides (Protocol.tcp port) (s, relay) h = refl
  classify_step-decides (Protocol.ip4 a b c d) acc h = cc
  classify_step-decides (Protocol.ip6 octets) acc h = cc
  classify_step-decides _ acc h = cc

  classify_loop-append :
      (ps qs : List (Protocol P)) (acc : NetScope × Transport)
      → classify_loop (ps ++ qs) acc ≡ classify_loop qs (classify_loop ps acc)
  unfolding classify_loop
  classify_loop-append [] qs acc = refl
  classify_loop-append (p ∷ ps) qs acc = classify_loop-append ps qs (classify_step p acc)

  classify_loop-neutral :
      (ps : List (Protocol P)) (acc : NetScope × Transport)
      → any is_transport ps ≡ false
      → (classify_loop ps acc).1 ≡ acc.1
  unfolding classify_loop any
  classify_loop-neutral [] acc h = refl
  classify_loop-neutral (p ∷ ps) acc h =
      classify_loop-neutral ps (classify_step p acc) (ground arith)
      ∙ classify_step-neutral p acc (ground arith)

  -- The last transport component of an address decides its transport, as `decide_transport`
  -- says: a `/tcp` yields to a QUIC before it, and replaces everything else, a relay too.
  pub classify_loop-last :
      (before after : List (Protocol P)) (p : Protocol P) (acc : NetScope × Transport)
      → is_transport p ≡ true
      → any is_transport after ≡ false
      → (classify_loop (before ++ p ∷ after) acc).1
        ≡ decide_transport p (classify_loop before acc).1
  unfolding classify_loop
  classify_loop-last before after p acc h n =
      ap (λ r. r.1) (classify_loop-append before (p ∷ after) acc)
      ∙ classify_loop-neutral after (classify_step p (classify_loop before acc)) n
      ∙ classify_step-decides p (classify_loop before acc) h
