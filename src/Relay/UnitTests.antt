-- ===== src/Relay/UnitTests.antt =====
-- src/network/relay_manager.rs: the unit tests, for every relay and address where a test takes
-- fixed or random ones.
use saved.Base.{◌≡◌, refl, Bool, true, false, not, ◌&&◌, none, some, [], ◌∷◌, arith, ◌==◌}
use saved.Base.Lists.{length, any, remove_first, swap_remove_first}
use saved.Libp2p.{Libp2p, tcp, ip4, p2p, p2p_circuit, PeerId, Multiaddr, same_peer, same_peer_refl}
use saved.Relay.{new, register, remove, should_prune}
use saved.Relay.Address.{addr_is_relay, extract_relay_peer, extract_loop}

module _ ⦃L : Libp2p⦄ where
  -- `test_register_idempotent`.
  unfoldable pub test_register_idempotent : PeerId → Bool
  test_register_idempotent relay =
      let once = register (new 2) relay in
      let twice = register once relay in (length once.reserved == 1) && (length twice.reserved == 1)

  -- `test_should_prune`.
  unfoldable pub test_should_prune : PeerId → PeerId → PeerId → Bool
  test_should_prune a b c =
      let one = register (new 2) a in
      let two = register one b in
      not (should_prune (new 2))
      && (not (should_prune one) && (not (should_prune two) && should_prune (register two c)))

  -- `test_remove`.
  unfoldable pub test_remove : PeerId → Bool
  test_remove relay =
      let (first, removed) = remove (register (new 2) relay) relay in
      let (second, again) = remove first relay in removed && not again

  -- `test_addr_is_relay`.
  unfoldable pub test_addr_is_relay : Multiaddr → Multiaddr → Bool
  test_addr_is_relay relay_addr normal_addr =
      addr_is_relay relay_addr && not (addr_is_relay normal_addr)

  pub test_register_idempotent_lem : (relay : PeerId) → test_register_idempotent relay ≡ true
  unfolding test_register_idempotent register any
  test_register_idempotent_lem relay = ground (arith, same_peer_refl relay)

  pub test_should_prune_lem :
      (a b c : PeerId)
      → same_peer a b ≡ false
      → same_peer a c ≡ false
      → same_peer b c ≡ false
      → same_peer b a ≡ false
      → same_peer c a ≡ false
      → same_peer c b ≡ false
      → test_should_prune a b c ≡ true
  unfolding test_should_prune register should_prune any
  test_should_prune_lem a b c p q r s t u = ground arith

  pub test_remove_lem : (relay : PeerId) → test_remove relay ≡ true
  unfolding test_remove register remove any remove_first swap_remove_first
  test_remove_lem relay = ground (arith, same_peer_refl relay)

  pub test_addr_is_relay_lem :
      (relay_addr normal_addr : Multiaddr) (relay : PeerId)
      → L.iter relay_addr ≡ ip4 127 0 0 1 ∷ tcp 4_001 ∷ p2p relay ∷ p2p_circuit ∷ []
      → L.iter normal_addr ≡ ip4 127 0 0 1 ∷ tcp 4_001 ∷ []
      → test_addr_is_relay relay_addr normal_addr ≡ true
  unfolding test_addr_is_relay addr_is_relay any
  test_addr_is_relay_lem relay_addr normal_addr relay h k = rw (h, k) refl

  -- `test_extract_relay_peer`.
  unfoldable pub test_extract_relay_peer : Multiaddr → PeerId → Bool
  test_extract_relay_peer relay_addr relay_id = elim (extract_relay_peer relay_addr) [
    | none ↦ false
    | some r ↦ same_peer r relay_id
  ]

  extracted :
      (relay_addr : Multiaddr) (relay : PeerId)
      → L.iter relay_addr ≡ ip4 127 0 0 1 ∷ tcp 4_001 ∷ p2p relay ∷ p2p_circuit ∷ []
      → extract_relay_peer relay_addr ≡ some relay
  unfolding extract_relay_peer addr_is_relay extract_loop any
  extracted relay_addr relay h = rw h refl

  pub test_extract_relay_peer_lem :
      (relay_addr : Multiaddr) (relay : PeerId)
      → L.iter relay_addr ≡ ip4 127 0 0 1 ∷ tcp 4_001 ∷ p2p relay ∷ p2p_circuit ∷ []
      → test_extract_relay_peer relay_addr relay ≡ true
  unfolding test_extract_relay_peer
  test_extract_relay_peer_lem relay_addr relay h =
      rw (extracted relay_addr relay h, test_extract_relay_peer) (same_peer_refl relay)
