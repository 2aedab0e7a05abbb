-- ===== src/Keygen/UnitTests.antt =====
-- src/keygen.rs: the unit tests that take a keypair twice from one seed, for every seed.
use mathlib.Core.Option
use saved.Base.{◌≡◌, refl, ℕ, Bool, true, Option, some, List, inl, inr, Option-cases}
use saved.Libp2p.{Libp2p, same_peer, same_peer_refl}
use saved.Keygen.{Crypto, expect, keypair_from_seed}
use saved.Keygen.Determined.{generated, keypair_from_seed-generated}

module _ ⦃L : Libp2p⦄ ⦃C : Crypto⦄ where
  -- `test_deterministic_key_generation`, and the same steps in `test_long_seed` and
  -- `test_unicode_seed`: `none` is a panic of `keypair_from_seed`.
  unfoldable pub test_deterministic_key_generation : List ℕ → Option Bool
  test_deterministic_key_generation seed = expect (keypair_from_seed seed) (λ keypair1.
      expect (keypair_from_seed seed)
        (λ keypair2. some (same_peer (C.to_peer_id keypair1) (C.to_peer_id keypair2))))

  -- The test passes for every seed whose digest gives a key that is encoded, and panics otherwise.
  pub test_deterministic_key_generation_lem :
      (seed : List ℕ)
      → test_deterministic_key_generation seed ≡ Option.map (λ key. true) (generated seed)
  unfolding test_deterministic_key_generation
  test_deterministic_key_generation_lem seed =
      rw (keypair_from_seed-generated seed) (elim (Option-cases (generated seed)) [
        | inl e ↦ rw e refl
        | inr (key, e) ↦ rw (e, same_peer_refl (C.to_peer_id (C.of_rsa key))) refl
      ])
