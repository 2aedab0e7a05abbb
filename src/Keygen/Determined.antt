-- ===== src/Keygen/Determined.antt =====
-- src/keygen.rs: when `keypair_from_seed` returns, and what.
use mathlib.Core.Option
use saved.Base.{ℕ, ◌≡◌, refl, inl, inr, Option, some, List, Option-cases}
use saved.Libp2p.{Libp2p}
use saved.Keygen.{Crypto, expect, zeros, copy_from_slice, keypair_of_key, keypair_from_seed}

module _ ⦃L : Libp2p⦄ ⦃C : Crypto⦄ where
  -- The key that the digest of the seed determines, if RSA finds one that has a PKCS#8 form.
  abbrev pub generated : List ℕ → Option C.RsaPrivateKey
  generated seed =
      expect (C.rsa_new (C.from_seed (C.sha256 seed)) 2_048)
        (λ key. expect (C.to_pkcs8_der key) (λ der. some key))

  copy-digest : (seed : List ℕ) → copy_from_slice (zeros 32) (C.sha256 seed) ≡ some (C.sha256 seed)
  unfolding copy_from_slice
  copy-digest seed = rw (C.length-sha256 seed, copy_from_slice) refl

  keypair_of_key-encoded :
      (key : C.RsaPrivateKey)
      → C.bits key ≡ 2_048
      → keypair_of_key key ≡ Option.map C.of_rsa (expect (C.to_pkcs8_der key) (λ der. some key))
  unfolding keypair_of_key
  keypair_of_key-encoded key b = elim (Option-cases (C.to_pkcs8_der key)) [
    | inl e ↦ rw e refl
    | inr (der, e) ↦ rw e (C.decode-encode key der b e)
  ]

  -- `keypair_from_seed` returns exactly where RSA finds a key and encodes it, and then the
  -- keypair of that key.
  pub keypair_from_seed-generated :
      (seed : List ℕ) → keypair_from_seed seed ≡ Option.map C.of_rsa (generated seed)
  unfolding keypair_from_seed keypair_of_key
  keypair_from_seed-generated seed =
      rw (copy-digest seed) (elim (Option-cases (C.rsa_new (C.from_seed (C.sha256 seed)) 2_048)) [
        | inl e ↦ rw e refl
        | inr (key, e) ↦ rw e (keypair_of_key-encoded key (C.bits-rsa_new _ 2_048 key e))
      ])
