-- ===== src/Keygen.antt =====
-- src/keygen.rs: `keypair_from_seed`. The hash, the random numbers, RSA and the identity of libp2p
-- are of other crates: a parameter.
pub mod Determined
pub mod UnitTests
use saved.Base.{ℕ, ◌≡◌, Option, none, some, List, [], ◌∷◌, ◌==◌, if◌then◌else◌}
use saved.Base.Lists.{length}
use saved.Libp2p.{Libp2p, PeerId}

-- Bytes are numbers. `none` is the error of a fallible function.
pub record Crypto ⦃L : Libp2p⦄ : Type 1 where
  pub sha256 : List ℕ → List ℕ
  pub Rng : Type 0
  pub from_seed : List ℕ → Rng
  pub RsaPrivateKey : Type 0
  pub bits : RsaPrivateKey → ℕ
  pub rsa_new : Rng → ℕ → Option RsaPrivateKey
  pub to_pkcs8_der : RsaPrivateKey → Option (List ℕ)
  pub Keypair : Type 0
  pub try_decode_pkcs8 : List ℕ → Option Keypair
  pub to_peer_id : Keypair → PeerId
  -- The keypair that libp2p makes of an RSA key.
  pub of_rsa : RsaPrivateKey → Keypair
  -- A SHA-256 digest has 32 bytes, a key is generated with the bits that are asked for, and libp2p
  -- reads back the PKCS#8 form of a key of 2048 bits.
  pub length-sha256 : (bytes : List ℕ) → length (sha256 bytes) ≡ 32
  pub bits-rsa_new :
      (rng : Rng) (n : ℕ) (key : RsaPrivateKey) → rsa_new rng n ≡ some key → bits key ≡ n
  pub decode-encode :
      (key : RsaPrivateKey) (der : List ℕ)
      → bits key ≡ 2_048
      → to_pkcs8_der key ≡ some der
      → try_decode_pkcs8 der ≡ some (of_rsa key)

-- `expect`, and then the rest: `none` is a panic.
abbrev pub expect : {A B : Type 0} → Option A → (A → Option B) → Option B
expect none f = none
expect (some a) f = f a

-- `dst.copy_from_slice(src)`, which panics where the lengths differ.
unfoldable pub copy_from_slice : List ℕ → List ℕ → Option (List ℕ)
copy_from_slice dst src = if length dst == length src then some src else none

-- `[0u8; n]`.
abbrev pub zeros : ℕ → List ℕ
zeros ℕ.zero = []
zeros (ℕ.suc n) = 0 ∷ zeros n

module _ ⦃L : Libp2p⦄ ⦃C : Crypto⦄ where
  -- The PKCS#8 form of the key, and what libp2p reads from it.
  unfoldable pub keypair_of_key : C.RsaPrivateKey → Option C.Keypair
  keypair_of_key private_key = expect (C.to_pkcs8_der private_key) C.try_decode_pkcs8

  -- The seed is the bytes of the phrase.
  unfoldable pub keypair_from_seed : List ℕ → Option C.Keypair
  keypair_from_seed seed =
      expect (copy_from_slice (zeros 32) (C.sha256 seed))
        (λ seed_bytes. expect (C.rsa_new (C.from_seed seed_bytes) 2_048) keypair_of_key)
