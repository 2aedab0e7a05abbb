-- ===== src/Network/Leader.antt =====
-- src/network/mod.rs: `is_prune_leader`, the order on peer ids that decides which side acts.
use saved.Base.{ℕ, ◌≡◌, ◌≢◌, refl, true, false, not, List, [], ◌∷◌, arith}
use saved.Libp2p.{Libp2p, PeerId}
use saved.Network.Reconcile.{bytes_lt, leads}

bytes_lt_asymm : (a b : List ℕ) → bytes_lt a b ≡ true → bytes_lt b a ≡ false
unfolding bytes_lt
bytes_lt_asymm [] [] h = refl
bytes_lt_asymm [] (y ∷ b) h = refl
bytes_lt_asymm (x ∷ a) [] h = cc
bytes_lt_asymm (x ∷ a) (y ∷ b) h = ground (arith, bytes_lt_asymm a b)

bytes_lt_connex : (a b : List ℕ) → bytes_lt a b ≡ false → bytes_lt b a ≡ false → a ≡ b
unfolding bytes_lt
bytes_lt_connex [] [] h k = refl
bytes_lt_connex [] (y ∷ b) h k = cc
bytes_lt_connex (x ∷ a) [] h k = cc
bytes_lt_connex (x ∷ a) (y ∷ b) h k = ground (arith, bytes_lt_connex a b)

module _ ⦃L : Libp2p⦄ where
  -- Of two different peers exactly one leads the other.
  pub leads_exclusive : (p q : PeerId) → p ≢ q → leads p q ≡ not (leads q p)
  unfolding leads
  leads_exclusive p q n = ground (
    arith,
    bytes_lt_asymm (L.to_bytes p) (L.to_bytes q),
    bytes_lt_asymm (L.to_bytes q) (L.to_bytes p),
    bytes_lt_connex (L.to_bytes p) (L.to_bytes q),
    L.to_bytes_injective p q,
  )

  -- And no peer leads itself.
  pub leads_irrefl : (p : PeerId) → leads p p ≡ false
  unfolding leads
  leads_irrefl p = ground (arith, bytes_lt_asymm (L.to_bytes p) (L.to_bytes p))
