-- ===== src/Network/Announced/Calls.antt =====
-- src/network/mod.rs: which calls on the view open no connection, and which leave the open connections
-- as they are.
use mathlib.Core.List.{append-nil}
use saved.Base.{is_some, ℕ, ◌≡◌, refl, sym, Bool, true, false, List, [], ◌∷◌, ◌++◌, arith}
use saved.Base.Lists.{all, all-append}
use saved.Libp2p.{Libp2p, PeerId, ConnectionId, Multiaddr}
use saved.View.Consistent.{
  Call, adds_address, removes_address, fails, connects, disconnects as drops, identifies, pings,
}
use saved.View.Spec.{Connectivity, connectivity, spec_step, spec_run}
use saved.Network.State.{SavedNetwork, Outcome, ok, err, unfinished}
use saved.Network.Invariant.Does.{Follows}
use saved.Network.Invariant.Events.{adds, adds_all, adds_pairs, adds_peers}

module _ ⦃L : Libp2p⦄ where
  -- The calls on the view that leave the open connections as they are.
  abbrev pub is_quiet : Call → Bool
  is_quiet (removes_address now p a) = false
  is_quiet (connects now p c e) = false
  is_quiet (drops now p c) = false
  is_quiet _ = true

  -- And those that open none.
  abbrev pub opens_none : Call → Bool
  opens_none (connects now p c e) = false
  opens_none _ = true

  pub quiet-at :
      (calls : List Call) (c : Connectivity)
      → all is_quiet calls ≡ true
      → (spec_run c calls).at ≡ c.at
  unfolding spec_run spec_step all
  quiet-at [] c h = refl
  quiet-at (adds_address now p a ∷ rest) c h = quiet-at rest _ h
  quiet-at (fails now p a ∷ rest) c h = quiet-at rest _ h
  quiet-at (identifies p ps ∷ rest) c h = quiet-at rest _ h
  quiet-at (pings p rtt ∷ rest) c h = quiet-at rest _ h
  quiet-at (_ ∷ rest) c h = cc

  opens_none-step :
      (call : Call) (c : Connectivity) (q : PeerId) (d : ConnectionId)
      → opens_none call ≡ true
      → is_some ((spec_step c call).at q d) ≡ true
      → is_some (c.at q d) ≡ true
  unfolding spec_step
  opens_none-step (adds_address now p a) c q d h k = k
  opens_none-step (removes_address now p a) c q d h k = ground (arith, h, k)
  opens_none-step (fails now p a) c q d h k = k
  opens_none-step (connects now p e x) c q d h k = cc
  opens_none-step (drops now p e) c q d h k = ground (arith, h, k)
  opens_none-step (identifies p ps) c q d h k = k
  opens_none-step (pings p rtt) c q d h k = k

  pub opens_none-at :
      (calls : List Call) (c : Connectivity) (q : PeerId) (d : ConnectionId)
      → all opens_none calls ≡ true
      → is_some ((spec_run c calls).at q d) ≡ true
      → is_some (c.at q d) ≡ true
  unfolding spec_run all
  opens_none-at [] c q d h k = k
  opens_none-at (call ∷ rest) c q d h k =
      opens_none-step call c q d (ground (arith, h))
        (opens_none-at rest (spec_step c call) q d (ground (arith, h)) k)

  -- Whatever the handler returns, it did some first part of the calls.
  pub first_part :
      (c : Connectivity) (calls : List Call) (r : Outcome (Unit {0}) × SavedNetwork)
      → Follows c calls r
      → (front : List Call) × (back : List Call) × (calls ≡ front ++ back)
        × (connectivity r.1.view ≡ spec_run c front)
  first_part c calls (ok a, s) h = (calls, [], sym (append-nil calls), h)
  first_part c calls (err e, s) h = h
  first_part c calls (unfinished, s) h = h

module _ ⦃L : Libp2p⦄ (t : Call → Bool)
    (tests : (now : ℕ) (p : PeerId) (a : Multiaddr) → t (adds_address now p a) ≡ true) where
  pub adds-all : (now : ℕ) (p : PeerId) (a : Multiaddr) → all t (adds now p a) ≡ true
  unfolding all
  adds-all now p a = ground (arith, tests now p a)

  pub adds_all-all :
      (now : ℕ) (p : PeerId) (as' : List Multiaddr) → all t (adds_all now p as') ≡ true
  unfolding all
  adds_all-all now p [] = refl
  adds_all-all now p (a ∷ rest) = ground (
    arith,
    all-append t (adds now p a) (adds_all now p rest),
    adds-all now p a,
    adds_all-all now p rest,
  )

  pub adds_pairs-all : (now : ℕ) (ps : List (PeerId × Multiaddr)) → all t (adds_pairs now ps) ≡ true
  unfolding all
  adds_pairs-all now [] = refl
  adds_pairs-all now ((p, a) ∷ rest) = ground (
    arith,
    all-append t (adds now p a) (adds_pairs now rest),
    adds-all now p a,
    adds_pairs-all now rest,
  )

  pub adds_peers-all :
      (now : ℕ) (ps : List (PeerId × List Multiaddr)) → all t (adds_peers now ps) ≡ true
  unfolding all
  adds_peers-all now [] = refl
  adds_peers-all now ((p, as') ∷ rest) = ground (
    arith,
    all-append t (adds_all now p as') (adds_peers now rest),
    adds_all-all now p as',
    adds_peers-all now rest,
  )
