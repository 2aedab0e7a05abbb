-- ===== src/Network/Pair.antt =====
-- src/network/mod.rs: two nodes that reconcile their connections to each other.
use saved.Base.{
  ℕ, ◌≡◌, ◌≢◌, refl, Bool, true, false, ◌⊎◌, inl, inr, List, [], ◌∷◌, ◌++◌, arith, Bool-cases,
}
use saved.Base.Lists.{all}
use saved.Libp2p.{Libp2p, PeerId}
use saved.View.Spec.{Connectivity, connectivity}
use saved.Network.State.{SavedNetwork, Swarm, Effect, closes, dials}
use saved.Network.Reconcile.{leads, is_prune_leader, reconcile_peer_connections}
use saved.Network.Leader.{leads_exclusive}
use saved.Network.Permitted.{permitted, Since, reconcile-permitted}
use saved.Network.Invariant.{IsValid}

module _ ⦃L : Libp2p⦄ where
  abbrev pub keeps_open : Effect → Bool
  keeps_open (closes c) = false
  keeps_open call = true

  -- None of the calls since the log `old` closes a connection.
  abbrev pub ClosesNone : List Effect → List Effect → Type 0
  ClosesNone old log = (calls : List Effect) × (log ≡ calls ++ old) × (all keeps_open calls ≡ true)

  permitted-keeps_open :
      (c : Connectivity) (p : PeerId) (call : Effect)
      → permitted false c p call ≡ true
      → keeps_open call ≡ true
  permitted-keeps_open c p (closes d) h = cc
  permitted-keeps_open c p (dials a) h = refl
  permitted-keeps_open c p _ h = refl

  all-keeps_open :
      (c : Connectivity) (p : PeerId) (calls : List Effect)
      → all (permitted false c p) calls ≡ true
      → all keeps_open calls ≡ true
  unfolding all
  all-keeps_open c p [] h = refl
  all-keeps_open c p (call ∷ calls) h =
      ground (arith, permitted-keeps_open c p call, all-keeps_open c p calls)

  follower :
      (leading : Bool) (c : Connectivity) (p : PeerId) (old log : List Effect)
      → leading ≡ false
      → Since leading c p old log
      → ClosesNone old log
  follower true c p old log e h = cc
  follower false c p old log e (calls, split, h) = (calls, split, all-keeps_open c p calls h)

  -- Where two different nodes, both valid, with whatever swarms, each reconcile the connections
  -- to the other, one of the two closes no connection, whether the calls return or not.
  pub reconcile-ClosesNone :
      (A B : Swarm) (fuel fuel' now now' : ℕ) (s t : SavedNetwork)
      → A.local_peer_id ≢ B.local_peer_id
      → IsValid s
      → IsValid t
      → ClosesNone s.log (reconcile_peer_connections ⦃S = A⦄ fuel now B.local_peer_id s).1.log
        ⊎ ClosesNone t.log (reconcile_peer_connections ⦃S = B⦄ fuel' now' A.local_peer_id t).1.log
  unfolding is_prune_leader
  reconcile-ClosesNone A B fuel fuel' now now' s t n v w =
      elim (Bool-cases (leads A.local_peer_id B.local_peer_id)) [
        | inr follows ↦ inl (
            follower _ (connectivity s.view) B.local_peer_id s.log _ follows
              (reconcile-permitted ⦃S = A⦄ fuel now B.local_peer_id s v))
        | inl leads_it ↦ inr (
            follower (leads B.local_peer_id A.local_peer_id) (connectivity t.view) A.local_peer_id
              t.log _ (ground (arith, leads_exclusive A.local_peer_id B.local_peer_id n))
              (reconcile-permitted ⦃S = B⦄ fuel' now' A.local_peer_id t w))
      ]
