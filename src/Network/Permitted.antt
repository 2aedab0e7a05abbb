-- ===== src/Network/Permitted.antt =====
-- src/network/mod.rs: which calls of the swarm `reconcile_peer_connections` makes.
use saved.Base.{
  is_some, ℕ, ◌≡◌, refl, sym, ap, ◌∙◌, Bool, true, false, List, [], ◌∷◌, ◌++◌, ◌&&◌, arith,
}
use saved.Base.Lists.{all, any, find_of_any}
use saved.Libp2p.{Libp2p, PeerId, ConnectionId}
use saved.View.Peer.{PeerInfoExt, holds, get_connection_address}
use saved.View.Entry.{entry}
use saved.View.Spec.{Connectivity, connectivity}
use saved.Network.State.{SavedNetwork, Swarm, Effect, dials, closes}
use saved.Network.Reconcile.{is_prune_leader, reconcile_peer_connections}
use saved.Network.Closed.{IsRound, reconcile-kept}
use saved.Network.Invariant.{IsValid}
use saved.Network.Invariant.Steady.{ValidAt, ValidAt-marked}

module _ ⦃L : Libp2p⦄ where
  -- A dial of an address that is known for the peer, or, where the node leads the peer, the end
  -- of a connection open to it.
  abbrev pub permitted : Bool → Connectivity → PeerId → Effect → Bool
  permitted leading c p (dials addr) = c.knows p addr
  permitted leading c p (closes d) = leading && is_some (c.at p d)
  permitted leading c p call = false

  -- The calls since the log `old`, newest first, are all permitted.
  abbrev pub Since : Bool → Connectivity → PeerId → List Effect → List Effect → Type 0
  Since leading c p old log =
      (calls : List Effect) × (log ≡ calls ++ old) × (all (permitted leading c p) calls ≡ true)

  one_more :
      (leading : Bool) (c : Connectivity) (p : PeerId) (old log : List Effect) (call : Effect)
      → permitted leading c p call ≡ true
      → Since leading c p old log
      → Since leading c p old (call ∷ log)
  unfolding all
  one_more leading c p old log call h (calls, e, k) = (call ∷ calls, ap (λ l. call ∷ l) e, rw h k)

  open_at :
      (info : PeerInfoExt) (d : ConnectionId)
      → any (holds d) info.addresses ≡ true
      → is_some (get_connection_address info d) ≡ true
  unfolding get_connection_address
  open_at info d h = let (m, e) = find_of_any (holds d) info.addresses h in rw e refl

module _ ⦃L : Libp2p⦄ ⦃S : Swarm⦄ where
  abbrev Within : Connectivity → PeerId → List Effect → SavedNetwork → Type 0
  Within c p old s = ValidAt c s × Since (is_prune_leader p) c p old s.log

  Within-IsRound : (c : Connectivity) (p : PeerId) (old : List Effect) → IsRound (Within c p old) p
  Within-IsRound c p old = record {
    dial_known = λ addr s h k. (
      (ValidAt-marked c).same s _ h.0 refl refl refl refl,
      one_more (is_prune_leader p) c p old s.log (dials addr)
          (ap (λ d. d.knows p addr) (sym h.0.1) ∙ k) h.1,
    );
    close_open = λ d s h leads k. (
      (ValidAt-marked c).same s _ h.0 refl refl refl refl,
      one_more (is_prune_leader p) c p old s.log (closes d)
          (ground
            (arith, leads, ap (λ x. is_some (x.at p d)) (sym h.0.1), open_at (entry s.view p) d k))
          h.1,
    );
    mark = λ now addr s h. ((ValidAt-marked c).marks now p addr s h.0, h.1);
  }

  -- From a valid network, each call that `reconcile_peer_connections` makes of the swarm dials
  -- an address that is known for the peer or, where the node leads the peer, closes a connection
  -- that is open to it, whether it returns or not.
  pub reconcile-permitted :
      (fuel now : ℕ) (p : PeerId) (s : SavedNetwork)
      → IsValid s
      → Since
          (is_prune_leader p)
          (connectivity s.view)
          p
          s.log
          (reconcile_peer_connections fuel now p s).1.log
  unfolding all
  reconcile-permitted fuel now p s v =
      (reconcile-kept (Within (connectivity s.view) p s.log) p
        (Within-IsRound (connectivity s.view) p s.log) fuel now s ((v, refl), ([], refl, refl))).1
