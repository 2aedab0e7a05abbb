-- ===== src/Network/Surplus.antt =====
-- src/network/mod.rs: which connections `reconcile_peer_connections` closes, by the addresses of the
-- connections.
use mathlib.Core.Path.{subst}
use saved.Base.{
  ℕ, suc, ◌+◌, ◌≡◌, refl, ap, ◌∙◌, Bool, true, false, not, ◌&&◌, inl, inr, Option, none, some, List,
  [], ◌∷◌, arith, Bool-cases, Option-cases, if◌then◌else◌,
}
use saved.Base.Lists.{
  any-eq-true, total-remove_first, any, find, any_of_find-none, total, tally, total-append,
}
use saved.Libp2p.{Libp2p, PeerId, ConnectionId, Multiaddr, same_addr, same_connection}
use saved.View.Peer.{AddressMetadata, PeerInfoExt, holds, get_connection_address}
use saved.View.{NetworkView, info_of, is_connected, is_connected_over}
use saved.View.Entry.{entry}
use saved.View.Count.{
  at_addr, of_connection, any-holds, holds-of_connection, same_addr_refl, same_addr-eq,
}
use saved.View.Invariant.{IsValid}
use saved.View.Consistent.{IsConsistent, entry-IsValid, fails, step-IsConsistent}
use saved.View.Observe.{is_connected-at}
use saved.View.Spec.{connectivity, spec_step, step_refines}
use saved.Network.State.{SavedNetwork, Swarm, Effect, closes, M}
use saved.Network.Api.{swarm_dial}
use saved.Network.Reconcile.{
  connections_of, close_all, note_failure, is_prune_leader, migrate, reconcile_entry,
  reconcile_round, reconcile_peer_connections,
}
use saved.Network.Closed.{IsRound, reconcile-kept}
use saved.Network.Modes.{reversed, close_all-log}

module _ ⦃L : Libp2p⦄ where
  abbrev closing : ConnectionId → Effect → ℕ
  closing c (closes d) = if same_connection c d then 1 else 0
  closing c call = 0

  -- How often the calls close a connection.
  abbrev pub closings : ConnectionId → List Effect → ℕ
  closings c = total (closing c)

  -- An open connection that has another address than the given one.
  abbrev pub is_elsewhere : Option Multiaddr → Multiaddr → Bool
  is_elsewhere none best = false
  is_elsewhere (some a) best = not (same_addr a best)

  -- The first address of the peer has a connection, and the given connection is open on another.
  abbrev pub surplus_in : NetworkView → PeerId → Option Multiaddr → List AddressMetadata → Bool
  surplus_in view p at' [] = false
  surplus_in view p at' (best ∷ others) =
      is_connected_over view p best.address && is_elsewhere at' best.address

  abbrev pub is_surplus : NetworkView → PeerId → ConnectionId → Bool
  is_surplus view p c = surplus_in view p ((connectivity view).at p c) (entry view p).addresses

  closings-reversed :
      (c : ConnectionId) (cs : List ConnectionId) (log : List Effect)
      → closings c (reversed closes cs log) ≡ closings c log + tally (same_connection c) cs
  unfolding total
  closings-reversed c [] log = omega arith
  closings-reversed c (d ∷ cs) log = ground (arith, closings-reversed c cs (closes d ∷ log))

  tally-connections_of :
      (c : ConnectionId) (ms : List AddressMetadata)
      → tally (same_connection c) (connections_of ms) ≡ total (of_connection c) ms
  unfolding connections_of total
  tally-connections_of c [] = refl
  tally-connections_of c (m ∷ ms) = omega (
    arith,
    total-append (λ d. if same_connection c d then 1 else 0) m.active_connections
        (connections_of ms),
    tally-connections_of c ms,
  )

  -- Of an entry that is valid, the connections that are not on the first address are counted once,
  -- and no other.
  others-elsewhere :
      (info : PeerInfoExt) (best : AddressMetadata) (others : List AddressMetadata)
      (c : ConnectionId)
      → IsValid info
      → info.addresses ≡ best ∷ others
      → total (of_connection c) others
        ≡ (if is_elsewhere (get_connection_address info c) best.address then 1 else 0)
  unfolding get_connection_address find total
  others-elsewhere info best others c v split = elim (Bool-cases (holds c best)) [
    | inl here ↦
        ground
          (arith, split, here, v.single c, holds-of_connection c best, same_addr_refl best.address)
    | inr away ↦ elim (Option-cases (find (holds c) others)) [
      | inl e ↦
          ground (arith, split, away, e, any_of_find-none (holds c) others e, any-holds c others)
      | inr (m, e) ↦ ground (
        arith,
        split,
        away,
        e,
        v.single c,
        v.distinct best.address,
        any-eq-true (holds c) others m e,
        any-holds c others,
        same_addr_refl best.address,
        same_addr-eq m.address best.address,
        total-remove_first (at_addr best.address) (holds c) others,
      )
    ]
  ]

module _ ⦃L : Libp2p⦄ ⦃S : Swarm⦄ (p : PeerId) where
  -- The network has no connection to the peer, and `n` calls closed the given connection.
  record IsIdle (c : ConnectionId) (n : ℕ) (s : SavedNetwork) : Type 0 where
    view_ok : IsConsistent s.view
    unopened : (d : ConnectionId) → (connectivity s.view).at p d ≡ none
    closed : closings c s.log ≡ n

  open_at :
      (info : PeerInfoExt) (d : ConnectionId)
      → any (holds d) info.addresses ≡ true
      → get_connection_address info d ≡ none
      → true ≡ false
  unfolding get_connection_address
  open_at info d h e = ground (arith, h, e, any_of_find-none (holds d) info.addresses)

  IsIdle-IsRound : (c : ConnectionId) (n : ℕ) → IsRound (IsIdle c n) p
  unfolding total spec_step
  IsIdle-IsRound c n = record {
    dial_known = λ addr s h known. record {
      view_ok = h.view_ok;
      unopened = h.unopened;
      closed = omega (arith, h.closed);
    };
    close_open =
        λ d s h leads o. absurd (ground (arith, open_at (entry s.view p) d o (h.unopened d)));
    mark = λ now addr s h. record {
      view_ok = step-IsConsistent s.view (fails now p addr) h.view_ok;
      unopened =
          λ d. ap (λ x. x.at p d) (step_refines s.view (fails now p addr) h.view_ok) ∙ h.unopened d;
      closed = omega (arith, h.closed);
    };
  }

  migrate-closings :
      (now : ℕ) (info : PeerInfoExt) (addr : Multiaddr) (c : ConnectionId) (s : SavedNetwork)
      → closings c (migrate now p info addr s).1.log ≡ closings c s.log
  unfolding migrate swarm_dial note_failure total
  migrate-closings now info addr c s = ground arith

  close_all-closings :
      (info : PeerInfoExt) (best : AddressMetadata) (others : List AddressMetadata)
      (c : ConnectionId) (s : SavedNetwork)
      → IsValid info
      → info.addresses ≡ best ∷ others
      → closings c (close_all (connections_of others) s).1.log
        ≡ closings c s.log
          + (if is_elsewhere (get_connection_address info c) best.address then 1 else 0)
  close_all-closings info best others c s v split =
      ap (λ r. closings c r.1.log) (close_all-log (connections_of others) s)
      ∙ closings-reversed c (connections_of others) s.log
      ∙ ap (λ n. closings c s.log + n)
          (tally-connections_of c others ∙ others-elsewhere info best others c v split)

  unopened_of :
      (view : NetworkView) (d : ConnectionId)
      → IsConsistent view
      → is_connected view p ≡ false
      → (connectivity view).at p d ≡ none
  unopened_of view d v down = elim (Option-cases ((connectivity view).at p d)) [
    | inl e ↦ e
    | inr (a, e) ↦ absurd (ground (arith, down, (is_connected-at view p v).1 d a e))
  ]

  -- Without a connection, nothing is closed, however often the code begins again.
  idle-closings :
      (fuel now : ℕ) (s : SavedNetwork) (c : ConnectionId)
      → IsConsistent s.view
      → is_connected s.view p ≡ false
      → closings c (reconcile_peer_connections fuel now p s).1.log ≡ closings c s.log
  idle-closings fuel now s c v down =
      (reconcile-kept (IsIdle c (closings c s.log)) p (IsIdle-IsRound c (closings c s.log)) fuel now
        s
        (record { view_ok = v; unopened = λ d. unopened_of s.view d v down; closed = refl })).closed

  surplus_in-none :
      (view : NetworkView) (ms : List AddressMetadata) → surplus_in view p none ms ≡ false
  surplus_in-none view [] = refl
  surplus_in-none view (best ∷ others) = ground arith

  idle-is_surplus :
      (view : NetworkView) (c : ConnectionId)
      → IsConsistent view
      → is_connected view p ≡ false
      → is_surplus view p c ≡ false
  idle-is_surplus view c v down =
      ap (λ a. surplus_in view p a (entry view p).addresses) (unopened_of view c v down)
      ∙ surplus_in-none view (entry view p).addresses

  entry_of :
      (view : NetworkView) (info : PeerInfoExt) → info_of view p ≡ some info → entry view p ≡ info
  entry_of view info e = rw e refl

  entry-closings :
      (now : ℕ) (again : M (Unit {0})) (info : PeerInfoExt) (ms : List AddressMetadata)
      (c : ConnectionId) (s : SavedNetwork)
      → IsValid info
      → info.addresses ≡ ms
      → is_connected s.view p ≡ true
      → closings c (reconcile_entry now p again info ms s).1.log
        ≡ closings c s.log
          + (if is_prune_leader p && surplus_in s.view p (get_connection_address info c) ms
              then 1
              else 0)
  unfolding reconcile_entry
  entry-closings now again info [] c s v split up = ground arith
  entry-closings now again info (best ∷ others) c s v split up =
      elim (Bool-cases (is_connected_over s.view p best.address)) [
        | inl over ↦ elim (Bool-cases (is_prune_leader p)) [
          | inl leads ↦
              rw (over, leads, reconcile_entry) (close_all-closings info best others c s v split)
          | inr follows ↦ rw (over, follows, reconcile_entry) (omega arith)
        ]
        | inr under ↦
            rw (under, up, reconcile_entry)
              (ground (arith, migrate-closings now info best.address c s))
      ]

  joined-closings :
      (fuel now : ℕ) (s : SavedNetwork) (c : ConnectionId)
      → IsConsistent s.view
      → is_connected s.view p ≡ true
      → closings c (reconcile_peer_connections (suc fuel) now p s).1.log
        ≡ closings c s.log + (if is_prune_leader p && is_surplus s.view p c then 1 else 0)
  unfolding reconcile_peer_connections reconcile_round
  joined-closings fuel now s c v up = elim (Option-cases (info_of s.view p)) [
    | inl e ↦ rw (e, reconcile_round) (ground arith)
    | inr (info, e) ↦
        rw (e, reconcile_round)
          (entry-closings now (reconcile_peer_connections fuel now p) info info.addresses c s
            (subst IsValid (entry_of s.view info e) (entry-IsValid s.view p v)) refl up)
  ]

  -- From a consistent view, with fuel for at least one round: `reconcile_peer_connections`
  -- closes a connection once if the node leads the peer, the best address of the peer has a
  -- connection, and this one is open to the peer on another address, and does not close it else,
  -- whatever it dials and however it ends.
  pub reconcile-closings :
      (fuel now : ℕ) (s : SavedNetwork) (c : ConnectionId)
      → IsConsistent s.view
      → closings c (reconcile_peer_connections (suc fuel) now p s).1.log
        ≡ closings c s.log + (if is_prune_leader p && is_surplus s.view p c then 1 else 0)
  reconcile-closings fuel now s c v = elim (Bool-cases (is_connected s.view p)) [
    | inl up ↦ joined-closings fuel now s c v up
    | inr down ↦
        ground (arith, idle-closings (suc fuel) now s c v down, idle-is_surplus s.view c v down)
  ]
