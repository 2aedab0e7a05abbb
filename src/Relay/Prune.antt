-- ===== src/Relay/Prune.antt =====
-- src/network/relay_manager.rs and src/network/mod.rs: `get_worst_unused` and the loop of
-- `prune_relays`.
use saved.Base.{
  ap, ◌∙◌, ℕ, zero, suc, ◌+◌, ◌≤◌, ◌≡◌, refl, min, Bool, true, false, not, ◌&&◌, inl, inr, none,
  some, List, [], ◌∷◌, arith, Bool-cases, Option-cases,
}
use saved.Base.Lists.{length, any, filter, later_max, max_by_key}
use saved.Libp2p.{Libp2p, PeerId, same_peer_refl, same_peer-eq}
use saved.View.{NetworkView}
use saved.Relay.{
  RelayManager, contains, remove, should_prune, get_worst_unused, rtt_or_max, is_unused, prune_loop,
  prune_relays,
}
use saved.Relay.Reserve.{
  IsSound, contains-occurrences, length-le_of_occurrences, remove-contains, remove-IsSound,
  length-remove,
}

module _ ⦃L : Libp2p⦄ where
  later_max-contains :
      (key : PeerId → ℕ) (best : PeerId) (ps : List PeerId)
      → contains (best ∷ ps) (later_max key best ps) ≡ true
  unfolding later_max any
  later_max-contains key best [] = ground (arith, same_peer_refl best)
  later_max-contains key best (p ∷ ps) =
      ground (arith, later_max-contains key best ps, later_max-contains key p ps)

  later_max-le :
      (key : PeerId → ℕ) (best p : PeerId) (ps : List PeerId)
      → contains (best ∷ ps) p ≡ true
      → key p ≤ key (later_max key best ps)
  unfolding later_max any
  later_max-le key best p [] h = ground (arith, same_peer-eq p best)
  later_max-le key best p (q ∷ ps) h = ground (
    arith,
    later_max-le key best p ps,
    later_max-le key q p ps,
    later_max-le key best best ps,
    later_max-le key q q ps,
    same_peer_refl best,
    same_peer_refl q,
    same_peer-eq p best,
    same_peer-eq p q,
  )

  contains-filter :
      (f : PeerId → Bool) (p : PeerId) (ps : List PeerId)
      → contains (filter f ps) p ≡ (contains ps p && f p)
  unfolding filter any
  contains-filter f p [] = refl
  contains-filter f p (q ∷ ps) = ground (arith, contains-filter f p ps, same_peer-eq p q)

  -- The relay to prune is reserved and unused, and no such relay has a longer round trip.
  pub record IsWorst (m : RelayManager) (view : NetworkView) (w : PeerId) : Type 0 where
    pub reserved : contains m.reserved w ≡ true
    pub unused : contains m.in_use w ≡ false
    pub slowest :
        (p : PeerId)
        → contains m.reserved p ≡ true
        → contains m.in_use p ≡ false
        → rtt_or_max view p ≤ rtt_or_max view w

  max_by_key-IsWorst :
      (m : RelayManager) (view : NetworkView) (w : PeerId) (ps : List PeerId)
      → ((p : PeerId) → contains ps p ≡ (contains m.reserved p && is_unused m p))
      → max_by_key (rtt_or_max view) ps ≡ some w
      → IsWorst m view w
  unfolding max_by_key
  max_by_key-IsWorst m view w [] e h = cc
  max_by_key-IsWorst m view w (p ∷ ps) e h =
      let found : later_max (rtt_or_max view) p ps ≡ w = ground arith in
      let here = later_max-contains (rtt_or_max view) p ps in
      record {
        reserved = ground (arith, e w, found, here);
        unused = ground (arith, e w, found, here);
        slowest = λ q held free. ground (arith, e q, found, later_max-le (rtt_or_max view) p q ps);
      }

  -- The relay that `get_worst_unused` finds is reserved and unused, and no other reserved and
  -- unused relay has a longer round trip.
  pub get_worst_unused-IsWorst :
      (m : RelayManager) (view : NetworkView) (w : PeerId)
      → get_worst_unused m view ≡ some w
      → IsWorst m view w
  unfolding get_worst_unused
  get_worst_unused-IsWorst m view w h =
      max_by_key-IsWorst m view w (filter (is_unused m) m.reserved)
        (λ p. contains-filter (is_unused m) p m.reserved) h

  nothing_to_prune :
      (key : PeerId → ℕ) (ps : List PeerId) (p : PeerId)
      → max_by_key key ps ≡ none
      → contains ps p ≡ false
  unfolding max_by_key any
  nothing_to_prune key [] p h = refl
  nothing_to_prune key (q ∷ ps) p h = cc

  -- For a sound manager, where `get_worst_unused` finds none there is no need to prune.
  pub get_worst_unused-none :
      (m : RelayManager) (view : NetworkView)
      → IsSound m
      → get_worst_unused m view ≡ none
      → should_prune m ≡ false
  unfolding get_worst_unused should_prune
  get_worst_unused-none m view v h =
      let shorter : length m.reserved ≤ length m.in_use =
        length-le_of_occurrences m.reserved m.in_use (λ p. ground (
          arith,
          v.reserved_distinct p,
          contains-occurrences m.reserved p,
          contains-occurrences m.in_use p,
          contains-filter (is_unused m) p m.reserved,
          nothing_to_prune (rtt_or_max view) (filter (is_unused m) m.reserved) p h,
        )) in
      ground (arith, shorter)

  -- What pruning leaves of `m`, and what it takes out.
  pub record IsPruned (view : NetworkView) (m n : RelayManager) (pruned : List PeerId)
      : Type 0 where
    pub in_use_kept : n.in_use ≡ m.in_use
    pub limit_kept : n.max_relays ≡ m.max_relays
    pub within : length n.reserved ≡ min (length m.reserved) (length m.in_use + m.max_relays)
    pub reserved_after :
        (p : PeerId) → contains n.reserved p ≡ (contains m.reserved p && not (contains pruned p))
    pub only_unused :
        (p : PeerId)
        → contains pruned p ≡ true
        → (contains m.reserved p ≡ true) × (contains m.in_use p ≡ false)
    pub slowest_first :
        (p q : PeerId)
        → contains pruned p ≡ true
        → contains n.reserved q ≡ true
        → contains m.in_use q ≡ false
        → rtt_or_max view q ≤ rtt_or_max view p

  IsPruned-done :
      (view : NetworkView) (m : RelayManager) → should_prune m ≡ false → IsPruned view m m []
  unfolding should_prune any
  IsPruned-done view m h = record {
    in_use_kept = refl;
    limit_kept = refl;
    within = ground arith;
    reserved_after = λ p. ground arith;
    only_unused = λ p e. cc;
    slowest_first = λ p q e. cc;
  }

  remove_fields :
      (m : RelayManager) (r : PeerId)
      → ((remove m r).0.in_use ≡ m.in_use) × ((remove m r).0.max_relays ≡ m.max_relays)
  unfolding remove
  remove_fields m r = ground arith

  no_reservations : (m : RelayManager) → length m.reserved ≤ 0 → should_prune m ≡ false
  unfolding should_prune
  no_reservations m h = ground arith

  -- One round takes the worst unused relay out, and the rest is as before with one less.
  IsPruned-step :
      (view : NetworkView) (m n : RelayManager) (w : PeerId) (ps : List PeerId)
      → IsSound m
      → should_prune m ≡ true
      → IsWorst m view w
      → IsPruned view (remove m w).0 n ps
      → IsPruned view m n (w ∷ ps)
  unfolding should_prune any
  IsPruned-step view m n w ps v h worst rest =
      let (in_use_same, limit_same) = remove_fields m w in
      let left = λ (p : PeerId). (remove-contains m w p v).0 in
      let unused = λ (p : PeerId). ap (λ s. contains s p) in_use_same in
      record {
        in_use_kept = rest.in_use_kept ∙ in_use_same;
        limit_kept = rest.limit_kept ∙ limit_same;
        within = ground (
          arith,
          h,
          rest.within,
          length-remove m w worst.reserved,
          ap length in_use_same,
          limit_same,
        );
        reserved_after = λ p. ground (arith, left p, rest.reserved_after p);
        only_unused = λ p e. ground (
          arith,
          left p,
          unused p,
          rest.only_unused p,
          same_peer-eq p w,
          worst.reserved,
          worst.unused,
        );
        slowest_first = λ p q e kept free. ground (
          arith,
          left q,
          unused q,
          rest.slowest_first p q,
          same_peer-eq p w,
          rest.reserved_after q,
          worst.slowest q,
        );
      }

  prune_loop-IsPruned :
      (fuel : ℕ) (view : NetworkView) (m : RelayManager)
      → IsSound m
      → length m.reserved ≤ fuel
      → IsPruned view m (prune_loop fuel view m).0 (prune_loop fuel view m).1
  unfolding prune_loop
  prune_loop-IsPruned zero view m v h = IsPruned-done view m (no_reservations m h)
  prune_loop-IsPruned (suc fuel) view m v h = elim (Bool-cases (should_prune m)) [
    | inr e ↦ rw (e, prune_loop) (IsPruned-done view m e)
    | inl e ↦ elim (Option-cases (get_worst_unused m view)) [
      | inl none_left ↦ absurd (ground (arith, e, get_worst_unused-none m view v none_left))
      | inr (w, found) ↦
          let worst = get_worst_unused-IsWorst m view w found in
          let m' = (remove m w).0 in
          let rest =
            prune_loop-IsPruned fuel view m' (remove-IsSound m w v)
              (omega (arith, length-remove m w worst.reserved, h)) in
          rw (e, prune_loop, found)
            (IsPruned-step view m (prune_loop fuel view m').0 w (prune_loop fuel view m').1 v e
              worst rest)
    ]
  ]

  -- For a sound manager, `prune_relays` leaves as many reservations as there were or as are
  -- allowed, whichever is less; it removes unused relays alone, none with a shorter round trip
  -- than an unused one that stays, and changes neither the relays in use nor the limit.
  pub prune_relays-IsPruned :
      (view : NetworkView) (m : RelayManager)
      → IsSound m
      → IsPruned view m (prune_relays view m).0 (prune_relays view m).1
  unfolding prune_relays
  prune_relays-IsPruned view m v = prune_loop-IsPruned (length m.reserved) view m v (omega arith)

  -- For a sound manager, there is no need to prune after `prune_relays`.
  pub prune_relays-should_prune :
      (view : NetworkView) (m : RelayManager)
      → IsSound m
      → should_prune (prune_relays view m).0 ≡ false
  unfolding should_prune
  prune_relays-should_prune view m v =
      let done = prune_relays-IsPruned view m v in
      ground (arith, done.within, ap length done.in_use_kept, done.limit_kept)

  -- The manager after it is sound.
  prune_loop-IsSound :
      (fuel : ℕ) (view : NetworkView) (m : RelayManager)
      → IsSound m
      → IsSound (prune_loop fuel view m).0
  unfolding prune_loop
  prune_loop-IsSound zero view m v = v
  prune_loop-IsSound (suc fuel) view m v = elim (Bool-cases (should_prune m)) [
    | inr e ↦ rw (e, prune_loop) v
    | inl e ↦ elim (Option-cases (get_worst_unused m view)) [
      | inl n ↦ rw (e, prune_loop, n) v
      | inr (w, found) ↦
          rw (e, prune_loop, found)
            (prune_loop-IsSound fuel view (remove m w).0 (remove-IsSound m w v))
    ]
  ]

  pub prune_relays-IsSound :
      (view : NetworkView) (m : RelayManager) → IsSound m → IsSound (prune_relays view m).0
  unfolding prune_relays
  prune_relays-IsSound view m v = prune_loop-IsSound (length m.reserved) view m v
