-- ===== src/Relay/Reserve.antt =====
-- src/network/relay_manager.rs: `register`, `remove` and `can_reserve`, and the invariant that no
-- peer stands twice.
use saved.Base.{
  ℕ, ◌+◌, ◌≤◌, ◌≡◌, true, false, not, ◌&&◌, ◌||◌, inl, inr, List, [], ◌∷◌, arith, ltb,
  if◌then◌else◌, Bool-cases,
}
use saved.Base.Lists.{
  length, any, total, tally, remove_first, any-tally, any-append, total-append, total-remove_first,
  find_of_any, find-holds, length-append, length-total,
}
use saved.Libp2p.{Libp2p, PeerId, same_peer, same_peer_refl, same_peer-eq}
use saved.Relay.{RelayManager, contains, register, remove, can_reserve, should_prune}

module _ ⦃L : Libp2p⦄ where
  abbrev pub occurrences : List PeerId → PeerId → ℕ
  occurrences ps p = tally (same_peer p) ps

  -- No peer stands twice.
  abbrev pub IsDistinct : List PeerId → Type 0
  IsDistinct ps = (p : PeerId) → occurrences ps p ≤ 1

  -- The reservations and the relays in use are sets.
  pub record IsSound (m : RelayManager) : Type 0 where
    pub reserved_distinct : IsDistinct m.reserved
    pub in_use_distinct : IsDistinct m.in_use

  pub contains-occurrences :
      (ps : List PeerId) (p : PeerId) → contains ps p ≡ ltb 0 (occurrences ps p)
  contains-occurrences ps p = any-tally (same_peer p) ps

  -- A list of distinct peers that all stand in another is no longer than it.
  pub length-le_of_occurrences :
      (xs ys : List PeerId)
      → ((p : PeerId) → occurrences xs p ≤ occurrences ys p)
      → length xs ≤ length ys
  unfolding total
  length-le_of_occurrences [] ys h = omega arith
  length-le_of_occurrences (x ∷ xs) ys h =
      let here = h x in
      let (y, found) =
        find_of_any (same_peer x) ys
          (ground (arith, contains-occurrences ys x, same_peer_refl x)) in
      let rest = remove_first (same_peer x) ys in
      let shorter : length xs ≤ length rest = length-le_of_occurrences xs rest (λ p. ground (
        arith,
        h p,
        found,
        same_peer-eq x y (find-holds (same_peer x) ys y found),
        total-remove_first (λ z. if same_peer p z then 1 else 0) (same_peer x) ys,
      )) in
      ground (
        arith,
        shorter,
        found,
        total-remove_first (λ _. 1) (same_peer x) ys,
        length-total ys,
        length-total rest,
      )

  pub register-contains :
      (m : RelayManager) (r p : PeerId)
      → contains (register m r).reserved p ≡ (contains m.reserved p || same_peer p r)
  unfolding register any
  register-contains m r p =
      ground (arith, any-append (same_peer p) m.reserved (r ∷ []), same_peer-eq p r)

  register_known : (m : RelayManager) (r : PeerId) → contains m.reserved r ≡ true → register m r ≡ m
  unfolding register
  register_known m r h = rw h

  -- A second registration of the same relay changes nothing.
  pub register_twice : (m : RelayManager) (r : PeerId) → register (register m r) r ≡ register m r
  register_twice m r =
      register_known (register m r) r (ground (arith, register-contains m r r, same_peer_refl r))

  pub register-IsSound : (m : RelayManager) (r : PeerId) → IsSound m → IsSound (register m r)
  unfolding register total
  register-IsSound m r v = elim (Bool-cases (contains m.reserved r)) [
    | inl e ↦ rw e v
    | inr e ↦ rw e (record {
      reserved_distinct = λ p. ground (
        arith,
        e,
        v.reserved_distinct p,
        same_peer-eq p r,
        contains-occurrences m.reserved r,
        total-append (λ z. if same_peer p z then 1 else 0) m.reserved (r ∷ []),
      );
      in_use_distinct = v.in_use_distinct;
    })
  ]

  -- For a sound manager, `remove` takes the relay out of the reservations, and no other, and
  -- returns whether it was there.
  pub remove-contains :
      (m : RelayManager) (r p : PeerId)
      → IsSound m
      → (contains (remove m r).0.reserved p ≡ (contains m.reserved p && not (same_peer p r)))
        × ((remove m r).1 ≡ contains m.reserved r)
  unfolding remove
  remove-contains m r p v = elim (Bool-cases (contains m.reserved r)) [
    | inl e ↦
        let (y, found) = find_of_any (same_peer r) m.reserved e in
        let same = same_peer-eq r y (find-holds (same_peer r) m.reserved y found) in
        let counts =
          total-remove_first (λ z. if same_peer p z then 1 else 0) (same_peer r) m.reserved in
        (
          ground (
            arith,
            e,
            found,
            same,
            counts,
            v.reserved_distinct p,
            same_peer-eq p r,
            contains-occurrences m.reserved p,
            contains-occurrences (remove_first (same_peer r) m.reserved) p,
          ),
          ground (arith, e),
        )
    | inr e ↦ (ground (arith, e, same_peer-eq p r), ground (arith, e))
  ]

  pub remove-IsSound : (m : RelayManager) (r : PeerId) → IsSound m → IsSound (remove m r).0
  unfolding remove
  remove-IsSound m r v = elim (Bool-cases (contains m.reserved r)) [
    | inl e ↦ rw e (record {
      reserved_distinct = λ p. omega (
        arith,
        v.reserved_distinct p,
        total-remove_first (λ z. if same_peer p z then 1 else 0) (same_peer r) m.reserved,
      );
      in_use_distinct = v.in_use_distinct;
    })
    | inr e ↦ rw e v
  ]

  pub length-remove :
      (m : RelayManager) (r : PeerId)
      → contains m.reserved r ≡ true
      → length (remove m r).0.reserved + 1 ≡ length m.reserved
  unfolding remove
  length-remove m r e =
      let (y, found) = find_of_any (same_peer r) m.reserved e in
      ground (
        arith,
        e,
        found,
        total-remove_first (λ _. 1) (same_peer r) m.reserved,
        length-total m.reserved,
        length-total (remove_first (same_peer r) m.reserved),
      )

  -- Where there is no need to prune, there is one after a relay is registered exactly if
  -- `can_reserve` was false of it.
  pub can_reserve-should_prune :
      (m : RelayManager) (r : PeerId)
      → should_prune m ≡ false
      → should_prune (register m r) ≡ not (can_reserve m r)
  unfolding can_reserve register should_prune
  can_reserve-should_prune m r h = ground (arith, length-append m.reserved (r ∷ []))
