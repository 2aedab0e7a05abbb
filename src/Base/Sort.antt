-- ===== src/Base/Sort.antt =====
-- A stable sort by a Boolean order, as `sort_by_key` is one: by insertion, from the right.
use saved.Base.{
  ℕ, ◌+◌, ◌≤◌, ◌≡◌, refl, Bool, true, false, inl, inr, none, some, List, [], ◌∷◌, arith,
  if◌then◌else◌, Bool-cases,
}
use saved.Base.Lists.{All, length, find, total, tally}

module _ {ℓ} {A : Type ℓ} (le : A → A → Bool) where
  unfoldable pub insert : A → List A → List A
  insert x [] = x ∷ []
  insert x (y ∷ ys) = if le x y then x ∷ y ∷ ys else y ∷ insert x ys

  unfoldable pub sort : List A → List A
  unfolding insert
  sort [] = []
  sort (x ∷ xs) = insert x (sort xs)

  -- Each entry is at or before all later ones.
  abbrev pub IsBelow : A → List A → Type 0
  IsBelow x [] = Unit
  IsBelow x (y ∷ ys) = (le x y ≡ true) × IsBelow x ys

  abbrev pub IsSorted : List A → Type 0
  IsSorted [] = Unit
  IsSorted (x ∷ xs) = IsBelow x xs × IsSorted xs

  pub total-insert : (w : A → ℕ) (x : A) (xs : List A) → total w (insert x xs) ≡ w x + total w xs
  unfolding insert total
  total-insert w x [] = refl
  total-insert w x (y ∷ ys) = ground (arith, total-insert w x ys)

  -- Sorting keeps every entry, as often.
  pub total-sort : (w : A → ℕ) (xs : List A) → total w (sort xs) ≡ total w xs
  unfolding sort total
  total-sort w [] = refl
  total-sort w (x ∷ xs) = omega (arith, total-insert w x (sort xs), total-sort w xs)

  pub length-insert : (x : A) (xs : List A) → length (insert x xs) ≡ length xs + 1
  unfolding insert
  length-insert x [] = omega arith
  length-insert x (y ∷ ys) = ground (arith, length-insert x ys)

  pub length-sort : (xs : List A) → length (sort xs) ≡ length xs
  unfolding sort
  length-sort [] = refl
  length-sort (x ∷ xs) = omega (arith, length-insert x (sort xs), length-sort xs)

  find_absent : (p : A → Bool) (xs : List A) → tally p xs ≡ 0 → find p xs ≡ none
  unfolding find total
  find_absent p [] h = refl
  find_absent p (x ∷ xs) h = ground (arith, find_absent p xs)

  find-insert :
      (p : A → Bool) (x : A) (xs : List A)
      → tally p xs + (if p x then 1 else 0) ≤ 1
      → find p (insert x xs) ≡ (if p x then some x else find p xs)
  unfolding find total insert
  find-insert p x [] h = ground arith
  find-insert p x (y ∷ ys) h = ground (arith, find-insert p x ys, find_absent p ys)

  -- A search with at most one answer does not see the order.
  pub find-sort : (p : A → Bool) (xs : List A) → tally p xs ≤ 1 → find p (sort xs) ≡ find p xs
  unfolding sort find total
  find-sort p [] h = refl
  find-sort p (x ∷ xs) h =
      ground (
        arith,
        total-sort (λ y. if p y then 1 else 0) xs,
        find-insert p x (sort xs),
        find-sort p xs,
      )

  All-insert {κ} : (P : A → Type κ) (x : A) (xs : List A) → P x → All P xs → All P (insert x xs)
  unfolding insert
  All-insert P x [] h a = (h, tt)
  All-insert P x (y ∷ ys) h a = elim (Bool-cases (le x y)) [
    | inl e ↦ rw e (h, a)
    | inr e ↦ rw e (a.0, All-insert P x ys h a.1)
  ]

  pub All-sort {κ} : (P : A → Type κ) (xs : List A) → All P xs → All P (sort xs)
  unfolding sort
  All-sort P [] a = a
  All-sort P (x ∷ xs) a = All-insert P x (sort xs) a.0 (All-sort P xs a.1)

  module _ (trans : (x y z : A) → le x y ≡ true → le y z ≡ true → le x z ≡ true)
      (connex : (x y : A) → le x y ≡ false → le y x ≡ true) where
    IsBelow-insert :
        (x y : A) (ys : List A) → le x y ≡ true → IsBelow x ys → IsBelow x (insert y ys)
    unfolding insert
    IsBelow-insert x y [] h b = (h, tt)
    IsBelow-insert x y (z ∷ zs) h b = ground (arith, IsBelow-insert x y zs h)

    IsBelow-trans : (x y : A) (ys : List A) → le x y ≡ true → IsBelow y ys → IsBelow x ys
    IsBelow-trans x y [] h b = tt
    IsBelow-trans x y (z ∷ zs) h b = (trans x y z h b.0, IsBelow-trans x y zs h b.1)

    insert-IsSorted : (x : A) (xs : List A) → IsSorted xs → IsSorted (insert x xs)
    unfolding insert
    insert-IsSorted x [] s = (tt, tt)
    insert-IsSorted x (y ∷ ys) s = elim (Bool-cases (le x y)) [
      | inl h ↦ rw h ((h, IsBelow-trans x y ys h s.0), s)
      | inr h ↦ rw h (IsBelow-insert y x ys (connex x y h) s.0, insert-IsSorted x ys s.1)
    ]

    pub sort-IsSorted : (xs : List A) → IsSorted (sort xs)
    unfolding sort
    sort-IsSorted [] = tt
    sort-IsSorted (x ∷ xs) = insert-IsSorted x (sort xs) (sort-IsSorted xs)
