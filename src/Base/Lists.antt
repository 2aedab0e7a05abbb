-- ===== src/Base/Lists.antt =====
-- Vectors of the standard library as lists: `any`, `find`, `position`, `remove`, `swap_remove`,
-- and sums of a weight over a list, by which membership is counted.
use mathlib.Core.Option
use saved.Base.{
  ℕ, suc, ◌+◌, ◌≤◌, ◌≡◌, refl, Bool, true, false, ◌&&◌, ◌||◌, Option, none, some, List, [], ◌∷◌,
  ◌++◌, arith, if◌then◌else◌, ltb, inl, inr, Bool-cases,
}

module _ {ℓ} {A : Type ℓ} where
  abbrev pub length : List A → ℕ
  length [] = 0
  length (x ∷ xs) = suc (length xs)

  abbrev pub is_empty : List A → Bool
  is_empty [] = true
  is_empty (x ∷ xs) = false

  -- `iter().any(p)`
  unfoldable pub any : (A → Bool) → List A → Bool
  any p [] = false
  any p (x ∷ xs) = p x || any p xs

  -- `iter().all(p)`
  unfoldable pub all : (A → Bool) → List A → Bool
  all p [] = true
  all p (x ∷ xs) = p x && all p xs

  -- `iter().find(p)`
  unfoldable pub find : (A → Bool) → List A → Option A
  find p [] = none
  find p (x ∷ xs) = if p x then some x else find p xs

  -- `iter_mut().find(p)` and a change of what is found: the first match alone is changed.
  unfoldable pub modify_first : (A → Bool) → (A → A) → List A → List A
  modify_first p f [] = []
  modify_first p f (x ∷ xs) = if p x then f x ∷ xs else x ∷ modify_first p f xs

  -- `position(p)` and `remove(pos)`: the first match leaves, the rest keep their order.
  unfoldable pub remove_first : (A → Bool) → List A → List A
  remove_first p [] = []
  remove_first p (x ∷ xs) = if p x then xs else x ∷ remove_first p xs

  unfoldable pub last_or : A → List A → A
  last_or d [] = d
  last_or d (x ∷ xs) = last_or x xs

  -- All but the last entry.
  unfoldable pub drop_last : List A → List A
  drop_last [] = []
  drop_last (x ∷ []) = []
  drop_last (x ∷ y ∷ xs) = x ∷ drop_last (y ∷ xs)

  -- The last entry moved to the front.
  unfoldable pub last_to_front : List A → List A
  unfolding last_or drop_last
  last_to_front [] = []
  last_to_front (x ∷ xs) = last_or x xs ∷ drop_last (x ∷ xs)

  -- `position(p)` and `swap_remove(pos)`: the last entry takes the place of the first match.
  unfoldable pub swap_remove_first : (A → Bool) → List A → List A
  unfolding last_to_front
  swap_remove_first p [] = []
  swap_remove_first p (x ∷ xs) = if p x then last_to_front xs else x ∷ swap_remove_first p xs

  -- `iter().filter(p)`
  unfoldable pub filter : (A → Bool) → List A → List A
  filter p [] = []
  filter p (x ∷ xs) = if p x then x ∷ filter p xs else filter p xs

  unfoldable pub later_max : (A → ℕ) → A → List A → A
  later_max key best [] = best
  later_max key best (x ∷ xs) = later_max key (if ltb (key x) (key best) then best else x) xs

  -- `max_by_key(key)`: of several greatest entries the last.
  unfoldable pub max_by_key : (A → ℕ) → List A → Option A
  unfolding later_max
  max_by_key key [] = none
  max_by_key key (x ∷ xs) = some (later_max key x xs)

  -- The sum of a weight over a list.
  unfoldable pub total : (A → ℕ) → List A → ℕ
  total w [] = 0
  total w (x ∷ xs) = w x + total w xs

  -- The number of entries that pass a test.
  abbrev pub tally : (A → Bool) → List A → ℕ
  tally p = total (λ x. if p x then 1 else 0)

  pub total-append : (w : A → ℕ) (xs ys : List A) → total w (xs ++ ys) ≡ total w xs + total w ys
  unfolding total
  total-append w [] ys = omega arith
  total-append w (x ∷ xs) ys = omega (arith, total-append w xs ys)

  pub length-append : (xs ys : List A) → length (xs ++ ys) ≡ length xs + length ys
  length-append [] ys = omega arith
  length-append (x ∷ xs) ys = omega (arith, length-append xs ys)

  pub length-total : (xs : List A) → length xs ≡ total (λ _. 1) xs
  unfolding total
  length-total [] = refl
  length-total (x ∷ xs) = omega (arith, length-total xs)

  pub total_mono : (v w : A → ℕ) → ((x : A) → v x ≤ w x) → (xs : List A) → total v xs ≤ total w xs
  unfolding total
  total_mono v w h [] = omega arith
  total_mono v w h (x ∷ xs) = omega (arith, h x, total_mono v w h xs)

  pub any-tally : (p : A → Bool) (xs : List A) → any p xs ≡ ltb 0 (tally p xs)
  unfolding any total
  any-tally p [] = refl
  any-tally p (x ∷ xs) = ground (arith, any-tally p xs)

  total-drop_last :
      (w : A → ℕ) (x : A) (xs : List A)
      → w (last_or x xs) + total w (drop_last (x ∷ xs)) ≡ w x + total w xs
  unfolding last_or drop_last total
  total-drop_last w x [] = omega arith
  total-drop_last w x (y ∷ xs) = omega (arith, total-drop_last w y xs)

  total-last_to_front : (w : A → ℕ) (xs : List A) → total w (last_to_front xs) ≡ total w xs
  unfolding last_to_front total
  total-last_to_front w [] = refl
  total-last_to_front w (x ∷ xs) = total-drop_last w x xs

  abbrev pub weight? : (A → ℕ) → Option A → ℕ
  weight? w none = 0
  weight? w (some x) = w x

  -- What leaves is the first match.
  pub total-swap_remove_first :
      (w : A → ℕ) (p : A → Bool) (xs : List A)
      → total w (swap_remove_first p xs) + weight? w (find p xs) ≡ total w xs
  unfolding swap_remove_first find total
  total-swap_remove_first w p [] = omega arith
  total-swap_remove_first w p (x ∷ xs) =
      ground (arith, total-last_to_front w xs, total-swap_remove_first w p xs)

  pub total-remove_first :
      (w : A → ℕ) (p : A → Bool) (xs : List A)
      → total w (remove_first p xs) + weight? w (find p xs) ≡ total w xs
  unfolding remove_first find total
  total-remove_first w p [] = omega arith
  total-remove_first w p (x ∷ xs) = ground (arith, total-remove_first w p xs)

  -- The first match is changed, and nothing else.
  pub total-modify_first :
      (w : A → ℕ) (p : A → Bool) (f : A → A) (xs : List A)
      → total w (modify_first p f xs) + weight? w (find p xs)
        ≡ total w xs + weight? (λ x. w (f x)) (find p xs)
  unfolding modify_first find total
  total-modify_first w p f [] = omega arith
  total-modify_first w p f (x ∷ xs) = ground (arith, total-modify_first w p f xs)

  pub find-holds : (p : A → Bool) (xs : List A) (x : A) → find p xs ≡ some x → p x ≡ true
  unfolding find
  find-holds p [] y h = cc
  find-holds p (x ∷ xs) y h = ground (arith, find-holds p xs y)

  pub total-modify_first_same :
      (w : A → ℕ) (p : A → Bool) (f : A → A)
      → ((x : A) → w (f x) ≡ w x)
      → (xs : List A) → total w (modify_first p f xs) ≡ total w xs
  unfolding modify_first total
  total-modify_first_same w p f h [] = refl
  total-modify_first_same w p f h (x ∷ xs) = ground (arith, h x, total-modify_first_same w p f h xs)

  pub total-modify_first_le :
      (w : A → ℕ) (p : A → Bool) (f : A → A)
      → ((x : A) → w (f x) ≤ w x)
      → (xs : List A) → total w (modify_first p f xs) ≤ total w xs
  unfolding modify_first total
  total-modify_first_le w p f h [] = omega arith
  total-modify_first_le w p f h (x ∷ xs) = ground (arith, h x, total-modify_first_le w p f h xs)

  -- A test that some entry passes has a first entry that passes it.
  pub find_of_any : (p : A → Bool) (xs : List A) → any p xs ≡ true → (x : A) × (find p xs ≡ some x)
  unfolding any find
  find_of_any p [] h = cc
  find_of_any p (x ∷ xs) h = elim (Bool-cases (p x)) [
    | inl e ↦ (x, rw e)
    | inr e ↦ let (y, found) = find_of_any p xs (ground arith) in (y, rw e found)
  ]

  pub find-none : (p : A → Bool) (xs : List A) → any p xs ≡ false → find p xs ≡ none
  unfolding any find
  find-none p [] h = refl
  find-none p (x ∷ xs) h = ground (arith, find-none p xs)

  pub any_of_find-none : (p : A → Bool) (xs : List A) → find p xs ≡ none → any p xs ≡ false
  unfolding any find
  any_of_find-none p [] h = refl
  any_of_find-none p (x ∷ xs) h = ground (arith, any_of_find-none p xs)

  pub any_of_found :
      (p q : A → Bool) (xs : List A) (x : A) → p x ≡ true → find q xs ≡ some x → any p xs ≡ true
  unfolding any find
  any_of_found p q [] x h found = cc
  any_of_found p q (y ∷ xs) x h found = ground (arith, any_of_found p q xs x)

  pub any-eq-true : (p : A → Bool) (xs : List A) (x : A) → find p xs ≡ some x → any p xs ≡ true
  unfolding any find
  any-eq-true p [] x h = cc
  any-eq-true p (y ∷ xs) x h = ground (arith, any-eq-true p xs x)

  pub any-append : (p : A → Bool) (xs ys : List A) → any p (xs ++ ys) ≡ (any p xs || any p ys)
  unfolding any
  any-append p [] ys = refl
  any-append p (x ∷ xs) ys = ground (arith, any-append p xs ys)

  pub all-append : (p : A → Bool) (xs ys : List A) → all p (xs ++ ys) ≡ (all p xs && all p ys)
  unfolding all
  all-append p [] ys = refl
  all-append p (x ∷ xs) ys = ground (arith, all-append p xs ys)

  -- The search for what was changed finds the changed entry.
  pub find-modify_first_self :
      (p : A → Bool) (f : A → A)
      → ((x : A) → p (f x) ≡ p x)
      → (xs : List A) → find p (modify_first p f xs) ≡ Option.map f (find p xs)
  unfolding find modify_first
  find-modify_first_self p f h [] = refl
  find-modify_first_self p f h (x ∷ xs) = ground (arith, h x, find-modify_first_self p f h xs)

  -- The search for something else does not see the change.
  pub find-modify_first_ne :
      (p q : A → Bool) (f : A → A)
      → ((x : A) → p (f x) ≡ p x)
      → ((x : A) → q x ≡ true → p x ≡ false)
      → (xs : List A) → find p (modify_first q f xs) ≡ find p xs
  unfolding find modify_first
  find-modify_first_ne p q f h n [] = refl
  find-modify_first_ne p q f h n (x ∷ xs) =
      ground (arith, h x, n x, find-modify_first_ne p q f h n xs)

  -- What no entry passes, a found entry does not pass.
  pub find-any-false :
      (p q : A → Bool) (xs : List A) (x : A) → any p xs ≡ false → find q xs ≡ some x → p x ≡ false
  unfolding any find
  find-any-false p q [] x h found = cc
  find-any-false p q (y ∷ xs) x h found = ground (arith, find-any-false p q xs x)

  -- A property of every entry.
  abbrev pub All {κ} : (A → Type κ) → List A → Type κ
  All P [] = Unit
  All P (x ∷ xs) = P x × All P xs

  pub All-append {κ} :
      (Q : A → Type κ) (front back : List A) → All Q front → All Q back → All Q (front ++ back)
  All-append Q [] back here there = there
  All-append Q (a ∷ front) back (here, rest) there = (here, All-append Q front back rest there)

  pub All-modify_first {κ} :
      (P : A → Type κ) (p : A → Bool) (f : A → A)
      → ((x : A) → P x → P (f x))
      → (xs : List A) → All P xs
      → All P (modify_first p f xs)
  unfolding modify_first
  All-modify_first P p f h [] a = a
  All-modify_first P p f h (x ∷ xs) a = elim (Bool-cases (p x)) [
    | inl e ↦ rw e (h x a.0, a.1)
    | inr e ↦ rw e (a.0, All-modify_first P p f h xs a.1)
  ]

  pub All-remove_first {κ} :
      (P : A → Type κ) (p : A → Bool) (xs : List A) → All P xs → All P (remove_first p xs)
  unfolding remove_first
  All-remove_first P p [] a = a
  All-remove_first P p (x ∷ xs) a = elim (Bool-cases (p x)) [
    | inl e ↦ rw e a.1
    | inr e ↦ rw e (a.0, All-remove_first P p xs a.1)
  ]
