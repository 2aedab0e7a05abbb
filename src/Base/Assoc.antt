-- ===== src/Base/Assoc.antt =====
-- A `HashMap` as an association list: `get`, `get_mut`, `entry().or_default()` and `remove`.
use mathlib.Core.Option
use mathlib.Core.Path.{subst}
use saved.Base.Lists.{total, All}
use saved.Base.{
  ◌≤◌, test, if◌then◌else◌, if_pos, if_neg, ℕ, ◌+◌, ◌≡◌, refl, ◌≢◌, ite, Option, none, some, List,
  [], ◌∷◌, arith,
}

module _ {ℓ} {K V : Type ℓ} (dec : Discrete K) where
  unfoldable pub get : K → List (K × V) → Option V
  get k [] = none
  get k ((j, v) ∷ m) = ite (dec j k) (some v) (get k m)

  -- `entry(k).or_default()` and a change of what it holds.
  unfoldable pub upsert : K → V → (V → V) → List (K × V) → List (K × V)
  upsert k d f [] = (k, f d) ∷ []
  upsert k d f ((j, v) ∷ m) = ite (dec j k) ((j, f v) ∷ m) ((j, v) ∷ upsert k d f m)

  -- `get_mut(k)` and a change of what it holds.
  unfoldable pub modify : K → (V → V) → List (K × V) → List (K × V)
  modify k f [] = []
  modify k f ((j, v) ∷ m) = ite (dec j k) ((j, f v) ∷ m) ((j, v) ∷ modify k f m)

  unfoldable pub remove : K → List (K × V) → List (K × V)
  remove k [] = []
  remove k ((j, v) ∷ m) = ite (dec j k) (remove k m) ((j, v) ∷ remove k m)

  abbrev pub value_or : V → Option V → V
  value_or d none = d
  value_or d (some v) = v

  pub get-upsert_self :
      (k : K) (d : V) (f : V → V) (m : List (K × V))
      → get k (upsert k d f m) ≡ some (f (value_or d (get k m)))
  unfolding get upsert
  get-upsert_self k d f [] = ground arith
  get-upsert_self k d f ((j, v) ∷ m) = ground (arith, get-upsert_self k d f m)

  pub get-upsert_ne :
      (k j : K) (d : V) (f : V → V) (m : List (K × V)) → k ≢ j → get j (upsert k d f m) ≡ get j m
  unfolding get upsert
  get-upsert_ne k j d f [] n = ground arith
  get-upsert_ne k j d f ((i, v) ∷ m) n = ground (arith, get-upsert_ne k j d f m)

  pub get-modify_self :
      (k : K) (f : V → V) (m : List (K × V)) → get k (modify k f m) ≡ Option.map f (get k m)
  unfolding get modify
  get-modify_self k f [] = refl
  get-modify_self k f ((j, v) ∷ m) = ground (arith, get-modify_self k f m)

  pub get-modify_ne :
      (k j : K) (f : V → V) (m : List (K × V)) → k ≢ j → get j (modify k f m) ≡ get j m
  unfolding get modify
  get-modify_ne k j f [] n = refl
  get-modify_ne k j f ((i, v) ∷ m) n = ground (arith, get-modify_ne k j f m)

  pub get-remove_self : (k : K) (m : List (K × V)) → get k (remove k m) ≡ none
  unfolding get remove
  get-remove_self k [] = refl
  get-remove_self k ((j, v) ∷ m) = ground (arith, get-remove_self k m)

  pub get-remove_ne : (k j : K) (m : List (K × V)) → k ≢ j → get j (remove k m) ≡ get j m
  unfolding get remove
  get-remove_ne k j [] n = refl
  get-remove_ne k j ((i, v) ∷ m) n = ground (arith, get-remove_ne k j m)

  -- No key stands twice.
  abbrev pub key_count : K → List (K × V) → ℕ
  key_count k = total (λ e. if test (dec e.0 k) then 1 else 0)

  pub key_count-modify :
      (k j : K) (f : V → V) (m : List (K × V)) → key_count j (modify k f m) ≡ key_count j m
  unfolding modify total
  key_count-modify k j f [] = refl
  key_count-modify k j f ((i, v) ∷ m) = ground (arith, key_count-modify k j f m)

  pub key_count-remove : (k j : K) (m : List (K × V)) → key_count j (remove k m) ≤ key_count j m
  unfolding remove total
  key_count-remove k j [] = omega arith
  key_count-remove k j ((i, v) ∷ m) = ground (arith, key_count-remove k j m)

  key_count-upsert :
      (k j : K) (d : V) (f : V → V) (m : List (K × V))
      → key_count j (upsert k d f m)
        ≡ key_count j m + (if test (dec j k) then elim (get k m) [ none ↦ 1 | some _ ↦ 0 ] else 0)
  unfolding upsert total get
  key_count-upsert k j d f [] = ground arith
  key_count-upsert k j d f ((i, v) ∷ m) = ground (arith, key_count-upsert k j d f m)

  key_count_absent : (k : K) (m : List (K × V)) → get k m ≡ none → key_count k m ≡ 0
  unfolding get total
  key_count_absent k [] h = refl
  key_count_absent k ((j, v) ∷ m) h = ground (arith, key_count_absent k m)

  pub get_uncounted : (k : K) (m : List (K × V)) → key_count k m ≡ 0 → get k m ≡ none
  unfolding get total
  get_uncounted k [] h = refl
  get_uncounted k ((j, v) ∷ m) h = ground (arith, get_uncounted k m)

  pub key_count-upsert_le :
      (k j : K) (d : V) (f : V → V) (m : List (K × V))
      → key_count j m ≤ 1
      → key_count j (upsert k d f m) ≤ 1
  key_count-upsert_le k j d f m h = ground (arith, key_count-upsert k j d f m, key_count_absent k m)

  -- A property of every value.
  pub All-upsert {κ} :
      (P : V → Type κ) (k : K) (d : V) (f : V → V)
      → P d
      → ((v : V) → P v → P (f v))
      → (m : List (K × V)) → All (λ e. P e.1) m
      → All (λ e. P e.1) (upsert k d f m)
  unfolding upsert
  All-upsert P k d f hd h [] a = (h d hd, tt)
  All-upsert P k d f hd h ((j, v) ∷ m) a = elim (dec j k) [
    | yes e ↦ rw (if_pos _ e) (h v a.0, a.1)
    | no n ↦ rw (if_neg _ n) (a.0, All-upsert P k d f hd h m a.1)
  ]

  pub All-modify {κ} :
      (P : V → Type κ) (k : K) (f : V → V)
      → ((v : V) → P v → P (f v))
      → (m : List (K × V)) → All (λ e. P e.1) m
      → All (λ e. P e.1) (modify k f m)
  unfolding modify
  All-modify P k f h [] a = a
  All-modify P k f h ((j, v) ∷ m) a = elim (dec j k) [
    | yes e ↦ rw (if_pos _ e) (h v a.0, a.1)
    | no n ↦ rw (if_neg _ n) (a.0, All-modify P k f h m a.1)
  ]

  pub All-remove {κ} :
      (P : V → Type κ) (k : K) (m : List (K × V))
      → All (λ e. P e.1) m
      → All (λ e. P e.1) (remove k m)
  unfolding remove
  All-remove P k [] a = a
  All-remove P k ((j, v) ∷ m) a = elim (dec j k) [
    | yes e ↦ rw (if_pos _ e) (All-remove P k m a.1)
    | no n ↦ rw (if_neg _ n) (a.0, All-remove P k m a.1)
  ]

  pub All-get {κ} :
      (P : V → Type κ) (k : K) (m : List (K × V)) (v : V)
      → All (λ e. P e.1) m
      → get k m ≡ some v
      → P v
  unfolding get
  All-get P k [] v a h = cc
  All-get P k ((j, w) ∷ m) v a h = elim (dec j k) [
    | yes e ↦ let same : w ≡ v = ground arith in subst P same a.0
    | no n ↦ All-get P k m v a.1 (rw (if_neg _ n) at h)
  ]
