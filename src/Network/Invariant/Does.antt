-- ===== src/Network/Invariant/Does.antt =====
-- src/network/mod.rs: the calls on the view that a handler stands for, and how far it does them.
use saved.Base.{◌≡◌, refl, sym, ap, ◌∙◌, List, [], ◌∷◌, ◌++◌}
use mathlib.Core.List.{append-nil, append_assoc}
use saved.Libp2p.{Libp2p}
use saved.View.Consistent.{Call}
use saved.View.Spec.{Connectivity, connectivity, spec_step, spec_run}
use saved.Network.State.{SavedNetwork, Outcome, ok, err, unfinished, M, ◌>>◌, bind}
use saved.Network.Invariant.{IsValid, Keeps}
use saved.Network.Invariant.Steady.{Blind}

module _ ⦃L : Libp2p⦄ where
  -- The handler ended early: the first of the calls were done, and no other.
  abbrev pub Broken : Connectivity → List Call → SavedNetwork → Type 0
  Broken c calls s =
      (front : List Call) × (back : List Call) × (calls ≡ front ++ back)
      × (connectivity s.view ≡ spec_run c front)

  -- What an outcome says of the calls that a handler stands for.
  abbrev pub Follows : Connectivity → List Call → Outcome (Unit {0}) × SavedNetwork → Type 0
  Follows c calls (ok a, s) = connectivity s.view ≡ spec_run c calls
  Follows c calls (err e, s) = Broken c calls s
  Follows c calls (unfinished, s) = Broken c calls s

  -- A handler does the calls, or the first of them where it does not succeed.
  abbrev pub Does : List Call → M (Unit {0}) → Type 0
  Does calls m = (s : SavedNetwork) → IsValid s → Follows (connectivity s.view) calls (m s)

  spec_run-append :
      (c : Connectivity) (xs ys : List Call) → spec_run c (xs ++ ys) ≡ spec_run (spec_run c xs) ys
  unfolding spec_run
  spec_run-append c [] ys = refl
  spec_run-append c (x ∷ xs) ys = spec_run-append (spec_step c x) xs ys

  pub whole :
      (c : Connectivity) (calls : List Call) (r : Outcome (Unit {0}) × SavedNetwork)
      → connectivity r.1.view ≡ spec_run c calls
      → Follows c calls r
  whole c calls (ok a, s) h = h
  whole c calls (err e, s) h = (calls, [], sym (append-nil calls), h)
  whole c calls (unfinished, s) h = (calls, [], sym (append-nil calls), h)

  Broken-later :
      (c : Connectivity) (xs ys : List Call) (s t : SavedNetwork)
      → connectivity s.view ≡ spec_run c xs
      → Broken (connectivity s.view) ys t
      → Broken c (xs ++ ys) t
  Broken-later c xs ys s t h (front, back, e, k) = (
    xs ++ front,
    back,
    ap (λ zs. xs ++ zs) e ∙ sym (append_assoc xs front back),
    k ∙ ap (λ d. spec_run d front) h ∙ sym (spec_run-append c xs front),
  )

  Broken-before :
      (c : Connectivity) (xs ys : List Call) (s : SavedNetwork)
      → Broken c xs s
      → Broken c (xs ++ ys) s
  Broken-before c xs ys s (front, back, e, k) =
      (front, back ++ ys, ap (λ zs. zs ++ ys) e ∙ append_assoc front back ys, k)

  later :
      (c : Connectivity) (xs ys : List Call) (s : SavedNetwork)
      (r : Outcome (Unit {0}) × SavedNetwork)
      → connectivity s.view ≡ spec_run c xs
      → Follows (connectivity s.view) ys r
      → Follows c (xs ++ ys) r
  later c xs ys s (ok a, t) h k = k ∙ ap (λ d. spec_run d ys) h ∙ sym (spec_run-append c xs ys)
  later c xs ys s (err e, t) h k = Broken-later c xs ys s t h k
  later c xs ys s (unfinished, t) h k = Broken-later c xs ys s t h k

  bind-Follows :
      (c : Connectivity) (xs ys : List Call) (r : Outcome (Unit {0}) × SavedNetwork)
      (k : M (Unit {0}))
      → IsValid r.1
      → Follows c xs r
      → Does ys k
      → Follows c (xs ++ ys) (bind r (λ _. k))
  bind-Follows c xs ys (ok a, s) k v h d = later c xs ys s (k s) h (d s v)
  bind-Follows c xs ys (err e, s) k v h d = Broken-before c xs ys s h
  bind-Follows c xs ys (unfinished, s) k v h d = Broken-before c xs ys s h

  pub Does-then :
      (xs ys : List Call) (m k : M (Unit {0}))
      → Keeps m
      → Does xs m
      → Does ys k
      → Does (xs ++ ys) (m >> k)
  Does-then xs ys m k km dm dk s v =
      bind-Follows (connectivity s.view) xs ys (m s) k (km s v) (dm s v) dk

  pub Does-Blind : (m : M (Unit {0})) → Blind m → Does [] m
  unfolding spec_run
  Does-Blind m b s v = whole (connectivity s.view) [] (m s) (ap connectivity (b s))

  pub Does-call :
      (call : Call) (m : M (Unit {0}))
      → ((s : SavedNetwork)
          → IsValid s
          → connectivity (m s).1.view ≡ spec_step (connectivity s.view) call)
      → Does (call ∷ []) m
  unfolding spec_run
  Does-call call m h s v = whole (connectivity s.view) (call ∷ []) (m s) (h s v)
