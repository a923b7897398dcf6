-- ===== src/Common/Sums.antt =====
-- The sum of a measure over a list (`iter().map(…).sum()`).
use Prim.Native.Nat.{ℕ, ◌+◌, ◌≤◌}
use Prim.Native.String.{String}
use mathlib.Core.Path.{◌≡◌, refl, ap}
use mathlib.Core.Logic.{inl, inr}
use mathlib.Core.Bool.{Bool, not}
use mathlib.Core.Option.{some}
use mathlib.Core.List.{List, [], ◌∷◌}
use native.Mathlib.Omega.{arith}
use text.Mathlib.Text.{◌==◌}
use latte_work.Common.Tests.{Bool-cases}
use latte_work.Common.Lists.{select, update_where}
use latte_work.Common.Maps.{lookup, insert, remove, adjust}

module _ {ℓ} {A : Type ℓ} where
  abbrev pub sum_of : (A → ℕ) → List A → ℕ
  sum_of f [] = 0
  sum_of f (x ∷ xs) = f x + sum_of f xs

  pub sum-select : (f : A → ℕ) (p : A → Bool) (xs : List A) → sum_of f (select p xs) ≤ sum_of f xs
  sum-select f p [] = omega arith
  sum-select f p (x ∷ xs) = ground (arith, sum-select f p xs)

  pub sum-update :
      (f : A → ℕ) (p : A → Bool) (g : A → A) (xs : List A)
      → ((x : A) → f (g x) ≡ f x)
      → sum_of f (update_where p g xs) ≡ sum_of f xs
  sum-update f p g [] h = refl
  sum-update f p g (x ∷ xs) h = elim (Bool-cases (p x)) [
    | inl e ↦ rw (e, h x, sum-update f p g xs h) refl
    | inr e ↦ rw (e, sum-update f p g xs h) refl
  ]

module _ {ℓ} {V : Type ℓ} where
  pub sum-insert :
      (f : String × V → ℕ) (k : String) (v : V) (m : List (String × V))
      → sum_of f (insert k v m) ≤ f (k, v) + sum_of f m
  sum-insert f k v [] = omega arith
  sum-insert f k v (e ∷ m) = ground (arith, sum-insert f k v m)

  pub sum-remove :
      (f : V → ℕ) (k : String) (v : V) (m : List (String × V))
      → lookup k m ≡ some v
      → f v + sum_of (λ e. f e.1) (remove k m) ≤ sum_of (λ e. f e.1) m
  sum-remove f k v [] h = absurd (cc)
  sum-remove f k v (e ∷ m) h = elim (Bool-cases (e.0 == k)) [
    | inl t ↦
        let same : e.1 ≡ v = ground arith in
        let here : f e.1 ≡ f v = ap f same in
        let rest = sum-select (λ d. f d.1) (λ d. not (d.0 == k)) m in rw t (omega arith)
    | inr t ↦ let rest = sum-remove f k v m (ground arith) in rw t (omega arith)
  ]

  pub sum-adjust :
      (g : V → ℕ) (k : String) (f : V → V) (m : List (String × V))
      → ((v : V) → g (f v) ≡ g v)
      → sum_of (λ e. g e.1) (adjust k f m) ≡ sum_of (λ e. g e.1) m
  sum-adjust g k f [] h = refl
  sum-adjust g k f (e ∷ m) h = elim (Bool-cases (e.0 == k)) [
    | inl t ↦ rw (t, h e.1) refl
    | inr t ↦ rw (t, sum-adjust g k f m h) refl
  ]
