-- ===== src/Common/Maps.antt =====
-- `BTreeMap` with text keys (the language's library): its entries in the order of the keys.
use Prim.Native.Nat.{suc, ◌≤◌}
use native.Mathlib.Omega.{arith}
use Prim.Native.String.{String, compare}
use mathlib.Core.Path.{◌≡◌, refl, sym, ap, subst}
use mathlib.Core.Logic.{◌≢◌, inl, inr}
use mathlib.Core.Bool.{Bool, true, false, not}
use mathlib.Core.Option.{Option, none, some}
use mathlib.Core.List.{List, [], ◌∷◌, ◌++◌}
use text.Mathlib.Text.{◌==◌, is_lt}
use latte_work.Common.Tests.{if◌then◌else◌, Bool-cases, ==_refl, ==_ne, ==-eq}
use latte_work.Common.Lists.{select, length, All}

module _ {ℓ} {V : Type ℓ} where
  abbrev pub lookup : String → List (String × V) → Option V
  lookup k [] = none
  lookup k (e ∷ m) = if e.0 == k then some e.1 else lookup k m

  abbrev pub insert : String → V → List (String × V) → List (String × V)
  insert k v [] = (k, v) ∷ []
  insert k v (e ∷ m) =
      if e.0 == k
      then (k, v) ∷ m
      else (if is_lt (compare k e.0) then (k, v) ∷ e ∷ m else e ∷ insert k v m)

  abbrev pub remove : String → List (String × V) → List (String × V)
  remove k m = select (λ e. not (e.0 == k)) m

  -- `get_mut`.
  abbrev pub adjust : String → (V → V) → List (String × V) → List (String × V)
  adjust k f [] = []
  adjust k f (e ∷ m) = if e.0 == k then (e.0, f e.1) ∷ m else e ∷ adjust k f m

  pub lookup-adjust :
      (k : String) (f : V → V) (v : V) (m : List (String × V))
      → lookup k m ≡ some v
      → lookup k (adjust k f m) ≡ some (f v)
  lookup-adjust k f v [] h = absurd (cc)
  lookup-adjust k f v (e ∷ m) h = elim (Bool-cases (e.0 == k)) [
    | inl t ↦ let same : e.1 ≡ v = ground arith in rw (t, t) (ap (λ w. some (f w)) same)
    | inr t ↦ rw (t, t) (lookup-adjust k f v m (ground arith))
  ]

  pub lookup-adjust_other :
      (k j : String) (f : V → V) (m : List (String × V))
      → j ≢ k
      → lookup j (adjust k f m) ≡ lookup j m
  lookup-adjust_other k j f [] ne = refl
  lookup-adjust_other k j f (e ∷ m) ne = elim (Bool-cases (e.0 == k)) [
    | inl t ↦
        let other : (e.0 == j) ≡ false = rw (==-eq e.0 k t) (==_ne k j (λ p. ne (sym p))) in
        rw (t, other) refl
    | inr t ↦ rw t (ap (λ r. if e.0 == j then some e.1 else r) (lookup-adjust_other k j f m ne))
  ]

  pub length-adjust :
      (k : String) (f : V → V) (m : List (String × V)) → length (adjust k f m) ≡ length m
  length-adjust k f [] = refl
  length-adjust k f (e ∷ m) = ground (arith, length-adjust k f m)

  pub All-adjust {κ} :
      (P : String × V → Type κ) (k : String) (f : V → V) (v : V) (m : List (String × V))
      → lookup k m ≡ some v
      → (P (k, v) → P (k, f v))
      → All P m
      → All P (adjust k f m)
  All-adjust P k f v [] h g a = a
  All-adjust P k f v (e ∷ m) h g a = elim (Bool-cases (e.0 == k)) [
    | inl t ↦
        let key : e.0 ≡ k = ==-eq e.0 k t in
        let same : e.1 ≡ v = ground arith in rw (t, key, same) (g (rw (← key, ← same) a.0), a.1)
    | inr t ↦ rw t (a.0, All-adjust P k f v m (ground arith) g a.1)
  ]

  pub All-lookup {κ} :
      (P : String × V → Type κ) (k : String) (v : V) (m : List (String × V))
      → All P m
      → lookup k m ≡ some v
      → P (k, v)
  All-lookup P k v [] a h = absurd (cc)
  All-lookup P k v (e ∷ m) a h = elim (Bool-cases (e.0 == k)) [
    | inl t ↦
        let key : e.0 ≡ k = ==-eq e.0 k t in
        let same : e.1 ≡ v = ground arith in rw (← key, ← same) a.0
    | inr t ↦ All-lookup P k v m a.1 (ground arith)
  ]

  pub lookup-insert :
      (k : String) (v : V) (m : List (String × V)) → lookup k (insert k v m) ≡ some v
  lookup-insert k v [] = rw (==_refl k)
  lookup-insert k v (e ∷ m) = elim (Bool-cases (e.0 == k)) [
    | inl h ↦ rw (h, ==_refl k)
    | inr h ↦ elim (Bool-cases (is_lt (compare k e.0))) [
      | inl l ↦ rw (h, l, ==_refl k)
      | inr l ↦ rw (h, l, h) (lookup-insert k v m)
    ]
  ]

  pub lookup-insert_other :
      (k j : String) (v : V) (m : List (String × V)) → j ≢ k → lookup j (insert k v m) ≡ lookup j m
  lookup-insert_other k j v [] ne = rw (==_ne k j (λ h. ne (sym h)))
  lookup-insert_other k j v (e ∷ m) ne =
      let other : (k == j) ≡ false = ==_ne k j (λ h. ne (sym h)) in
      elim (Bool-cases (e.0 == k)) [
        | inl h ↦ let same : e.0 ≡ k = ==-eq e.0 k h in rw (h, other, same, other)
        | inr h ↦ elim (Bool-cases (is_lt (compare k e.0))) [
          | inl l ↦ rw (h, l, other)
          | inr l ↦ rw (h, l, lookup-insert_other k j v m ne)
        ]
      ]

  pub lookup-remove : (k : String) (m : List (String × V)) → lookup k (remove k m) ≡ none
  lookup-remove k [] = refl
  lookup-remove k (e ∷ m) = elim (Bool-cases (e.0 == k)) [
    | inl h ↦ rw h (lookup-remove k m)
    | inr h ↦ rw (h, h) (lookup-remove k m)
  ]

  pub lookup-remove_other :
      (k j : String) (m : List (String × V)) → j ≢ k → lookup j (remove k m) ≡ lookup j m
  lookup-remove_other k j [] ne = refl
  lookup-remove_other k j (e ∷ m) ne = elim (Bool-cases (e.0 == k)) [
    | inl h ↦
        let other : (e.0 == j) ≡ false = rw (==-eq e.0 k h) (==_ne k j (λ p. ne (sym p))) in
        rw (h, other) (lookup-remove_other k j m ne)
    | inr h ↦ rw h (ap (λ r. if e.0 == j then some e.1 else r) (lookup-remove_other k j m ne))
  ]

  pub length-insert :
      (k : String) (v : V) (m : List (String × V)) → length (insert k v m) ≤ suc (length m)
  length-insert k v [] = omega arith
  length-insert k v (e ∷ m) = ground (arith, length-insert k v m)

  pub All-insert {κ} :
      (P : String × V → Type κ) (k : String) (v : V) (m : List (String × V))
      → P (k, v)
      → All P m
      → All P (insert k v m)
  All-insert P k v [] h a = (h, tt)
  All-insert P k v (e ∷ m) h a = elim (Bool-cases (e.0 == k)) [
    | inl t ↦ rw t (h, a.1)
    | inr t ↦ elim (Bool-cases (is_lt (compare k e.0))) [
      | inl l ↦ rw (t, l) (h, a)
      | inr l ↦ rw (t, l) (a.0, All-insert P k v m h a.1)
    ]
  ]

  -- An entry that `retain` keeps is still found.
  pub lookup-select :
      (k : String) (v : V) (p : String × V → Bool) (m : List (String × V))
      → ((j : String) → p (j, v) ≡ true)
      → lookup k m ≡ some v
      → lookup k (select p m) ≡ some v
  lookup-select k v p [] h e = absurd (cc)
  lookup-select k v p (x ∷ m) h e = elim (Bool-cases (x.0 == k)) [
    | inl t ↦
        let same : x.1 ≡ v = ground arith in
        let kept : p x ≡ true = subst (λ w. p (x.0, w) ≡ true) (sym same) (h x.0) in
        rw (kept, t) (ap some same)
    | inr t ↦ elim (Bool-cases (p x)) [
      | inl q ↦ rw (q, t) (lookup-select k v p m h (ground arith))
      | inr q ↦ rw q (lookup-select k v p m h (ground arith))
    ]
  ]

-- The values of all entries, one after the other: `values().flat_map(…)`.
abbrev pub flatten_values {ℓ κ} :
    {A : Type ℓ} {V : Type κ} → (V → List A) → List (String × V) → List A
flatten_values f [] = []
flatten_values f (e ∷ m) = f e.1 ++ flatten_values f m
