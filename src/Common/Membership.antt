-- ===== src/Common/Membership.antt =====
-- Membership in a list, as a choice of the place, and what selection, updates and search keep of it.
use Prim.Native.Nat.{ℕ, zero, suc, ◌≤◌}
use mathlib.Core.Path.{◌≡◌, refl, ap}
use mathlib.Core.Logic.{◌⊎◌, inl, inr}
use mathlib.Core.Bool.{Bool, true, false}
use mathlib.Core.List.{List, [], ◌∷◌, ◌++◌, map}
use mathlib.Core.Option.{some}
use native.Mathlib.Omega.{arith}
use latte_work.Common.Tests.{Bool-cases}
use latte_work.Common.Lists.{take, select, update_where, find?, any, count_where, All, length}

-- The empty type at every level.
pub data Never {ℓ} : Type ℓ where

module _ {ℓ} {A : Type ℓ} where
  abbrev pub In : A → List A → Type ℓ
  In a [] = Never
  In a (x ∷ xs) = (x ≡ a) ⊎ In a xs

  pub In-append_right : (a : A) (xs ys : List A) → In a ys → In a (xs ++ ys)
  In-append_right a [] ys h = h
  In-append_right a (x ∷ xs) ys h = inr (In-append_right a xs ys h)

  pub In-append_left : (a : A) (xs ys : List A) → In a xs → In a (xs ++ ys)
  In-append_left a (x ∷ xs) ys (inl h) = inl h
  In-append_left a (x ∷ xs) ys (inr h) = inr (In-append_left a xs ys h)
  In-append_left a [] ys h = elim h [ ]

  pub In-append : (a : A) (xs ys : List A) → In a (xs ++ ys) → In a xs ⊎ In a ys
  In-append a [] ys h = inr h
  In-append a (x ∷ xs) ys (inl h) = inl (inl h)
  In-append a (x ∷ xs) ys (inr h) = elim (In-append a xs ys h) [
    | inl l ↦ inl (inr l)
    | inr r ↦ inr r
  ]

  pub In-take : (n : ℕ) (a : A) (xs : List A) → In a (take n xs) → In a xs
  In-take zero a xs h = elim h [ ]
  In-take (suc n) a [] h = h
  In-take (suc n) a (x ∷ xs) (inl h) = inl h
  In-take (suc n) a (x ∷ xs) (inr h) = inr (In-take n a xs h)

  pub In-select : (p : A → Bool) (a : A) (xs : List A) → In a (select p xs) → In a xs × (p a ≡ true)
  In-select p a [] h = elim h [ ]
  In-select p a (x ∷ xs) h = ground (arith, In-select p a xs)

  pub select-In : (p : A → Bool) (a : A) (xs : List A) → In a xs → p a ≡ true → In a (select p xs)
  select-In p a [] h e = h
  select-In p a (x ∷ xs) (inl h) e = ground arith
  select-In p a (x ∷ xs) (inr h) e = ground (arith, select-In p a xs h e)

  pub find-In : (p : A → Bool) (a : A) (xs : List A) → find? p xs ≡ some a → In a xs × (p a ≡ true)
  find-In p a [] h = absurd (cc)
  find-In p a (x ∷ xs) h = ground (arith, find-In p a xs)

  pub any-In : (p : A → Bool) (a : A) (xs : List A) → In a xs → p a ≡ true → any p xs ≡ true
  any-In p a [] h e = elim h [ ]
  any-In p a (x ∷ xs) (inl h) e = ground arith
  any-In p a (x ∷ xs) (inr h) e = ground (arith, any-In p a xs h e)

  pub In-All {κ} : (P : A → Type κ) (a : A) (xs : List A) → All P xs → In a xs → P a
  In-All P a [] h m = elim m [ ]
  In-All P a (x ∷ xs) h (inl e) = rw (← e) h.0
  In-All P a (x ∷ xs) h (inr m) = In-All P a xs h.1 m

  pub update_none :
      (p : A → Bool) (f : A → A) (xs : List A) → any p xs ≡ false → update_where p f xs ≡ xs
  update_none p f [] h = refl
  update_none p f (x ∷ xs) h = ground (arith, update_none p f xs)

  -- An update may be read with any test that agrees with its own on the rows.
  pub update_same :
      (p q : A → Bool) (f : A → A) (xs : List A)
      → ((a : A) → In a xs → p a ≡ q a)
      → update_where p f xs ≡ update_where q f xs
  update_same p q f [] h = refl
  update_same p q f (x ∷ xs) h = rw (h x (inl refl), update_same p q f xs (λ a m. h a (inr m)))

  pub All-update {κ} :
      (P : A → Type κ) (p : A → Bool) (f : A → A) (xs : List A)
      → ((a : A) → In a xs → p a ≡ true → P a → P (f a))
      → All P xs
      → All P (update_where p f xs)
  All-update P p f [] h m = m
  All-update P p f (x ∷ xs) h m = elim (Bool-cases (p x)) [
    | inl e ↦ rw e (h x (inl refl) e m.0, All-update P p f xs (λ a i. h a (inr i)) m.1)
    | inr e ↦ rw e (m.0, All-update P p f xs (λ a i. h a (inr i)) m.1)
  ]

  pub All-select {κ} :
      (P : A → Type κ) (p : A → Bool) (xs : List A) → All P xs → All P (select p xs)
  All-select P p [] h = h
  All-select P p (x ∷ xs) h = elim (Bool-cases (p x)) [
    | inl e ↦ rw e (h.0, All-select P p xs h.1)
    | inr e ↦ rw e (All-select P p xs h.1)
  ]

  pub select_shorter : (p : A → Bool) (xs : List A) → length (select p xs) ≤ length xs
  select_shorter p [] = omega arith
  select_shorter p (x ∷ xs) = ground (arith, select_shorter p xs)

  pub length-update :
      (p : A → Bool) (f : A → A) (xs : List A) → length (update_where p f xs) ≡ length xs
  length-update p f [] = refl
  length-update p f (x ∷ xs) = ap suc (length-update p f xs)

  -- An update that lets no row into `q` does not raise its count.
  pub count-update :
      (q p : A → Bool) (f : A → A) (xs : List A)
      → ((a : A) → In a xs → p a ≡ true → q (f a) ≡ true → q a ≡ true)
      → count_where q (update_where p f xs) ≤ count_where q xs
  count-update q p f [] h = omega arith
  count-update q p f (x ∷ xs) h =
      let rest = count-update q p f xs (λ a i. h a (inr i)) in
      let here = h x (inl refl) in ground (arith, rest, here)

  pub map-update {κ} :
      {B : Type κ} (g : A → B) (p : A → Bool) (f : A → A) (xs : List A)
      → ((a : A) → p a ≡ true → g (f a) ≡ g a)
      → map g (update_where p f xs) ≡ map g xs
  map-update g p f [] h = refl
  map-update g p f (x ∷ xs) h = elim (Bool-cases (p x)) [
    | inl e ↦ rw (e, h x e, map-update g p f xs h)
    | inr e ↦ rw (e, map-update g p f xs h)
  ]

module _ {ℓ κ} {A : Type ℓ} {B : Type κ} where
  pub In-map : (f : A → B) (b : B) (xs : List A) → In b (map f xs) → (a : A) × In a xs × (f a ≡ b)
  In-map f b [] h = elim h [ ]
  In-map f b (x ∷ xs) (inl h) = (x, inl refl, h)
  In-map f b (x ∷ xs) (inr h) = let (a, m, e) = In-map f b xs h in (a, inr m, e)

  pub map-In : (f : A → B) (a : A) (xs : List A) → In a xs → In (f a) (map f xs)
  map-In f a [] h = elim h [ ]
  map-In f a (x ∷ xs) (inl h) = inl (ap f h)
  map-In f a (x ∷ xs) (inr h) = inr (map-In f a xs h)
