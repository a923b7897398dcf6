-- ===== src/Common/Updates.antt =====
-- What a query finds after an update.
use mathlib.Core.Path.{◌≡◌, refl, ap}
use mathlib.Core.Logic.{inl, inr}
use mathlib.Core.Bool.{Bool, true, false, not}
use mathlib.Core.List.{List, [], ◌∷◌}
use mathlib.Core.Option.{some, none}
use native.Mathlib.Omega.{arith}
use latte_work.Common.Tests.{Bool-cases}
use latte_work.Common.Lists.{select, update_where, find?}

module _ {ℓ} {A : Type ℓ} where
  -- The row that a query finds, after the update of the rows that the query meets.
  pub find-update :
      (p : A → Bool) (f : A → A) (xs : List A) (a : A)
      → ((x : A) → p (f x) ≡ p x)
      → find? p xs ≡ some a
      → find? p (update_where p f xs) ≡ some (f a)
  find-update p f [] a h e = absurd (cc)
  find-update p f (x ∷ xs) a h e = elim (Bool-cases (p x)) [
    | inl t ↦ rw (t, h x, t) (ground arith)
    | inr t ↦ rw (t, t) (find-update p f xs a h (ground arith))
  ]

  pub update_again :
      (p : A → Bool) (f : A → A) (xs : List A)
      → ((x : A) → p (f x) ≡ p x)
      → ((x : A) → f (f x) ≡ f x)
      → update_where p f (update_where p f xs) ≡ update_where p f xs
  update_again p f [] h i = refl
  update_again p f (x ∷ xs) h i = elim (Bool-cases (p x)) [
    | inl t ↦ rw (t, h x, t, i x, update_again p f xs h i)
    | inr t ↦ rw (t, t, update_again p f xs h i)
  ]

  -- After an update that takes every row out of the query, the query finds nothing.
  pub find_none-update :
      (p : A → Bool) (f : A → A) (xs : List A)
      → ((x : A) → p x ≡ true → p (f x) ≡ false)
      → find? p (update_where p f xs) ≡ none
  find_none-update p f [] h = refl
  find_none-update p f (x ∷ xs) h = elim (Bool-cases (p x)) [
    | inl t ↦ rw (t, h x t, find_none-update p f xs h)
    | inr t ↦ rw (t, t, find_none-update p f xs h)
  ]

  pub select_none-update :
      (p : A → Bool) (f : A → A) (xs : List A)
      → ((x : A) → p x ≡ true → p (f x) ≡ false)
      → select p (update_where p f xs) ≡ []
  select_none-update p f [] h = refl
  select_none-update p f (x ∷ xs) h = elim (Bool-cases (p x)) [
    | inl t ↦ rw (t, h x t, select_none-update p f xs h)
    | inr t ↦ rw (t, t, select_none-update p f xs h)
  ]

  -- An update of rows that the query leaves out before and after changes nothing for it.
  pub select_outside-update :
      (q p : A → Bool) (f : A → A) (xs : List A)
      → ((x : A) → p x ≡ true → (q x ≡ false) × (q (f x) ≡ false))
      → select q (update_where p f xs) ≡ select q xs
  select_outside-update q p f [] h = refl
  select_outside-update q p f (x ∷ xs) h = elim (Bool-cases (p x)) [
    | inl t ↦ rw (t, (h x t).0, (h x t).1, select_outside-update q p f xs h)
    | inr t ↦ rw (t, select_outside-update q p f xs h)
  ]

  pub find_none-select : (p : A → Bool) (xs : List A) → find? p (select (λ x. not (p x)) xs) ≡ none
  find_none-select p [] = refl
  find_none-select p (x ∷ xs) = elim (Bool-cases (p x)) [
    | inl t ↦ rw t (find_none-select p xs)
    | inr t ↦ rw (t, t) (find_none-select p xs)
  ]

  -- The first row of a query stays its first under an update that keeps the query and meets it.
  pub find-update_other :
      (p q : A → Bool) (f : A → A) (xs : List A) (a : A)
      → ((x : A) → p (f x) ≡ p x)
      → find? p xs ≡ some a
      → q a ≡ true
      → find? p (update_where q f xs) ≡ some (f a)
  find-update_other p q f [] a h e m = absurd (cc)
  find-update_other p q f (x ∷ xs) a h e m = elim (Bool-cases (p x)) [
    | inl t ↦
        let same : x ≡ a = ground arith in
        let here : q x ≡ true = rw same m in rw (here, h x, t) (ap (λ y. some (f y)) same)
    | inr t ↦ elim (Bool-cases (q x)) [
      | inl k ↦ rw (k, h x, t) (find-update_other p q f xs a h (ground arith) m)
      | inr k ↦ rw (k, t) (find-update_other p q f xs a h (ground arith) m)
    ]
  ]

  -- A narrower query finds the same row if that row passes.
  pub find_narrow :
      (p q : A → Bool) (xs : List A) (a : A)
      → ((x : A) → q x ≡ true → p x ≡ true)
      → find? p xs ≡ some a
      → q a ≡ true
      → find? q xs ≡ some a
  find_narrow p q [] a h e m = absurd (cc)
  find_narrow p q (x ∷ xs) a h e m = elim (Bool-cases (p x)) [
    | inl t ↦ ground arith
    | inr t ↦ elim (Bool-cases (q x)) [
      | inl k ↦ absurd (cc (h x k, t))
      | inr k ↦ rw k (find_narrow p q xs a h (ground arith) m)
    ]
  ]
