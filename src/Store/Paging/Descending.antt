-- ===== src/Store/Paging/Descending.antt =====
-- The rows of a session from the newest back have falling keys, and those before the key that a page
-- ends with are the ones that the page left (`Store::history`, crates/latte-work-server/src/store.rs).
use latte_work.Common.{
  ℕ, zero, suc, ◌≤◌, ◌<◌, String, Bool, true, List, [], ◌∷◌, ◌++◌, Option, none, some, ltb, select,
  take, drop, All, All-append, ◌≡◌, refl, sym, ap, subst, ◌∙◌, inl, inr, Bool-cases, arith, lt→ltb,
  ge→ltb, ltb→lt,
}
use latte_work.Store.State.{Store}
use latte_work.Store.Paging.{Row, numbered, of_session}
use latte_work.Store.Paging.Ascending.{IsAscending, numbered-IsAscending, select-IsAscending}
use latte_work.Store.Paging.History.{reversed, is_before, rows_before}

abbrev Above : ℕ → Row → Type 0
Above a r = a < r.seq

abbrev Below : ℕ → Row → Type 0
Below b r = r.seq < b

abbrev IsDescending : List Row → Type 0
IsDescending [] = Unit
IsDescending (r ∷ rs) = All (Below r.seq) rs × IsDescending rs

All-Above : (a b : ℕ) (rs : List Row) → a ≤ b → IsAscending b rs → All (Above a) rs
All-Above a b [] h up = tt
All-Above a b (r ∷ rs) h up = (omega (arith, up.0), All-Above a r.seq rs (omega (arith, up.0)) up.1)

reversed-All : (P : Row → Type 0) (rs : List Row) → All P rs → All P (reversed rs)
unfolding reversed
reversed-All P [] h = tt
reversed-All P (r ∷ rs) h = All-append P (reversed rs) (r ∷ []) (reversed-All P rs h.1) (h.0, tt)

snoc-IsDescending :
    (x : Row) (rs : List Row) → All (Above x.seq) rs → IsDescending rs → IsDescending (rs ++ x ∷ [])
snoc-IsDescending x [] h down = (tt, tt)
snoc-IsDescending x (r ∷ rs) h down =
    (All-append (Below r.seq) rs (x ∷ []) down.0 (h.0, tt), snoc-IsDescending x rs h.1 down.1)

reversed-IsDescending : (a : ℕ) (rs : List Row) → IsAscending a rs → IsDescending (reversed rs)
unfolding reversed
reversed-IsDescending a [] up = tt
reversed-IsDescending a (r ∷ rs) up =
    snoc-IsDescending r (reversed rs)
      (reversed-All (Above r.seq) rs (All-Above r.seq r.seq rs (omega arith) up.1))
      (reversed-IsDescending r.seq rs up.1)

select-All : (P : Row → Type 0) (p : Row → Bool) (rs : List Row) → All P rs → All P (select p rs)
select-All P p [] h = tt
select-All P p (r ∷ rs) h = elim (Bool-cases (p r)) [
  | inl e ↦ rw e (h.0, select-All P p rs h.1)
  | inr e ↦ rw e (select-All P p rs h.1)
]

select-IsDescending :
    (p : Row → Bool) (rs : List Row) → IsDescending rs → IsDescending (select p rs)
select-IsDescending p [] down = tt
select-IsDescending p (r ∷ rs) down = elim (Bool-cases (p r)) [
  | inl e ↦ rw e (select-All (Below r.seq) p rs down.0, select-IsDescending p rs down.1)
  | inr e ↦ rw e (select-IsDescending p rs down.1)
]

rows_before-IsDescending :
    (d : Store) (id : String) (before : Option ℕ) → IsDescending (rows_before d id before)
unfolding rows_before
rows_before-IsDescending d id before =
    select-IsDescending (is_before before) (reversed (select (of_session id) (numbered 1 d.events)))
      (reversed-IsDescending 0 (select (of_session id) (numbered 1 d.events)) (
        select-IsAscending (of_session id) 0 (numbered 1 d.events)
          (numbered-IsAscending 0 d.events)))

-- The key of the last row of a list, or a cursor.
unfoldable pub last_of : ℕ → List Row → ℕ
last_of a [] = a
last_of a (r ∷ rs) = last_of r.seq rs

All-before : (b : ℕ) (rs : List Row) → All (Below b) rs → select (is_before (some b)) rs ≡ rs
All-before b [] h = refl
All-before b (r ∷ rs) h = rw (lt→ltb r.seq b h.0) (ap (◌∷◌ r) (All-before b rs h.1))

last_of-within :
    (a k : ℕ) (rs : List Row) → All (Below a) rs → IsDescending rs → last_of a (take k rs) ≤ a
unfolding last_of
last_of-within a zero rs below down = omega arith
last_of-within a (suc k) [] below down = omega arith
last_of-within a (suc k) (r ∷ rs) below down =
    omega (arith, below.0, last_of-within r.seq k rs down.0 down.1)

drop_before :
    (a k : ℕ) (rs : List Row)
    → All (Below a) rs
    → IsDescending rs
    → select (is_before (some (last_of a (take k rs)))) rs ≡ drop k rs
unfolding last_of
drop_before a zero rs below down = All-before a rs below
drop_before a (suc k) [] below down = refl
drop_before a (suc k) (r ∷ rs) below down =
    let past = ge→ltb r.seq (last_of r.seq (take k rs)) (last_of-within r.seq k rs down.0 down.1) in
    rw past (drop_before r.seq k rs down.0 down.1)

select_earlier :
    (before : Option ℕ) (c : ℕ) (rs : List Row)
    → ((r : Row) → ltb r.seq c ≡ true → is_before before r ≡ true)
    → select (is_before (some c)) (select (is_before before) rs) ≡ select (is_before (some c)) rs
select_earlier before c [] h = refl
select_earlier before c (r ∷ rs) h = elim (Bool-cases (ltb r.seq c)) [
  | inl e ↦ rw (h r e, e) (ap (◌∷◌ r) (select_earlier before c rs h))
  | inr e ↦ elim (Bool-cases (is_before before r)) [
    | inl e2 ↦ rw (e2, e) (select_earlier before c rs h)
    | inr e2 ↦ rw (e2, e) (select_earlier before c rs h)
  ]
]

select-passes : (p : Row → Bool) (rs : List Row) → All (λ r. p r ≡ true) (select p rs)
select-passes p [] = tt
select-passes p (r ∷ rs) = elim (Bool-cases (p r)) [
  | inl e ↦ rw e (e, select-passes p rs)
  | inr e ↦ rw e (select-passes p rs)
]

earlier_passes :
    (before : Option ℕ) (c : ℕ) (first r : Row)
    → is_before before first ≡ true
    → c ≤ first.seq
    → ltb r.seq c ≡ true
    → is_before before r ≡ true
earlier_passes none c first r h le lt = refl
earlier_passes (some b) c first r h le lt =
    lt→ltb r.seq b (omega (arith, ltb→lt first.seq b h, le, ltb→lt r.seq c lt))

-- A query before the key of a row of a page gives the rows that are older than it.
pub rows_before-drop :
    (d : Store) (id : String) (before : Option ℕ) (a k : ℕ) (r : Row) (rs : List Row)
    → rows_before d id before ≡ r ∷ rs
    → rows_before d id (some (last_of a (take (suc k) (r ∷ rs)))) ≡ drop (suc k) (r ∷ rs)
unfolding rows_before last_of
rows_before-drop d id before a k r rs same =
    let all = reversed (select (of_session id) (numbered 1 d.events)) in
    let c = last_of r.seq (take k rs) in
    let down = subst IsDescending same (rows_before-IsDescending d id before) in
    let passes =
      subst (All (λ x. is_before before x ≡ true)) same (select-passes (is_before before) all) in
    let within = last_of-within r.seq k rs down.0 down.1 in
    let past = ge→ltb r.seq c within in
    sym (select_earlier before c all (λ x lt. earlier_passes before c r x passes.0 within lt))
    ∙ ap (select (is_before (some c))) same
    ∙ rw past (drop_before r.seq k rs down.0 down.1)
