-- ===== src/Store/Paging/Ascending.antt =====
-- The rows of a session have rising keys, and those after a key that a page ends with are the ones
-- that the page left (`Store::events`, crates/latte-work-server/src/store.rs).
use latte_work.Common.{
  ℕ, zero, suc, ◌≤◌, ◌<◌, String, Bool, List, [], ◌∷◌, ltb, if◌then◌else◌, select, take, drop, ◌≡◌,
  refl, sym, ap, ◌∙◌, inl, inr, Bool-cases, arith, lt→ltb, ge→ltb, ltb→lt, ltb→ge,
}
use latte_work.Store.State.{Store, EventRow}
use latte_work.Store.Paging.{Row, numbered, rows_after, of_session}

abbrev pub after_key : ℕ → Row → Bool
after_key a r = ltb a r.seq

abbrev pub IsAscending : ℕ → List Row → Type 0
IsAscending a [] = Unit
IsAscending a (r ∷ rs) = (a < r.seq) × IsAscending r.seq rs

IsAscending-weaken : (a b : ℕ) (rs : List Row) → a ≤ b → IsAscending b rs → IsAscending a rs
IsAscending-weaken a b [] h up = tt
IsAscending-weaken a b (r ∷ rs) h up = (omega (arith, up.0), up.1)

pub numbered-IsAscending : (n : ℕ) (rs : List EventRow) → IsAscending n (numbered (suc n) rs)
unfolding numbered
numbered-IsAscending n [] = tt
numbered-IsAscending n (r ∷ rs) = (omega arith, numbered-IsAscending (suc n) rs)

pub select-IsAscending :
    (p : Row → Bool) (a : ℕ) (rs : List Row) → IsAscending a rs → IsAscending a (select p rs)
select-IsAscending p a [] up = tt
select-IsAscending p a (r ∷ rs) up = elim (Bool-cases (p r)) [
  | inl e ↦ rw e (up.0, select-IsAscending p r.seq rs up.1)
  | inr e ↦ rw e (
      IsAscending-weaken a r.seq (select p rs) (omega (arith, up.0))
        (select-IsAscending p r.seq rs up.1))
]

-- The rows of a page's query rise from the cursor.
above-IsAscending :
    (a b : ℕ) (rs : List Row) → IsAscending b rs → IsAscending a (select (after_key a) rs)
above-IsAscending a b [] up = tt
above-IsAscending a b (r ∷ rs) up = elim (Bool-cases (ltb a r.seq)) [
  | inl e ↦ rw e (ltb→lt a r.seq e, select-IsAscending (after_key a) r.seq rs up.1)
  | inr e ↦ rw e (above-IsAscending a r.seq rs up.1)
]

pub rows_after-IsAscending : (d : Store) (id : String) (a : ℕ) → IsAscending a (rows_after d id a)
unfolding rows_after
rows_after-IsAscending d id a =
    above-IsAscending a 0 (select (of_session id) (numbered 1 d.events))
      (select-IsAscending (of_session id) 0 (numbered 1 d.events) (numbered-IsAscending 0 d.events))

all_above : (a b : ℕ) (rs : List Row) → b ≤ a → IsAscending a rs → select (after_key b) rs ≡ rs
all_above a b [] h up = refl
all_above a b (r ∷ rs) h up =
    rw (lt→ltb b r.seq (omega (arith, up.0)))
      (ap (◌∷◌ r) (all_above r.seq b rs (omega (arith, up.0)) up.1))

-- The key of the last row of a list, or a cursor.
unfoldable pub last_key : ℕ → List Row → ℕ
last_key a [] = a
last_key a (r ∷ rs) = last_key r.seq rs

last_key_above : (a : ℕ) (k : ℕ) (rs : List Row) → IsAscending a rs → a ≤ last_key a (take k rs)
unfolding last_key
last_key_above a zero rs up = omega arith
last_key_above a (suc k) [] up = omega arith
last_key_above a (suc k) (r ∷ rs) up = omega (arith, up.0, last_key_above r.seq k rs up.1)

drop_above :
    (a : ℕ) (k : ℕ) (rs : List Row)
    → IsAscending a rs
    → select (after_key (last_key a (take k rs))) rs ≡ drop k rs
unfolding last_key
drop_above a zero rs up = all_above a a rs (omega arith) up
drop_above a (suc k) [] up = refl
drop_above a (suc k) (r ∷ rs) up =
    let past : r.seq ≤ last_key r.seq (take k rs) = last_key_above r.seq k rs up.1 in
    rw (ge→ltb (last_key r.seq (take k rs)) r.seq past) (drop_above r.seq k rs up.1)

select_later :
    (a b : ℕ) (rs : List Row)
    → a ≤ b
    → select (after_key b) (select (after_key a) rs) ≡ select (after_key b) rs
select_later a b [] h = refl
select_later a b (r ∷ rs) h = elim (Bool-cases (ltb a r.seq)) [
  | inl e ↦ rw e (ap (λ t. if ltb b r.seq then r ∷ t else t) (select_later a b rs h))
  | inr e ↦
      let below = ge→ltb b r.seq (omega (arith, ltb→ge a r.seq e, h)) in
      rw (e, below) (select_later a b rs h)
]

-- A query after the key of the k-th row gives the rows from there on.
pub rows_after-drop :
    (d : Store) (id : String) (a k : ℕ)
    → rows_after d id (last_key a (take k (rows_after d id a))) ≡ drop k (rows_after d id a)
unfolding rows_after
rows_after-drop d id a k =
    let all = select (of_session id) (numbered 1 d.events) in
    let rows = select (after_key a) all in
    let up = rows_after-IsAscending d id a in
    sym (select_later a (last_key a (take k rows)) all (last_key_above a k rows up))
    ∙ drop_above a k rows up
