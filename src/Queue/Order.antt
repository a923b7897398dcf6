-- ===== src/Queue/Order.antt =====
-- ORDER BY sort_order,position (`queued`, message_queue.rs): the rows come in the order of their
-- ranks, and none is lost.
use latte_work.Common.{
  ℕ, ◌≤◌, String, true, false, ◌||◌, List, [], ◌∷◌, ◌≡◌, refl, ap, inl, inr, ◌==◌, contains, All,
  Bool-cases, arith, eq_iff, ==_refl,
}
use latte_work.Store.State.{QueueRow}
use latte_work.Queue.Rows.{comes_before, insert_row, insert_rows, order_rows}
use latte_work.Queue.Invariant.{request_ids, Distinct}

abbrev pub Ascending : List QueueRow → Type 0
Ascending [] = Unit
Ascending (r ∷ rs) = All (λ s. r.sort_order ≤ s.sort_order) rs × Ascending rs

All-insert_row :
    (k : ℕ) (r : QueueRow) (rs : List QueueRow)
    → k ≤ r.sort_order
    → All (λ s. k ≤ s.sort_order) rs
    → All (λ s. k ≤ s.sort_order) (insert_row r rs)
unfolding insert_row
All-insert_row k r [] h a = (h, tt)
All-insert_row k r (x ∷ xs) h a = elim (Bool-cases (comes_before x r)) [
  | inl e ↦ rw e (a.0, All-insert_row k r xs h a.1)
  | inr e ↦ rw e (h, a)
]

All-weaken :
    (k l : ℕ) (rs : List QueueRow)
    → k ≤ l
    → All (λ s. l ≤ s.sort_order) rs
    → All (λ s. k ≤ s.sort_order) rs
All-weaken k l [] h a = tt
All-weaken k l (x ∷ xs) h a = (omega (arith, a.0), All-weaken k l xs h a.1)

insert_row-Ascending :
    (r : QueueRow) (rs : List QueueRow) → Ascending rs → Ascending (insert_row r rs)
unfolding insert_row
insert_row-Ascending r [] a = (tt, tt)
insert_row-Ascending r (x ∷ xs) a = elim (Bool-cases (comes_before x r)) [
  | inl e ↦
      let le : x.sort_order ≤ r.sort_order = ground arith in
      rw e (All-insert_row x.sort_order r xs le a.0, insert_row-Ascending r xs a.1)
  | inr e ↦
      let le : r.sort_order ≤ x.sort_order = ground arith in
      rw e ((le, All-weaken r.sort_order x.sort_order xs le a.0), a)
]

insert_rows-Ascending :
    (sorted rs : List QueueRow) → Ascending sorted → Ascending (insert_rows sorted rs)
unfolding insert_rows
insert_rows-Ascending sorted [] a = a
insert_rows-Ascending sorted (r ∷ rs) a =
    insert_rows-Ascending (insert_row r sorted) rs (insert_row-Ascending r sorted a)

pub order_rows-Ascending : (rs : List QueueRow) → Ascending (order_rows rs)
unfolding order_rows
order_rows-Ascending rs = insert_rows-Ascending [] rs tt

contains-insert_row :
    (s : String) (r : QueueRow) (rs : List QueueRow)
    → contains (request_ids (insert_row r rs)) s
      ≡ (r.request_id == s || contains (request_ids rs) s)
unfolding insert_row
contains-insert_row s r [] = refl
contains-insert_row s r (x ∷ xs) = ground (arith, contains-insert_row s r xs)

contains-insert_rows :
    (s : String) (sorted rs : List QueueRow)
    → contains (request_ids (insert_rows sorted rs)) s
      ≡ (contains (request_ids sorted) s || contains (request_ids rs) s)
unfolding insert_rows
contains-insert_rows s sorted [] = ground arith
contains-insert_rows s sorted (r ∷ rs) =
    ground (arith, contains-insert_rows s (insert_row r sorted) rs, contains-insert_row s r sorted)

pub contains-order_rows :
    (s : String) (rs : List QueueRow)
    → contains (request_ids (order_rows rs)) s ≡ contains (request_ids rs) s
unfolding order_rows
contains-order_rows s rs = contains-insert_rows s [] rs

insert_row-Distinct :
    (r : QueueRow) (rs : List QueueRow)
    → Distinct (request_ids rs)
    → contains (request_ids rs) r.request_id ≡ false
    → Distinct (request_ids (insert_row r rs))
unfolding insert_row
insert_row-Distinct r [] d n = (refl, tt)
insert_row-Distinct r (x ∷ xs) d n =
    let other : (x.request_id == r.request_id) ≡ false = ground arith in
    let new : contains (request_ids xs) r.request_id ≡ false = ground arith in
    elim (Bool-cases (comes_before x r)) [
      | inl e ↦
          let old : (r.request_id == x.request_id) ≡ false =
            ground (arith, eq_iff r.request_id x.request_id, eq_iff x.request_id r.request_id) in
          rw e
            (rw (contains-insert_row x.request_id r xs, old) d.0, insert_row-Distinct r xs d.1 new)
      | inr e ↦ rw e (n, d)
    ]

insert_rows-Distinct :
    (sorted rs : List QueueRow)
    → Distinct (request_ids sorted)
    → Distinct (request_ids rs)
    → ((s : String) → contains (request_ids rs) s ≡ true → contains (request_ids sorted) s ≡ false)
    → Distinct (request_ids (insert_rows sorted rs))
unfolding insert_rows
insert_rows-Distinct sorted [] d e n = d
insert_rows-Distinct sorted (r ∷ rs) d e n =
    insert_rows-Distinct (insert_row r sorted) rs
      (insert_row-Distinct r sorted d (n r.request_id (rw (==_refl r.request_id)))) e.1
      (λ s h. rw (contains-insert_row s r sorted) (
        ground (
          arith,
          n s,
          e.0,
          eq_iff r.request_id s,
          ap (contains (request_ids rs)) {x = s} {y = r.request_id},
        )))

pub order_rows-Distinct :
    (rs : List QueueRow) → Distinct (request_ids rs) → Distinct (request_ids (order_rows rs))
unfolding order_rows
order_rows-Distinct rs d = insert_rows-Distinct [] rs tt d (λ s h. refl)
