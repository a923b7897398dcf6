-- ===== src/Queue/Fifo.antt =====
-- An admission joins the end of its session's queue and of no other (`enqueue` and `queued`,
-- message_queue.rs).
use mathlib.Core.List.{map-append, append-nil}
use latte_work.Common.{
  ℕ, suc, ◌+◌, ◌≤◌, ◌<◌, String, true, List, [], ◌∷◌, ◌++◌, ◌≡◌, ◌≢◌, refl, sym, ap, ◌∙◌, inl, inr,
  Option, ◌==◌, length, length-select, count-append, take_all, select, select-append, count_where,
  In, In-select, ok, err, ok_or, find?, Result, ◌>>=◌, arith, ==_refl, ==_ne,
}
use latte_work.Protocol.Values.{QueuedMessage}
use latte_work.Store.State.{Store, QueueRow, JsonLibrary, Error, unknown_session}
use latte_work.Queue.Rows.{
  pending_in, counted_in, comes_before, insert_row, insert_rows, order_rows, pending_rows,
  last_order, queued,
}
use latte_work.Queue.Admission.{SendTurn, new_entry, new_row, admit, enqueue}
use latte_work.Queue.Evolution.Admission.{Admitted, enqueue-ok}
use latte_work.Queue.Membership.{In-insert_rows}

insert_row_last :
    (r : QueueRow) (xs : List QueueRow)
    → ((x : QueueRow) → In x xs → comes_before x r ≡ true)
    → insert_row r xs ≡ xs ++ r ∷ []
unfolding insert_row
insert_row_last r [] h = refl
insert_row_last r (x ∷ xs) h =
    rw (h x (inl refl)) (ap (◌∷◌ x) (insert_row_last r xs (λ y m. h y (inr m))))

insert_rows-append :
    (sorted xs : List QueueRow) (r : QueueRow)
    → insert_rows sorted (xs ++ r ∷ []) ≡ insert_row r (insert_rows sorted xs)
unfolding insert_rows
insert_rows-append sorted [] r = refl
insert_rows-append sorted (x ∷ xs) r = insert_rows-append (insert_row x sorted) xs r

length-insert_row : (r : QueueRow) (xs : List QueueRow) → length (insert_row r xs) ≡ suc (length xs)
unfolding insert_row
length-insert_row r [] = refl
length-insert_row r (x ∷ xs) = ground (arith, length-insert_row r xs)

length-insert_rows :
    (sorted xs : List QueueRow) → length (insert_rows sorted xs) ≡ length sorted + length xs
unfolding insert_rows
length-insert_rows sorted [] = omega arith
length-insert_rows sorted (x ∷ xs) =
    omega (arith, length-insert_rows (insert_row x sorted) xs, length-insert_row x sorted)

pub length-order_rows : (xs : List QueueRow) → length (order_rows xs) ≡ length xs
unfolding order_rows
length-order_rows xs = omega (arith, length-insert_rows [] xs)

pub In-order_rows : (a : QueueRow) (xs : List QueueRow) → In a (order_rows xs) → In a xs
unfolding order_rows
In-order_rows a xs h = elim (In-insert_rows a [] xs h) [ inl m ↦ elim m [ ] | inr m ↦ m ]

last_order-ge :
    (id : String) (a : QueueRow) (rs : List QueueRow)
    → In a rs
    → pending_in id a ≡ true
    → a.sort_order ≤ last_order id rs
last_order-ge id a [] m p = elim m [ ]
last_order-ge id a (r ∷ rs) (inl e) p = rw e (rw p (omega arith))
last_order-ge id a (r ∷ rs) (inr m) p = omega (arith, last_order-ge id a rs m p)

later_order : (a b : QueueRow) → a.sort_order < b.sort_order → comes_before a b ≡ true
later_order a b h = ground arith

pending-le-counted :
    (id : String) (rs : List QueueRow)
    → count_where (pending_in id) rs ≤ count_where (counted_in id) rs
pending-le-counted id [] = omega arith
pending-le-counted id (r ∷ rs) = ground (arith, pending-le-counted id rs)

-- With fewer than 16 counted messages the LIMIT cuts nothing off.
pub pending_rows_all :
    (d : Store) (id : String)
    → count_where (counted_in id) d.message_queue ≤ 16
    → pending_rows d id ≡ order_rows (select (pending_in id) d.message_queue)
unfolding pending_rows
pending_rows_all d id h = take_all 16 (order_rows (select (pending_in id) d.message_queue)) (
    omega (
      arith,
      length-order_rows (select (pending_in id) d.message_queue),
      length-select (pending_in id) d.message_queue,
      pending-le-counted id d.message_queue,
    ))

answer-append :
    {A B : Type 0} (r : Result Error A) (xs ys entries : List B)
    → (r >>= λ _. ok xs) ≡ ok entries
    → (r >>= λ _. ok (xs ++ ys)) ≡ ok (entries ++ ys)
answer-append (ok a) xs ys entries h = ground arith
answer-append (err e) xs ys entries h = absurd (cc)

module _ (json : JsonLibrary) (d d' : Store) (id : String) (turn : SendTurn) (now : ℕ)
    (admitted : Admitted json d id turn now d') where
  row : QueueRow
  row = new_row d id turn now

  rows_after : d'.message_queue ≡ d.message_queue ++ row ∷ []
  unfolding row
  rows_after = rw admitted.result (unfold admit in refl)

  select_after :
      select (pending_in id) d'.message_queue ≡ select (pending_in id) d.message_queue ++ row ∷ []
  unfolding row
  select_after =
      rw (rows_after, select-append (pending_in id) d.message_queue (row ∷ []))
        (unfold new_row in rw (==_refl id))

  last :
      (x : QueueRow)
      → In x (order_rows (select (pending_in id) d.message_queue))
      → comes_before x row ≡ true
  unfolding row
  last x m =
      let (i, p) = In-select (pending_in id) x d.message_queue (In-order_rows x _ m) in
      later_order x row (unfold new_row in omega (arith, last_order-ge id x d.message_queue i p))

  order_after :
      order_rows (select (pending_in id) d'.message_queue)
      ≡ order_rows (select (pending_in id) d.message_queue) ++ row ∷ []
  order_after = rw select_after (
      unfold order_rows in
      (insert_rows-append [] (select (pending_in id) d.message_queue) row
        ∙ insert_row_last row (order_rows (select (pending_in id) d.message_queue)) last))

  count_after : count_where (counted_in id) d'.message_queue ≤ 16
  unfolding row
  count_after =
      rw (rows_after, count-append (counted_in id) d.message_queue (row ∷ []))
        (unfold new_row in ground (arith, admitted.room))

  pending_rows_after : pending_rows d' id ≡ pending_rows d id ++ row ∷ []
  pending_rows_after = rw (
    pending_rows_all d' id count_after,
    pending_rows_all d id (omega (arith, admitted.room)),
    order_after,
  )

  sessions_after : d'.sessions ≡ d.sessions
  sessions_after = rw admitted.result (unfold admit in refl)

  queued_after :
      (entries : List (QueuedMessage × Option String))
      → queued d id ≡ ok entries
      → queued d' id ≡ ok (entries ++ (new_entry turn now, turn.fingerprint) ∷ [])
  unfolding queued row new_row
  queued_after entries h =
      rw (pending_rows_after, map-append, sessions_after)
        (answer-append (ok_or (find? (λ s. s.id == id) d.sessions) unknown_session) _ _ entries h)

  queued_elsewhere : (other : String) → other ≢ id → queued d' other ≡ queued d other
  unfolding queued row pending_rows new_row
  queued_elsewhere other ne =
      rw (sessions_after, rows_after, select-append (pending_in other) d.message_queue (row ∷ []))
        (rw (==_ne id other (λ e. ne (sym e)), append-nil))

-- A message that is admitted is the last of its session's queue, with the earlier ones unchanged
-- before it in their order, and every other session's queue is what it was.
pub enqueue_joins_end :
    (json : JsonLibrary) (d d' : Store) (id other : String) (turn : SendTurn) (now : ℕ)
    (entries : List (QueuedMessage × Option String))
    → enqueue json d id turn now ≡ ok d'
    → queued d id ≡ ok entries
    → other ≢ id
    → (queued d' id ≡ ok (entries ++ (new_entry turn now, turn.fingerprint) ∷ []))
      × (queued d' other ≡ queued d other)
enqueue_joins_end json d d' id other turn now entries h q ne =
    let a = enqueue-ok json d d' id turn now h in
    (
      queued_after json d d' id turn now a entries q,
      queued_elsewhere json d d' id turn now a other ne,
    )
