-- ===== src/Queue/Membership.antt =====
-- The rows that a query of the queue returns stand in the table (`queued`, message_queue.rs).
use latte_work.Common.{
  String, true, List, [], ◌∷◌, map, ◌≡◌, ap, ◌∙◌, inl, inr, ◌⊎◌, Option, some, ◌==◌, find?, select,
  In, find-In, In-map, In-take, In-select, Bool-cases, ==-eq,
}
use latte_work.Protocol.Values.{QueuedMessage}
use latte_work.Store.State.{Store, QueueRow}
use latte_work.Queue.Rows.{
  comes_before, insert_row, insert_rows, order_rows, pending_rows, pending_in,
}

In-insert_row : (a r : QueueRow) (rs : List QueueRow) → In a (insert_row r rs) → In a (r ∷ rs)
unfolding insert_row
In-insert_row a r [] h = h
In-insert_row a r (x ∷ xs) h = elim (Bool-cases (comes_before x r)) [
  | inl e ↦ swap (In-insert_row a r xs) (rw e at h)
  | inr e ↦ rw e at h
]
  where
    swap : (In a (insert_row r xs) → In a (r ∷ xs)) → In a (x ∷ insert_row r xs) → In a (r ∷ x ∷ xs)
    swap ih (inl m) = inr (inl m)
    swap ih (inr m) = elim (ih m) [ inl k ↦ inl k | inr k ↦ inr (inr k) ]

pub In-insert_rows :
    (a : QueueRow) (sorted rs : List QueueRow)
    → In a (insert_rows sorted rs)
    → In a sorted ⊎ In a rs
unfolding insert_rows
In-insert_rows a sorted [] h = inl h
In-insert_rows a sorted (x ∷ xs) h = elim (In-insert_rows a (insert_row x sorted) xs h) [
  | inl m ↦ elim (In-insert_row a x sorted m) [ inl k ↦ inr (inl k) | inr k ↦ inl k ]
  | inr m ↦ inr (inr m)
]

pub In-pending_rows :
    (d : Store) (id : String) (a : QueueRow)
    → In a (pending_rows d id)
    → In a d.message_queue × (pending_in id a ≡ true)
unfolding pending_rows order_rows
In-pending_rows d id a h =
    elim (In-insert_rows a [] (select (pending_in id) d.message_queue)
      (In-take 16 a (order_rows (select (pending_in id) d.message_queue)) h)) [
        | inl m ↦ elim m [ ]
        | inr m ↦ In-select (pending_in id) a d.message_queue m
      ]

-- A message that `find` meets among the queued ones is that of a pending row.
pub find-queued :
    (d : Store) (id request_id : String) (e : QueuedMessage × Option String)
    → find?
        (λ e. e.0.request_id == request_id)
        (map (λ r. (r.message, r.fingerprint)) (pending_rows d id))
      ≡ some e
    → (r : QueueRow) × In r d.message_queue
      × (pending_in id r ≡ true)
      × (r.message ≡ e.0)
      × (r.message.request_id ≡ request_id)
find-queued d id request_id e h =
    let (m, k) = find-In (λ e. e.0.request_id == request_id) e _ h in
    let (r, n, q) = In-map (λ (r : QueueRow). (r.message, r.fingerprint)) e (pending_rows d id) m in
    let (i, p) = In-pending_rows d id r n in
    let same : r.message ≡ e.0 = ap (λ (x : QueuedMessage × Option String). x.0) q in
    (r, i, p, same, ap (λ (x : QueuedMessage). x.request_id) same ∙ ==-eq _ _ k)
