-- ===== src/Queue/Reorder.antt =====
-- After a reordering the queue is in the order that was asked for (`reorder_queue`,
-- message_queue.rs).
use latte_work.Common.{
  ◌+◌, String, true, false, not, List, [], ◌∷◌, map, ◌≡◌, ◌≢◌, refl, sym, ap, ◌∙◌, inl, inr, ◌⊎◌,
  ◌==◌, contains, In, In-All, In-select, any-In, Bool-cases, arith, ==_refl, select, Option, ok,
  err, bail_if, bail_if-ok, >>=-eq-ok, if◌then◌else◌, map-In,
}
use latte_work.Protocol.Values.{QueuedMessage}
use latte_work.Store.State.{Store, QueueRow, order_changed, invalid_order, incomplete_order}
use latte_work.Store.Sessions.{session}
use latte_work.Queue.Rows.{order_rows, pending_rows, pending_in, queued}
use latte_work.Queue.Edits.{
  same_list, assign_ranks, is_invalid_order, is_incomplete_order, reorder_queue,
}
use latte_work.Queue.Evolution.Calls.{reorder_queue-EvolvesAll}
use latte_work.Queue.Invariant.{request_ids, IsValid, EvolvesAll-IsValid}
use latte_work.Queue.Order.{order_rows-Ascending, contains-order_rows, order_rows-Distinct}
use latte_work.Queue.Membership.{In-pending_rows}
use latte_work.Queue.Fifo.{pending_rows_all, In-order_rows}
use latte_work.Queue.Places.{place, same_list-eq, all-contains, place_order}
use latte_work.Queue.Ranks.{
  assign_ranks-place, assign_ranks-ids, assign_ranks-elsewhere, select-Distinct,
}

abbrev entry_of : QueueRow → QueuedMessage × Option String
entry_of r = (r.message, r.fingerprint)

abbrev current : Store → String → List String
current d id = map (λ e. e.0.request_id) (map entry_of (pending_rows d id))

current-request_ids :
    (d : Store) (id : String)
    → IsValid d.message_queue
    → current d id ≡ request_ids (pending_rows d id)
current-request_ids d id v =
    go (pending_rows d id)
      (λ r m. In-All _ r d.message_queue v.aligned (In-pending_rows d id r m).0)
  where
    go :
        (rs : List QueueRow)
        → ((r : QueueRow) → In r rs → r.message.request_id ≡ r.request_id)
        → map (λ e. e.0.request_id) (map entry_of rs) ≡ request_ids rs
    go [] h = refl
    go (r ∷ rs) h = cc (h r (inl refl), go rs (λ q m. h q (inr m)))

-- The two ways to a success.
reorder_queue-ok :
    (d d' : Store) (id : String) (expected order : List String)
    → reorder_queue d id expected order ≡ ok d'
    → (is_incomplete_order expected order ≡ false)
      × (((d' ≡ d) × (current d id ≡ order))
          ⊎ ((d' ≡ record d { message_queue = assign_ranks id 0 order d.message_queue })
              × (current d id ≡ expected)))
unfolding reorder_queue queued
reorder_queue-ok d d' id expected order h =
    let (_, a, h1) = >>=-eq-ok (bail_if (is_invalid_order expected order) invalid_order) _ h in
    let (_, b, h2) =
      >>=-eq-ok (bail_if (is_incomplete_order expected order) incomplete_order) _ h1 in
    let (entries, c, h3) = >>=-eq-ok (queued d id) _ h2 in
    let (_, e, h4) = >>=-eq-ok (session d id) _ c in
    let found : entries ≡ map entry_of (pending_rows d id) = ground arith in
    (bail_if-ok _ _ b, branch (rw found at h3))
  where
    branch :
        (if same_list (current d id) order
            then ok d
            else (if not (same_list (current d id) expected)
                then err order_changed
                else ok (record d { message_queue = assign_ranks id 0 order d.message_queue })))
          ≡ ok d'
        → ((d' ≡ d) × (current d id ≡ order))
          ⊎ ((d' ≡ record d { message_queue = assign_ranks id 0 order d.message_queue })
              × (current d id ≡ expected))
    branch k = elim (Bool-cases (same_list (current d id) order)) [
      | inl e ↦ inl (ground arith, same_list-eq (current d id) order e)
      | inr e ↦ elim (Bool-cases (same_list (current d id) expected)) [
        | inl f ↦ inr (ground arith, same_list-eq (current d id) expected f)
        | inr f ↦ absurd (ground arith)
      ]
    ]

module _ (d d' : Store) (id : String) (expected order : List String) (v : IsValid d.message_queue)
    (w : IsValid d'.message_queue) (complete : is_incomplete_order expected order ≡ false)
    (result : d' ≡ record d { message_queue = assign_ranks id 0 order d.message_queue })
    (before : current d id ≡ expected) where
  pending_after : List QueueRow
  pending_after = select (pending_in id) d'.message_queue

  rows_after : pending_rows d' id ≡ order_rows pending_after
  unfolding pending_after
  rows_after = pending_rows_all d' id (w.bounded id)

  -- The requests that are pending afterwards are those of the list.
  same_requests :
      (s : String) → contains (request_ids (order_rows pending_after)) s ≡ contains order s
  unfolding pending_after is_incomplete_order
  same_requests s =
      let later : contains (request_ids (order_rows (select (pending_in id) d'.message_queue))) s
          ≡ contains (request_ids (select (pending_in id) d.message_queue)) s =
        contains-order_rows s _
        ∙ ap (λ xs. contains xs s) (rw result (assign_ranks-ids id 0 order d.message_queue)) in
      let shown : request_ids (order_rows (select (pending_in id) d.message_queue)) ≡ expected =
        ap request_ids (sym (pending_rows_all d id (v.bounded id)))
        ∙ sym (current-request_ids d id v)
        ∙ before in
      let now : contains (request_ids (select (pending_in id) d.message_queue)) s
          ≡ contains expected s =
        sym (contains-order_rows s _) ∙ ap (λ xs. contains xs s) shown in
      later
      ∙ now
      ∙ ground (
        arith,
        complete,
        all-contains (contains order) expected s,
        all-contains (contains expected) order s,
      )

  place_after :
      (r : QueueRow) → In r (order_rows pending_after) → r.sort_order ≡ 0 + place r.request_id order
  unfolding pending_after is_incomplete_order
  place_after r m =
      let (i, p) = In-select (pending_in id) r d'.message_queue (In-order_rows r _ m) in
      let j : In r (assign_ranks id 0 order d.message_queue) =
        rw (ap (λ (x : Store). x.message_queue) result) at i in
      let c : contains order r.request_id ≡ true =
        sym (same_requests r.request_id)
        ∙ any-In (λ x. x == r.request_id) r.request_id _
            (map-In (λ (x : QueueRow). x.request_id) r _ m) (==_refl r.request_id) in
      assign_ranks-place id 0 order d.message_queue r j p (ground (arith, complete)) c

  ordered : request_ids (pending_rows d' id) ≡ order
  ordered = rw rows_after (
      place_order 0 order (order_rows pending_after)
        (unfold is_incomplete_order in ground (arith, complete))
        (order_rows-Distinct pending_after
          (unfold pending_after in select-Distinct (pending_in id) d'.message_queue w.distinct))
        (order_rows-Ascending pending_after) place_after same_requests)

-- On a valid queue, a reordering that succeeds leaves the session's queue in the order that was
-- asked for, with the same messages pending, and the queue of every other session as it was.
pub reorder_queue-ordered :
    (d d' : Store) (id other : String) (expected order : List String)
    → IsValid d.message_queue
    → reorder_queue d id expected order ≡ ok d'
    → other ≢ id
    → (request_ids (pending_rows d' id) ≡ order)
      × (request_ids (select (pending_in id) d'.message_queue)
          ≡ request_ids (select (pending_in id) d.message_queue))
      × (pending_rows d' other ≡ pending_rows d other)
unfolding pending_rows
reorder_queue-ordered d d' id other expected order v h ne =
    let (complete, way) = reorder_queue-ok d d' id expected order h in
    elim way [
      | inl (e, k) ↦ rw e (sym (current-request_ids d id v) ∙ k, refl, refl)
      | inr (e, k) ↦
          let w = EvolvesAll-IsValid _ _ (reorder_queue-EvolvesAll d d' id expected order h) v in
          (
            ordered d d' id expected order v w complete e k,
            rw e (assign_ranks-ids id 0 order d.message_queue),
            rw e (rw (assign_ranks-elsewhere id other 0 order d.message_queue ne)),
          )
    ]
