-- ===== src/Tests/Queue.antt =====
-- The message queue at concrete inputs.
use latte_work.Common.{
  ◌≡◌, ◌≢◌, ◌≤◌, refl, String, true, false, List, [], ◌∷◌, ◌++◌, map, Option, some, none, ok, err,
  after, inl, arith, eq_iff, any, find?, In, count_where, is_empty, trim, select, ◌||◌, ◌&&◌, ◌==◌,
  decimal,
}
use latte_work.Protocol.Values.{QueuedMessage}
use latte_work.Protocol.Events.{EventKind}
use latte_work.Protocol.Responses.{Response}
use latte_work.Store.State.{Store, QueueRow, pending, taken, forwarded, queue_id_reused}
use latte_work.Store.Sessions.{session, insert_event}
use latte_work.Queue.Rows.{
  queued, pending_rows, queue_state, upsert_state, row_of, counted_in, forwarded_in,
}
use latte_work.Queue.Admission.{
  enqueue, admit, new_entry, is_invalid_turn, queue_bytes, queued_duplicate,
}
use latte_work.Queue.Edits.{take_queued, clear_queue}
use latte_work.Queue.Handoff.{
  mark_forwarded, reject_forwarded, reopen, uncertain_forwarded, pause_queue, initialize,
}
use latte_work.Queue.Steps.{Call, takes, reopens, forwards, enqueues, run}
use latte_work.Queue.Invariant.{IsValid, Distinct, request_ids}
use latte_work.Queue.Safety.{run-bounded, final_never_queued, stale_revision_refused}
use latte_work.Queue.Fifo.{enqueue_joins_end}
use latte_work.Queue.Answers.{take_again, clear_empties}
use latte_work.Queue.Again.{enqueue_once, AnswersFor}
use latte_work.Queue.Rejection.{rejection_restores}
use latte_work.Queue.Restart.{reopen_quarantines}
use latte_work.Queue.Reorder.{reorder_queue-ordered}
use latte_work.Queue.Rows.{pending_in}
use latte_work.Queue.Edits.{reorder_queue, is_invalid_order, is_incomplete_order, assign_ranks}
use latte_work.Tests.Sample.{json, empty, sent}

abbrev row : String → String → QueueRow
row id text = record {
  position = 1;
  request_id = id;
  session_id = "s";
  admission = new_entry (sent id text) 5;
  message = new_entry (sent id text) 5;
  fingerprint = none;
  status = pending;
  sort_order = 1;
}

abbrev holding : List QueueRow → Store
holding rows = record empty {
  message_queue = rows;
  message_queue_state = record { session_id = "s"; paused = false; reason = none } ∷ [];
  last_position = 1;
}

-- One message is pending, taken out, or handed over.
abbrev one : Store
one = holding (row "a" "first" ∷ [])

abbrev one_taken : Store
one_taken = holding (record (row "a" "first") { status = taken } ∷ [])

abbrev one_forwarded : Store
one_forwarded = record one {
  message_queue = record (row "a" "first") { status = forwarded } ∷ [];
  events =
      record { session_id = "s"; at = 9; event = EventKind.queued_message_sent "first" "a" } ∷ [];
}

one-IsValid : IsValid one.message_queue
unfolding new_entry
one-IsValid = record { distinct = (refl, tt); aligned = (refl, tt); bounded = λ id. ground arith }

one_taken-IsValid : IsValid one_taken.message_queue
unfolding new_entry
one_taken-IsValid = record {
  distinct = (refl, tt);
  aligned = (refl, tt);
  bounded = λ id. ground arith;
}

enqueued : enqueue json empty "s" (sent "a" "first") 5 ≡ ok one
unfolding enqueue is_invalid_turn session queued pending_rows queue_bytes new_entry admit is_empty
    trim
enqueued = refl

was_taken :
    take_queued one "s" "a" 0
    ≡ ok (Response.queued_message_taken (row "a" "first").message, one_taken)
unfolding take_queued session new_entry
was_taken = refl

was_forwarded : mark_forwarded one "s" "a" 0 9 ≡ ok one_forwarded
unfolding mark_forwarded insert_event session new_entry
was_forwarded = refl

abbrev later : List Call
later =
    takes "s" "a" 0
    ∷ reopens 8
    ∷ enqueues "s" (sent "b" "second") 9
    ∷ forwards "s" "b" 0 9
    ∷ enqueues "s" (sent "c" "third") 10
    ∷ []

two_in_order :
    map
      (λ r. r.request_id)
      (pending_rows
        (run json empty
          (enqueues "s" (sent "b" "first") 5 ∷ enqueues "s" (sent "a" "second") 6 ∷ []))
        "s")
    ≡ "b" ∷ "a" ∷ []
unfolding run enqueue is_invalid_turn session queued pending_rows queue_bytes new_entry admit
    is_empty trim
two_in_order = refl

run-bounded_example :
    (count_where (counted_in "s") (run json one later).message_queue ≤ 16)
    × Distinct (request_ids (run json one later).message_queue)
run-bounded_example = run-bounded json one later "s" one-IsValid

abbrev third : QueueRow
third = record (row "c" "third") {
  position = 3;
  admission = new_entry (sent "c" "third") 10;
  message = new_entry (sent "c" "third") 10;
}

third_queued : In third (pending_rows (run json one_taken later) "s")
unfolding run enqueue is_invalid_turn session queued pending_rows queue_bytes new_entry admit
    is_empty trim take_queued mark_forwarded insert_event reopen
third_queued = inl refl

final_never_queued_example :
    In (record (row "a" "first") { status = taken }) (run json one_taken later).message_queue
    × (third.request_id ≢ "a")
final_never_queued_example =
    final_never_queued json one_taken later (record (row "a" "first") { status = taken }) third "s"
      one_taken-IsValid (inl refl) refl third_queued

-- The message was edited once.
abbrev edited : QueueRow
edited = record (row "a" "new") { message = record (new_entry (sent "a" "new") 5) { revision = 1 } }

edited-IsValid : IsValid (edited ∷ [])
unfolding new_entry
edited-IsValid = record {
  distinct = (refl, tt);
  aligned = (refl, tt);
  bounded = λ id. ground arith;
}

stale_revision_refused_example :
    (mark_forwarded (run json (holding (edited ∷ [])) (reopens 8 ∷ [])) "s" "a" 0 9 ≢ ok empty)
    × (take_queued (run json (holding (edited ∷ [])) (reopens 8 ∷ [])) "s" "a" 0
        ≢ ok (Response.accepted true, empty))
stale_revision_refused_example =
    stale_revision_refused json (holding (edited ∷ [])) empty (reopens 8 ∷ []) edited "s" 0 9
      (Response.accepted true, empty) edited-IsValid (inl refl) (omega arith)

abbrev nothing : List (QueuedMessage × Option String)
nothing = []

empty-queued : queued empty "s" ≡ ok nothing
unfolding queued session pending_rows
empty-queued = refl

t_is_not_s : ◌≢◌ {A = String} "t" "s"
t_is_not_s = ground (arith, eq_iff "t" "s")

other_is_not_first : ◌≢◌ {A = String} "other" "first"
other_is_not_first = ground (arith, eq_iff "other" "first")

enqueue_joins_end_example :
    (queued one "s" ≡ ok (nothing ++ (new_entry (sent "a" "first") 5, none) ∷ []))
    × (queued one "t" ≡ queued empty "t")
enqueue_joins_end_example =
    enqueue_joins_end json empty one "s" "t" (sent "a" "first") 5 nothing enqueued empty-queued
      t_is_not_s

abbrev after_later : Store
after_later = run json one later

empty-IsValid : IsValid empty.message_queue
empty-IsValid = record { distinct = tt; aligned = tt; bounded = λ id. omega arith }

enqueue_once_example :
    (found : QueueRow) × In found after_later.message_queue
    × (found.request_id ≡ "a")
    × AnswersFor found.status (queued_duplicate after_later "s" (sent "a" "first"))
    × (queued_duplicate one "s" (sent "a" "first") ≡ ok (some (Response.message_queued true)))
    × (enqueue json after_later "s" (sent "a" "first") 20 ≢ ok empty)
    × (queued_duplicate after_later "t" (sent "a" "first") ≡ err queue_id_reused)
    × (queued_duplicate after_later "s" (sent "a" "other") ≡ err queue_id_reused)
enqueue_once_example =
    enqueue_once json empty one empty "s" "t" "other" (sent "a" "first") 5 20 later empty-IsValid
      enqueued t_is_not_s other_is_not_first

take_again_example :
    take_queued one_taken "s" "a" 0
    ≡ ok (Response.queued_message_taken (row "a" "first").message, one_taken)
take_again_example =
    take_again one "s" "a" 0 (Response.queued_message_taken (row "a" "first").message, one_taken)
      was_taken

abbrev cleared : Store
cleared = after one (clear_queue one "s")

was_cleared : clear_queue one "s" ≡ ok cleared
unfolding clear_queue session
was_cleared = refl

clear_empties_example :
    (queued cleared "s" ≡ ok [])
    × (queue_state cleared "s" ≡ (false, none))
    × (queued cleared "t" ≡ queued one "t")
    × (queue_state cleared "t" ≡ queue_state one "t")
clear_empties_example = clear_empties one cleared "s" "t" was_cleared t_is_not_s

abbrev one_rejected : Store
one_rejected = after one_forwarded (reject_forwarded one_forwarded "s" "a" "busy" 10)

was_rejected : reject_forwarded one_forwarded "s" "a" "busy" 10 ≡ ok one_rejected
unfolding reject_forwarded insert_event session upsert_state new_entry
was_rejected = refl

rejection_restores_example :
    (r : QueueRow) × (find? (row_of "s" "a") one.message_queue ≡ some r)
    × (r.status ≡ pending)
    × (r.message.revision ≡ 0)
    × (find? (row_of "s" "a") one_rejected.message_queue
        ≡ some (record r { message = record r.message { revision = 1 } }))
    × (reject_forwarded one_rejected "s" "a" "again" 11 ≡ ok one_rejected)
rejection_restores_example =
    rejection_restores one one_forwarded one_rejected "s" "a" "busy" "again" 0 9 10 11 was_forwarded
      was_rejected

abbrev one_reopened : Store
one_reopened = after one_forwarded (reopen one_forwarded 12)

was_reopened : reopen one_forwarded 12 ≡ ok one_reopened
unfolding reopen uncertain_forwarded insert_event session upsert_state pause_queue decimal
was_reopened = refl

reopen_quarantines_example :
    (any (forwarded_in "s") one_reopened.message_queue ≡ false)
    × ((queue_state one_reopened "s").0 ≡ (
        any (forwarded_in "s") one_forwarded.message_queue
        || ((queue_state one_forwarded "s").0
            || (any (λ s. s.session_id == "s") one_forwarded.message_queue_state
                && any (pending_in "s") one_forwarded.message_queue))))
    × (pending_rows one_reopened "s" ≡ pending_rows one_forwarded "s")
reopen_quarantines_example = reopen_quarantines one_forwarded one_reopened 12 "s" was_reopened

abbrev two : Store
two = holding (row "a" "first" ∷ record (row "b" "second") { position = 2; sort_order = 2 } ∷ [])

two-IsValid : IsValid two.message_queue
unfolding new_entry
two-IsValid = record {
  distinct = (refl, (refl, tt));
  aligned = (refl, (refl, tt));
  bounded = λ id. ground arith;
}

abbrev reordered : Store
reordered = after two (reorder_queue two "s" ("a" ∷ "b" ∷ []) ("b" ∷ "a" ∷ []))

was_reordered : reorder_queue two "s" ("a" ∷ "b" ∷ []) ("b" ∷ "a" ∷ []) ≡ ok reordered
unfolding reorder_queue is_invalid_order is_incomplete_order session pending_rows new_entry is_empty
    assign_ranks
was_reordered = refl

reorder_queue-ordered_example :
    (request_ids (pending_rows reordered "s") ≡ "b" ∷ "a" ∷ [])
    × (request_ids (select (pending_in "s") reordered.message_queue)
        ≡ request_ids (select (pending_in "s") two.message_queue))
    × (pending_rows reordered "t" ≡ pending_rows two "t")
reorder_queue-ordered_example =
    reorder_queue-ordered two reordered "s" "t" ("a" ∷ "b" ∷ []) ("b" ∷ "a" ∷ []) two-IsValid
      was_reordered t_is_not_s

-- A queue with a pending message and a row of its own is paused when the store is opened again.
paused_on_opening : queue_state (after one (reopen one 12)) "s" ≡ (true, some "后台已重启，请核对当前任务后继续排队")
unfolding reopen queue_state initialize
paused_on_opening = refl
