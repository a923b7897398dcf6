-- ===== src/Queue/Answers.antt =====
-- Repeated calls: what a submission sent again meets, a message taken out again; and the clearing of a queue
-- (crates/latte-work-server/src/message_queue.rs).
use latte_work.Common.{
  opt_eq_refl, ℕ, String, true, false, not, List, [], ◌∷◌, ◌≡◌, ◌≢◌, refl, sym, Option, some, none,
  ◌==◌, find?, find-append, find-update, update_again, select_none-update, select_outside-update,
  find_none-select, select, >>=-eq-ok, update_where, ok, bail_if, ◌>>◌, arith, ==_refl, ==_ne,
  eq_iff, Bool-cases, inl, inr, false, ==-eq, ap, if◌then◌else◌,
}
use latte_work.Protocol.Values.{Effort}
use latte_work.Protocol.Responses.{Response}
use latte_work.Store.State.{
  Store, QueueRow, QueueStateRow, JsonLibrary, taken, cancelled, queue_id_reused,
}
use latte_work.Store.Sessions.{session}
use latte_work.Queue.Rows.{row_of, with_status, pending_in, pending_rows, queued, queue_state}
use latte_work.Queue.Admission.{
  SendTurn, same_effort, opt_same_effort, same_submission, new_row, admit, enqueue,
  queued_duplicate, duplicate_answer,
}
use latte_work.Queue.Edits.{take_queued, clear_queue}
use latte_work.Queue.Evolution.Admission.{enqueue-ok}
use latte_work.Queue.Evolution.Calls.{take_queued-ok}

same_effort_refl : (e : Effort) → same_effort e e ≡ true
same_effort_refl Effort.low = refl
same_effort_refl e = refl

opt_same_effort_refl : (o : Option Effort) → opt_same_effort o o ≡ true
opt_same_effort_refl none = refl
opt_same_effort_refl (some e) = same_effort_refl e

pub duplicate_of :
    (d : Store) (id : String) (turn : SendTurn) (row : QueueRow)
    → find? (λ r. r.request_id == turn.request_id) d.message_queue ≡ some row
    → queued_duplicate d id turn
      ≡ (bail_if (not (same_submission id turn row)) queue_id_reused >> duplicate_answer row.status)
unfolding queued_duplicate
duplicate_of d id turn row e = rw (e, queued_duplicate)

module _ (json : JsonLibrary) (d d' : Store) (id : String) (turn : SendTurn) (now : ℕ)
    (h : enqueue json d id turn now ≡ ok d') where
  -- The row of an admitted request is the one that its identifier finds.
  pub find_admitted :
      find? (λ r. r.request_id == turn.request_id) d'.message_queue ≡ some (new_row d id turn now)
  find_admitted =
      let a = enqueue-ok json d d' id turn now h in
      rw a.result (
        unfold admit in
        rw
          (
            find-append (λ (r : QueueRow). r.request_id == turn.request_id) d.message_queue
                (new_row d id turn now ∷ []),
            a.new_request,
          )
          (unfold new_row in rw (==_refl turn.request_id)))

  pub same_submission_self : same_submission id turn (new_row d id turn now) ≡ true
  unfolding same_submission new_row
  same_submission_self = rw (
    ==_refl id,
    ==_refl turn.text,
    opt_eq_refl turn.model,
    opt_same_effort_refl turn.config.effort,
    opt_eq_refl turn.config.permission_mode,
    opt_eq_refl turn.fingerprint,
  )

  pub other_session :
      (other : String) → other ≢ id → same_submission other turn (new_row d id turn now) ≡ false
  unfolding same_submission new_row
  other_session other ne = rw (==_ne id other (λ e. ne (sym e)))

  pub other_text :
      (text : String)
      → text ≢ turn.text
      → same_submission id (record turn { text = text }) (new_row d id turn now) ≡ false
  unfolding same_submission new_row
  other_text text ne = rw (==_refl id, ==_ne turn.text text (λ e. ne (sym e)))

-- A message that was taken out is taken out again with the same answer and no change.
pub take_again :
    (d : Store) (id request_id : String) (revision : ℕ) (a : Response × Store)
    → take_queued d id request_id revision ≡ ok a
    → take_queued a.1 id request_id revision ≡ ok a
unfolding take_queued
take_again d id request_id revision a h =
    let (row, f, t, k, e) = take_queued-ok d id request_id revision a h in
    let found : find? (row_of id request_id) a.1.message_queue ≡ some (with_status taken row) =
      rw e (
        find-update (row_of id request_id) (with_status taken) d.message_queue row (λ x. refl) f) in
    let same : update_where (row_of id request_id) (with_status taken) a.1.message_queue
        ≡ a.1.message_queue =
      rw e (
        update_again (row_of id request_id) (with_status taken) d.message_queue (λ x. refl)
          (λ x. refl)) in
    ground arith

module _ (d : Store) (id : String) where
  cleared_rows : List QueueRow
  cleared_rows = update_where (pending_in id) (with_status cancelled) d.message_queue

  select-cleared : select (pending_in id) cleared_rows ≡ []
  unfolding cleared_rows
  select-cleared =
      select_none-update (pending_in id) (with_status cancelled) d.message_queue
        (λ x p. ground arith)

  select-cleared_other :
      (other : String)
      → other ≢ id
      → select (pending_in other) cleared_rows ≡ select (pending_in other) d.message_queue
  unfolding cleared_rows
  select-cleared_other other ne =
      select_outside-update (pending_in other) (pending_in id) (with_status cancelled)
        d.message_queue
        (λ x p.
          let e : x.session_id ≡ id = ground (arith, eq_iff x.session_id id) in
          rw (e, ==_ne id other (λ k. ne (sym k))) (refl, refl))

-- The pause of another session is found as before.
find-select_other :
    (id other : String) (states : List QueueStateRow)
    → other ≢ id
    → find? (λ s. s.session_id == other) (select (λ s. not (s.session_id == id)) states)
      ≡ find? (λ s. s.session_id == other) states
find-select_other id other [] ne = refl
find-select_other id other (s ∷ states) ne = elim (Bool-cases (s.session_id == id)) [
  | inl e ↦
      let apart : (s.session_id == other) ≡ false =
        rw (==-eq s.session_id id e) (==_ne id other (λ k. ne (sym k))) in
      rw (e, apart) (find-select_other id other states ne)
  | inr e ↦
      rw e (
        ap (λ f. if s.session_id == other then some s else f)
          (find-select_other id other states ne))
]

-- After a clearing no message of the session is queued, and its queue is not paused. The messages of
-- every other session's queue and whether and why it is paused are what they were.
pub clear_empties :
    (d d' : Store) (id other : String)
    → clear_queue d id ≡ ok d'
    → other ≢ id
    → (queued d' id ≡ ok [])
      × (queue_state d' id ≡ (false, none))
      × (queued d' other ≡ queued d other)
      × (queue_state d' other ≡ queue_state d other)
unfolding clear_queue queue_state queued pending_rows cleared_rows
clear_empties d d' id other h ne =
    let (s, k, e) = >>=-eq-ok (session d id) _ h in
    let result : d' ≡ record d {
      message_queue = cleared_rows d id;
      message_queue_state = select (λ s. not (s.session_id == id)) d.message_queue_state;
    } =
      ground arith in
    rw result (
      rw (select-cleared d id, k),
      rw (find_none-select (λ s. s.session_id == id) d.message_queue_state, queue_state),
      rw (select-cleared_other d id other ne),
      rw (find-select_other id other d.message_queue_state ne, queue_state),
    )
