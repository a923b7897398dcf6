-- ===== src/Queue/Rejection.antt =====
-- A hand-over that the Agent rejects (`mark_forwarded`, `reject_forwarded`, message_queue.rs).
use latte_work.Common.{
  ℕ, ◌+◌, String, true, ◌≡◌, refl, inl, inr, some, none, find?, find-In, find-update,
  find-update_other, find_narrow, find_none-update, ok, arith,
}
use latte_work.Store.State.{Store, QueueRow, pending, forwarded}
use latte_work.Queue.Rows.{row_of, with_status}
use latte_work.Queue.Handoff.{mark_forwarded, reject_forwarded, forwarded_row, returned}
use latte_work.Queue.Evolution.Handoff.{mark_forwarded-ok, reject_forwarded-ok}

forwarded_row-row_of :
    (id request_id : String) (r : QueueRow)
    → forwarded_row id request_id r ≡ true
    → row_of id request_id r ≡ true
forwarded_row-row_of id request_id r h = ground arith

forwarded_match :
    (id request_id : String) (r : QueueRow)
    → row_of id request_id r ≡ true
    → forwarded_row id request_id (with_status forwarded r) ≡ true
forwarded_match id request_id r h = ground arith

-- Nothing that is not handed over is returned, so a rejection that is reported again changes nothing.
reject_nothing :
    (d : Store) (id request_id reason : String) (now : ℕ)
    → find? (forwarded_row id request_id) d.message_queue ≡ none
    → reject_forwarded d id request_id reason now ≡ ok d
unfolding reject_forwarded
reject_nothing d id request_id reason now h = rw (h, reject_forwarded)

-- A message that is handed over and then rejected is pending again, the same but for its revision,
-- which is the next one. A second report of the rejection changes nothing.
pub rejection_restores :
    (d d1 d2 : Store) (id request_id reason again : String) (revision now then later : ℕ)
    → mark_forwarded d id request_id revision now ≡ ok d1
    → reject_forwarded d1 id request_id reason then ≡ ok d2
    → (row : QueueRow) × (find? (row_of id request_id) d.message_queue ≡ some row)
      × (row.status ≡ pending)
      × (row.message.revision ≡ revision)
      × (find? (row_of id request_id) d2.message_queue
          ≡ some (record row { message = record row.message { revision = revision + 1 } }))
      × (reject_forwarded d2 id request_id again later ≡ ok d2)
rejection_restores d d1 d2 id request_id reason again revision now then later h1 h2 =
    let (row, f, p, k, e) = mark_forwarded-ok d d1 id request_id revision now h1 in
    let first : find? (row_of id request_id) d1.message_queue ≡ some (with_status forwarded row) =
      rw e (
        find-update (row_of id request_id) (with_status forwarded) d.message_queue row (λ x. refl)
          f) in
    let given : find? (forwarded_row id request_id) d1.message_queue
        ≡ some (with_status forwarded row) =
      find_narrow (row_of id request_id) (forwarded_row id request_id) d1.message_queue _
        (forwarded_row-row_of id request_id) first
        (forwarded_match id request_id row
          (find-In (row_of id request_id) row d.message_queue f).1) in
    elim (reject_forwarded-ok d1 d2 id request_id reason then h2) [
      | inl (none_given, _) ↦ absurd (cc (given, none_given))
      | inr (row2, f2, e2) ↦
          let same : row2 ≡ with_status forwarded row = ground (arith, given, f2) in
          let write = returned row2.message (row2.message.revision + 1) in
          let back : find? (row_of id request_id) d2.message_queue
              ≡ some (write (with_status forwarded row)) =
            rw e2 (
              find-update_other (row_of id request_id) (forwarded_row id request_id) write
                d1.message_queue _ (unfold returned in (λ x. refl)) first
                (forwarded_match id request_id row
                  (find-In (row_of id request_id) row d.message_queue f).1)) in
          let gone : find? (forwarded_row id request_id) d2.message_queue ≡ none = rw e2 (
            find_none-update (forwarded_row id request_id) write d1.message_queue
              (unfold returned in (λ x _. ground arith))) in
          (
            row,
            f,
            ground arith,
            k,
            rw back (unfold returned in ground (arith, same)),
            reject_nothing d2 id request_id again later gone,
          )
    ]
