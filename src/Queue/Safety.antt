-- ===== src/Queue/Safety.antt =====
-- What every history of calls keeps of the queue (message_queue.rs, `begin` and `open` of store.rs).
use latte_work.Common.{
  ℕ, ◌≤◌, ◌<◌, String, true, List, [], ◌∷◌, ◌≡◌, ◌≢◌, refl, sym, ap, ◌∙◌, inl, inr, some, find?,
  count_where, In, find-In, Result, ok, err, after, arith,
}
use latte_work.Protocol.Responses.{Response}
use latte_work.Store.State.{Store, QueueRow, JsonLibrary, Error}
use latte_work.Queue.Rows.{pending_rows, pending_in, counted_in, row_of}
use latte_work.Queue.Admission.{admit, new_row}
use latte_work.Queue.Edits.{take_queued}
use latte_work.Queue.Handoff.{mark_forwarded, consume_forwarded}
use latte_work.Queue.Steps.{
  Call, enqueues, edits, reorders, takes, clears, pauses, forwards, rejects, consumes, unsettles,
  begins, reopens, call, step, run,
}
use latte_work.Queue.Evolution.{is_final, EvolvesAll-refl}
use latte_work.Queue.Evolution.Calls.{
  clear_queue-EvolvesAll, edit_queued-EvolvesAll, reorder_queue-EvolvesAll, take_queued-EvolvesAll,
  take_queued-ok,
}
use latte_work.Queue.Evolution.Admission.{enqueue-ok, admit-IsValid}
use latte_work.Queue.Evolution.Handoff.{
  pause_queue-rows, mark_forwarded-EvolvesAll, mark_forwarded-ok, reject_forwarded-EvolvesAll,
  consume_rows-EvolvesAll, uncertain_forwarded-EvolvesAll, reopen-EvolvesAll,
}
use latte_work.Queue.Evolution.Turns.{begin-EvolvesAll}
use latte_work.Queue.Invariant.{IsValid, Distinct, request_ids, one_row, row_of-request}
use latte_work.Queue.Membership.{In-pending_rows}
use latte_work.Queue.Changes.{
  StepsTo, stored-ok, evolved, same_rows, LaterIn, StepsTo-final, StepsTo-later,
}

module _ (json : JsonLibrary) where
  call-StepsTo :
      (d d' : Store) (c : Call)
      → IsValid d.message_queue
      → call json d c ≡ ok d'
      → StepsTo d.message_queue d'.message_queue × IsValid d'.message_queue
  unfolding call
  call-StepsTo d d' (enqueues id turn now) v h =
      let a = enqueue-ok json d d' id turn now h in
      (
        inr (new_row d id turn now, rw a.result (unfold admit in refl), unfold new_row in refl),
        admit-IsValid json d d' id turn now v a,
      )
  call-StepsTo d d' (edits id request_id revision text) v h =
      evolved _ _ v (edit_queued-EvolvesAll json d d' id request_id revision text v h)
  call-StepsTo d d' (reorders id expected order) v h =
      evolved _ _ v (reorder_queue-EvolvesAll d d' id expected order h)
  call-StepsTo d d' (takes id request_id revision) v h =
      let (a, e, f) = stored-ok _ d' h in
      evolved _ _ v (rw f (take_queued-EvolvesAll d id request_id revision a v e))
  call-StepsTo d d' (clears id) v h = evolved _ _ v (clear_queue-EvolvesAll d d' id h)
  call-StepsTo d d' (pauses id reason) v h =
      evolved _ _ v (same_rows d d' (pause_queue-rows d d' id reason h))
  call-StepsTo d d' (forwards id request_id revision now) v h =
      evolved _ _ v (mark_forwarded-EvolvesAll d d' id request_id revision now v h)
  call-StepsTo d d' (rejects id request_id reason now) v h =
      evolved _ _ v (reject_forwarded-EvolvesAll d d' id request_id reason now v h)
  call-StepsTo d d' (consumes id requests) v h =
      let e : d' ≡ consume_forwarded d id requests = ground arith in
      rw e (
        unfold consume_forwarded in
        evolved _ _ v (consume_rows-EvolvesAll id requests d.message_queue))
  call-StepsTo d d' (unsettles id now) v h =
      evolved _ _ v (uncertain_forwarded-EvolvesAll d d' id now h)
  call-StepsTo d d' (begins turn now) v h =
      let (a, e, f) = stored-ok _ d' h in
      evolved _ _ v (rw f (begin-EvolvesAll json d turn now a e))
  call-StepsTo d d' (reopens now) v h = evolved _ _ v (reopen-EvolvesAll d d' now h)

  pub step-StepsTo :
      (d : Store) (c : Call)
      → IsValid d.message_queue
      → StepsTo d.message_queue (step json d c).message_queue
        × IsValid (step json d c).message_queue
  unfolding step
  step-StepsTo d c v = by_result (call json d c) refl
    where
      by_result :
          (r : Result Error Store)
          → call json d c ≡ r
          → StepsTo d.message_queue (after d r).message_queue × IsValid (after d r).message_queue
      by_result (ok d') e = call-StepsTo d d' c v e
      by_result (err x) e = (inl (EvolvesAll-refl d.message_queue), v)

  pub run-IsValid :
      (d : Store) (cs : List Call) → IsValid d.message_queue → IsValid (run json d cs).message_queue
  unfolding run
  run-IsValid d [] v = v
  run-IsValid d (c ∷ cs) v = run-IsValid (step json d c) cs (step-StepsTo d c v).1

  pub run-final :
      (d : Store) (cs : List Call) (r : QueueRow)
      → IsValid d.message_queue
      → In r d.message_queue
      → is_final r.status ≡ true
      → In r (run json d cs).message_queue
  unfolding run
  run-final d [] r v m f = m
  run-final d (c ∷ cs) r v m f =
      let (s, w) = step-StepsTo d c v in
      run-final (step json d c) cs r w (StepsTo-final _ _ r s m f) f

  pub run-later :
      (d : Store) (cs : List Call) (r : QueueRow)
      → IsValid d.message_queue
      → In r d.message_queue
      → LaterIn r (run json d cs).message_queue
  unfolding run
  run-later d [] r v m = (r, m, refl, omega arith)
  run-later d (c ∷ cs) r v m =
      let (s, w) = step-StepsTo d c v in
      let (q, i, e, k) = StepsTo-later _ _ r s m in
      let (p, j, f, l) = run-later (step json d c) cs q w i in (p, j, f ∙ e, omega arith)

  -- From a queue that is valid (distinct request identifiers, at most 16 messages of a session that
  -- are queued or handed over), every history of calls, refused ones included, leads to one in
  -- which each session has at most 16 messages that are queued or handed over and no two messages
  -- share a request identifier.
  pub run-bounded :
      (d : Store) (cs : List Call) (id : String)
      → IsValid d.message_queue
      → (count_where (counted_in id) (run json d cs).message_queue ≤ 16)
        × Distinct (request_ids (run json d cs).message_queue)
  run-bounded d cs id v = let w = run-IsValid d cs v in (w.bounded id, w.distinct)

  -- From a valid queue, a message that was executed, taken out for editing, cancelled or left
  -- uncertain keeps its row unchanged through every history of calls, restarts included, and no
  -- message that is then in a session's queue has its request identifier.
  pub final_never_queued :
      (d : Store) (cs : List Call) (r q : QueueRow) (id : String)
      → IsValid d.message_queue
      → In r d.message_queue
      → is_final r.status ≡ true
      → In q (pending_rows (run json d cs) id)
      → In r (run json d cs).message_queue × (q.request_id ≢ r.request_id)
  final_never_queued d cs r q id v m f i =
      let kept = run-final d cs r v m f in
      let w = run-IsValid d cs v in
      (
        kept,
        λ e.
            let (j, p) = In-pending_rows (run json d cs) id q i in
            let same : q ≡ r = one_row (run json d cs).message_queue q r w.distinct j kept e in
            pending_not_final id q p (rw same f),
      )
    where
      pending_not_final :
          (id : String) (q : QueueRow) → pending_in id q ≡ true → is_final q.status ≡ true → ⊥
      pending_not_final id q p f = ground arith

  -- From a valid queue, once a message has a revision, no call after any later history that names
  -- an earlier revision of it hands it over or takes it out.
  pub stale_revision_refused :
      (d d' : Store) (cs : List Call) (r : QueueRow) (id : String) (revision now : ℕ)
      (a : Response × Store)
      → IsValid d.message_queue
      → In r d.message_queue
      → revision < r.message.revision
      → (mark_forwarded (run json d cs) id r.request_id revision now ≢ ok d')
        × (take_queued (run json d cs) id r.request_id revision ≢ ok a)
  stale_revision_refused d d' cs r id revision now a v m lt = (
    (λ h.
        let (row, f, _, k, _) =
          mark_forwarded-ok (run json d cs) d' id r.request_id revision now h in
        old_revision row f k),
    (λ h.
        let (row, f, _, k, _) = take_queued-ok (run json d cs) id r.request_id revision a h in
        old_revision row f k),
  )
    where
      old_revision :
          (row : QueueRow)
          → find? (row_of id r.request_id) (run json d cs).message_queue ≡ some row
          → row.message.revision ≡ revision
          → ⊥
      old_revision row f k =
          let w = run-IsValid d cs v in
          let (s, i, e, l) = run-later d cs r v m in
          let (j, p) = find-In (row_of id r.request_id) row (run json d cs).message_queue f in
          let same : row ≡ s =
            one_row (run json d cs).message_queue row s w.distinct j i
              (row_of-request id r.request_id row p ∙ sym e) in
          omega (arith, ap (λ (q : QueueRow). q.message.revision) same)
