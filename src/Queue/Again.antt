-- ===== src/Queue/Again.antt =====
-- A submission is admitted once (`queued_duplicate` and `enqueue`,
-- crates/latte-work-server/src/message_queue.rs).
use latte_work.Common.{
  ℕ, String, true, List, [], ◌∷◌, ◌≡◌, ◌≢◌, refl, sym, ap, ◌∙◌, inl, inr, some, none, Option,
  Result, ◌==◌, find?, find-In, any-In, In, In-append_left, ok, err, Option-cases, arith, ==_refl,
  ==-eq,
}
use latte_work.Protocol.Responses.{Response}
use latte_work.Store.State.{
  Store, QueueRow, QueueStatus, pending, forwarded, dispatched, uncertain, taken, cancelled, Error,
  JsonLibrary, queue_id_reused, already_taken, already_cancelled,
}
use latte_work.Queue.Admission.{
  SendTurn, same_submission, new_row, enqueue, queued_duplicate, duplicate_answer,
}
use latte_work.Queue.Steps.{Call, run, step}
use latte_work.Queue.Evolution.{Evolves, EvolvesAll, Evolves-refl, Evolves-trans}
use latte_work.Queue.Evolution.Admission.{enqueue-ok, admit-IsValid}
use latte_work.Queue.Invariant.{IsValid, one_row}
use latte_work.Queue.Changes.{StepsTo}
use latte_work.Queue.Safety.{step-StepsTo, run-IsValid}
use latte_work.Queue.Answers.{
  find_admitted, same_submission_self, other_session, other_text, duplicate_of,
}

-- What a submission is to be answered when it is sent again, by what became of its message.
pub data AnswersFor : QueueStatus → Result Error (Option Response) → Type 0 where
  still_queued : AnswersFor pending (ok (some (Response.message_queued true)))
  handed_over : AnswersFor forwarded (ok (some (Response.accepted true)))
  executed : AnswersFor dispatched (ok (some (Response.accepted true)))
  unsettled : AnswersFor uncertain (ok (some (Response.accepted true)))
  was_taken : AnswersFor taken (err already_taken)
  was_cancelled : AnswersFor cancelled (err already_cancelled)

duplicate_answer-AnswersFor : (s : QueueStatus) → AnswersFor s (duplicate_answer s)
unfolding duplicate_answer
duplicate_answer-AnswersFor pending = still_queued
duplicate_answer-AnswersFor forwarded = handed_over
duplicate_answer-AnswersFor dispatched = executed
duplicate_answer-AnswersFor uncertain = unsettled
duplicate_answer-AnswersFor taken = was_taken
duplicate_answer-AnswersFor cancelled = was_cancelled

-- A later version of a row.
abbrev Version : QueueRow → List QueueRow → Type 0
Version r ss = (s : QueueRow) × In s ss × Evolves r s

EvolvesAll-Version :
    (rs ss : List QueueRow) (r : QueueRow) → EvolvesAll rs ss → In r rs → Version r ss
EvolvesAll-Version [] ss r e m = elim m [ ]
EvolvesAll-Version (x ∷ rs) [] r e m = absurd e
EvolvesAll-Version (x ∷ rs) (y ∷ ss) r e (inl i) = (y, inl refl, rw i at e.0)
EvolvesAll-Version (x ∷ rs) (y ∷ ss) r e (inr m) =
    let (s, i, v) = EvolvesAll-Version rs ss r e.1 m in (s, inr i, v)

StepsTo-Version : (rs ss : List QueueRow) (r : QueueRow) → StepsTo rs ss → In r rs → Version r ss
StepsTo-Version rs ss r (inl e) m = EvolvesAll-Version rs ss r e m
StepsTo-Version rs ss r (inr (new, e, p)) m =
    (r, rw e (In-append_left r rs (new ∷ []) m), Evolves-refl r)

-- A row that is there is found by its request.
found_by_request :
    (rs : List QueueRow) (r : QueueRow)
    → IsValid rs
    → In r rs
    → find? (λ s. s.request_id == r.request_id) rs ≡ some r
found_by_request rs r v m =
    elim (Option-cases (find? (λ (s : QueueRow). s.request_id == r.request_id) rs)) [
      | inl n ↦ absurd (missing rs n m)
      | inr (s, f) ↦
          let (i, e) = find-In (λ (q : QueueRow). q.request_id == r.request_id) s rs f in
          f ∙ ap some (one_row rs s r v.distinct i m (==-eq s.request_id r.request_id e))
    ]
  where
    missing :
        (xs : List QueueRow)
        → find? (λ (s : QueueRow). s.request_id == r.request_id) xs ≡ none
        → In r xs
        → ⊥
    missing [] n m = elim m [ ]
    missing (x ∷ xs) n (inl i) =
        let here : (x.request_id == r.request_id) ≡ true = rw i (==_refl r.request_id) in
        absurd (ground (arith, here, n))
    missing (x ∷ xs) n (inr m) = missing xs (ground (arith, n)) m

same_submission-Evolves :
    (id : String) (turn : SendTurn) (r s : QueueRow)
    → Evolves r s
    → same_submission id turn s ≡ same_submission id turn r
unfolding same_submission
same_submission-Evolves id turn r s v =
    rw (v.same_session, v.same_admission, v.same_fingerprint) refl

module _ (json : JsonLibrary) where
  run-Version :
      (d : Store) (cs : List Call) (r : QueueRow)
      → IsValid d.message_queue
      → In r d.message_queue
      → Version r (run json d cs).message_queue
  unfolding run
  run-Version d [] r v m = (r, m, Evolves-refl r)
  run-Version d (c ∷ cs) r v m =
      let (s, w) = step-StepsTo json d c v in
      let (q, i, e) = StepsTo-Version _ _ r s m in
      let (p, j, f) = run-Version (step json d c) cs q w i in (p, j, Evolves-trans e f)

  -- When a submission was admitted to a valid queue and is sent again, after any history of the queue's
  -- calls, it is not admitted anew. The answer is that it is queued if its message is pending, as
  -- right after the admission, that it was accepted if the message was handed over, executed or left
  -- uncertain, and a refusal if the message was taken out or cancelled. The use of its identifier in
  -- another session or with another text is refused.
  pub enqueue_once :
      (d d' e : Store) (id other text : String) (turn : SendTurn) (now later : ℕ) (cs : List Call)
      → IsValid d.message_queue
      → enqueue json d id turn now ≡ ok d'
      → other ≢ id
      → text ≢ turn.text
      → (row : QueueRow) × In row (run json d' cs).message_queue
        × (row.request_id ≡ turn.request_id)
        × AnswersFor row.status (queued_duplicate (run json d' cs) id turn)
        × (queued_duplicate d' id turn ≡ ok (some (Response.message_queued true)))
        × (enqueue json (run json d' cs) id turn later ≢ ok e)
        × (queued_duplicate (run json d' cs) other turn ≡ err queue_id_reused)
        × (queued_duplicate (run json d' cs) id (record turn { text = text }) ≡ err queue_id_reused)
  enqueue_once d d' e id other text turn now later cs v h o n =
      let first = new_row d id turn now in
      let found = find_admitted json d d' id turn now h in
      let valid = admit-IsValid json d d' id turn now v (enqueue-ok json d d' id turn now h) in
      let there =
        (find-In (λ (q : QueueRow). q.request_id == turn.request_id) first d'.message_queue
          found).0 in
      let (row, m, ev) = run-Version d' cs first valid there in
      let own : row.request_id ≡ turn.request_id = ev.same_request ∙ (unfold new_row in refl) in
      let later_valid = run-IsValid json d' cs valid in
      let again : find? (λ (q : QueueRow). q.request_id == turn.request_id)
            (run json d' cs).message_queue
          ≡ some row =
        ap (λ k. find? (λ (q : QueueRow). q.request_id == k) (run json d' cs).message_queue)
          (sym own)
        ∙ found_by_request (run json d' cs).message_queue row later_valid m in
      (
        row,
        m,
        own,
        rw
            (
              duplicate_of (run json d' cs) id turn row again,
              same_submission-Evolves id turn first row ev,
              same_submission_self json d d' id turn now h,
            )
            (duplicate_answer-AnswersFor row.status),
        rw (duplicate_of d' id turn _ found, same_submission_self json d d' id turn now h)
            (unfold duplicate_answer new_row in refl),
        λ z.
            let a = enqueue-ok json (run json d' cs) e id turn later z in
            let present =
              any-In (λ (q : QueueRow). q.request_id == turn.request_id) row
                (run json d' cs).message_queue m (rw own (==_refl turn.request_id)) in
            absurd (cc (present, a.new_request)),
        rw
            (
              duplicate_of (run json d' cs) other turn row again,
              same_submission-Evolves other turn first row ev,
              other_session json d d' id turn now h other o,
            )
            refl,
        rw
            (
              duplicate_of (run json d' cs) id (record turn { text = text }) row again,
              same_submission-Evolves id (record turn { text = text }) first row ev,
              other_text json d d' id turn now h text n,
            )
            refl,
      )
