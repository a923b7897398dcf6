-- ===== src/Queue/Steps.antt =====
-- The calls that change the queue (crates/latte-work-server/src/message_queue.rs, `begin` and `open`
-- of store.rs), as one step function, and a history of them.
use latte_work.Common.{ℕ, String, List, [], ◌∷◌, Option, Result, ok, err, after}
use latte_work.Store.State.{Store, Error, JsonLibrary}
use latte_work.Store.Turns.{Turn, begin}
use latte_work.Queue.Admission.{SendTurn, enqueue}
use latte_work.Queue.Edits.{edit_queued, reorder_queue, take_queued, clear_queue}
use latte_work.Queue.Handoff.{
  pause_queue, mark_forwarded, reject_forwarded, consume_forwarded, uncertain_forwarded, reopen,
}

pub data Call : Type 0 where
  enqueues : (id : String) → (turn : SendTurn) → (now : ℕ) → Call
  edits : (id request_id : String) → (revision : ℕ) → (text : Option String) → Call
  reorders : (id : String) → (expected order : List String) → Call
  takes : (id request_id : String) → (revision : ℕ) → Call
  clears : (id : String) → Call
  pauses : (id : String) → (reason : Option String) → Call
  forwards : (id request_id : String) → (revision now : ℕ) → Call
  rejects : (id request_id reason : String) → (now : ℕ) → Call
  consumes : (id : String) → (requests : List String) → Call
  unsettles : (id : String) → (now : ℕ) → Call
  begins : (turn : Turn) → (now : ℕ) → Call
  reopens : (now : ℕ) → Call

-- The store that a call which answers leaves behind.
abbrev pub stored {ℓ} : {A : Type ℓ} → Result Error (A × Store) → Result Error Store
stored (ok r) = ok r.1
stored (err e) = err e

module _ (json : JsonLibrary) where
  unfoldable pub call : Store → Call → Result Error Store
  call d (enqueues id turn now) = enqueue json d id turn now
  call d (edits id request_id revision text) = edit_queued json d id request_id revision text
  call d (reorders id expected order) = reorder_queue d id expected order
  call d (takes id request_id revision) = stored (take_queued d id request_id revision)
  call d (clears id) = clear_queue d id
  call d (pauses id reason) = pause_queue d id reason
  call d (forwards id request_id revision now) = mark_forwarded d id request_id revision now
  call d (rejects id request_id reason now) = reject_forwarded d id request_id reason now
  call d (consumes id requests) = ok (consume_forwarded d id requests)
  call d (unsettles id now) = uncertain_forwarded d id now
  call d (begins turn now) = stored (begin json d turn now)
  call d (reopens now) = reopen d now

  -- A call that fails leaves the store as it was. Of the calls that commit in parts, `unsettles` and
  -- `reopens`, a refusal here is the absence of a message's session, which the schema excludes.
  unfoldable pub step : Store → Call → Store
  unfolding call
  step d c = after d (call d c)

  unfoldable pub run : Store → List Call → Store
  unfolding step
  run d [] = d
  run d (c ∷ cs) = run (step d c) cs
