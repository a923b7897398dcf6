-- ===== src/Store/Turns/Later.antt =====
-- The calls on the store keep the requests that were accepted (crates/latte-work-server/src/store.rs,
-- message_queue.rs).
use latte_work.Common.{
  ℕ, String, Bool, true, false, List, [], ◌∷◌, ◌++◌, ◌≡◌, refl, sym, ap, ◌∙◌, inl, inr, Option,
  none, some, arith, Result, ok, err, after, append_assoc, append-nil,
}
use latte_work.Protocol.Values.{Status}
use latte_work.Store.State.{Store, RequestRow, JsonLibrary, Error}
use latte_work.Store.Sessions.{insert_event}
use latte_work.Store.Manage.{
  create_session, rename_session, sync_native_title, pin_session, mark_session_unread,
  archive_session, remove_project,
}
use latte_work.Store.Organised.History.{
  ManageCall, creates, renames, syncs, pins, marks, archives, removes, manage,
}
use latte_work.Store.Turns.{Turn, begin, request_row, state}
use latte_work.Store.Turns.Begun.{begin_cases, admit_turn-Keeps}
use latte_work.Queue.Rows.{upsert_state}
use latte_work.Queue.Admission.{admit}
use latte_work.Queue.Edits.{edit_queued, clear_queue}
use latte_work.Queue.Handoff.{
  pause_queue, mark_forwarded, reject_forwarded, consume_forwarded, uncertain_forwarded, initialize,
  quarantine, reopen,
}
use latte_work.Queue.Steps.{
  Call, enqueues, edits, reorders, takes, clears, pauses, forwards, rejects, consumes, unsettles,
  begins, reopens, call,
}
use latte_work.Queue.Changes.{stored-ok}
use latte_work.Queue.Evolution.Admission.{enqueue-ok}
use latte_work.Queue.Evolution.Calls.{reorder_queue-rows, take_queued-ok}
use latte_work.Queue.Evolution.Handoff.{quarantine-ok}

-- The later store has the accepted requests of the earlier one, and perhaps new ones behind them.
abbrev pub Extends : Store → Store → Type 0
Extends d d' = (new : List RequestRow) × (d'.requests ≡ d.requests ++ new)

same-Extends : (d d' : Store) → d'.requests ≡ d.requests → Extends d d'
same-Extends d d' e = ([], e ∙ sym (append-nil d.requests))

Extends-trans : (d e f : Store) → Extends d e → Extends e f → Extends d f
Extends-trans d e f (a, p) (b, q) = (a ++ b, q ∙ ap (λ x. x ++ b) p ∙ append_assoc d.requests a b)

begin-Extends :
    (json : JsonLibrary) (d : Store) (t : Turn) (now : ℕ) (a : Bool × Store)
    → begin json d t now ≡ ok a
    → Extends d a.1
begin-Extends json d t now a h = elim (begin_cases json d t now a h) [
  | inl (_, e) ↦ same-Extends d a.1 (ap (λ (x : Bool × Store). x.1.requests) e)
  | inr (s, _, _, _, _, f, _) ↦ (request_row t ∷ [], (admit_turn-Keeps json d a.1 t s now f).0)
]

upsert_state-requests :
    (d d' : Store) (id : String) (paused : Bool) (reason : Option String)
    → upsert_state d id paused reason ≡ ok d'
    → d'.requests ≡ d.requests
unfolding upsert_state
upsert_state-requests d d' id paused reason h = ground arith

pause_queue-requests :
    (d d' : Store) (id : String) (reason : Option String)
    → pause_queue d id reason ≡ ok d'
    → d'.requests ≡ d.requests
unfolding pause_queue
pause_queue-requests d d' id none h = upsert_state-requests d d' id false none h
pause_queue-requests d d' id (some r) h = upsert_state-requests d d' id true (some r) h

uncertain_forwarded-requests :
    (d d' : Store) (id : String) (now : ℕ)
    → uncertain_forwarded d id now ≡ ok d'
    → d'.requests ≡ d.requests
unfolding uncertain_forwarded insert_event
uncertain_forwarded-requests d d' id now h = ground arith

quarantine-requests :
    (d d' : Store) (ids : List String) (now : ℕ)
    → quarantine d ids now ≡ ok d'
    → d'.requests ≡ d.requests
unfolding quarantine
quarantine-requests d d' [] now h = ground arith
quarantine-requests d d' (id ∷ ids) now h =
    let (u, p, hu, hp, k) = quarantine-ok d d' id ids now h in
    quarantine-requests p d' ids now k
    ∙ pause_queue-requests u p id _ hp
    ∙ uncertain_forwarded-requests d u id now hu

reopen-requests : (d d' : Store) (now : ℕ) → reopen d now ≡ ok d' → d'.requests ≡ d.requests
unfolding reopen initialize
reopen-requests d d' now h = quarantine-requests (initialize d) d' _ now h

edit_queued-requests :
    (json : JsonLibrary) (d d' : Store) (id request_id : String) (revision : ℕ)
    (text : Option String)
    → edit_queued json d id request_id revision text ≡ ok d'
    → d'.requests ≡ d.requests
unfolding edit_queued
edit_queued-requests json d d' id request_id revision text h = ground arith

mark_forwarded-requests :
    (d d' : Store) (id request_id : String) (revision now : ℕ)
    → mark_forwarded d id request_id revision now ≡ ok d'
    → d'.requests ≡ d.requests
unfolding mark_forwarded insert_event
mark_forwarded-requests d d' id request_id revision now h = ground arith

reject_forwarded-requests :
    (d d' : Store) (id request_id reason : String) (now : ℕ)
    → reject_forwarded d id request_id reason now ≡ ok d'
    → d'.requests ≡ d.requests
unfolding reject_forwarded insert_event upsert_state
reject_forwarded-requests d d' id request_id reason now h = ground arith

clear_queue-requests :
    (d d' : Store) (id : String) → clear_queue d id ≡ ok d' → d'.requests ≡ d.requests
unfolding clear_queue
clear_queue-requests d d' id h = ground arith

state-requests :
    (d d' : Store) (id : String) (status : Status) (message : Option String) (now : ℕ)
    → state d id status message now ≡ ok d'
    → d'.requests ≡ d.requests
unfolding state insert_event
state-requests d d' id status message now h = ground arith

manage-requests : (d d' : Store) (c : ManageCall) → manage d c ≡ ok d' → d'.requests ≡ d.requests
unfolding manage create_session rename_session sync_native_title pin_session mark_session_unread
    archive_session remove_project
manage-requests d d' (creates project_id agent id now) h = ground arith
manage-requests d d' (renames id title) h = ground arith
manage-requests d d' (syncs id title custom) h = ground arith
manage-requests d d' (pins id pinned now) h = ground arith
manage-requests d d' (marks id unread) h = ground arith
manage-requests d d' (archives id archived) h = ground arith
manage-requests d d' (removes id) h = ground arith

-- A call on the queue, on a turn or on the store's opening; of organising sessions; or `state`.
pub data StoreCall : Type 0 where
  queue_call : Call → StoreCall
  manage_call : ManageCall → StoreCall
  state_call : (id : String) → Status → Option String → (now : ℕ) → StoreCall

module _ (json : JsonLibrary) where
  call-Extends : (d d' : Store) (c : Call) → call json d c ≡ ok d' → Extends d d'
  unfolding call
  call-Extends d d' (enqueues id turn now) h =
      let a = enqueue-ok json d d' id turn now h in
      same-Extends d d' (ap (λ (x : Store). x.requests) a.result ∙ (unfold admit in refl))
  call-Extends d d' (edits id request_id revision text) h =
      same-Extends d d' (edit_queued-requests json d d' id request_id revision text h)
  call-Extends d d' (reorders id expected order) h =
      elim (reorder_queue-rows d d' id expected order h) [
        | inl e ↦ same-Extends d d' (ap (λ (x : Store). x.requests) e)
        | inr e ↦ same-Extends d d' (ap (λ (x : Store). x.requests) e)
      ]
  call-Extends d d' (takes id request_id revision) h =
      let (a, e, f) = stored-ok _ d' h in
      let (_, _, _, _, g) = take_queued-ok d id request_id revision a e in
      same-Extends d d' (ap (λ (x : Store). x.requests) f ∙ ap (λ x. x.1.requests) g)
  call-Extends d d' (clears id) h = same-Extends d d' (clear_queue-requests d d' id h)
  call-Extends d d' (pauses id reason) h = same-Extends d d' (pause_queue-requests d d' id reason h)
  call-Extends d d' (forwards id request_id revision now) h =
      same-Extends d d' (mark_forwarded-requests d d' id request_id revision now h)
  call-Extends d d' (rejects id request_id reason now) h =
      same-Extends d d' (reject_forwarded-requests d d' id request_id reason now h)
  call-Extends d d' (consumes id requests) h =
      let e : d' ≡ consume_forwarded d id requests = ground arith in
      same-Extends d d' (ap (λ (x : Store). x.requests) e ∙ (unfold consume_forwarded in refl))
  call-Extends d d' (unsettles id now) h =
      same-Extends d d' (uncertain_forwarded-requests d d' id now h)
  call-Extends d d' (begins turn now) h =
      let (a, e, f) = stored-ok _ d' h in rw f (begin-Extends json d turn now a e)
  call-Extends d d' (reopens now) h = same-Extends d d' (reopen-requests d d' now h)

  unfoldable pub store_call : Store → StoreCall → Result Error Store
  unfolding call
  store_call d (queue_call c) = call json d c
  store_call d (manage_call c) = manage d c
  store_call d (state_call id status message now) = state d id status message now

  -- A call that fails leaves the store as it was.
  unfoldable pub store_run : Store → List StoreCall → Store
  unfolding store_call
  store_run d [] = d
  store_run d (c ∷ cs) = store_run (after d (store_call d c)) cs

  store_call-Extends : (d d' : Store) (c : StoreCall) → store_call d c ≡ ok d' → Extends d d'
  unfolding store_call
  store_call-Extends d d' (queue_call c) h = call-Extends d d' c h
  store_call-Extends d d' (manage_call c) h = same-Extends d d' (manage-requests d d' c h)
  store_call-Extends d d' (state_call id status message now) h =
      same-Extends d d' (state-requests d d' id status message now h)

  pub store_run-Extends : (d : Store) (cs : List StoreCall) → Extends d (store_run d cs)
  unfolding store_run
  store_run-Extends d [] = same-Extends d d refl
  store_run-Extends d (c ∷ cs) =
      Extends-trans d (after d (store_call d c)) (store_run (after d (store_call d c)) cs)
        (by_result (store_call d c) refl) (store_run-Extends (after d (store_call d c)) cs)
    where
      by_result : (r : Result Error Store) → store_call d c ≡ r → Extends d (after d r)
      by_result (ok d') e = store_call-Extends d d' c e
      by_result (err x) e = same-Extends d d refl
