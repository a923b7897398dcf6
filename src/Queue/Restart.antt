-- ===== src/Queue/Restart.antt =====
-- The opening of the store after a restart (`initialize` and `uncertain_forwarded` of
-- message_queue.rs, `open` of store.rs).
use latte_work.Common.{
  ℕ, String, Bool, true, false, not, ◌&&◌, ◌||◌, List, [], ◌∷◌, ◌++◌, map, ◌≡◌, refl, sym, ap, ◌∙◌,
  inl, inr, Option, some, none, ◌==◌, find?, any, contains, select, take, select_outside-update,
  update_where, ok, arith, Bool-cases, eq_iff,
}
use latte_work.Store.State.{Store, QueueRow, QueueStateRow, uncertain}
use latte_work.Queue.Rows.{
  is_forwarded, forwarded_in, pending_in, with_status, queue_state, upsert_state, order_rows,
  pending_rows,
}
use latte_work.Queue.Handoff.{
  pause_queue, uncertain_forwarded, initialize, distinct, forwarded_sessions, quarantine, reopen,
}
use latte_work.Queue.Evolution.Handoff.{uncertain_forwarded-rows, pause_queue-rows, quarantine-ok}

-- Rows become uncertain and none becomes forwarded.
any-settled :
    (id sid : String) (rs : List QueueRow)
    → any (forwarded_in sid) (update_where (forwarded_in id) (with_status uncertain) rs)
      ≡ (not (id == sid) && any (forwarded_in sid) rs)
any-settled id sid [] = ground arith
any-settled id sid (r ∷ rs) =
    ground
      (arith, any-settled id sid rs, eq_iff id sid, eq_iff r.session_id id, eq_iff r.session_id sid)

select-settled :
    (id sid : String) (rs : List QueueRow)
    → select (pending_in sid) (update_where (forwarded_in id) (with_status uncertain) rs)
      ≡ select (pending_in sid) rs
select-settled id sid rs =
    select_outside-update (pending_in sid) (forwarded_in id) (with_status uncertain) rs
      (λ x p. (ground arith, ground arith))

is_paused : String → List QueueStateRow → Bool
is_paused sid states = elim (find? (λ s. s.session_id == sid) states) [
  | none ↦ false
  | some s ↦ s.paused
]

set_paused : Option String → QueueStateRow → QueueStateRow
set_paused reason s = record s { paused = true; reason = reason }

paused-update :
    (id sid : String) (reason : Option String) (states : List QueueStateRow)
    → is_paused sid (update_where (λ s. s.session_id == id) (set_paused reason) states)
      ≡ ((id == sid && any (λ s. s.session_id == id) states) || is_paused sid states)
unfolding is_paused set_paused
paused-update id sid reason [] = ground arith
paused-update id sid reason (s ∷ states) = ground (
  arith,
  paused-update id sid reason states,
  eq_iff id sid,
  eq_iff s.session_id id,
  eq_iff s.session_id sid,
)

paused-append :
    (id sid : String) (new : QueueStateRow) (states : List QueueStateRow)
    → new.session_id ≡ id
    → new.paused ≡ true
    → any (λ s. s.session_id == id) states ≡ false
    → is_paused sid (states ++ new ∷ []) ≡ (id == sid || is_paused sid states)
unfolding is_paused
paused-append id sid new [] a b c = ground arith
paused-append id sid new (s ∷ states) a b c = ground (
  arith,
  paused-append id sid new states a b,
  eq_iff id sid,
  eq_iff s.session_id id,
  eq_iff s.session_id sid,
)

-- A pause shows at its session and leaves the pauses of the others alone.
pause_shows :
    (d d' : Store) (id sid reason : String)
    → pause_queue d id (some reason) ≡ ok d'
    → is_paused sid d'.message_queue_state ≡ (id == sid || is_paused sid d.message_queue_state)
unfolding pause_queue upsert_state
pause_shows d d' id sid reason h =
    elim (Bool-cases (any (λ s. s.session_id == id) d.message_queue_state)) [
      | inl e ↦
          let f : d'.message_queue_state
              ≡ update_where (λ s. s.session_id == id) (set_paused (some reason))
                  d.message_queue_state =
            unfold set_paused in ground arith in
          rw (f, paused-update id sid (some reason) d.message_queue_state, e) (ground arith)
      | inr e ↦
          let new : QueueStateRow = record {
            session_id = id;
            paused = true;
            reason = some reason;
          } in
          let f : d'.message_queue_state ≡ d.message_queue_state ++ new ∷ [] = ground arith in
          rw f (paused-append id sid new d.message_queue_state refl refl e)
    ]

uncertain_forwarded-states :
    (d d' : Store) (id : String) (now : ℕ)
    → uncertain_forwarded d id now ≡ ok d'
    → d'.message_queue_state ≡ d.message_queue_state
unfolding uncertain_forwarded
uncertain_forwarded-states d d' id now h = ground arith

contains-distinct : (xs : List String) (x : String) → contains (distinct xs) x ≡ contains xs x
unfolding distinct
contains-distinct [] x = refl
contains-distinct (y ∷ xs) x =
    ground (arith, contains-distinct xs x, eq_iff y x, ap (contains xs) {x = y} {y = x})

-- The loop visits every session with a forwarded message.
forwarded_listed :
    (rs : List QueueRow) (sid : String)
    → any (forwarded_in sid) rs ≡ contains (forwarded_sessions rs) sid
unfolding forwarded_sessions
forwarded_listed rs sid = go rs ∙ sym (contains-distinct _ sid)
  where
    go :
        (rs : List QueueRow)
        → any (forwarded_in sid) rs
          ≡ contains (map (λ r. r.session_id) (select (λ r. is_forwarded r.status) rs)) sid
    go [] = refl
    go (r ∷ rs) = ground (arith, go rs)

quarantine-settles :
    (d d' : Store) (ids : List String) (now : ℕ) (sid : String)
    → quarantine d ids now ≡ ok d'
    → (any (forwarded_in sid) d'.message_queue
        ≡ (not (contains ids sid) && any (forwarded_in sid) d.message_queue))
      × (select (pending_in sid) d'.message_queue ≡ select (pending_in sid) d.message_queue)
      × (is_paused sid d'.message_queue_state
          ≡ (contains ids sid || is_paused sid d.message_queue_state))
unfolding quarantine
quarantine-settles d d' [] now sid h = let e : d' ≡ d = ground arith in rw e (refl, refl, refl)
quarantine-settles d d' (id ∷ ids) now sid h =
    let (u, p, hu, hp, k) = quarantine-ok d d' id ids now h in
    let rows : p.message_queue
        ≡ update_where (forwarded_in id) (with_status uncertain) d.message_queue =
      pause_queue-rows u p id _ hp ∙ uncertain_forwarded-rows d u id now hu in
    let (a, b, c) = quarantine-settles p d' ids now sid k in
    (
      a ∙ (rw (rows, any-settled id sid d.message_queue) (ground arith)),
      b ∙ (rw rows (select-settled id sid d.message_queue)),
      c
          ∙ (rw (pause_shows u p id sid _ hp, uncertain_forwarded-states d u id now hu)
              (ground arith)),
    )

paused_shown :
    (d : Store) (sid : String) → (queue_state d sid).0 ≡ is_paused sid d.message_queue_state
unfolding queue_state is_paused
paused_shown d sid = ground arith

-- A row is paused, where a test of its session passes.
paused-where :
    (p : String → Bool) (sid : String) (reason : Option String) (states : List QueueStateRow)
    → is_paused sid (update_where (λ s. p s.session_id) (set_paused reason) states)
      ≡ (is_paused sid states || (any (λ s. s.session_id == sid) states && p sid))
unfolding is_paused set_paused
paused-where p sid reason [] = ground arith
paused-where p sid reason (s ∷ states) = ground (
  arith,
  paused-where p sid reason states,
  eq_iff s.session_id sid,
  ap p {x = s.session_id} {y = sid},
)

initialize-pauses :
    (d : Store) (sid : String)
    → is_paused sid (initialize d).message_queue_state ≡ (
        is_paused sid d.message_queue_state
        || (any (λ s. s.session_id == sid) d.message_queue_state
            && any (pending_in sid) d.message_queue))
unfolding initialize set_paused
initialize-pauses d sid =
    paused-where (λ id. any (pending_in id) d.message_queue) sid (some "后台已重启，请核对当前任务后继续排队")
      d.message_queue_state

-- When the queue was opened again, no message counts as handed over, so none is sent again by itself. A
-- session's queue is paused exactly when it had such a message, or was paused before, or had pending
-- messages and a row in `message_queue_state`. Every session keeps its pending messages.
pub reopen_quarantines :
    (d d' : Store) (now : ℕ) (sid : String)
    → reopen d now ≡ ok d'
    → (any (forwarded_in sid) d'.message_queue ≡ false)
      × ((queue_state d' sid).0 ≡ (
          any (forwarded_in sid) d.message_queue
          || ((queue_state d sid).0
              || (any (λ s. s.session_id == sid) d.message_queue_state
                  && any (pending_in sid) d.message_queue))))
      × (pending_rows d' sid ≡ pending_rows d sid)
unfolding reopen pending_rows
reopen_quarantines d d' now sid h =
    let (a, b, c) =
      quarantine-settles (initialize d) d' (forwarded_sessions d.message_queue) now sid h in
    let listed = forwarded_listed d.message_queue sid in
    (
      a ∙ (unfold initialize in ground (arith, listed)),
      paused_shown d' sid
          ∙ c
          ∙ rw (listed, paused_shown d sid)
              (ap (λ b. contains (forwarded_sessions d.message_queue) sid || b)
                (initialize-pauses d sid)),
      ap (λ rows. take 16 (order_rows rows)) b,
    )
