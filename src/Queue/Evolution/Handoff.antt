-- ===== src/Queue/Evolution/Handoff.antt =====
-- The hand-over to an Agent, the start of a turn and the opening of the store evolve the rows
-- (message_queue.rs, `begin` and `open` of store.rs).
use latte_work.Common.{
  ℕ, ◌+◌, String, Bool, true, false, List, [], ◌∷◌, ◌≡◌, sym, ◌∙◌, ◌⊎◌, inl, inr, Option, some,
  none, find?, update_where, In, >>=-eq-ok, subst, find-In, arith, Option-cases, eq_iff, ok,
}
use latte_work.Protocol.Events.{EventKind}
use latte_work.Store.State.{Store, QueueRow, forwarded, dispatched, uncertain}
use latte_work.Store.Sessions.{insert_event}
use latte_work.Queue.Rows.{forwarded_in, row_of, is_pending, with_status, upsert_state}
use latte_work.Queue.Handoff.{
  pause_queue, mark_forwarded, forwarded_row, reject_forwarded, returned, consume_rows,
  uncertain_forwarded, initialize, quarantine, reopen,
}
use latte_work.Queue.Evolution.{
  is_final, Evolves, EvolvesAll, EvolvesAll-refl, EvolvesAll-trans, EvolvesAll-update,
}
use latte_work.Queue.Evolution.Calls.{with_status-Evolves, forwarded_live}
use latte_work.Queue.Invariant.{IsValid, found_row, one_row}

-- Neither events nor the queue's state touch the rows.
pub insert_event-rows :
    (d d' : Store) (id : String) (at : ℕ) (e : EventKind)
    → insert_event d id at e ≡ ok d'
    → d'.message_queue ≡ d.message_queue
unfolding insert_event
insert_event-rows d d' id at e h = ground arith

pub upsert_state-rows :
    (d d' : Store) (id : String) (paused : Bool) (reason : Option String)
    → upsert_state d id paused reason ≡ ok d'
    → d'.message_queue ≡ d.message_queue
unfolding upsert_state
upsert_state-rows d d' id paused reason h = ground arith

pub pause_queue-rows :
    (d d' : Store) (id : String) (reason : Option String)
    → pause_queue d id reason ≡ ok d'
    → d'.message_queue ≡ d.message_queue
unfolding pause_queue
pause_queue-rows d d' id none h = upsert_state-rows d d' id false none h
pause_queue-rows d d' id (some r) h = upsert_state-rows d d' id true (some r) h

-- What a hand-over that succeeds has found, and what it writes.
pub mark_forwarded-ok :
    (d d' : Store) (id request_id : String) (revision now : ℕ)
    → mark_forwarded d id request_id revision now ≡ ok d'
    → (row : QueueRow) × (find? (row_of id request_id) d.message_queue ≡ some row)
      × (is_pending row.status ≡ true)
      × (row.message.revision ≡ revision)
      × (d'.message_queue
          ≡ update_where (row_of id request_id) (with_status forwarded) d.message_queue)
unfolding mark_forwarded
mark_forwarded-ok d d' id request_id revision now h =
    elim (Option-cases (find? (row_of id request_id) d.message_queue)) [
      | inl e ↦ absurd (ground arith)
      | inr (row, e) ↦ (row, e, ground arith, ground arith, ground arith)
    ]

pending_not_final : (r : QueueRow) → is_pending r.status ≡ true → is_final r.status ≡ false
pending_not_final r h = ground arith

pub mark_forwarded-EvolvesAll :
    (d d' : Store) (id request_id : String) (revision now : ℕ)
    → IsValid d.message_queue
    → mark_forwarded d id request_id revision now ≡ ok d'
    → EvolvesAll d.message_queue d'.message_queue
mark_forwarded-EvolvesAll d d' id request_id revision now v h =
    let (row, f, t, k, e) = mark_forwarded-ok d d' id request_id revision now h in
    rw e (
      EvolvesAll-update _ _ d.message_queue (λ r m p. with_status-Evolves forwarded r (
        pending_not_final r
          (rw (found_row d.message_queue id request_id row r v.distinct f m p) t))))

-- What a rejection finds and writes: nothing, or the message with its next revision.
pub reject_forwarded-ok :
    (d d' : Store) (id request_id reason : String) (now : ℕ)
    → reject_forwarded d id request_id reason now ≡ ok d'
    → ((find? (forwarded_row id request_id) d.message_queue ≡ none) × (d' ≡ d))
      ⊎ ((row : QueueRow) × (find? (forwarded_row id request_id) d.message_queue ≡ some row)
          × (d'.message_queue
              ≡ update_where
                  (forwarded_row id request_id)
                  (returned row.message (row.message.revision + 1))
                  d.message_queue))
unfolding reject_forwarded
reject_forwarded-ok d d' id request_id reason now h =
    elim (Option-cases (find? (forwarded_row id request_id) d.message_queue)) [
      | inl e ↦ inl (e, ground arith)
      | inr (row, e) ↦ inr (row, e, ground arith)
    ]

forwarded_row-request :
    (id request_id : String) (r : QueueRow)
    → forwarded_row id request_id r ≡ true
    → r.request_id ≡ request_id
forwarded_row-request id request_id r h = ground (arith, eq_iff r.request_id request_id)

returned-Evolves :
    (r : QueueRow)
    → is_final r.status ≡ false
    → Evolves r (returned r.message (r.message.revision + 1) r)
unfolding returned
returned-Evolves r h = ground arith

-- The row that a rejection writes is the one that it found.
pub rejected_row :
    (d : Store) (id request_id : String) (row r : QueueRow)
    → IsValid d.message_queue
    → find? (forwarded_row id request_id) d.message_queue ≡ some row
    → In r d.message_queue
    → forwarded_row id request_id r ≡ true
    → r ≡ row
rejected_row d id request_id row r v f m p =
    let (n, k) = find-In (forwarded_row id request_id) row d.message_queue f in
    one_row d.message_queue r row v.distinct m n
      (forwarded_row-request id request_id r p ∙ sym (forwarded_row-request id request_id row k))

pub reject_forwarded-EvolvesAll :
    (d d' : Store) (id request_id reason : String) (now : ℕ)
    → IsValid d.message_queue
    → reject_forwarded d id request_id reason now ≡ ok d'
    → EvolvesAll d.message_queue d'.message_queue
reject_forwarded-EvolvesAll d d' id request_id reason now v h =
    elim (reject_forwarded-ok d d' id request_id reason now h) [
      | inl (f, e) ↦ rw e (EvolvesAll-refl d.message_queue)
      | inr (row, f, e) ↦ rw e (
          EvolvesAll-update _ _ d.message_queue (λ r m p.
            let same : r ≡ row = rejected_row d id request_id row r v f m p in
            subst (λ (x : QueueRow). Evolves r (returned x.message (x.message.revision + 1) r)) same
              (returned-Evolves r (forwarded_live _ r p))))
    ]

pub consume_rows-EvolvesAll :
    (id : String) (requests : List String) (rows : List QueueRow)
    → EvolvesAll rows (consume_rows id requests rows)
unfolding consume_rows
consume_rows-EvolvesAll id [] rows = EvolvesAll-refl rows
consume_rows-EvolvesAll id (x ∷ xs) rows =
    let consumed = update_where (forwarded_row id x) (with_status dispatched) rows in
    EvolvesAll-trans rows consumed (consume_rows id xs consumed)
      (EvolvesAll-update _ _ rows
        (λ r _ p. with_status-Evolves dispatched r (forwarded_live _ r p)))
      (consume_rows-EvolvesAll id xs consumed)

pub uncertain_forwarded-rows :
    (d d' : Store) (id : String) (now : ℕ)
    → uncertain_forwarded d id now ≡ ok d'
    → d'.message_queue ≡ update_where (forwarded_in id) (with_status uncertain) d.message_queue
unfolding uncertain_forwarded
uncertain_forwarded-rows d d' id now h = ground arith

pub uncertain_forwarded-EvolvesAll :
    (d d' : Store) (id : String) (now : ℕ)
    → uncertain_forwarded d id now ≡ ok d'
    → EvolvesAll d.message_queue d'.message_queue
uncertain_forwarded-EvolvesAll d d' id now h = rw (uncertain_forwarded-rows d d' id now h) (
    EvolvesAll-update _ _ d.message_queue
      (λ r _ p. with_status-Evolves uncertain r (forwarded_live _ r p)))

-- One round of the loop that opens the store.
pub quarantine-ok :
    (d d' : Store) (id : String) (ids : List String) (now : ℕ)
    → quarantine d (id ∷ ids) now ≡ ok d'
    → (u : Store) × (p : Store) × (uncertain_forwarded d id now ≡ ok u)
      × (pause_queue u id (some "后台已重启，请核对已发送的消息") ≡ ok p)
      × (quarantine p ids now ≡ ok d')
unfolding quarantine
quarantine-ok d d' id ids now h =
    let (u, hu, k) = >>=-eq-ok (uncertain_forwarded d id now) _ h in
    let (p, hp, l) = >>=-eq-ok (pause_queue u id _) _ k in (u, p, hu, hp, l)

quarantine-EvolvesAll :
    (d d' : Store) (ids : List String) (now : ℕ)
    → quarantine d ids now ≡ ok d'
    → EvolvesAll d.message_queue d'.message_queue
unfolding quarantine
quarantine-EvolvesAll d d' [] now h =
    let e : d' ≡ d = ground arith in rw e (EvolvesAll-refl d.message_queue)
quarantine-EvolvesAll d d' (id ∷ ids) now h =
    let (u, p, hu, hp, k) = quarantine-ok d d' id ids now h in
    let e : p.message_queue ≡ u.message_queue = pause_queue-rows u p id _ hp in
    EvolvesAll-trans d.message_queue u.message_queue d'.message_queue
      (uncertain_forwarded-EvolvesAll d u id now hu)
      (rw e at (quarantine-EvolvesAll p d' ids now k))

pub reopen-EvolvesAll :
    (d d' : Store) (now : ℕ) → reopen d now ≡ ok d' → EvolvesAll d.message_queue d'.message_queue
unfolding reopen
reopen-EvolvesAll d d' now h = quarantine-EvolvesAll (initialize d) d' _ now h
