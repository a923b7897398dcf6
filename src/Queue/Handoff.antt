-- ===== src/Queue/Handoff.antt =====
-- crates/latte-work-server/src/message_queue.rs: the hand-over of messages to an Agent
-- (`pause_queue`, `mark_forwarded`, `reject_forwarded`, `consume_forwarded`,
-- `uncertain_forwarded`), and what happens to them when the store is opened again.
use latte_work.Common.{
  ℕ, String, concat, decimal, Bool, true, false, not, ◌&&◌, ◌||◌, List, [], ◌∷◌, map, Option, some,
  none, ◌==◌, ltb, eqb, if◌then◌else◌, find?, any, contains, select, update_where, count_where,
  Result, ok, bail_if, ok_or, ◌>>=◌, ◌>>◌,
}
use latte_work.Protocol.Values.{QueuedMessage}
use latte_work.Protocol.Events.{EventKind}
use latte_work.Store.State.{
  Store, QueueRow, TurnChangesRow, Snapshot, pending, forwarded, dispatched, uncertain, Error,
  no_rows, not_pending, revision_overflow,
}
use latte_work.Store.Sessions.{insert_event}
use latte_work.Queue.Rows.{
  is_pending, is_forwarded, pending_in, forwarded_in, row_of, with_status, upsert_state,
}
use latte_work.Queue.Edits.{checked_next}

-- `Store::pause_queue`.
unfoldable pub pause_queue : Store → String → Option String → Result Error Store
unfolding upsert_state
pause_queue d id none = upsert_state d id false none
pause_queue d id (some reason) = upsert_state d id true (some reason)

-- `task_changes::Snapshot::unavailable`.
unfoldable pub unavailable : String → ℕ → Snapshot
unavailable message now = record {
  at = now;
  root_identity = none;
  files = [];
  manifest = none;
  storage = none;
  modes = [];
  truncated = false;
  unavailable = some message;
}

abbrev pub has_baseline : String → TurnChangesRow → Bool
has_baseline id t = t.session_id == id && elim t.baseline [ none ↦ false | some _ ↦ true ]

overlapping : String
overlapping = "Agent 已接收后续消息，无法为重叠执行提供安全的单轮撤销"

-- `Store::mark_forwarded`, at the time `now`.
unfoldable pub mark_forwarded : Store → String → String → ℕ → ℕ → Result Error Store
unfolding insert_event unavailable overlapping
mark_forwarded d id request_id revision now = do
  row ← ok_or (find? (row_of id request_id) d.message_queue) no_rows
  bail_if (not (is_pending row.status) || not (eqb row.message.revision revision)) not_pending
  let rows = update_where (row_of id request_id) (with_status forwarded) d.message_queue
  noted ←
      insert_event (record d { message_queue = rows }) id now
        (EventKind.queued_message_sent row.message.text row.message.request_id)
  ok (record noted {
    turn_changes =
        update_where (has_baseline id)
          (λ t. record t { baseline = some (unavailable overlapping now) }) noted.turn_changes;
  })

-- The forwarded row that an UPDATE of a session's message meets.
abbrev pub forwarded_row : String → String → QueueRow → Bool
forwarded_row id request_id r = row_of id request_id r && is_forwarded r.status

unfoldable pub returned : QueuedMessage → ℕ → QueueRow → QueueRow
returned m revision r = record r { status = pending; message = record m { revision = revision } }

-- `Store::reject_forwarded`.
unfoldable pub reject_forwarded : Store → String → String → String → ℕ → Result Error Store
unfolding checked_next upsert_state insert_event returned
reject_forwarded d id request_id reason now =
    elim (find? (forwarded_row id request_id) d.message_queue) [
      | none ↦ ok d
      | some row ↦ do
        revision ← ok_or (checked_next row.message.revision) revision_overflow
        let rows =
            update_where (forwarded_row id request_id) (returned row.message revision)
              d.message_queue
        let text = concat "消息未被 Agent 接收，已退回队列：" reason
        noted ← upsert_state (record d { message_queue = rows }) id true (some text)
        insert_event noted id now (EventKind.notice text)
    ]

-- The loop of `Store::consume_forwarded`.
unfoldable pub consume_rows : String → List String → List QueueRow → List QueueRow
consume_rows id [] rows = rows
consume_rows id (request ∷ rest) rows =
    consume_rows id rest (update_where (forwarded_row id request) (with_status dispatched) rows)

-- `Store::consume_forwarded`.
unfoldable pub consume_forwarded : Store → String → List String → Store
unfolding consume_rows
consume_forwarded d id requests = record d {
  message_queue = consume_rows id requests d.message_queue;
}

-- `Store::uncertain_forwarded`. Of `Store::event` a notice reaches the insertion alone.
unfoldable pub uncertain_forwarded : Store → String → ℕ → Result Error Store
unfolding insert_event
uncertain_forwarded d id now =
    let n = count_where (forwarded_in id) d.message_queue in
    let rows = update_where (forwarded_in id) (with_status uncertain) d.message_queue in
    let t = record d { message_queue = rows } in
    if ltb 0 n
    then insert_event t id now
        (EventKind.notice (concat (decimal n) " 条已发送给 Agent 的消息处理状态待确认，请核对原生会话记录；不会自动重发。"))
    else ok t

-- `initialize` on a database of the present schema: each queue with pending messages is paused.
unfoldable pub initialize : Store → Store
initialize d = record d {
  message_queue_state =
      update_where (λ s. any (pending_in s.session_id) d.message_queue)
        (λ s. record s { paused = true; reason = some "后台已重启，请核对当前任务后继续排队" }) d.message_queue_state;
}

-- SELECT DISTINCT session_id … WHERE status='forwarded'.
unfoldable pub distinct : List String → List String
distinct [] = []
distinct (x ∷ xs) = if contains xs x then distinct xs else x ∷ distinct xs

unfoldable pub forwarded_sessions : List QueueRow → List String
unfolding distinct
forwarded_sessions rows =
    distinct (map (λ r. r.session_id) (select (λ r. is_forwarded r.status) rows))

unfoldable pub quarantine : Store → List String → ℕ → Result Error Store
quarantine d [] now = ok d
quarantine d (id ∷ ids) now = do
  u ← uncertain_forwarded d id now
  p ← pause_queue u id (some "后台已重启，请核对已发送的消息")
  quarantine p ids now

-- The queue's part of `Store::open`: `initialize`, and the loop over the forwarded messages.
unfoldable pub reopen : Store → ℕ → Result Error Store
unfolding initialize forwarded_sessions quarantine
reopen d now = quarantine (initialize d) (forwarded_sessions d.message_queue) now
