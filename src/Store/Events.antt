-- ===== src/Store/Events.antt =====
-- crates/latte-work-server/src/store.rs: `event`, `observe_tool` and the index of a task's sources.
use latte_work.Common.{
  ℕ, ◌+◌, ◌*◌, String, len, Bool, true, false, not, ◌&&◌, ◌||◌, List, [], ◌∷◌, ◌++◌, Option, some,
  none, ◌==◌, ltb, leb, if◌then◌else◌, find?, any, count_where, length, contains, update_where, min,
  is_empty, Result, ok, bail_if, ◌>>=◌, ◌>>◌,
}
use latte_work.Protocol.Values.{TaskSource, Subagent, SubagentStatus, SubagentUpdate}
use latte_work.Protocol.Events.{EventKind}
use latte_work.Store.State.{
  Store, JsonLibrary, TaskSourceRow, SubagentRow, Error, record_too_large, foreign_key_violation,
}
use latte_work.Store.Sessions.{session_exists, insert_event}
use latte_work.Store.Sources.{tool_source, event_sources}

abbrev pub source_of : String → String → TaskSourceRow → Bool
source_of session id r = r.session_id == session && r.source.id == id

-- The tools of the earlier row that the new one lacks, while there is room.
unfoldable pub merge_tools : List String → List String → List String
merge_tools tools [] = tools
merge_tools tools (t ∷ ts) =
    merge_tools (if not (contains tools t) && ltb (length tools) 64 then tools ++ t ∷ [] else tools)
      ts

-- u32::saturating_add.
unfoldable pub saturating_add : ℕ → ℕ → ℕ
saturating_add a b = min (a + b) 4294967295

unfoldable pub merge_source : TaskSource → TaskSource → TaskSource
unfolding merge_tools saturating_add
merge_source previous source = record source {
  uses = saturating_add previous.uses source.uses;
  tools = merge_tools source.tools previous.tools;
}

unfoldable pub index_source : String → ℕ → Store → TaskSource → Store
unfolding merge_source
index_source session now d source = elim (find? (source_of session source.id) d.task_sources) [
  | some row ↦ record d {
    task_sources =
        update_where (source_of session source.id)
          (λ r. record r { source = merge_source row.source source; at = now }) d.task_sources;
  }
  | none ↦
      if leb 512 (count_where (λ r. r.session_id == session) d.task_sources) then d else record d {
        task_sources =
            d.task_sources ++ record { session_id = session; source = source; at = now } ∷ [];
      }
]

unfoldable pub index_sources : String → ℕ → List TaskSource → Store → Store
unfolding index_source
index_sources session now [] d = d
index_sources session now (s ∷ ss) d = index_sources session now ss (index_source session now d s)

-- INSERT OR IGNORE INTO observed_tools, then the source of a tool that was not there.
unfoldable pub index_tool : String → String → String → ℕ → Store → Store
unfolding index_source tool_source
index_tool session id name now d =
    if is_empty id || ltb 512 (len id)
    then d
    else (if any (λ t. t.0 == session && t.1 == id) d.observed_tools
        then d
        else (let seen = record d { observed_tools = d.observed_tools ++ (session, id) ∷ [] } in
            elim (tool_source name) [ none ↦ seen | some s ↦ index_source session now seen s ]))

unfoldable pub index_event : JsonLibrary → String → EventKind → ℕ → Store → Store
index_event json session (EventKind.tool id name input) now d = index_tool session id name now d
index_event json session event now d = index_sources session now (event_sources json event) d

-- `Store::observe_tool`.
unfoldable pub observe_tool : Store → String → String → String → ℕ → Result Error Store
unfolding index_tool
observe_tool d session id name now =
    bail_if (not (is_empty id || ltb 512 (len id)) && not (session_exists d session))
      foreign_key_violation
    >> ok (index_tool session id name now d)

-- `SubagentStatus::active`.
abbrev pub subagent_active : SubagentStatus → Bool
subagent_active SubagentStatus.running = true
subagent_active SubagentStatus.paused = true
subagent_active _ = false

abbrev is_unknown : SubagentStatus → Bool
is_unknown SubagentStatus.unknown = true
is_unknown _ = false

-- Out-of-order progress cannot resurrect a confirmed terminal task.
unfoldable pub next_status : SubagentStatus → SubagentStatus → SubagentStatus
next_status old new =
    if subagent_active old || is_unknown old || not (subagent_active new) then new else old

or_keep {ℓ} : {A : Type ℓ} → Option A → A → A
or_keep none old = old
or_keep (some new) old = new

or_keep? {ℓ} : {A : Type ℓ} → Option A → Option A → Option A
or_keep? none old = old
or_keep? (some new) old = some new

with_new_status : Option SubagentStatus → ℕ → Subagent → Subagent
unfolding next_status
with_new_status none at t = t
with_new_status (some s) at t = record t {
  status = next_status t.status s;
  started_at = elim t.started_at [
    | some b ↦ some b
    | none ↦ if subagent_active s then some at else none
  ];
}

unfoldable pub update_task : SubagentUpdate → ℕ → Subagent → Subagent
unfolding or_keep or_keep? with_new_status
update_task u at t =
    let t' = with_new_status u.status at t in
    record t' {
      native_id = u.id;
      tool_use_id = or_keep? u.tool_use_id t.tool_use_id;
      title = or_keep u.title t.title;
      agent_type = or_keep? u.agent_type t.agent_type;
      summary = or_keep? u.summary t.summary;
      last_tool = or_keep? u.last_tool t.last_tool;
      updated_at = at;
    }

fresh_task : SubagentUpdate → ℕ → Subagent
fresh_task u at = record {
  id = u.id;
  native_id = u.id;
  tool_use_id = u.tool_use_id;
  title = "子智能体";
  agent_type = none;
  status = SubagentStatus.unknown;
  summary = none;
  last_tool = none;
  started_at = none;
  updated_at = at;
}

abbrev same_tool : Option String → Option String → Bool
same_tool (some a) (some b) = a == b
same_tool _ _ = false

-- id=?2 OR native_id=?2 OR (tool_use_id IS NOT NULL AND tool_use_id=?3).
abbrev pub names_task : String → SubagentUpdate → SubagentRow → Bool
names_task session u r =
    r.session_id == session
    && (r.task.id == u.id || r.task.native_id == u.id || same_tool r.task.tool_use_id u.tool_use_id)

-- ORDER BY at DESC LIMIT 1. Among rows of the same time the first stands for SQLite's choice.
later_row : SubagentRow → Option SubagentRow → Option SubagentRow
later_row r none = some r
later_row r (some s) = if ltb r.at s.at then some s else some r

unfoldable pub latest : (SubagentRow → Bool) → List SubagentRow → Option SubagentRow
unfolding later_row
latest p [] = none
latest p (r ∷ rs) = let rest = latest p rs in if p r then later_row r rest else rest

abbrev task_row : String → String → SubagentRow → Bool
task_row session id r = r.session_id == session && r.task.id == id

upsert_task : String → ℕ → Subagent → List SubagentRow → List SubagentRow
upsert_task session at task rows =
    let row : SubagentRow = record {
      session_id = session;
      active = subagent_active task.status;
      at = at;
      task = task;
    } in
    if any (task_row session task.id) rows
    then update_where (task_row session task.id) (λ _. row) rows
    else rows ++ row ∷ []

-- The task that an update leads to.
unfoldable pub updated_task : Store → String → SubagentUpdate → ℕ → Subagent
unfolding latest update_task fresh_task
updated_task d session u at = elim (latest (names_task session u) d.subagents) [
  | some row ↦ update_task u at row.task
  | none ↦ update_task u at (fresh_task u at)
]

insert_indexed : JsonLibrary → Store → String → ℕ → EventKind → Result Error Store
unfolding insert_event index_event
insert_indexed json d session at e = do
  inserted ← insert_event d session at e
  ok (index_event json session e at inserted)

record_limit : ℕ
record_limit = 256 * 1024

-- `Store::event`.
unfoldable pub event : JsonLibrary → Store → String → ℕ → EventKind → Result Error Store
unfolding updated_task upsert_task insert_indexed record_limit
event json d session at (EventKind.turn_changes changes) = do
  bail_if (ltb record_limit (json.event_len (EventKind.turn_changes changes))) record_too_large
  insert_indexed json d session at (EventKind.turn_changes changes)
event json d session at (EventKind.subagent u) = do
  bail_if (not (session_exists d session)) foreign_key_violation
  let task = updated_task d session u at
  insert_indexed json (record d { subagents = upsert_task session at task d.subagents }) session at
      (EventKind.subagent (record u { id = task.id }))
event json d session at e = insert_indexed json d session at e
