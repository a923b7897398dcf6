-- ===== src/Store/State.antt =====
-- crates/latte-work-server/src/store.rs: the tables of the SQLite database, as lists of rows in
-- insertion order. A column that holds JSON holds the value here.
use latte_work.Common.{ℕ, String, Bool, List, Option}
use latte_work.Protocol.Values.{Session, QueuedMessage, TaskSource, Subagent, Project, Effort}
use latte_work.Protocol.Events.{EventKind, Json}

-- The `status` column of `message_queue`: the texts that the code writes there.
pub data QueueStatus : Type 0 where
  pending forwarded dispatched uncertain taken cancelled : QueueStatus

pub record QueueRow : Type 0 where
  pub position : ℕ
  pub request_id : String
  pub session_id : String
  pub admission : QueuedMessage
  pub message : QueuedMessage
  pub fingerprint : Option String
  pub status : QueueStatus
  pub sort_order : ℕ

pub record QueueStateRow : Type 0 where
  pub session_id : String
  pub paused : Bool
  pub reason : Option String

pub record EventRow : Type 0 where
  pub session_id : String
  pub at : ℕ
  pub event : EventKind

pub record RequestRow : Type 0 where
  pub id : String
  pub session_id : String
  pub text : String
  pub model : Option String
  pub effort : Option Effort
  pub provider_fingerprint : Option String
  pub permission_mode : Option String

-- File contents and stored objects are opaque here: their JSON.
pub record Snapshot : Type 0 where
  pub at : ℕ
  pub root_identity : Option (ℕ × ℕ)
  pub files : List (String × Option Json)
  pub manifest : Option Json
  pub storage : Option String
  pub modes : List (String × ℕ)
  pub truncated : Bool
  pub unavailable : Option String

pub record TurnChangesRow : Type 0 where
  pub session_id : String
  pub request_id : String
  pub baseline : Option Snapshot
  pub frozen : Option Json

pub record TaskSourceRow : Type 0 where
  pub session_id : String
  pub source : TaskSource
  pub at : ℕ

pub record SubagentRow : Type 0 where
  pub session_id : String
  pub active : Bool
  pub at : ℕ
  pub task : Subagent

pub record Store : Type 0 where
  pub projects : List Project
  pub hidden_projects : List String
  pub sessions : List Session
  pub events : List EventRow
  pub requests : List RequestRow
  pub turn_changes : List TurnChangesRow
  pub task_sources : List TaskSourceRow
  pub observed_tools : List (String × String)
  pub subagents : List SubagentRow
  pub message_queue : List QueueRow
  pub message_queue_state : List QueueStateRow
  -- The last key that AUTOINCREMENT gave out in `message_queue`.
  pub last_position : ℕ

-- What the operations use of other libraries: the sizes that `serde_json` gives to a queued
-- message and to an event, and its reading of a JSON array of references.
pub record Reference : Type 0 where
  pub path : Option String
  pub kind : Option String
  pub name : Option String
  pub mime_type : Option String

pub record JsonLibrary : Type 0 where
  pub message_len : QueuedMessage → ℕ
  pub event_len : EventKind → ℕ
  pub parse_references : String → Option (List Reference)

-- One value for each refusal of the code, and for each constraint of the schema.
pub data Error : Type 0 where
  -- the schema
  unique_violation foreign_key_violation no_rows : Error
  -- sessions and turns
  unknown_session unknown_project archived_pin too_many_pinned active_archive : Error
  invalid_title invalid_project_name project_active : Error
  invalid_request request_reused provider_changed session_busy session_archived : Error
  record_too_large : Error
  -- the message queue
  queue_id_reused already_taken already_cancelled invalid_message other_provider : Error
  queue_full queue_bytes_full not_queued stale_revision revision_overflow : Error
  invalid_order incomplete_order order_changed not_pending not_takeable : Error
