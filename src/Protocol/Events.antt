-- ===== src/Protocol/Events.antt =====
-- crates/latte-work-protocol/src/lib.rs. The events of a session.
-- Times, sequence numbers and token counts, which the wire carries as `f64`, are whole numbers here.
use latte_work.Common.{ℕ, String, Bool, Option, List}
use latte_work.Protocol.Values.{
  ContextUsage, ExecutionPhase, QuestionAnswer, Status, SubagentUpdate, TurnUsage, UserQuestion,
}
use latte_work.Protocol.Changes.{TurnChanges}

-- `serde_json::Value`, as its text.
abbrev pub Json : Type 0
Json = String

pub data EventKind : Type 0 where
  turn_changes : (changes : TurnChanges) → EventKind
  subagent : (update : SubagentUpdate) → EventKind
  progress : (phase : ExecutionPhase) → EventKind
  usage : (context : Option ContextUsage) → (totals : Option TurnUsage) → EventKind
  user : (text : String) → (request_id : String) → EventKind
  queued_message_sent : (text : String) → (request_id : String) → EventKind
  text : (text : String) → EventKind
  tool : (id : String) → (name : String) → (input : Json) → EventKind
  tool_result : (id : String) → (content : Json) → (is_error : Bool) → EventKind
  question :
      (request_id : String)
      → (tool_use_id : Option String) → (questions : List UserQuestion) → EventKind
  question_resolved : (request_id : String) → (answers : Option (List QuestionAnswer)) → EventKind
  approval :
      (request_id : String)
      → (tool_use_id : Option String) → (tool : String) → (input : Json) → EventKind
  approval_resolved : (request_id : String) → (allow : Bool) → EventKind
  state : (status : Status) → (message : Option String) → EventKind
  notice : (text : String) → EventKind

pub record Event : Type 0 where
  pub seq : ℕ
  pub session_id : String
  pub at : ℕ
  pub event : EventKind
