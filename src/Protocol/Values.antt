-- ===== src/Protocol/Values.antt =====
-- crates/latte-work-protocol/src/lib.rs. Data that several messages carry: projects, sessions, usage, child agents, questions.
-- Times, sequence numbers and token counts, which the wire carries as `f64`, are whole numbers here.
use latte_work.Common.{ℕ, String, Bool, Option, List}

pub data Effort : Type 0 where
  low : Effort
  medium : Effort
  high : Effort
  xhigh : Effort
  max : Effort

pub data Status : Type 0 where
  ready : Status
  running : Status
  waiting : Status
  completed : Status
  failed : Status
  stopped : Status
  unknown : Status

pub record Project : Type 0 where
  pub id : String
  pub name : String
  pub path : String

pub record TerminalInfo : Type 0 where
  pub id : String
  pub project_id : String
  pub title : String
  pub exited : Bool
  pub exit_code : Option ℕ

pub record Session : Type 0 where
  pub id : String
  pub project_id : String
  pub title : String
  pub agent : String
  pub native_id : Option String
  pub model : Option String
  pub effort : Option Effort
  pub permission_mode : Option String
  pub status : Status
  pub created_at : ℕ
  pub custom_title : Bool
  pub pinned_at : Option ℕ
  pub unread : Bool
  pub archived : Bool
  pub agent_session_open : Option Bool
  pub agent_session_busy : Option Bool

pub record RecentCursor : Type 0 where
  pub updated_at : ℕ
  pub id : String

pub record RecentSession : Type 0 where
  pub session : Session
  pub updated_at : ℕ

pub data ExecutionPhase : Type 0 where
  waiting : ExecutionPhase
  thinking : ExecutionPhase
  replying : ExecutionPhase

pub record ContextUsage : Type 0 where
  pub model : String
  pub used_tokens : ℕ
  pub window_tokens : Option ℕ

pub record TurnUsage : Type 0 where
  pub input_tokens : Option ℕ
  pub cache_read_tokens : Option ℕ
  pub cache_write_tokens : Option ℕ
  pub output_tokens : Option ℕ
  pub model_time_ms : Option ℕ
  pub steps : Option ℕ

pub data SubagentStatus : Type 0 where
  running : SubagentStatus
  paused : SubagentStatus
  completed : SubagentStatus
  failed : SubagentStatus
  stopped : SubagentStatus
  unknown : SubagentStatus

pub record SubagentUpdate : Type 0 where
  pub id : String
  pub tool_use_id : Option String
  pub title : Option String
  pub agent_type : Option String
  pub status : Option SubagentStatus
  pub summary : Option String
  pub last_tool : Option String

pub record Subagent : Type 0 where
  pub id : String
  pub native_id : String
  pub tool_use_id : Option String
  pub title : String
  pub agent_type : Option String
  pub status : SubagentStatus
  pub summary : Option String
  pub last_tool : Option String
  pub started_at : Option ℕ
  pub updated_at : ℕ

pub record QueuedMessage : Type 0 where
  pub request_id : String
  pub text : String
  pub model : Option String
  pub effort : Option Effort
  pub permission_mode : Option String
  pub revision : ℕ
  pub created_at : ℕ

pub record QuestionOption : Type 0 where
  pub label : String
  pub description : String

pub record UserQuestion : Type 0 where
  pub id : String
  pub header : String
  pub text : String
  pub options : List QuestionOption
  pub multi_select : Bool

pub record QuestionAnswer : Type 0 where
  pub question_id : String
  pub option_indices : List ℕ
  pub text : Option String

pub record ModelVariant : Type 0 where
  pub model : String
  pub label : String
  pub context_window : Option ℕ

pub record FileEntry : Type 0 where
  pub name : String
  pub path : String
  pub directory : Bool

pub data SourceKind : Type 0 where
  file : SourceKind
  directory : SourceKind
  tool : SourceKind
  connector : SourceKind

pub record TaskSource : Type 0 where
  pub id : String
  pub name : String
  pub kind : SourceKind
  pub path : Option String
  pub mime_type : Option String
  pub tools : List String
  pub uses : ℕ
