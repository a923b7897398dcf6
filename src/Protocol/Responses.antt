-- ===== src/Protocol/Responses.antt =====
-- crates/latte-work-protocol/src/lib.rs. The answers of a server.
-- Times, sequence numbers and token counts, which the wire carries as `f64`, are whole numbers here.
use latte_work.Common.{ℕ, String, Bool, Option, List}
use latte_work.Protocol.Values.{
  Effort, FileEntry, ModelVariant, Project, QueuedMessage, RecentCursor, RecentSession, Session,
  Subagent, TaskSource, TerminalInfo,
}
use latte_work.Protocol.Providers.{
  AgentInfo, AgentPermissionMode, AgentProviderBinding, AgentSlashCommand, ManagedSkill, Provider,
  ProviderSnapshot, SkillInfo,
}
use latte_work.Protocol.Changes.{
  ChangeSummary, GitChange, GitCommit, GitInfo, GitReview, ImagePreviewChunk, TurnChanges,
}
use latte_work.Protocol.Events.{Event}

pub data Response : Type 0 where
  recent_sessions : (sessions : List RecentSession) → (next : Option RecentCursor) → Response
  last_turn_changes : (changes : Option TurnChanges) → Response
  turn_changes : (changes : TurnChanges) → Response
  change_summary : (summary : ChangeSummary) → Response
  skills : (skills : List ManagedSkill) → (warnings : List String) → (truncated : Bool) → Response
  skill_detail : (skill : ManagedSkill) → (markdown : String) → Response
  skill_info : (skill : Option SkillInfo) → Response
  sources : (entries : List TaskSource) → (truncated : Bool) → Response
  source_preview :
      (bytes : List ℕ)
      → (mime_type : String) → (size : ℕ) → (next : ℕ) → (has_more : Bool) → Response
  source_directory : (entries : List FileEntry) → (truncated : Bool) → Response
  change_preview : (chunk : Option ImagePreviewChunk) → Response
  subagents : (tasks : List Subagent) → (truncated : Bool) → Response
  subagent_transcript : (events : List Event) → (truncated : Bool) → Response
  subagent_history :
      (prompt : Option String)
      → (events : List Event) → (has_more : Bool) → (after : Option ℕ) → (source_has_more : Bool)
      → (incomplete : Bool) → (source : String) → Response
  changes : (entries : List GitChange) → (truncated : Bool) → Response
  git_info : (info : GitInfo) → Response
  git_commits : (head : Option String) → (commits : List GitCommit) → (has_more : Bool) → Response
  git_review : (review : GitReview) → Response
  agent_permissions : (modes : List AgentPermissionMode) → Response
  agent_commands : (commands : List AgentSlashCommand) → Response
  terminals : (terminals : List TerminalInfo) → Response
  terminal : (terminal : TerminalInfo) → Response
  terminal_output :
      (terminal : TerminalInfo)
      → (bytes : List ℕ) → (next : ℕ) → (has_more : Bool) → (truncated : Bool) → Response
  models :
      (models : List String)
      → (provider : Option String) → (default_model : Option String) → (effort_levels : List Effort)
      → (model_labels : List (String × String))
      → (model_variants : Option (List (String × List ModelVariant))) → Response
  provider_snapshot : (snapshot : Option ProviderSnapshot) → (configured : Bool) → Response
  providers : (providers : List Provider) → (bindings : List AgentProviderBinding) → Response
  hello :
      (version : ℕ)
      → (server_id : String) → (agents : List AgentInfo) → (permission_settings : Bool)
      → (history_window : Bool) → (skill_management : Bool) → (skill_file_import : Bool)
      → (change_preview : Bool) → Response
  projects : (projects : List Project) → Response
  project : (project : Project) → Response
  sessions : (sessions : List Session) → Response
  session : (session : Session) → Response
  queued_message_taken : (entry : QueuedMessage) → Response
  message_queued : (duplicate : Bool) → Response
  message_queue :
      (entries : List QueuedMessage) → (paused : Bool) → (reason : Option String) → Response
  accepted : (duplicate : Bool) → Response
  history :
      (events : List Event)
      → (session : Session) → (has_more : Bool) → (needs_earlier : Bool) → (before : Option ℕ)
      → Response
  events : (events : List Event) → (session : Session) → (has_more : Bool) → Response
  files : (entries : List FileEntry) → Response
  attachment_upload : (id : String) → Response
  file_reference : (entry : FileEntry) → Response
  reference_access : (entries : List FileEntry) → (truncated : Bool) → Response
  directories :
      (path : String)
      → (parent : Option String) → (entries : List FileEntry) → (truncated : Bool) → Response
  content : (text : String) → (truncated : Bool) → Response
  ok : Response
  error : (code : String) → (message : String) → Response
