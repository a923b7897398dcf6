-- ===== src/Protocol/Requests.antt =====
-- crates/latte-work-protocol/src/lib.rs. The requests of a client.
-- Times, sequence numbers and token counts, which the wire carries as `f64`, are whole numbers here.
use latte_work.Common.{ℕ, String, Bool, Option, List}
use latte_work.Protocol.Values.{Effort, QuestionAnswer, RecentCursor}
use latte_work.Protocol.Providers.{
  Provider, ProviderDraft, ProviderSnapshot, ProviderTarget, SkillImportFile, SkillScope,
  SkillState, TurnProvider,
}
use latte_work.Protocol.Changes.{ChangePreviewTarget, ChangeSection, GitReviewScope}

pub data Request : Type 0 where
  hello : (version : ℕ) → Request
  projects : Request
  terminals : (project_id : String) → Request
  create_terminal :
      (project_id : String) → (terminal_id : String) → (cols : ℕ) → (rows : ℕ) → Request
  read_terminal : (terminal_id : String) → (after : ℕ) → Request
  write_terminal : (terminal_id : String) → (bytes : List ℕ) → Request
  resize_terminal : (terminal_id : String) → (cols : ℕ) → (rows : ℕ) → Request
  close_terminal : (terminal_id : String) → Request
  providers : Request
  agent_permissions : (agent : String) → Request
  agent_commands : (agent : String) → (project_id : String) → Request
  models : (agent : String) → (model : Option String) → (project_id : Option String) → Request
  save_provider : (provider : ProviderDraft) → Request
  delete_provider : (id : String) → Request
  bind_agent_provider :
      (agent : String) → (provider_id : Option String) → (target : Option ProviderTarget) → Request
  providers_for_host : (host_id : String) → Request
  forget_host_providers : (host_id : String) → Request
  bind_host_agent_provider :
      (host_id : String) → (agent : String) → (provider_id : Option String) → Request
  export_host_agent_provider : (host_id : String) → (agent : String) → Request
  models_for_provider :
      (agent : String)
      → (model : Option String) → (project_id : Option String) → (provider : Option Provider)
      → Request
  session : (session_id : String) → Request
  sync_agent_provider : (agent : String) → (snapshot : Option ProviderSnapshot) → Request
  add_project : (path : String) → (name : Option String) → Request
  rename_project : (project_id : String) → (name : String) → Request
  remove_project : (project_id : String) → Request
  browse_directories : (path : Option String) → Request
  sessions : (project_id : String) → Request
  pinned_sessions : Request
  recent_sessions : (before : Option RecentCursor) → Request
  rename_session : (session_id : String) → (title : String) → Request
  pin_session : (session_id : String) → (pinned : Bool) → Request
  mark_session_unread : (session_id : String) → (unread : Bool) → Request
  archive_session : (session_id : String) → (archived : Bool) → Request
  create_session : (project_id : String) → (agent : String) → Request
  open_agent_session : (session_id : String) → (provider : Option TurnProvider) → Request
  close_agent_session : (session_id : String) → (only_if_idle : Option Bool) → Request
  send_queued :
      (provider : Option TurnProvider)
      → (session_id : String) → (request_id : String) → (text : String) → (model : Option String)
      → (effort : Option Effort) → (permission_mode : Option String) → Request
  message_queue : (session_id : String) → Request
  reorder_message_queue :
      (session_id : String) → (expected : List String) → (order : List String) → Request
  take_queued_message : (session_id : String) → (request_id : String) → (revision : ℕ) → Request
  dispatch_queued_message :
      (interrupt : Bool)
      → (session_id : String) → (request_id : String) → (revision : ℕ)
      → (provider : Option TurnProvider) → Request
  edit_queued_message :
      (session_id : String) → (request_id : String) → (revision : ℕ) → (text : String) → Request
  cancel_queued_message : (session_id : String) → (request_id : String) → (revision : ℕ) → Request
  clear_message_queue : (session_id : String) → Request
  resume_message_queue : (session_id : String) → (provider : Option TurnProvider) → Request
  send :
      (provider : Option TurnProvider)
      → (session_id : String) → (request_id : String) → (text : String) → (model : Option String)
      → (effort : Option Effort) → (permission_mode : Option String) → Request
  history : (session_id : String) → (before : Option ℕ) → Request
  poll : (session_id : String) → (after : ℕ) → Request
  subagents : (session_id : String) → Request
  subagent_transcript : (session_id : String) → (task_id : String) → Request
  subagent_history :
      (provider : Option TurnProvider)
      → (session_id : String) → (task_id : String) → (after : Option ℕ) → (source : Option String)
      → Request
  answer_question :
      (session_id : String)
      → (request_id : String) → (answers : Option (List QuestionAnswer)) → Request
  approve : (session_id : String) → (request_id : String) → (allow : Bool) → Request
  cancel : (session_id : String) → Request
  files : (project_id : String) → (path : String) → Request
  begin_attachment : (name : String) → (size : ℕ) → Request
  attachment_chunk : (id : String) → (offset : ℕ) → (bytes : List ℕ) → Request
  finish_attachment : (id : String) → Request
  abort_attachment : (id : String) → Request
  resolve_reference : (project_id : String) → (path : String) → Request
  reference_access : (project_id : String) → Request
  revoke_reference_access : (project_id : String) → (path : String) → Request
  read_file : (project_id : String) → (path : String) → Request
  diff : (project_id : String) → Request
  changes : (project_id : String) → Request
  git_info : (project_id : String) → Request
  git_commits : (project_id : String) → (head : Option String) → (offset : ℕ) → Request
  git_review : (project_id : String) → (scope : GitReviewScope) → (base : Option String) → Request
  git_review_diff :
      (project_id : String)
      → (scope : GitReviewScope) → (base : Option String) → (head : Option String) → (path : String)
      → (full_context : Bool) → Request
  change_summary :
      (project_id : String)
      → (session_id : Option String) → (path : Option String) → (offset : Option ℕ) → Request
  undo_turn_changes : (session_id : String) → (request_id : String) → Request
  turn_change_summary :
      (session_id : String)
      → (request_id : String) → (path : Option String) → (offset : Option ℕ) → Request
  last_turn_changes : (session_id : String) → (offset : Option ℕ) → (path : Option String) → Request
  turn_change_diff : (session_id : String) → (request_id : String) → (path : String) → Request
  task_change_diff : (session_id : String) → (path : String) → Request
  skills : (project_id : Option String) → Request
  skill_detail : (project_id : Option String) → (id : String) → Request
  set_skill_state :
      (project_id : Option String)
      → (id : String) → (state : SkillState) → (expected_state : SkillState) → Request
  install_skill : (project_id : Option String) → (scope : SkillScope) → (path : String) → Request
  import_skill_files : (name : String) → (files : List SkillImportFile) → Request
  skill_info : (session_id : String) → (name : String) → Request
  sources : (session_id : String) → Request
  preview_source :
      (project_id : String)
      → (session_id : Option String) → (path : String) → (offset : ℕ) → Request
  preview_change :
      (target : ChangePreviewTarget) → (path : String) → (before : Bool) → (offset : ℕ) → Request
  change_diff : (project_id : String) → (path : String) → (section : ChangeSection) → Request
