-- ===== src/Tests/Sample.antt =====
-- A small store with two sessions, and what is sent to it.
use latte_work.Common.{String, len, false, [], ◌∷◌, none, ◌+◌}
use latte_work.Protocol.Values.{Session, Status}
use latte_work.Store.State.{Store, JsonLibrary}
use latte_work.Store.Turns.{Turn}
use latte_work.Queue.Admission.{SendTurn, LaunchConfig}

-- Sizes that grow with the text, as those of `serde_json` do.
abbrev pub json : JsonLibrary
json = record {
  message_len = λ m. len m.text + 100;
  event_len = λ _. 100;
  parse_references = λ _. none;
}

abbrev pub session_called : String → Session
session_called id = record {
  id = id;
  project_id = "project";
  title = "新任务";
  agent = "claude";
  native_id = none;
  model = none;
  effort = none;
  permission_mode = none;
  status = Status.ready;
  created_at = 1;
  custom_title = false;
  pinned_at = none;
  unread = false;
  archived = false;
  agent_session_open = none;
  agent_session_busy = none;
}

abbrev pub empty : Store
empty = record {
  projects = [];
  hidden_projects = [];
  sessions = session_called "s" ∷ session_called "t" ∷ [];
  events = [];
  requests = [];
  turn_changes = [];
  task_sources = [];
  observed_tools = [];
  subagents = [];
  message_queue = [];
  message_queue_state = [];
  last_position = 0;
}

abbrev pub config : LaunchConfig
config = record {
  provider = none;
  settings_dir = "/state";
  model = none;
  traex_model = none;
  effort = none;
  permission_mode = none;
}

abbrev pub sent : String → String → SendTurn
sent request text = record {
  request_id = request;
  text = text;
  model = none;
  fingerprint = none;
  config = config;
}

abbrev pub turn : String → String → Turn
turn request text = record {
  session_id = "s";
  request_id = request;
  text = text;
  model = none;
  effort = none;
  provider_fingerprint = none;
  permission_mode = none;
}
