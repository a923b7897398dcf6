-- ===== src/Queue/Admission.antt =====
-- crates/latte-work-server/src/message_queue.rs: `enqueue` and `queued_duplicate`.
use latte_work.Common.{
  ℕ, ◌+◌, ◌*◌, String, len, Bool, true, false, not, ◌&&◌, ◌||◌, [], ◌∷◌, ◌++◌, Option, some, none,
  ◌==◌, ltb, leb, if◌then◌else◌, find?, any, count_where, sum_where, is_some_and, opt_eq, is_empty,
  trim, Result, ok, err, bail_if, ◌>>=◌, ◌>>◌,
}
use latte_work.Protocol.Values.{Effort, QueuedMessage}
use latte_work.Protocol.Providers.{Provider}
use latte_work.Protocol.Events.{Json}
use latte_work.Protocol.Responses.{Response}
use latte_work.Store.State.{
  Store, QueueRow, QueueStatus, pending, taken, cancelled, JsonLibrary, Error, unique_violation,
  session_archived, queue_id_reused, already_taken, already_cancelled, invalid_message,
  other_provider, queue_full, queue_bytes_full,
}
use latte_work.Store.Sessions.{session}
use latte_work.Queue.Rows.{queued, counted_in, last_order}

-- providers.rs. The native model selection is opaque here: its JSON.
pub record ResolvedProvider : Type 0 where
  pub metadata : Provider
  pub credential : String

pub record LaunchConfig : Type 0 where
  pub provider : Option ResolvedProvider
  pub settings_dir : String
  pub model : Option String
  pub traex_model : Option Json
  pub effort : Option Effort
  pub permission_mode : Option String

-- runtime.rs.
pub record SendTurn : Type 0 where
  pub request_id : String
  pub text : String
  pub model : Option String
  pub fingerprint : Option String
  pub config : LaunchConfig

-- The derived `==` of `Effort`.
abbrev pub same_effort : Effort → Effort → Bool
same_effort Effort.low Effort.low = true
same_effort Effort.medium Effort.medium = true
same_effort Effort.high Effort.high = true
same_effort Effort.xhigh Effort.xhigh = true
same_effort Effort.max Effort.max = true
same_effort _ _ = false

abbrev pub opt_same_effort : Option Effort → Option Effort → Bool
opt_same_effort none none = true
opt_same_effort (some a) (some b) = same_effort a b
opt_same_effort _ _ = false

-- What a repeated submission must agree with.
unfoldable pub same_submission : String → SendTurn → QueueRow → Bool
same_submission id turn row =
    row.session_id == id
    && row.admission.text == turn.text
    && opt_eq row.admission.model turn.model
    && opt_same_effort row.admission.effort turn.config.effort
    && opt_eq row.admission.permission_mode turn.config.permission_mode
    && opt_eq row.fingerprint turn.fingerprint

unfoldable pub duplicate_answer : QueueStatus → Result Error (Option Response)
duplicate_answer taken = err already_taken
duplicate_answer cancelled = err already_cancelled
duplicate_answer pending = ok (some (Response.message_queued true))
duplicate_answer _ = ok (some (Response.accepted true))

unfoldable pub queued_duplicate : Store → String → SendTurn → Result Error (Option Response)
unfolding same_submission duplicate_answer
queued_duplicate d id turn = elim (find? (λ r. r.request_id == turn.request_id) d.message_queue) [
  | none ↦ ok none
  | some row ↦
      bail_if (not (same_submission id turn row)) queue_id_reused >> duplicate_answer row.status
]

abbrev pub max_text : ℕ
max_text = 128 * 1024

abbrev pub max_queue_bytes : ℕ
max_queue_bytes = 512 * 1024

unfoldable pub is_invalid_turn : SendTurn → Bool
is_invalid_turn turn =
    is_empty (trim turn.text)
    || ltb max_text (len turn.text)
    || is_empty turn.request_id
    || ltb 100 (len turn.request_id)
    || is_some_and (λ v. ltb 256 (len v)) turn.model
    || is_some_and (λ v. ltb 128 (len v)) turn.config.permission_mode

unfoldable pub new_entry : SendTurn → ℕ → QueuedMessage
new_entry turn now = record {
  request_id = turn.request_id;
  text = turn.text;
  model = turn.model;
  effort = turn.config.effort;
  permission_mode = turn.config.permission_mode;
  revision = 0;
  created_at = now;
}

unfoldable pub new_row : Store → String → SendTurn → ℕ → QueueRow
unfolding new_entry
new_row d id turn now = record {
  position = d.last_position + 1;
  request_id = turn.request_id;
  session_id = id;
  admission = new_entry turn now;
  message = new_entry turn now;
  fingerprint = turn.fingerprint;
  status = pending;
  sort_order = last_order id d.message_queue + 1;
}

-- The transaction: INSERT INTO message_queue, INSERT OR IGNORE INTO message_queue_state.
unfoldable pub admit : Store → String → SendTurn → ℕ → Store
unfolding new_row
admit d id turn now = record d {
  message_queue = d.message_queue ++ new_row d id turn now ∷ [];
  last_position = d.last_position + 1;
  message_queue_state =
      if any (λ s. s.session_id == id) d.message_queue_state
      then d.message_queue_state
      else d.message_queue_state ++ record { session_id = id; paused = false; reason = none } ∷ [];
}

module _ (json : JsonLibrary) where
  -- SUM(length(data)) over the counted rows of a session.
  unfoldable pub queue_bytes : Store → String → ℕ
  queue_bytes d id = sum_where (counted_in id) (λ r. json.message_len r.message) d.message_queue

  unfoldable pub enqueue : Store → String → SendTurn → ℕ → Result Error Store
  enqueue d id turn now = do
    bail_if (is_invalid_turn turn) invalid_message
    s ← session d id
    bail_if s.archived session_archived
    entries ← queued d id
    bail_if (any (λ e. not (opt_eq e.1 turn.fingerprint)) entries) other_provider
    bail_if (leb 16 (count_where (counted_in id) d.message_queue)) queue_full
    bail_if (ltb max_queue_bytes (queue_bytes d id + json.message_len (new_entry turn now)))
        queue_bytes_full
    bail_if (any (λ r. r.request_id == turn.request_id) d.message_queue) unique_violation
    ok (admit d id turn now)
