-- ===== src/Store/Turns.antt =====
-- crates/latte-work-server/src/store.rs: the admission of a turn (`already_accepted`, `begin`) and
-- the status of a session (`state`).
pub mod Begun
pub mod Once
pub mod Later
use Prim.Native.String.{String as Text}
use latte_work.Common.{
  ℕ, zero, suc, ◌*◌, String, len, Bool, true, false, not, ◌&&◌, ◌||◌, [], ◌∷◌, ◌++◌, Option, some,
  none, ◌==◌, ltb, if◌then◌else◌, find?, update_where, opt_eq, is_empty, trim, Result, ok, bail_if,
  ◌>>=◌, ◌>>◌,
}
use latte_work.Protocol.Values.{Session, Status, Effort}
use latte_work.Protocol.Events.{EventKind}
use latte_work.Store.State.{
  Store, JsonLibrary, RequestRow, QueueRow, QueueStatus, dispatched, Error, invalid_request,
  request_reused, provider_changed, session_busy, session_archived,
}
use latte_work.Store.Sessions.{session, save, insert_event}
use latte_work.Store.Events.{index_event}
use latte_work.Store.Manage.{active}

-- Of the terminal states a turn's end marks the session unread.
abbrev pub is_end : Status → Bool
is_end Status.completed = true
is_end Status.failed = true
is_end Status.stopped = true
is_end _ = false

-- `Store::state`.
unfoldable pub state : Store → String → Status → Option String → ℕ → Result Error Store
unfolding session save insert_event
state d id status message now = do
  s ← session d id
  let s' = record s { unread = s.unread || (active s.status && is_end status); status = status }
  insert_event (record d { sessions = update_where (λ r. r.id == id) (λ _. s') d.sessions }) id now
      (EventKind.state status message)

-- `Effort::as_str`.
abbrev pub as_str : Effort → String
as_str Effort.low = "low"
as_str Effort.medium = "medium"
as_str Effort.high = "high"
as_str Effort.xhigh = "xhigh"
as_str Effort.max = "max"

abbrev pub opt_as_str : Option Effort → Option String
opt_as_str none = none
opt_as_str (some e) = some (as_str e)

-- The arguments that `already_accepted` and `begin` share.
pub record Turn : Type 0 where
  pub session_id : String
  pub request_id : String
  pub text : String
  pub model : Option String
  pub effort : Option Effort
  pub provider_fingerprint : Option String
  pub permission_mode : Option String

unfoldable pub is_invalid_request : Turn → Bool
is_invalid_request t =
    is_empty t.request_id
    || ltb 100 (len t.request_id)
    || is_empty (trim t.text)
    || ltb (128 * 1024) (len t.text)

unfoldable pub same_request : Turn → RequestRow → Bool
same_request t r =
    r.session_id == t.session_id
    && r.text == t.text
    && opt_eq r.model t.model
    && opt_eq (opt_as_str r.effort) (opt_as_str t.effort)
    && opt_eq r.permission_mode t.permission_mode

-- `Store::already_accepted`.
unfoldable pub already_accepted : Store → Turn → Result Error Bool
already_accepted d t = do
  bail_if (is_invalid_request t) invalid_request
  elim (find? (λ r. r.id == t.request_id) d.requests) [
    | none ↦ ok false
    | some r ↦ do
      bail_if (not (same_request t r)) request_reused
      bail_if (not (opt_eq r.provider_fingerprint t.provider_fingerprint)) provider_changed
      ok true
  ]

-- `chars().take(n)`.
unfoldable pub take_chars : ℕ → String → String
take_chars zero s = Text.[]
take_chars (suc n) Text.[] = Text.[]
take_chars (suc n) (Text.◌∷◌ c s) = Text.◌∷◌ c (take_chars n s)

unfoldable pub request_row : Turn → RequestRow
request_row t = record {
  id = t.request_id;
  session_id = t.session_id;
  text = t.text;
  model = t.model;
  effort = t.effort;
  provider_fingerprint = t.provider_fingerprint;
  permission_mode = t.permission_mode;
}

-- The session as a running turn finds it.
unfoldable pub running_session : Turn → Session → Session
unfolding take_chars
running_session t s = record s {
  status = Status.running;
  model = t.model;
  effort = t.effort;
  permission_mode = t.permission_mode;
  title = if not s.custom_title && s.title == "新任务" then take_chars 48 t.text else s.title;
}

-- status='dispatched' for the message that the turn was queued as.
abbrev pub is_waiting : QueueStatus → Bool
is_waiting QueueStatus.pending = true
is_waiting QueueStatus.forwarded = true
is_waiting _ = false

abbrev pub turn_row : Turn → QueueRow → Bool
turn_row t r = r.request_id == t.request_id && r.session_id == t.session_id && is_waiting r.status

unfoldable pub record_event : JsonLibrary → String → EventKind → ℕ → Store → Result Error Store
unfolding insert_event index_event
record_event json id e now d = do
  inserted ← insert_event d id now e
  ok (index_event json id e now inserted)

-- The transaction of `begin`.
unfoldable pub admit_turn : JsonLibrary → Store → Turn → Session → ℕ → Result Error Store
unfolding request_row running_session record_event
admit_turn json d t s now = do
  let accepted = record d {
    requests = d.requests ++ request_row t ∷ [];
    sessions = update_where (λ r. r.id == t.session_id) (λ _. running_session t s) d.sessions;
  }
  told ← record_event json t.session_id (EventKind.user t.text t.request_id) now accepted
  started ← record_event json t.session_id (EventKind.state Status.running none) now told
  ok (record started {
    message_queue =
        update_where (turn_row t) (λ r. record r { status = dispatched }) started.message_queue;
  })

-- `Store::begin`: false for a request that was accepted before.
unfoldable pub begin : JsonLibrary → Store → Turn → ℕ → Result Error (Bool × Store)
begin json d t now = do
  accepted ← already_accepted d t
  if accepted then ok (false, d) else do
    s ← session d t.session_id
    bail_if (active s.status) session_busy
    bail_if s.archived session_archived
    started ← admit_turn json d t s now
    ok (true, started)
