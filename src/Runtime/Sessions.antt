-- ===== src/Runtime/Sessions.antt =====
-- crates/latte-work-server/src/runtime.rs: the open Agent sessions of a host, each with a task of its
-- own, and the requests that open and close them. Locks are never poisoned here.
use latte_work.Common.{
  ℕ, String, Bool, true, false, not, ◌&&◌, ◌||◌, List, map, Option, none, some, ◌==◌, leb,
  if◌then◌else◌, length, lookup, insert, remove, opt_eq, is_some_and, Result, ok, err, bail_if,
  ◌>>=◌, ◌>>◌,
}
use latte_work.Protocol.Values.{Session, RecentSession}
use latte_work.Protocol.Responses.{Response}
use latte_work.Protocol.Events.{Json}
use latte_work.Store.State.{Store, Error}
use latte_work.Store.Sessions.{session}
use latte_work.Store.Manage.{active, archive_session}
use latte_work.Config.Validation.{same_auth, same_protocol}
use latte_work.Queue.Admission.{LaunchConfig, ResolvedProvider, opt_same_effort}

-- `closed` is whether the task behind `control` is gone.
pub record Run : Type 0 where
  pub closed : Bool
  pub safe_to_close : Bool
  pub session_open : Bool

abbrev pub Runs : Type 0
Runs = List (String × Run)

abbrev pub max_runs : ℕ
max_runs = 64

pub data RunError : Type 0 where
  of_store : Error → RunError
  archived_session too_many_runs session_gone not_closed still_active : RunError

abbrev pub from_store {ℓ} : {A : Type ℓ} → Result Error A → Result RunError A
from_store (ok a) = ok a
from_store (err e) = err (of_store e)

abbrev pub new_run : Run
new_run = record { closed = false; safe_to_close = false; session_open = false }

-- The sessions afterwards; a task is started for the one that is new.
unfoldable pub control_for : Store → Runs → String → Result RunError Runs
unfolding session
control_for d runs id = do
  s ← from_store (session d id)
  bail_if s.archived archived_session
  elim (lookup id runs) [
    | some run ↦ ok runs
    | none ↦ do bail_if (leb max_runs (length runs)) too_many_runs; ok (insert id new_run runs)
  ]

-- What the task of a session does with a request to cancel: the store afterwards, whether it took
-- itself out of the table, and whether it confirmed within the time.
pub record Cancelled : Type 0 where
  pub store : Store
  pub removed : Bool
  pub confirmed : Bool

pub record Host : Type 0 where
  pub store : Store
  pub runs : Runs

abbrev pub after_cancel : Host → String → Cancelled → Host
after_cancel h id c = record {
  store = c.store;
  runs = if c.removed then remove id h.runs else h.runs;
}

-- `close`, with the answer of the session's task.
unfoldable pub close_session : Host → String → Cancelled → Host × Result RunError (Unit {0})
unfolding session
close_session h id c = elim (session h.store id) [
  | err e ↦ (h, err (of_store e))
  | ok s ↦ elim (lookup id h.runs) [
    | none ↦ (h, ok tt)
    | some run ↦
        if run.closed
        then (h, err session_gone)
        else (after_cancel h id c, if c.confirmed then ok tt else err not_closed)
  ]
]

abbrev pub set_archived : Host → String → Bool → Host × Result RunError Session
set_archived h id archived = elim (archive_session h.store id archived) [
  | err e ↦ (h, err (of_store e))
  | ok r ↦ (record { store = r.1; runs = h.runs }, ok r.0)
]

unfoldable pub is_active : Store → String → Result Error Bool
unfolding session
is_active d id = session d id >>= λ s. ok (active s.status)

-- `archive`.
unfoldable pub archive : Host → String → Bool → Cancelled → Host × Result RunError Session
archive h id false c = set_archived h id false
archive h id true c = elim (is_active h.store id) [
  | err e ↦ (h, err (of_store e))
  | ok true ↦ (h, err still_active)
  | ok false ↦ elim (close_session h id c).1 [
    | err e ↦ ((close_session h id c).0, err e)
    | ok u ↦ set_archived (close_session h id c).0 id true
  ]
]

abbrev pub live : Run → Option Run
live r = if r.closed then none else some r

abbrev pub live_run : Runs → String → Option Run
live_run runs id = elim (lookup id runs) [ none ↦ none | some r ↦ live r ]

-- What a client sees of a session: the evidence of its task, if that is there.
unfoldable pub project_state : Runs → Session → Session
project_state runs s = record s {
  agent_session_open = some (is_some_and (λ r. r.session_open) (live_run runs s.id));
  agent_session_busy =
      some (is_some_and (λ r. not r.safe_to_close) (live_run runs s.id) || active s.status);
}

abbrev pub project_recent : Runs → RecentSession → RecentSession
project_recent runs e = record { session = project_state runs e.session; updated_at = e.updated_at }

-- `project_session_state`.
unfoldable pub project_session_state : Runs → Response → Response
project_session_state runs (Response.session s) = Response.session (project_state runs s)
project_session_state runs (Response.events es s more) =
    Response.events es (project_state runs s) more
project_session_state runs (Response.history es s more earlier before) =
    Response.history es (project_state runs s) more earlier before
project_session_state runs (Response.sessions ss) = Response.sessions (map (project_state runs) ss)
project_session_state runs (Response.recent_sessions ss next) =
    Response.recent_sessions (map (project_recent runs) ss) next
project_session_state runs r = r

-- `same_config`; the equality of JSON values is an argument.
abbrev pub same_provider : Option ResolvedProvider → Option ResolvedProvider → Bool
same_provider none none = true
same_provider (some a) (some b) =
    a.credential == b.credential
    && a.metadata.base_url == b.metadata.base_url
    && same_protocol a.metadata.protocol b.metadata.protocol
    && same_auth a.metadata.auth b.metadata.auth
    && a.metadata.model == b.metadata.model
same_provider _ _ = false

abbrev pub opt_same : (Json → Json → Bool) → Option Json → Option Json → Bool
opt_same same none none = true
opt_same same (some a) (some b) = same a b
opt_same same _ _ = false

unfoldable pub same_config : (Json → Json → Bool) → LaunchConfig → LaunchConfig → Bool
same_config same a b =
    opt_eq a.model b.model
    && opt_same same a.traex_model b.traex_model
    && opt_same_effort a.effort b.effort
    && opt_eq a.permission_mode b.permission_mode
    && same_provider a.provider b.provider
