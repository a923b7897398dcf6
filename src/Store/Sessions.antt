-- ===== src/Store/Sessions.antt =====
-- crates/latte-work-server/src/store.rs: the lookup and the update of a session's row.
use latte_work.Common.{
  ℕ, String, Bool, ◌==◌, find?, update_where, any, Result, ok, ok_or, bail_if, not, ◌>>◌, ◌++◌, ◌∷◌,
  [],
}
use latte_work.Protocol.Values.{Session}
use latte_work.Protocol.Events.{EventKind}
use latte_work.Store.State.{Store, Error, unknown_session, foreign_key_violation}

-- `Store::session`.
unfoldable pub session : Store → String → Result Error Session
session d id = ok_or (find? (λ s. s.id == id) d.sessions) unknown_session

-- `Store::save`.
unfoldable pub save : Store → Session → Store
save d s = record d { sessions = update_where (λ r. r.id == s.id) (λ _. s) d.sessions }

-- The foreign key of a row on its session.
abbrev pub session_exists : Store → String → Bool
session_exists d id = any (λ s. s.id == id) d.sessions

-- INSERT INTO events.
unfoldable pub insert_event : Store → String → ℕ → EventKind → Result Error Store
insert_event d id at event = do
  bail_if (not (session_exists d id)) foreign_key_violation
  ok (record d { events = d.events ++ record { session_id = id; at = at; event = event } ∷ [] })
