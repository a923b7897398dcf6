-- ===== src/Store/Manage.antt =====
-- crates/latte-work-server/src/store.rs: how the user organises projects and sessions.
use latte_work.Common.{
  ℕ, String, count, Bool, true, false, not, ◌&&◌, ◌||◌, List, [], ◌∷◌, ◌++◌, Option, some, none,
  ◌==◌, ltb, leb, if◌then◌else◌, find?, any, any_char, contains, length, take, is_some_and, select,
  update_where, is_control, is_empty, trim, Result, ok, bail_if, ok_or, ◌>>=◌, ◌>>◌,
}
use latte_work.Protocol.Values.{Project, Session, Status}
use latte_work.Store.State.{
  Store, Error, unique_violation, unknown_project, archived_pin, too_many_pinned, active_archive,
  invalid_title, invalid_project_name, project_active,
}
use latte_work.Store.Sessions.{session, save}

-- `Status::active`.
abbrev pub active : Status → Bool
active Status.running = true
active Status.waiting = true
active _ = false

-- `Store::project`.
unfoldable pub project : Store → String → Result Error Project
project d id = ok_or (find? (λ p. p.id == id) d.projects) unknown_project

unfoldable pub rename_project : Store → String → String → Result Error (Project × Store)
unfolding project
rename_project d id name = do
  let name = trim name
  bail_if (is_empty name || ltb 100 (count name) || any_char is_control name) invalid_project_name
  p ← project d id
  ok (
    record p { name = name },
    record d {
      projects = update_where (λ r. r.id == id) (λ r. record r { name = name }) d.projects;
    },
  )

-- INSERT OR IGNORE INTO hidden_projects.
unfoldable pub remove_project : Store → String → Result Error Store
unfolding project
remove_project d id = do
  _ ← project d id
  bail_if (any (λ s. s.project_id == id && active s.status) d.sessions) project_active
  ok (record d {
    hidden_projects =
        if contains d.hidden_projects id then d.hidden_projects else d.hidden_projects ++ id ∷ [];
  })

-- `Store::create_session`, given the new identifier and the time.
unfoldable pub create_session :
    Store → String → String → String → ℕ → Result Error (Session × Store)
unfolding project
create_session d project_id agent id now = do
  _ ← project d project_id
  bail_if (any (λ r. r.id == id) d.sessions) unique_violation
  let s : Session = record {
    id = id;
    project_id = project_id;
    title = "新任务";
    agent = agent;
    native_id = none;
    model = none;
    effort = none;
    permission_mode = none;
    status = Status.ready;
    created_at = now;
    custom_title = false;
    pinned_at = none;
    unread = false;
    archived = false;
    agent_session_open = none;
    agent_session_busy = none;
  }
  ok (s, record d { sessions = d.sessions ++ s ∷ [] })

-- json_extract(data,'$.pinned_at') IS NOT NULL, not archived, and not of a hidden project.
unfoldable pub is_pinned : Store → Session → Bool
is_pinned d s =
    is_some_and (λ _. true) s.pinned_at
    && not s.archived
    && not (contains d.hidden_projects s.project_id)

unfoldable pub pinned_after : Session → Session → Bool
pinned_after a b =
    ltb (elim a.pinned_at [ none ↦ 0 | some t ↦ t ]) (elim b.pinned_at [ none ↦ 0 | some t ↦ t ])

unfoldable pub insert_pinned : Session → List Session → List Session
unfolding pinned_after
insert_pinned s [] = s ∷ []
insert_pinned s (x ∷ xs) = if pinned_after x s then s ∷ x ∷ xs else x ∷ insert_pinned s xs

unfoldable pub order_pinned : List Session → List Session
unfolding insert_pinned
order_pinned [] = []
order_pinned (s ∷ ss) = insert_pinned s (order_pinned ss)

-- `Store::pinned_sessions`.
unfoldable pub pinned_sessions : Store → List Session
unfolding is_pinned order_pinned
pinned_sessions d = take 100 (order_pinned (select (is_pinned d) d.sessions))

unfoldable pub is_unusable_title : ℕ → String → Bool
is_unusable_title limit title =
    is_empty (trim title) || ltb limit (count title) || any_char is_control title

-- `Store::sync_native_title`.
unfoldable pub sync_native_title : Store → String → String → Bool → Result Error (Session × Store)
unfolding session is_unusable_title save
sync_native_title d id title custom = do
  s ← session d id
  let named = record s { title = title; custom_title = s.custom_title || custom }
  if is_unusable_title 200 title || (s.custom_title && not custom)
      then ok (s, d)
      else (if not (s.title == title) || (custom && not s.custom_title)
          then ok (named, save d named)
          else ok (s, d))

-- `Store::sync_live_native_title`.
unfoldable pub sync_live_native_title : Store → String → String → Result Error (Session × Store)
unfolding sync_native_title
sync_live_native_title d id title = sync_native_title d id title true

-- `Store::validate_session_title`.
unfoldable pub validate_session_title : String → Result Error String
validate_session_title title = do
  let title = trim title
  bail_if (is_empty title || ltb 100 (count title) || any_char is_control title) invalid_title
  ok title

-- `Store::rename_session`.
unfoldable pub rename_session : Store → String → String → Result Error (Session × Store)
unfolding validate_session_title session save
rename_session d id title = do
  title ← validate_session_title title
  s ← session d id
  let s' = record s { title = title; custom_title = true }
  ok (s', save d s')

-- `Store::pin_session`, at the time `now`.
unfoldable pub pin_session : Store → String → Bool → ℕ → Result Error (Session × Store)
unfolding session pinned_sessions save
pin_session d id pinned now = do
  s ← session d id
  bail_if (pinned && s.archived) archived_pin
  bail_if
      (pinned && not (is_some_and (λ _. true) s.pinned_at) && leb 100 (length (pinned_sessions d)))
      too_many_pinned
  let kept : Option ℕ = elim s.pinned_at [ none ↦ some now | some t ↦ some t ]
  let s' = record s { pinned_at = if pinned then kept else none }
  ok (s', save d s')

-- `Store::mark_session_unread`.
unfoldable pub mark_session_unread : Store → String → Bool → Result Error (Session × Store)
unfolding session save
mark_session_unread d id unread = do
  s ← session d id
  let s' = record s { unread = unread }
  ok (s', save d s')

-- `Store::archive_session`.
unfoldable pub archive_session : Store → String → Bool → Result Error (Session × Store)
unfolding session save
archive_session d id archived = do
  s ← session d id
  bail_if (archived && active s.status) active_archive
  let s' = record s { archived = archived; pinned_at = if archived then none else s.pinned_at }
  ok (s', save d s')
