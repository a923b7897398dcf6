-- ===== src/Store/Paging.antt =====
-- crates/latte-work-server/src/store.rs: `presentation_event` and `events`, the pages of a session's
-- events from the oldest on.
use latte_work.Common.{
  ℕ, suc, ◌+◌, ◌*◌, String, len, Bool, true, false, not, ◌&&◌, ◌||◌, List, [], ◌∷◌, ◌++◌, Option,
  some, none, ◌==◌, ltb, eqb, if◌then◌else◌, select, take, Result, ok, err, ◌>>=◌,
}
use latte_work.Protocol.Values.{Session}
use latte_work.Protocol.Events.{EventKind, Event, Json}
use latte_work.Store.State.{Store, JsonLibrary, EventRow, Error}
use latte_work.Store.Sessions.{session}
pub mod Ascending
pub mod Pages
pub mod Complete
pub mod History
pub mod Joined
pub mod Pushed
pub mod Descending
pub mod Windows
pub mod Backwards

-- Whether the text of an event holds `"source"`, and `agents::claude::tool_content`.
pub record Presentation : Type 0 where
  pub mentions_source : EventKind → Bool
  pub tool_content : Json → Json

-- A row with the key that AUTOINCREMENT gave it. Rows are never deleted, and a transaction that fails
-- takes its key back, so that the keys count the rows from 1.
pub record Row : Type 0 where
  pub seq : ℕ
  pub row : EventRow

unfoldable pub numbered : ℕ → List EventRow → List Row
numbered n [] = []
numbered n (r ∷ rs) = record { seq = n; row = r } ∷ numbered (suc n) rs

abbrev pub of_session : String → Row → Bool
of_session id r = r.row.session_id == id

-- WHERE session_id=?1 AND seq>?2 ORDER BY seq.
unfoldable pub rows_after : Store → String → ℕ → List Row
unfolding numbered
rows_after d id after = select (λ r. ltb after r.seq) (select (of_session id) (numbered 1 d.events))

-- PRESENTATION_DATA.
abbrev pub data_limit : ℕ
data_limit = 524288

abbrev pub omitted : EventKind
omitted = EventKind.notice "旧事件过大，已省略展示；原始记录保留。"

abbrev pub omitted_len : ℕ
omitted_len = 84

abbrev pub is_omitted : JsonLibrary → Row → Bool
is_omitted json r = ltb data_limit (json.event_len r.row.event)

unfoldable pub data_len : JsonLibrary → Row → ℕ
data_len json r = if is_omitted json r then omitted_len else json.event_len r.row.event

unfoldable pub presentation_data : JsonLibrary → Row → EventKind
presentation_data json r = if is_omitted json r then omitted else r.row.event

-- `agents::normalize_history_event`.
unfoldable pub normalize_history_event : Presentation → String → EventKind → EventKind
normalize_history_event p agent (EventKind.tool_result id content is_error) =
    EventKind.tool_result id (if agent == "claude" then p.tool_content content else content)
      is_error
normalize_history_event p agent event = event

abbrev pub is_tool_result : EventKind → Bool
is_tool_result (EventKind.tool_result id content is_error) = true
is_tool_result _ = false

unfoldable pub presentation_event :
    Presentation → Store → String → EventKind → Result Error EventKind
unfolding session normalize_history_event
presentation_event p d id event =
    if is_tool_result event && p.mentions_source event
    then session d id >>= (λ s. ok (normalize_history_event p s.agent event))
    else ok event

abbrev pub page_events : ℕ
page_events = 200

abbrev pub page_bytes : ℕ
page_bytes = 1024 * 1024

unfoldable pub shown : JsonLibrary → Presentation → Store → String → Row → Result Error Event
unfolding presentation_event presentation_data
shown json p d id r =
    presentation_event p d id (presentation_data json r)
    >>= (λ e. ok (record { seq = r.seq; session_id = id; at = r.row.at; event = e }))

abbrev pub with_event : Event → List Event × Bool → Result Error (List Event × Bool)
with_event e (es, more) = ok (e ∷ es, more)

-- The loop of `events` over the rows, with the events and the bytes that it has taken.
unfoldable pub fill_page :
    JsonLibrary
    → Presentation
    → Store
    → String
    → (count bytes : ℕ) → List Row
    → Result Error (List Event × Bool)
unfolding shown data_len
fill_page json p d id count bytes [] = ok ([], false)
fill_page json p d id count bytes (r ∷ rs) =
    let size = data_len json r + len id + 96 in
    let rest = fill_page json p d id (suc count) (bytes + size) rs in
    if eqb count page_events || ltb page_bytes (bytes + size)
    then ok ([], true)
    else shown json p d id r >>= λ e. rest >>= λ page. with_event e page

-- `Store::events`; a cursor is a natural number, which the code checks of its float.
unfoldable pub events :
    JsonLibrary → Presentation → Store → String → ℕ → Result Error (List Event × Bool)
unfolding fill_page rows_after
events json p d id after = fill_page json p d id 0 0 (take 201 (rows_after d id after))
