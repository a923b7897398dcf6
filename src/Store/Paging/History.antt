-- ===== src/Store/Paging/History.antt =====
-- crates/latte-work-server/src/store.rs: `history` and `flush_history_text`, the pages of a session's
-- events from the newest back.
use latte_work.Common.{
  ℕ, ◌+◌, ◌*◌, String, len, concat, Bool, true, false, not, ◌&&◌, ◌||◌, List, [], ◌∷◌, ◌++◌, Option,
  some, none, ◌==◌, ltb, eqb, if◌then◌else◌, select, any, max, take, length, Result, ok, ◌>>=◌,
}
use latte_work.Protocol.Values.{Status}
use latte_work.Protocol.Events.{EventKind, Event}
use latte_work.Store.State.{Store, JsonLibrary, Error}
use latte_work.Store.Paging.{
  Row, Presentation, numbered, of_session, presentation_event, presentation_data, data_len,
}

unfoldable pub reversed {ℓ} : {A : Type ℓ} → List A → List A
reversed [] = []
reversed (x ∷ xs) = reversed xs ++ x ∷ []

abbrev pub is_before : Option ℕ → Row → Bool
is_before none r = true
is_before (some b) r = ltb r.seq b

-- WHERE session_id=?1 AND seq<?2 ORDER BY seq DESC.
unfoldable pub rows_before : Store → String → Option ℕ → List Row
unfolding numbered reversed
rows_before d id before =
    select (is_before before) (reversed (select (of_session id) (numbered 1 d.events)))

-- The variables of the loop. The last element of `events` and of `text_fragments` stands first, so
-- that the list is in the order that `reverse` gives.
pub record Window : Type 0 where
  pub events : List Event
  pub text_fragments : List String
  pub bytes : ℕ
  pub oldest : Option ℕ
  pub count : ℕ
  pub turns : ℕ

abbrev pub empty_window : Window
empty_window = record {
  events = [];
  text_fragments = [];
  bytes = 0;
  oldest = none;
  count = 0;
  turns = 0;
}

abbrev pub is_user : EventKind → Bool
is_user (EventKind.user t request_id) = true
is_user _ = false

abbrev pub is_text : EventKind → Bool
is_text (EventKind.text t) = true
is_text _ = false

abbrev pub ends_with_text : List Event → Bool
ends_with_text [] = false
ends_with_text (e ∷ es) = is_text e.event

-- `collect` of the fragments into one text.
unfoldable pub concat_all : List String → String
concat_all [] = ""
concat_all (t ∷ ts) = concat t (concat_all ts)

unfoldable pub flush_history_text : List Event × List String → List Event × List String
unfolding concat_all
flush_history_text ([], fragments) = ([], fragments)
flush_history_text (e ∷ es, fragments) =
    if is_text e.event
    then (record e { event = EventKind.text (concat_all fragments) } ∷ es, [])
    else (e ∷ es, fragments)

abbrev pub size_of : JsonLibrary → String → Row → EventKind → Bool → ℕ
size_of json id r (EventKind.text t) joins = len t + (if joins then 0 else len id + 96)
size_of json id r e joins = data_len json r + len id + 96

abbrev pub is_full : Window → Bool → ℕ → Bool
is_full w joins size =
    eqb w.turns 2
    || eqb w.count 16384
    || (not joins && eqb (length w.events) 128)
    || (ltb (256 * 1024) (w.bytes + size) && ltb 0 (length w.events))

-- The fragments, and the event that is pushed, of which a text is filled in later.
abbrev pub begin_event : EventKind → List String → EventKind × List String
begin_event (EventKind.text t) fragments = (EventKind.text "", t ∷ fragments)
begin_event e fragments = (e, fragments)

abbrev pub pushed : String → Row → List Event × List String → EventKind → List Event × List String
pushed id r (es, fragments) e =
    let b = begin_event e fragments in
    (record { seq = r.seq; session_id = id; at = r.row.at; event = b.0 } ∷ es, b.1)

abbrev pub with_row : String → Window → Row → EventKind → Bool → List Event × List String
with_row id w r e true = (w.events, (begin_event e w.text_fragments).1)
with_row id w r e false = pushed id r (flush_history_text (w.events, w.text_fragments)) e

unfoldable pub take_row : JsonLibrary → String → Window → Row → EventKind → Bool → Window
unfolding flush_history_text data_len
take_row json id w r e joins =
    let next = with_row id w r e joins in
    record {
      events = next.0;
      text_fragments = next.1;
      bytes = w.bytes + size_of json id r e joins;
      oldest = some r.seq;
      count = w.count + 1;
      turns = w.turns + (if is_user e then 1 else 0);
    }

-- The loop: its variables, `has_more` and `split_text`.
unfoldable pub read_back :
    JsonLibrary
    → Presentation
    → Store
    → String
    → Window
    → List Row
    → Result Error (Window × Bool × Bool)
unfolding take_row presentation_event presentation_data data_len
read_back json p d id w [] = ok (w, false, false)
read_back json p d id w (r ∷ rs) = presentation_event p d id (presentation_data json r) >>= λ e.
    let joins = is_text e && ends_with_text w.events in
    elim (is_full w joins (size_of json id r e joins)) [
      | true ↦ ok (w, true, joins)
      | false ↦ read_back json p d id (take_row json id w r e joins) rs
    ]

-- COALESCE(MAX(seq), 0) of the user's messages.
unfoldable pub last_user : List Row → ℕ
last_user [] = 0
last_user (r ∷ rs) = if is_user r.row.event then max r.seq (last_user rs) else last_user rs

abbrev pub is_finished : EventKind → Bool
is_finished (EventKind.state Status.running message) = false
is_finished (EventKind.state Status.waiting message) = false
is_finished (EventKind.state status message) = true
is_finished _ = false

abbrev pub resolves : String → EventKind → Bool
resolves request (EventKind.approval_resolved other allow) = other == request
resolves request _ = false

abbrev pub is_unresolved : List Row → Row → EventKind → Bool
is_unresolved rows a (EventKind.approval request tool_use_id tool input) =
    ltb (last_user rows) a.seq
    && not (any (λ e. ltb a.seq e.seq && is_finished e.row.event) rows)
    && not (any (λ e. ltb a.seq e.seq && resolves request e.row.event) rows)
is_unresolved rows a _ = false

-- An approval in the current turn, before the window, that nothing resolved.
unfoldable pub has_pending : Store → String → ℕ → Bool
unfolding numbered last_user
has_pending d id first =
    let rows = select (of_session id) (numbered 1 d.events) in
    any (λ a. ltb a.seq first && is_unresolved rows a a.row.event) rows

abbrev pub pending_before : Store → String → Option ℕ → Bool
pending_before d id none = false
pending_before d id (some first) = has_pending d id first

-- A page: its events, `has_more`, `needs_earlier` and the cursor of the next page.
pub record HistoryPage : Type 0 where
  pub events : List Event
  pub has_more : Bool
  pub needs_earlier : Bool
  pub before : Option ℕ

-- `Store::history`; a cursor is a natural number, which the code checks of its float.
unfoldable pub history :
    JsonLibrary → Presentation → Store → String → Option ℕ → Result Error HistoryPage
unfolding read_back flush_history_text has_pending rows_before
history json p d id before =
    read_back json p d id empty_window (take 16385 (rows_before d id before)) >>= λ end.
    let (w, has_more, split_text) = end in
    ok (record {
      events = (flush_history_text (w.events, w.text_fragments)).0;
      has_more = has_more;
      needs_earlier = has_more && (split_text || pending_before d id w.oldest);
      before = if has_more then w.oldest else none;
    })
