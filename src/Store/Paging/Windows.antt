-- ===== src/Store/Paging/Windows.antt =====
-- What a page of a session's history holds, and where the next one goes on (`Store::history`,
-- crates/latte-work-server/src/store.rs).
use latte_work.Common.{
  ℕ, suc, ◌+◌, ◌*◌, ◌≤◌, String, Bool, true, false, not, ◌&&◌, ◌||◌, List, [], ◌∷◌, map, Option,
  some, ltb, eqb, if◌then◌else◌, length, take, ◌≡◌, refl, sym, ap, ◌∙◌, inl, inr, Bool-cases, arith,
  lt→ltb, Result, ok, ◌>>=◌,
}
use latte_work.Protocol.Values.{Session}
use latte_work.Protocol.Events.{EventKind, Event}
use latte_work.Store.State.{Store, JsonLibrary, Error}
use latte_work.Store.Sessions.{session}
use latte_work.Store.Paging.{
  Row, Presentation, presentation_event, presentation_data, normalize_history_event, is_tool_result,
}
use latte_work.Store.Paging.History.{
  Window, empty_window, is_text, ends_with_text, is_full, size_of, take_row, read_back,
}
use latte_work.Store.Paging.Joined.{join_front, in_front}
use latte_work.Store.Paging.Pushed.{view, IsSettled, shown_event, with_row-view, with_row-IsSettled}
use latte_work.Store.Paging.Descending.{}

-- An event as it is shown in the session of an agent.
unfoldable pub present : Presentation → String → EventKind → EventKind
unfolding normalize_history_event
present p agent e =
    if is_tool_result e && p.mentions_source e then normalize_history_event p agent e else e

-- A row as an event of the session.
unfoldable pub shown_by : JsonLibrary → Presentation → (id agent : String) → Row → Event
unfolding present presentation_data
shown_by json p id agent r = shown_event id r (present p agent (presentation_data json r))

presentation-present :
    (p : Presentation) (d : Store) (id : String) (s : Session) (e : EventKind)
    → session d id ≡ ok s
    → presentation_event p d id e ≡ ok (present p s.agent e)
unfolding presentation_event present
presentation-present p d id s e found =
    elim (Bool-cases (is_tool_result e && p.mentions_source e)) [
      | inl h ↦ rw (h, found) refl
      | inr h ↦ rw h refl
    ]

unfoldable pub oldest_of : Option ℕ → List Row → Option ℕ
oldest_of o [] = o
oldest_of o (r ∷ rs) = oldest_of (some r.seq) rs

-- What the loop leads to: the number of rows taken, the window, `split_text`.
abbrev pub Ends :
    JsonLibrary
    → Presentation
    → Store
    → Session
    → String
    → Window
    → List Row
    → ℕ × Window × Bool
    → Type 0
Ends json p d s id w rs (k, end, split) =
    (read_back json p d id w rs ≡ ok (end, ltb k (length rs), split))
    × (view (end.events, end.text_fragments)
        ≡ in_front (map (shown_by json p id s.agent) (take k rs))
            (view (w.events, w.text_fragments)))
    × (end.oldest ≡ oldest_of w.oldest (take k rs))
    × (k ≤ length rs)
    × (w.count + k ≤ 16384)

abbrev joins_now : Window → EventKind → Bool
joins_now w e = is_text e && ends_with_text w.events

pub bind-ok :
    {A B : Type 0} (call : Result Error A) (next : A → Result Error B) (a : A)
    → call ≡ ok a
    → ◌>>=◌ call next ≡ next a
bind-ok call next a h = ap (λ c. ◌>>=◌ c next) h

goes_on :
    {A : Type 0} (full : Bool) (x y : A) → full ≡ false → elim full [ true ↦ x | false ↦ y ] ≡ y
goes_on true x y h = absurd (cc h)
goes_on false x y h = refl

stops_here :
    {A : Type 0} (full : Bool) (x y : A) → full ≡ true → elim full [ true ↦ x | false ↦ y ] ≡ x
stops_here true x y h = refl
stops_here false x y h = absurd (cc h)

takes_next :
    (json : JsonLibrary) (p : Presentation) (d : Store) (s : Session) (id : String) (w : Window)
    (r : Row) (rs : List Row) (k : ℕ) (end : Window) (split : Bool) (e : EventKind)
    → session d id ≡ ok s
    → e ≡ present p s.agent (presentation_data json r)
    → IsSettled w.events w.text_fragments
    → is_full w (joins_now w e) (size_of json id r e (joins_now w e)) ≡ false
    → Ends json p d s id (take_row json id w r e (joins_now w e)) rs (k, end, split)
    → Ends json p d s id w (r ∷ rs) (suc k, end, split)
unfolding read_back in_front oldest_of take_row shown_by
takes_next json p d s id w r rs k end split e found same settled room
      (goes, seen, old, short, few) =
    let more : ltb (suc k) (suc (length rs)) ≡ ltb k (length rs) = ground arith in
    let shows = presentation-present p d id s (presentation_data json r) found ∙ ap ok (sym same) in
    (
      bind-ok (presentation_event p d id (presentation_data json r)) _ e shows
          ∙ goes_on (is_full w (joins_now w e) (size_of json id r e (joins_now w e))) _ _ room
          ∙ goes
          ∙ ap (λ b. ok (end, b, split)) (sym more),
      seen
          ∙ ap (in_front (map (shown_by json p id s.agent) (take k rs))) (
              with_row-view id w r e settled
              ∙ ap (λ x. join_front (shown_event id r x) (view (w.events, w.text_fragments))) same),
      old,
      omega (arith, short),
      omega (arith, few),
    )

second_off : (a b c d : Bool) → (a || b || c || d) ≡ false → b ≡ false
second_off false false c d h = refl
second_off false true c d h = absurd (cc h)
second_off true b c d h = absurd (cc h)

room_left :
    (w : Window) (joins : Bool) (size : ℕ)
    → is_full w joins size ≡ false
    → w.count ≤ 16384
    → w.count + 1 ≤ 16384
room_left w joins size h few =
    let other : eqb w.count 16384 ≡ false =
      second_off (eqb w.turns 2) (eqb w.count 16384) (not joins && eqb (length w.events) 128)
        (ltb (256 * 1024) (w.bytes + size) && ltb 0 (length w.events)) h in
    ground arith

takes :
    (json : JsonLibrary) (p : Presentation) (d : Store) (s : Session) (id : String) (rs : List Row)
    (w : Window)
    → session d id ≡ ok s
    → IsSettled w.events w.text_fragments
    → w.count ≤ 16384
    → (end : ℕ × Window × Bool) × Ends json p d s id w rs end
unfolding read_back in_front oldest_of take_row
takes json p d s id [] w found settled few =
    ((0, w, false), (refl, refl, refl, omega arith, omega (arith, few)))
takes json p d s id (r ∷ rs) w found settled few =
    let e = present p s.agent (presentation_data json r) in
    let shows = presentation-present p d id s (presentation_data json r) found in
    let full = is_full w (joins_now w e) (size_of json id r e (joins_now w e)) in
    elim (Bool-cases full) [
      | inl h ↦
          let left = lt→ltb 0 (suc (length rs)) (omega arith) in
          (
            (0, w, joins_now w e),
            (
              bind-ok (presentation_event p d id (presentation_data json r)) _ e shows
                  ∙ stops_here full _ _ h
                  ∙ ap (λ b. ok (w, b, joins_now w e)) (sym left),
              refl,
              refl,
              omega arith,
              omega (arith, few),
            ),
          )
      | inr h ↦
          let next = take_row json id w r e (joins_now w e) in
          let ((k, end, split), ends) =
            takes json p d s id rs next found (with_row-IsSettled id w r e settled)
              (room_left w (joins_now w e) (size_of json id r e (joins_now w e)) h few) in
          (
            (suc k, end, split),
            takes_next json p d s id w r rs k end split e found refl settled h ends,
          )
    ]

and_false : (a : Bool) → (a && false) ≡ false
and_false true = refl
and_false false = refl

empty_has_room : (text : Bool) (size : ℕ) → is_full empty_window (text && false) size ≡ false
empty_has_room true size = and_false (ltb (256 * 1024) (0 + size))
empty_has_room false size = and_false (ltb (256 * 1024) (0 + size))

-- The newest row is always taken.
pub takes_first :
    (json : JsonLibrary) (p : Presentation) (d : Store) (s : Session) (id : String) (r : Row)
    (rs : List Row)
    → session d id ≡ ok s
    → (k : ℕ) × (end : Window) × (split : Bool) × Ends json p d s id empty_window
        (r ∷ rs)
        (suc k, end, split)
unfolding take_row
takes_first json p d s id r rs found =
    let e = present p s.agent (presentation_data json r) in
    let w = empty_window in
    let room = empty_has_room (is_text e) (size_of json id r e (joins_now w e)) in
    let next = take_row json id w r e (joins_now w e) in
    let ((k, end, split), ends) =
      takes json p d s id rs next found (with_row-IsSettled id w r e (inr refl)) (omega arith) in
    (k, end, split, takes_next json p d s id w r rs k end split e found refl (inr refl) room ends)
