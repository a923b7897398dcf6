-- ===== src/Tests/Paging.antt =====
-- The pages of a session's events at concrete inputs.
use latte_work.Common.{
  String, ◌≡◌, refl, [], ◌∷◌, ok, false, arith, none, some, ℕ, Bool, List, ◌++◌, min, length, ◌≤◌,
}
use latte_work.Protocol.Events.{Event, EventKind}
use latte_work.Store.State.{Store, EventRow}
use latte_work.Store.Paging.{Presentation, events, rows_after}
use latte_work.Store.Paging.Pages.{shown_all, with_more}
use latte_work.Store.Paging.Complete.{read_all, read_all-shown}
use latte_work.Store.Sessions.{session}
use latte_work.Store.Paging.{Row}
use latte_work.Store.Paging.History.{history, HistoryPage, rows_before}
use latte_work.Store.Paging.Backwards.{page_of, history-joined}
use latte_work.Tests.Sample.{json, empty, session_called}

abbrev said : String → String → EventRow
said id text = record { session_id = id; at = 5; event = EventKind.text text }

abbrev stored : Store
stored = record empty { events = said "s" "a" ∷ said "t" "b" ∷ said "s" "c" ∷ said "s" "d" ∷ [] }

abbrev plain : Presentation
plain = record { mentions_source = λ _. false; tool_content = λ c. c }

abbrev told : String → EventKind
told text = EventKind.text text

abbrev third : Event
third = record { seq = 3; session_id = "s"; at = 5; event = told "c" }

abbrev fourth : Event
fourth = record { seq = 4; session_id = "s"; at = 5; event = told "d" }

later_events : events json plain stored "s" 1 ≡ ok (third ∷ fourth ∷ [], false)
unfolding events
later_events = refl

read_all-shown_example :
    read_all json plain stored "s" 4 1
    ≡ with_more false (shown_all json plain stored "s" (rows_after stored "s" 1))
unfolding rows_after
read_all-shown_example = read_all-shown json plain stored "s" 4 1 (omega arith) (omega arith)

abbrev whole : Event
whole = record { seq = 4; session_id = "s"; at = 5; event = told "acd" }

abbrev only_page : HistoryPage
only_page = record { events = whole ∷ []; has_more = false; needs_earlier = false; before = none }

all_history : history json plain stored "s" none ≡ ok only_page
unfolding history
all_history = refl

found : session stored "s" ≡ ok (session_called "s")
unfolding session
found = refl

history-joined_example :
    (taken rest : List Row) × (cursor : ℕ) × (split_text : Bool) × (rows_before stored "s" (some 4)
      ≡ taken ++ rest)
    × (rows_before stored "s" (some cursor) ≡ rest)
    × (min 1 (length (rows_before stored "s" (some 4))) ≤ length taken)
    × (history json plain stored "s" (some 4)
        ≡ ok (page_of json plain stored "s" "claude" taken rest cursor split_text))
history-joined_example = history-joined json plain stored (session_called "s") "s" (some 4) found
