-- ===== src/Store/Paging/Backwards.antt =====
-- A page of a session's history, and where the next one goes on (`Store::history`,
-- crates/latte-work-server/src/store.rs).
use latte_work.Common.{
  ℕ, suc, ◌-◌, ◌≤◌, String, Bool, false, ◌&&◌, ◌||◌, List, [], ◌∷◌, ◌++◌, map, Option, none, some,
  ltb, if◌then◌else◌, length, take, drop, min, ◌≡◌, refl, sym, ap, ◌∙◌, inl, inr, Bool-cases, arith,
  lt→ltb, ge→ltb, ltb→lt, ltb→ge, take-take, take-drop, length-take, length-drop, ok, select,
}
use latte_work.Protocol.Values.{Session}
use latte_work.Protocol.Events.{Event}
use latte_work.Store.State.{Store, JsonLibrary}
use latte_work.Store.Sessions.{session}
use latte_work.Store.Paging.{Row, Presentation, of_session, numbered}
use latte_work.Store.Paging.History.{
  Window, empty_window, history, HistoryPage, rows_before, reversed, is_before, pending_before,
  has_pending, read_back, flush_history_text,
}
use latte_work.Store.Paging.Joined.{joined, in_front, in_front-joined}
use latte_work.Store.Paging.Pushed.{view}
use latte_work.Store.Paging.Descending.{last_of, rows_before-drop}
use latte_work.Store.Paging.Windows.{bind-ok, takes_first, shown_by, oldest_of}

oldest_of-last : (a : ℕ) (rs : List Row) → oldest_of (some a) rs ≡ some (last_of a rs)
unfolding oldest_of last_of
oldest_of-last a [] = refl
oldest_of-last a (r ∷ rs) = oldest_of-last r.seq rs

none_below : (rs : List Row) → ◌≡◌ {A = List Row} (select (is_before (some 0)) rs) []
none_below [] = refl
none_below (r ∷ rs) = rw (ge→ltb r.seq 0 (omega arith)) (none_below rs)

nothing_before : (d : Store) (id : String) → rows_before d id (some 0) ≡ []
unfolding rows_before
nothing_before d id = none_below (reversed (select (of_session id) (numbered 1 d.events)))

-- The limit of the query is one more than a page takes.
more_left : (k m n : ℕ) → k ≤ 16384 → m ≡ min 16385 n → ltb k m ≡ ltb 0 (n - k)
more_left k m n h same = elim (Bool-cases (ltb 0 (n - k))) [
  | inl e ↦ rw e (lt→ltb k m (omega (arith, h, same, ltb→lt 0 (n - k) e)))
  | inr e ↦ rw e (ge→ltb k m (omega (arith, h, same, ltb→ge 0 (n - k) e)))
]

-- The page that takes some rows, the newest first, and leaves others. It asks for the earlier page when
-- it parts a text (`split_text`) or leaves an approval of the current turn that nothing resolved.
abbrev pub page_of :
    JsonLibrary
    → Presentation
    → Store
    → (id agent : String) → (taken rest : List Row) → (cursor : ℕ) → (split_text : Bool)
    → HistoryPage
page_of json p d id agent taken rest cursor split_text = record {
  events = joined (reversed (map (shown_by json p id agent) taken));
  has_more = ltb 0 (length rest);
  needs_earlier = ltb 0 (length rest) && (split_text || has_pending d id cursor);
  before = if ltb 0 (length rest) then some cursor else none;
}

abbrev page_with : Store → String → List Event → Bool → Bool → Option ℕ → HistoryPage
page_with d id events more split oldest = record {
  events = events;
  has_more = more;
  needs_earlier = more && (split || pending_before d id oldest);
  before = if more then oldest else none;
}

same_page :
    (d : Store) (id : String) (split : Bool) (es fs : List Event) (b c : Bool) (o q : Option ℕ)
    → es ≡ fs
    → b ≡ c
    → o ≡ q
    → page_with d id es b split o ≡ page_with d id fs c split q
same_page d id split es fs b c o q he hb ho =
    ap (λ x. page_with d id x b split o) he
    ∙ ap (λ x. page_with d id fs x split o) hb
    ∙ ap (λ x. page_with d id fs c split x) ho

history-read_back :
    (json : JsonLibrary) (p : Presentation) (d : Store) (id : String) (before : Option ℕ)
    (rows : List Row) (end : Window) (more split : Bool)
    → rows_before d id before ≡ rows
    → read_back json p d id empty_window (take 16385 rows) ≡ ok (end, more, split)
    → history json p d id before
      ≡ ok (page_with d id (view (end.events, end.text_fragments)) more split end.oldest)
unfolding history
history-read_back json p d id before rows end more split same h =
    bind-ok (read_back json p d id empty_window (take 16385 (rows_before d id before))) _
      (end, more, split) (ap (λ t. read_back json p d id empty_window (take 16385 t)) same ∙ h)

-- What is claimed of a page.
abbrev GoesOn : JsonLibrary → Presentation → Store → Session → String → Option ℕ → Type 0
GoesOn json p d s id before =
    (taken rest : List Row) × (cursor : ℕ) × (split_text : Bool) × (rows_before d id before
      ≡ taken ++ rest)
    × (rows_before d id (some cursor) ≡ rest)
    × (min 1 (length (rows_before d id before)) ≤ length taken)
    × (history json p d id before ≡ ok (page_of json p d id s.agent taken rest cursor split_text))

page_nothing :
    (json : JsonLibrary) (p : Presentation) (d : Store) (s : Session) (id : String)
    (before : Option ℕ)
    → rows_before d id before ≡ []
    → GoesOn json p d s id before
unfolding read_back flush_history_text joined reversed
page_nothing json p d s id before same = (
  [],
  [],
  0,
  false,
  same,
  nothing_before d id,
  rw same (omega arith),
  history-read_back json p d id before [] empty_window false false same refl,
)

page_rows :
    (json : JsonLibrary) (p : Presentation) (d : Store) (s : Session) (id : String)
    (before : Option ℕ) (r : Row) (rs : List Row)
    → session d id ≡ ok s
    → rows_before d id before ≡ r ∷ rs
    → GoesOn json p d s id before
unfolding last_of oldest_of flush_history_text
page_rows json p d s id before r rs found same =
    let (k, end, split, ends) = takes_first json p d s id r (take 16384 rs) found in
    let (goes, seen, old, short, few) = ends in
    let taken = take (suc k) (r ∷ rs) in
    let rest = drop (suc k) (r ∷ rs) in
    let cursor = last_of 0 taken in
    let cut : take (suc k) (take 16385 (r ∷ rs)) ≡ taken =
      take-take (suc k) 16385 (r ∷ rs) (omega (arith, few)) in
    let more : ltb (suc k) (length (take 16385 (r ∷ rs))) ≡ ltb 0 (length rest) =
      more_left (suc k) (length (take 16385 (r ∷ rs))) (length (r ∷ rs)) (omega (arith, few))
        (length-take 16385 (r ∷ rs))
      ∙ ap (ltb 0) (sym (length-drop (suc k) (r ∷ rs))) in
    let shows : view (end.events, end.text_fragments)
        ≡ joined (reversed (map (shown_by json p id s.agent) taken)) =
      seen
      ∙ ap (λ t. in_front (map (shown_by json p id s.agent) t) []) cut
      ∙ in_front-joined (map (shown_by json p id s.agent) taken) in
    let last : end.oldest ≡ some cursor =
      old ∙ ap (oldest_of none) cut ∙ oldest_of-last r.seq (take k rs) in
    (
      taken,
      rest,
      cursor,
      split,
      same ∙ sym (take-drop (suc k) (r ∷ rs)),
      rows_before-drop d id before 0 k r rs same,
      omega arith,
      history-read_back json p d id before (r ∷ rs) end (ltb (suc k) (length (take 16385 (r ∷ rs))))
            split same goes
          ∙ ap ok (
              same_page d id split (view (end.events, end.text_fragments))
                (joined (reversed (map (shown_by json p id s.agent) taken)))
                (ltb (suc k) (length (take 16385 (r ∷ rs)))) (ltb 0 (length rest)) end.oldest
                (some cursor) shows more last),
    )

-- A page of the history of a session that there is holds rows from the newest before the cursor back,
-- at least one if there is one, with neighbouring texts joined, the oldest first. It says that there
-- is more exactly when it left rows, and then its cursor is such that the next page goes on with
-- exactly these. It asks for that page at once when an approval before the cursor is pending, or when
-- a flag says that a text is parted, of which nothing is claimed.
pub history-joined :
    (json : JsonLibrary) (p : Presentation) (d : Store) (s : Session) (id : String)
    (before : Option ℕ)
    → session d id ≡ ok s
    → (taken rest : List Row) × (cursor : ℕ) × (split_text : Bool) × (rows_before d id before
        ≡ taken ++ rest)
      × (rows_before d id (some cursor) ≡ rest)
      × (min 1 (length (rows_before d id before)) ≤ length taken)
      × (history json p d id before ≡ ok (page_of json p d id s.agent taken rest cursor split_text))
history-joined json p d s id before found = by_rows (rows_before d id before) refl
  where
    by_rows : (rows : List Row) → rows_before d id before ≡ rows → GoesOn json p d s id before
    by_rows [] same = page_nothing json p d s id before same
    by_rows (r ∷ rs) same = page_rows json p d s id before r rs found same
