-- ===== src/Store/Paging/Complete.antt =====
-- A client that polls until there is no more reads each event once, in order (`Store::events`,
-- crates/latte-work-server/src/store.rs).
use latte_work.Common.{
  ℕ, zero, suc, ◌≤◌, ◌<◌, String, len, Bool, true, false, List, [], ◌∷◌, ◌++◌, ltb, length, take,
  drop, ◌≡◌, refl, sym, ap, ◌∙◌, inl, inr, Bool-cases, arith, Result, ok, ◌>>=◌, Result-cases,
  >>=-eq-ok, ok-injective, length-take, length-drop, take-drop, take-take, min, lt→ltb, ge→ltb,
  drop_all, append-nil, ltb→lt, ltb→ge,
}
use latte_work.Protocol.Events.{Event}
use latte_work.Store.State.{Store, JsonLibrary, Error}
use latte_work.Store.Paging.{
  Row, Presentation, shown, fill_page, events, rows_after, presentation_event, presentation_data,
}
use latte_work.Store.Paging.Ascending.{last_key, rows_after-drop}
use latte_work.Store.Paging.Pages.{Takes-first, shown_all, with_more}

-- The cursor after a page, as the clients take it: the key of its last event.
unfoldable pub last_seq : ℕ → List Event → ℕ
last_seq a [] = a
last_seq a (e ∷ es) = last_seq e.seq es

-- Polls until a page says that there is no more, at most as often as the first argument.
unfoldable pub read_all :
    JsonLibrary → Presentation → Store → String → ℕ → ℕ → Result Error (List Event × Bool)
unfolding events last_seq
read_all json p d id zero after = ok ([], true)
read_all json p d id (suc n) after = events json p d id after >>= λ page. elim page.1 [
  | false ↦ ok page
  | true ↦ read_all json p d id n (last_seq after page.0) >>= λ rest. ok (page.0 ++ rest.0, rest.1)
]

-- The cursor of a page is the key of its last row.
last_seq-shown :
    (json : JsonLibrary) (p : Presentation) (d : Store) (id : String) (a : ℕ) (rs : List Row)
    (es : List Event)
    → shown_all json p d id rs ≡ ok es
    → last_seq a es ≡ last_key a rs
unfolding shown_all shown last_seq last_key
last_seq-shown json p d id a [] es h = ap (last_seq a) (sym (ok-injective h))
last_seq-shown json p d id a (r ∷ rs) es h =
    let (e, he, rest) = >>=-eq-ok (shown json p d id r) _ h in
    let (k, hk, end) = >>=-eq-ok (presentation_event p d id (presentation_data json r)) _ he in
    let (later, hl, whole) = >>=-eq-ok (shown_all json p d id rs) _ rest in
    let key : e.seq ≡ r.seq = sym (ap (λ x. x.seq) (ok-injective end)) in
    ap (last_seq a) (sym (ok-injective whole))
    ∙ ap (λ b. last_seq b later) key
    ∙ last_seq-shown json p d id r.seq rs later hl

shown_all-append :
    (json : JsonLibrary) (p : Presentation) (d : Store) (id : String) (rs ts : List Row)
    → shown_all json p d id (rs ++ ts)
      ≡ (shown_all json p d id rs >>= λ a. shown_all json p d id ts >>= λ b. ok (a ++ b))
unfolding shown_all
shown_all-append json p d id [] ts = elim (Result-cases (shown_all json p d id ts)) [
  | inl (b, h) ↦ rw h refl
  | inr (x, h) ↦ rw h refl
]
shown_all-append json p d id (r ∷ rs) ts =
    let step = shown_all-append json p d id rs ts in
    elim (Result-cases (shown json p d id r)) [
      | inr (x, h) ↦ rw h refl
      | inl (e, h) ↦ elim (Result-cases (shown_all json p d id rs)) [
        | inr (x, hr) ↦ rw (h, step, hr) refl
        | inl (a, hr) ↦ elim (Result-cases (shown_all json p d id ts)) [
          | inr (x, ht) ↦ rw (h, step, hr, ht) refl
          | inl (b, ht) ↦ rw (h, step, hr, ht) refl
        ]
      ]
    ]

-- A page of 200 of 201 rows says that there is more.
more_left : (k m n : ℕ) → k < 200 → m ≡ min 200 n → ltb (suc k) (suc m) ≡ ltb (suc k) (suc n)
more_left k m n h same = elim (Bool-cases (ltb (suc k) (suc n))) [
  | inl e ↦ rw e (lt→ltb (suc k) (suc m) (omega (arith, h, same, ltb→lt (suc k) (suc n) e)))
  | inr e ↦ rw e (ge→ltb (suc k) (suc m) (omega (arith, h, same, ltb→ge (suc k) (suc n) e)))
]

-- A page takes the first rows after the cursor, and none only when there are none.
events_page :
    (json : JsonLibrary) (p : Presentation) (d : Store) (id : String) (rows : List Row)
    → len id ≤ 524192
    → (k : ℕ) × ((fill_page json p d id 0 0 (take 201 rows)
          ≡ with_more (ltb k (length rows)) (shown_all json p d id (take k rows)))
        × (k ≤ length rows)
        × (0 < length rows → 0 < k))
unfolding fill_page shown_all
events_page json p d id [] short = (0, (refl, omega arith, λ h. h))
events_page json p d id (r ∷ rs) short =
    let (k, taken) = Takes-first json p d id r (take 200 rs) short in
    let (same, fits, few) = taken in
    let long = length-take 200 rs in
    let more : ltb (suc k) (length (take 201 (r ∷ rs))) ≡ ltb (suc k) (length (r ∷ rs)) =
      more_left k (length (take 200 rs)) (length rs) (omega (arith, few)) long in
    (
      suc k,
      (
        same
            ∙ ap (λ b. with_more b (shown_all json p d id (take (suc k) (take 201 (r ∷ rs))))) more
            ∙ ap (λ t. with_more (ltb (suc k) (length (r ∷ rs))) (shown_all json p d id t))
                (take-take (suc k) 201 (r ∷ rs) (omega (arith, few))),
        omega (arith, fits, long),
        λ h. omega arith,
      ),
    )

after_page :
    (json : JsonLibrary) (p : Presentation) (d : Store) (id : String) (n a k : ℕ)
    → events json p d id a
      ≡ with_more
          (ltb k (length (rows_after d id a)))
          (shown_all json p d id (take k (rows_after d id a)))
    → (k < length (rows_after d id a)
        → read_all json p d id n (last_key a (take k (rows_after d id a)))
          ≡ with_more false (shown_all json p d id (drop k (rows_after d id a))))
    → read_all json p d id (suc n) a
      ≡ with_more false
          (shown_all json p d id (take k (rows_after d id a) ++ drop k (rows_after d id a)))
unfolding read_all shown_all
after_page json p d id n a k same next =
    let rows = rows_after d id a in
    let whole = shown_all-append json p d id (take k rows) (drop k rows) in
    elim (Result-cases (shown_all json p d id (take k rows))) [
      | inr (x, h) ↦ rw (same, whole, h) refl
      | inl (es, h) ↦ elim (Bool-cases (ltb k (length rows))) [
        | inr e ↦
            let none_left : drop k rows ≡ [] = drop_all k rows (ltb→ge k (length rows) e) in
            rw (same, whole, h, e, none_left) (rw (append-nil es) refl)
        | inl e ↦
            let cursor = last_seq-shown json p d id a (take k rows) es h in
            rw (same, whole, h, e, cursor, next (ltb→lt k (length rows) e))
              (elim (Result-cases (shown_all json p d id (drop k rows))) [
                | inr (x, ht) ↦ rw ht refl
                | inl (b, ht) ↦ rw ht refl
              ])
      ]
    ]

-- However many events a session has, a client that polls from a cursor, each time from the last event
-- that it has, ends: the pages together are all the events after the cursor, each once and in order,
-- as `presentation_event` shows them, and the last one says that there is no more. It takes at most
-- one poll more than there are events. The identifier of the session is at most 524192 bytes long.
pub read_all-shown :
    (json : JsonLibrary) (p : Presentation) (d : Store) (id : String) (n a : ℕ)
    → len id ≤ 524192
    → length (rows_after d id a) < n
    → read_all json p d id n a ≡ with_more false (shown_all json p d id (rows_after d id a))
unfolding events
read_all-shown json p d id zero a short enough = absurd (omega (arith, enough))
read_all-shown json p d id (suc n) a short enough =
    let rows = rows_after d id a in
    let (k, page) = events_page json p d id rows short in
    let (same, fits, moves) = page in
    let left = length-drop k rows in
    after_page json p d id n a k same (λ more.
      let rest = rows_after-drop d id a k in
      let fewer : length (rows_after d id (last_key a (take k rows))) < n =
        rw rest (omega (arith, left, enough, moves (omega (arith, more)), more)) in
      read_all-shown json p d id n (last_key a (take k rows)) short fewer
      ∙ ap (λ t. with_more false (shown_all json p d id t)) rest)
    ∙ ap (λ t. with_more false (shown_all json p d id t)) (take-drop k rows)
