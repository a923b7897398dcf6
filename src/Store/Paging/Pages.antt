-- ===== src/Store/Paging/Pages.antt =====
-- Which rows a page of `Store::events` takes (crates/latte-work-server/src/store.rs).
use latte_work.Common.{
  ℕ, suc, ◌+◌, ◌≤◌, String, len, Bool, false, ◌||◌, List, [], ◌∷◌, ltb, eqb, length, take, ◌≡◌,
  refl, inl, inr, Bool-cases, arith, Result, ok, err, ◌>>=◌, Result-cases, ge→ltb, lt→ltb,
}
use latte_work.Protocol.Events.{Event}
use latte_work.Store.State.{Store, JsonLibrary, Error}
use latte_work.Store.Paging.{
  Row, Presentation, shown, fill_page, with_event, data_len, page_events, page_bytes,
}

-- The rows as they are shown, one by one.
unfoldable pub shown_all :
    JsonLibrary → Presentation → Store → String → List Row → Result Error (List Event)
unfolding shown
shown_all json p d id [] = ok []
shown_all json p d id (r ∷ rs) =
    let rest = shown_all json p d id rs in shown json p d id r >>= λ e. rest >>= λ es. ok (e ∷ es)

abbrev pub with_more : {E : Type 0} → Bool → Result E (List Event) → Result E (List Event × Bool)
with_more more (ok es) = ok (es, more)
with_more more (err e) = err e

-- A row's data, as it is shown, fits in half of a page.
data_len-half : (json : JsonLibrary) (r : Row) → data_len json r ≤ 524288
unfolding data_len
data_len-half json r = ground arith

with_event-more :
    (e : Event) (more : Bool) (rest : Result Error (List Event))
    → (with_more more rest >>= λ page. with_event e page)
      ≡ with_more more (rest >>= λ es. ok (e ∷ es))
with_event-more e more (ok es) = refl
with_event-more e more (err x) = refl

-- What a page takes: the first rows, and it says whether there are others.
abbrev pub Takes :
    JsonLibrary → Presentation → Store → String → (count bytes : ℕ) → List Row → ℕ → Type 0
Takes json p d id count bytes rs k =
    (fill_page json p d id count bytes rs
      ≡ with_more (ltb k (length rs)) (shown_all json p d id (take k rs)))
    × (k ≤ length rs)
    × (count + k ≤ page_events)

abbrev stops : JsonLibrary → String → (count bytes : ℕ) → Row → Bool
stops json id count bytes r =
    eqb count page_events || ltb page_bytes (bytes + (data_len json r + len id + 96))

Takes-next :
    (json : JsonLibrary) (p : Presentation) (d : Store) (id : String) (count bytes : ℕ) (r : Row)
    (rs : List Row) (k : ℕ)
    → stops json id count bytes r ≡ false
    → Takes json p d id (suc count) (bytes + (data_len json r + len id + 96)) rs k
    → Takes json p d id count bytes (r ∷ rs) (suc k)
unfolding fill_page shown_all
Takes-next json p d id count bytes r rs k on (same, short, few) =
    let more : ltb (suc k) (suc (length rs)) ≡ ltb k (length rs) = ground arith in
    (
      rw (on, same, more)
          (elim (Result-cases (shown json p d id r)) [
            | inl (e, h) ↦
                rw h (with_event-more e (ltb k (length rs)) (shown_all json p d id (take k rs)))
            | inr (x, h) ↦ rw h refl
          ]),
      omega (arith, short),
      omega (arith, few),
    )

takes :
    (json : JsonLibrary) (p : Presentation) (d : Store) (id : String) (rs : List Row)
    (count bytes : ℕ)
    → count ≤ page_events
    → (k : ℕ) × Takes json p d id count bytes rs k
unfolding fill_page shown_all
takes json p d id [] count bytes h = (0, (refl, omega arith, omega (arith, h)))
takes json p d id (r ∷ rs) count bytes h = elim (Bool-cases (stops json id count bytes r)) [
  | inl e ↦
      let left = lt→ltb 0 (suc (length rs)) (omega arith) in
      (0, (rw (e, left) refl, omega arith, omega (arith, h)))
  | inr e ↦
      let size = data_len json r + len id + 96 in
      let (k, rest) = takes json p d id rs (suc count) (bytes + size) (ground arith) in
      (suc k, Takes-next json p d id count bytes r rs k e rest)
]

-- A page is never empty while there are rows, as a row's data is at most 512 KiB when shown.
pub Takes-first :
    (json : JsonLibrary) (p : Presentation) (d : Store) (id : String) (r : Row) (rs : List Row)
    → len id ≤ 524192
    → (k : ℕ) × Takes json p d id 0 0 (r ∷ rs) (suc k)
Takes-first json p d id r rs short =
    let half = data_len-half json r in
    let fits : stops json id 0 0 r ≡ false =
      ge→ltb page_bytes (0 + (data_len json r + len id + 96)) (omega (arith, half, short)) in
    let size = 0 + (data_len json r + len id + 96) in
    let (k, rest) = takes json p d id rs 1 size (omega arith) in
    (k, Takes-next json p d id 0 0 r rs k fits rest)
