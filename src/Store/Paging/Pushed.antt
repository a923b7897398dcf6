-- ===== src/Store/Paging/Pushed.antt =====
-- A row goes in front of the events of a window, whether or not its text joins another (`history`,
-- crates/latte-work-server/src/store.rs).
use text.Mathlib.TextLemmas.{append-nil as text_append-nil}
use latte_work.Common.{
  String, concat, Bool, true, false, ◌&&◌, List, [], ◌∷◌, ◌≡◌, refl, sym, ap, ◌∙◌, inl, inr,
  Bool-cases, ◌⊎◌,
}
use latte_work.Protocol.Events.{EventKind, Event}
use latte_work.Store.Paging.{Row}
use latte_work.Store.Paging.History.{
  Window, is_text, ends_with_text, concat_all, flush_history_text, begin_event, pushed, with_row,
}
use latte_work.Store.Paging.Joined.{join_front, join_front-other, join_front-apart}

-- The events that a window would give now.
abbrev pub view : List Event × List String → List Event
view w = (flush_history_text w).0

-- There are fragments only for a text at the end.
abbrev pub IsSettled : List Event → List String → Type 0
IsSettled es fragments = (ends_with_text es ≡ true) ⊎ (fragments ≡ [])

begin_event-other :
    (e : EventKind) (fragments : List String)
    → is_text e ≡ false
    → begin_event e fragments ≡ (e, fragments)
begin_event-other (EventKind.text t) fragments h = absurd (cc h)
begin_event-other _ fragments h = refl

-- The event of a row.
abbrev pub shown_event : String → Row → EventKind → Event
shown_event id r e = record { seq = r.seq; session_id = id; at = r.row.at; event = e }

flush-settled :
    (es : List Event) (fragments : List String)
    → IsSettled es fragments
    → (flush_history_text (es, fragments)).1 ≡ []
unfolding flush_history_text
flush-settled [] fragments (inl h) = absurd (cc h)
flush-settled [] fragments (inr h) = h
flush-settled (x ∷ es) fragments (inl h) = rw h refl
flush-settled (x ∷ es) fragments (inr h) = elim (Bool-cases (is_text x.event)) [
  | inl e ↦ rw e refl
  | inr e ↦ rw e h
]

flush_text :
    (x : Event) (es : List Event) (fragments : List String)
    → is_text x.event ≡ true
    → flush_history_text (x ∷ es, fragments)
      ≡ (record x { event = EventKind.text (concat_all fragments) } ∷ es, [])
unfolding flush_history_text
flush_text x es fragments h = rw h refl

flush_other :
    (x : Event) (es : List Event) (fragments : List String)
    → is_text x.event ≡ false
    → flush_history_text (x ∷ es, fragments) ≡ (x ∷ es, fragments)
unfolding flush_history_text
flush_other x es fragments h = rw h refl

flush-ends :
    (es : List Event) (fragments : List String)
    → ends_with_text (view (es, fragments)) ≡ ends_with_text es
unfolding flush_history_text
flush-ends [] fragments = refl
flush-ends (x ∷ es) fragments = elim (Bool-cases (is_text x.event)) [
  | inl e ↦ ap (λ f. ends_with_text f.0) (flush_text x es fragments e) ∙ sym e
  | inr e ↦ ap (λ f. ends_with_text f.0) (flush_other x es fragments e)
]

text_joins :
    (id : String) (r : Row) (t : String) (es : List Event) (fragments : List String)
    → ends_with_text es ≡ true
    → view (es, t ∷ fragments)
      ≡ join_front (shown_event id r (EventKind.text t)) (view (es, fragments))
unfolding concat_all join_front
text_joins id r t [] fragments h = absurd (cc h)
text_joins id r t (f ∷ fs) fragments h =
    ap (λ x. x.0) (flush_text f fs (t ∷ fragments) h)
    ∙ ap (λ x. join_front (shown_event id r (EventKind.text t)) x.0)
        (sym (flush_text f fs fragments h))

text_apart :
    (id : String) (r : Row) (t : String) (es : List Event) (fragments : List String)
    → IsSettled es fragments
    → ends_with_text es ≡ false
    → view (pushed id r (flush_history_text (es, fragments)) (EventKind.text t))
      ≡ join_front (shown_event id r (EventKind.text t)) (view (es, fragments))
unfolding flush_history_text concat_all
text_apart id r t es fragments settled h =
    let whole : concat t (concat_all (flush_history_text (es, fragments)).1) ≡ t =
      ap (λ frs. concat t (concat_all frs)) (flush-settled es fragments settled)
      ∙ text_append-nil t in
    let apart =
      join_front-apart (shown_event id r (EventKind.text t)) (view (es, fragments))
        (flush-ends es fragments ∙ h) in
    ap (λ u. shown_event id r (EventKind.text u) ∷ view (es, fragments)) whole ∙ sym apart

row_apart :
    (id : String) (r : Row) (e : EventKind) (es : List Event) (fragments : List String)
    → is_text e ≡ false
    → view (pushed id r (es, fragments) e) ≡ shown_event id r e ∷ es
row_apart id r e es fragments h =
    ap (λ b. view (shown_event id r b.0 ∷ es, b.1)) (begin_event-other e fragments h)
    ∙ ap (λ x. x.0) (flush_other (shown_event id r e) es fragments h)

with_row_text :
    (id : String) (w : Window) (r : Row) (t : String) (b : Bool)
    → IsSettled w.events w.text_fragments
    → ends_with_text w.events ≡ b
    → view (with_row id w r (EventKind.text t) b)
      ≡ join_front (shown_event id r (EventKind.text t)) (view (w.events, w.text_fragments))
with_row_text id w r t true settled h = text_joins id r t w.events w.text_fragments h
with_row_text id w r t false settled h = text_apart id r t w.events w.text_fragments settled h

with_row_other :
    (id : String) (w : Window) (r : Row) (e : EventKind)
    → is_text e ≡ false
    → view (with_row id w r e false)
      ≡ join_front (shown_event id r e) (view (w.events, w.text_fragments))
with_row_other id w r e h =
    let flushed = flush_history_text (w.events, w.text_fragments) in
    row_apart id r e flushed.0 flushed.1 h ∙ sym (join_front-other (shown_event id r e) flushed.0 h)

-- A row goes in front of the events of the window.
pub with_row-view :
    (id : String) (w : Window) (r : Row) (e : EventKind)
    → IsSettled w.events w.text_fragments
    → view (with_row id w r e (is_text e && ends_with_text w.events))
      ≡ join_front (shown_event id r e) (view (w.events, w.text_fragments))
with_row-view id w r (EventKind.text t) settled =
    with_row_text id w r t (ends_with_text w.events) settled refl
with_row-view id w r e settled = with_row_other id w r e refl

IsSettled-text :
    (id : String) (w : Window) (r : Row) (t : String) (b : Bool)
    → ends_with_text w.events ≡ b
    → IsSettled (with_row id w r (EventKind.text t) b).0 (with_row id w r (EventKind.text t) b).1
IsSettled-text id w r t true h = inl h
IsSettled-text id w r t false h = inl refl

IsSettled-other :
    (id : String) (w : Window) (r : Row) (e : EventKind)
    → IsSettled w.events w.text_fragments
    → is_text e ≡ false
    → IsSettled (with_row id w r e false).0 (with_row id w r e false).1
IsSettled-other id w r e settled h =
    let flushed = flush_history_text (w.events, w.text_fragments) in
    inr (
      ap (λ b. b.1) (begin_event-other e flushed.1 h)
      ∙ flush-settled w.events w.text_fragments settled)

pub with_row-IsSettled :
    (id : String) (w : Window) (r : Row) (e : EventKind)
    → IsSettled w.events w.text_fragments
    → IsSettled
        (with_row id w r e (is_text e && ends_with_text w.events)).0
        (with_row id w r e (is_text e && ends_with_text w.events)).1
with_row-IsSettled id w r (EventKind.text t) settled =
    IsSettled-text id w r t (ends_with_text w.events) refl
with_row-IsSettled id w r e settled = IsSettled-other id w r e settled refl
