-- ===== src/Store/Paging/Joined.antt =====
-- The events of a window are the events of its rows with the neighbouring texts joined (`history`,
-- crates/latte-work-server/src/store.rs).
use latte_work.Common.{concat, false, List, [], ◌∷◌, ◌++◌, ◌≡◌, refl, sym, ap, ◌∙◌}
use latte_work.Protocol.Events.{EventKind, Event}
use latte_work.Store.Paging.History.{is_text, ends_with_text, reversed}

-- An event in front of others. A text goes into the text that follows it, with the key and the time of
-- that one.
unfoldable pub join_front : Event → List Event → List Event
join_front e [] = e ∷ []
join_front e (f ∷ fs) = elim e.event [
  | EventKind.text t ↦ elim f.event [
    | EventKind.text u ↦ record f { event = EventKind.text (concat t u) } ∷ fs
    | _ ↦ e ∷ f ∷ fs
  ]
  | _ ↦ e ∷ f ∷ fs
]

-- The events with neighbouring texts joined.
unfoldable pub joined : List Event → List Event
unfolding join_front
joined [] = []
joined (e ∷ es) = join_front e (joined es)

-- Older events, the newest of them first, in front of others.
unfoldable pub in_front : List Event → List Event → List Event
unfolding join_front
in_front [] acc = acc
in_front (e ∷ es) acc = in_front es (join_front e acc)

joined_onto : List Event → List Event → List Event
unfolding join_front
joined_onto [] acc = acc
joined_onto (e ∷ es) acc = join_front e (joined_onto es acc)

joined_onto-snoc :
    (es : List Event) (e : Event) (acc : List Event)
    → joined_onto (es ++ e ∷ []) acc ≡ joined_onto es (join_front e acc)
unfolding joined_onto
joined_onto-snoc [] e acc = refl
joined_onto-snoc (x ∷ es) e acc = ap (join_front x) (joined_onto-snoc es e acc)

joined_onto-reversed : (es acc : List Event) → in_front es acc ≡ joined_onto (reversed es) acc
unfolding in_front joined_onto reversed
joined_onto-reversed [] acc = refl
joined_onto-reversed (e ∷ es) acc =
    joined_onto-reversed es (join_front e acc) ∙ sym (joined_onto-snoc (reversed es) e acc)

joined_onto-nil : (es : List Event) → joined_onto es [] ≡ joined es
unfolding joined_onto joined
joined_onto-nil [] = refl
joined_onto-nil (e ∷ es) = ap (join_front e) (joined_onto-nil es)

pub in_front-joined : (es : List Event) → in_front es [] ≡ joined (reversed es)
in_front-joined es = joined_onto-reversed es [] ∙ joined_onto-nil (reversed es)

pub join_front-other :
    (e : Event) (acc : List Event) → is_text e.event ≡ false → join_front e acc ≡ e ∷ acc
unfolding join_front
join_front-other e [] h = refl
join_front-other e (f ∷ fs) h = other e.event h
  where
    other :
        (k : EventKind)
        → is_text k ≡ false
        → ◌≡◌ {A = List Event}
            (elim k [
              | EventKind.text t ↦ elim f.event [
                | EventKind.text u ↦ record f { event = EventKind.text (concat t u) } ∷ fs
                | _ ↦ e ∷ f ∷ fs
              ]
              | _ ↦ e ∷ f ∷ fs
            ])
            (e ∷ f ∷ fs)
    other (EventKind.text t) h = absurd (cc h)
    other _ h = refl

pub join_front-apart :
    (e : Event) (acc : List Event) → ends_with_text acc ≡ false → join_front e acc ≡ e ∷ acc
unfolding join_front
join_front-apart e [] h = refl
join_front-apart e (f ∷ fs) h = other e.event f.event h
  where
    other :
        (k l : EventKind)
        → is_text l ≡ false
        → ◌≡◌ {A = List Event}
            (elim k [
              | EventKind.text t ↦ elim l [
                | EventKind.text u ↦ record f { event = EventKind.text (concat t u) } ∷ fs
                | _ ↦ e ∷ f ∷ fs
              ]
              | _ ↦ e ∷ f ∷ fs
            ])
            (e ∷ f ∷ fs)
    other (EventKind.text t) (EventKind.text u) h = absurd (cc h)
    other (EventKind.text t) _ h = refl
    other _ l h = refl
