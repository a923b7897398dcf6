-- ===== src/Queue/Changes.antt =====
-- What a table that evolves, or gains a row, keeps of the one before (crates/latte-work-server/src/message_queue.rs).
use latte_work.Common.{
  ◌≤◌, true, List, [], ◌∷◌, ◌++◌, ◌≡◌, refl, ap, ◌∙◌, ◌⊎◌, inl, inr, In, In-append_left, Result, ok,
  err, arith,
}
use latte_work.Store.State.{Store, QueueRow, Error, pending}
use latte_work.Queue.Steps.{stored}
use latte_work.Queue.Evolution.{is_final, EvolvesAll, EvolvesAll-refl}
use latte_work.Queue.Invariant.{IsValid, EvolvesAll-IsValid}
use latte_work.Queue.Membership.{}

-- Either each row evolves, or one pending row comes at the end.
abbrev pub StepsTo : List QueueRow → List QueueRow → Type 0
StepsTo rs ss =
    EvolvesAll rs ss ⊎ ((new : QueueRow) × (ss ≡ rs ++ new ∷ []) × (new.status ≡ pending))

pub stored-ok :
    {A : Type 0} (r : Result Error (A × Store)) (d : Store)
    → stored r ≡ ok d
    → (a : A × Store) × (r ≡ ok a) × (d ≡ a.1)
stored-ok (ok a) d h = (a, refl, ground arith)
stored-ok (err e) d h = absurd (cc)

pub evolved : (rs ss : List QueueRow) → IsValid rs → EvolvesAll rs ss → StepsTo rs ss × IsValid ss
evolved rs ss v e = (inl e, EvolvesAll-IsValid rs ss e v)

pub same_rows :
    (d d' : Store)
    → d'.message_queue ≡ d.message_queue
    → EvolvesAll d.message_queue d'.message_queue
same_rows d d' e = rw e (EvolvesAll-refl d.message_queue)

EvolvesAll-final :
    (rs ss : List QueueRow) (r : QueueRow)
    → EvolvesAll rs ss
    → In r rs
    → is_final r.status ≡ true
    → In r ss
EvolvesAll-final [] ss r e m f = elim m [ ]
EvolvesAll-final (x ∷ rs) [] r e m f = absurd e
EvolvesAll-final (x ∷ rs) (y ∷ ss) r e (inl i) f = inl (e.0.final_stays (rw i f) ∙ i)
EvolvesAll-final (x ∷ rs) (y ∷ ss) r e (inr m) f = inr (EvolvesAll-final rs ss r e.1 m f)

-- A later version of a message, under the same request.
abbrev pub LaterIn : QueueRow → List QueueRow → Type 0
LaterIn r ss =
    (s : QueueRow) × In s ss
    × (s.request_id ≡ r.request_id)
    × (r.message.revision ≤ s.message.revision)

EvolvesAll-later :
    (rs ss : List QueueRow) (r : QueueRow) → EvolvesAll rs ss → In r rs → LaterIn r ss
EvolvesAll-later [] ss r e m = elim m [ ]
EvolvesAll-later (x ∷ rs) [] r e m = absurd e
EvolvesAll-later (x ∷ rs) (y ∷ ss) r e (inl i) = (
  y,
  inl refl,
  e.0.same_request ∙ ap (λ (q : QueueRow). q.request_id) i,
  rw i at e.0.revision_grows,
)
EvolvesAll-later (x ∷ rs) (y ∷ ss) r e (inr m) =
    let (s, i, j, k) = EvolvesAll-later rs ss r e.1 m in (s, inr i, j, k)

pub StepsTo-final :
    (rs ss : List QueueRow) (r : QueueRow)
    → StepsTo rs ss
    → In r rs
    → is_final r.status ≡ true
    → In r ss
StepsTo-final rs ss r (inl e) m f = EvolvesAll-final rs ss r e m f
StepsTo-final rs ss r (inr (new, e, p)) m f = rw e (In-append_left r rs (new ∷ []) m)

pub StepsTo-later : (rs ss : List QueueRow) (r : QueueRow) → StepsTo rs ss → In r rs → LaterIn r ss
StepsTo-later rs ss r (inl e) m = EvolvesAll-later rs ss r e m
StepsTo-later rs ss r (inr (new, e, p)) m =
    (r, rw e (In-append_left r rs (new ∷ []) m), refl, omega arith)
