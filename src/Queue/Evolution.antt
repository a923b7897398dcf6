-- ===== src/Queue/Evolution.antt =====
-- How a row of `message_queue` may change, and how the table may.
pub mod Calls
pub mod Admission
pub mod Handoff
pub mod Turns
use latte_work.Common.{
  ◌≤◌, Bool, true, false, List, [], ◌∷◌, ◌++◌, ◌≡◌, refl, inl, inr, update_where, In, arith,
  Bool-cases,
}
use latte_work.Store.State.{QueueRow, QueueStatus, pending, forwarded}

-- A message in one of these states is never executed again.
abbrev pub is_final : QueueStatus → Bool
is_final pending = false
is_final forwarded = false
is_final _ = true

pub record Evolves (r r' : QueueRow) : Type 0 where
  pub same_position : r'.position ≡ r.position
  pub same_request : r'.request_id ≡ r.request_id
  pub same_session : r'.session_id ≡ r.session_id
  pub same_admission : r'.admission ≡ r.admission
  pub same_fingerprint : r'.fingerprint ≡ r.fingerprint
  pub same_entry : r'.message.request_id ≡ r.message.request_id
  pub final_stays : is_final r.status ≡ true → r' ≡ r
  pub revision_grows : r.message.revision ≤ r'.message.revision

-- Row by row the one table evolves to the other.
abbrev pub EvolvesAll : List QueueRow → List QueueRow → Type 0
EvolvesAll [] [] = Unit
EvolvesAll (x ∷ xs) (y ∷ ys) = Evolves x y × EvolvesAll xs ys
EvolvesAll _ _ = ⊥

pub Evolves-refl : (r : QueueRow) → Evolves r r
Evolves-refl r = ground arith

pub Evolves-trans : {r s t : QueueRow} → Evolves r s → Evolves s t → Evolves r t
Evolves-trans {r} {s} {t} a b = ground arith

pub EvolvesAll-refl : (rs : List QueueRow) → EvolvesAll rs rs
EvolvesAll-refl [] = tt
EvolvesAll-refl (r ∷ rs) = (Evolves-refl r, EvolvesAll-refl rs)

pub EvolvesAll-trans :
    (rs ss ts : List QueueRow) → EvolvesAll rs ss → EvolvesAll ss ts → EvolvesAll rs ts
EvolvesAll-trans [] [] ts a b = b
EvolvesAll-trans [] (s ∷ ss) ts a b = absurd a
EvolvesAll-trans (r ∷ rs) [] ts a b = absurd a
EvolvesAll-trans (r ∷ rs) (s ∷ ss) [] a b = absurd b
EvolvesAll-trans (r ∷ rs) (s ∷ ss) (t ∷ ts) a b =
    (Evolves-trans a.0 b.0, EvolvesAll-trans rs ss ts a.1 b.1)

pub EvolvesAll-update :
    (p : QueueRow → Bool) (f : QueueRow → QueueRow) (rs : List QueueRow)
    → ((r : QueueRow) → In r rs → p r ≡ true → Evolves r (f r))
    → EvolvesAll rs (update_where p f rs)
EvolvesAll-update p f [] h = tt
EvolvesAll-update p f (r ∷ rs) h = elim (Bool-cases (p r)) [
  | inl e ↦ rw e (h r (inl refl) e, EvolvesAll-update p f rs (λ s m. h s (inr m)))
  | inr e ↦ rw e (Evolves-refl r, EvolvesAll-update p f rs (λ s m. h s (inr m)))
]
