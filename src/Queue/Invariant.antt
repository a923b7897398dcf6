-- ===== src/Queue/Invariant.antt =====
-- What holds of the rows of `message_queue` between two calls.
use latte_work.Common.{
  ◌≤◌, String, true, false, List, [], ◌∷◌, map, ◌≡◌, refl, sym, ap, ◌∙◌, inl, inr, some, ◌==◌,
  find?, contains, count_where, All, In, map-In, any-In, find-In, arith, Bool-cases, ==_refl,
  eq_iff,
}
use latte_work.Store.State.{QueueRow}
use latte_work.Queue.Rows.{counted_in, row_of}
use latte_work.Queue.Evolution.{Evolves, EvolvesAll}

abbrev pub request_ids : List QueueRow → List String
request_ids = map λ r. r.request_id

-- The UNIQUE constraint.
abbrev pub Distinct : List String → Type 0
Distinct [] = Unit
Distinct (x ∷ xs) = (contains xs x ≡ false) × Distinct xs

pub record IsValid (rows : List QueueRow) : Type 0 where
  pub distinct : Distinct (request_ids rows)
  pub aligned : All (λ r. r.message.request_id ≡ r.request_id) rows
  pub bounded : (id : String) → count_where (counted_in id) rows ≤ 16

request_ids-EvolvesAll :
    (rs ss : List QueueRow) → EvolvesAll rs ss → request_ids ss ≡ request_ids rs
request_ids-EvolvesAll [] [] h = refl
request_ids-EvolvesAll [] (s ∷ ss) h = absurd h
request_ids-EvolvesAll (r ∷ rs) [] h = absurd h
request_ids-EvolvesAll (r ∷ rs) (s ∷ ss) h = cc (h.0.same_request, request_ids-EvolvesAll rs ss h.1)

aligned-EvolvesAll :
    (rs ss : List QueueRow)
    → EvolvesAll rs ss
    → All (λ r. r.message.request_id ≡ r.request_id) rs
    → All (λ r. r.message.request_id ≡ r.request_id) ss
aligned-EvolvesAll [] [] h a = tt
aligned-EvolvesAll [] (s ∷ ss) h a = absurd h
aligned-EvolvesAll (r ∷ rs) [] h a = absurd h
aligned-EvolvesAll (r ∷ rs) (s ∷ ss) h a =
    (h.0.same_entry ∙ a.0 ∙ sym h.0.same_request, aligned-EvolvesAll rs ss h.1 a.1)

counted-Evolves :
    (id : String) (r s : QueueRow) → Evolves r s → counted_in id s ≡ true → counted_in id r ≡ true
counted-Evolves id r s h c = ground (arith, h.same_session, h.final_stays)

count-EvolvesAll :
    (id : String) (rs ss : List QueueRow)
    → EvolvesAll rs ss
    → count_where (counted_in id) ss ≤ count_where (counted_in id) rs
count-EvolvesAll id [] [] h = omega arith
count-EvolvesAll id [] (s ∷ ss) h = absurd h
count-EvolvesAll id (r ∷ rs) [] h = absurd h
count-EvolvesAll id (r ∷ rs) (s ∷ ss) h =
    let rest = count-EvolvesAll id rs ss h.1 in
    let here = counted-Evolves id r s h.0 in
    elim (Bool-cases (counted_in id s)) [
      | inl e ↦ rw (e, here e) (omega arith)
      | inr e ↦ rw e (omega arith)
    ]

pub EvolvesAll-IsValid : (rs ss : List QueueRow) → EvolvesAll rs ss → IsValid rs → IsValid ss
EvolvesAll-IsValid rs ss h v = record {
  distinct = rw (request_ids-EvolvesAll rs ss h) v.distinct;
  aligned = aligned-EvolvesAll rs ss h v.aligned;
  bounded = λ id. omega (arith, count-EvolvesAll id rs ss h, v.bounded id);
}

In-contains :
    (r : QueueRow) (rs : List QueueRow) → In r rs → contains (request_ids rs) r.request_id ≡ true
In-contains r rs m =
    any-In (λ x. x == r.request_id) r.request_id (request_ids rs)
      (map-In (λ (q : QueueRow). q.request_id) r rs m) (==_refl r.request_id)

-- Two rows of one request are one row.
pub one_row :
    (rs : List QueueRow) (r s : QueueRow)
    → Distinct (request_ids rs)
    → In r rs
    → In s rs
    → r.request_id ≡ s.request_id
    → r ≡ s
one_row [] r s d m n e = elim m [ ]
one_row (x ∷ rs) r s d (inl m) (inl n) e = sym m ∙ n
one_row (x ∷ rs) r s d (inl m) (inr n) e =
    absurd (cc (In-contains s rs n, d.0, ap (λ (q : QueueRow). q.request_id) m, e))
one_row (x ∷ rs) r s d (inr m) (inl n) e =
    absurd (cc (In-contains r rs m, d.0, ap (λ (q : QueueRow). q.request_id) n, e))
one_row (x ∷ rs) r s d (inr m) (inr n) e = one_row rs r s d.1 m n e

pub row_of-request :
    (id request_id : String) (r : QueueRow)
    → row_of id request_id r ≡ true
    → r.request_id ≡ request_id
row_of-request id request_id r h = ground (arith, eq_iff r.request_id request_id)

-- The row that a query by session and request finds is the only one that it meets.
pub found_row :
    (rs : List QueueRow) (id request_id : String) (row r : QueueRow)
    → Distinct (request_ids rs)
    → find? (row_of id request_id) rs ≡ some row
    → In r rs
    → row_of id request_id r ≡ true
    → r ≡ row
found_row rs id request_id row r d f m h =
    let (n, k) = find-In (row_of id request_id) row rs f in
    one_row rs r row d m n
      (row_of-request id request_id r h ∙ sym (row_of-request id request_id row k))
