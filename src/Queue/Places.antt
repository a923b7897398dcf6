-- ===== src/Queue/Places.antt =====
-- Rows in the order of a list of their requests (`reorder_queue`,
-- crates/latte-work-server/src/message_queue.rs).
use latte_work.Common.{
  has_duplicates, ℕ, suc, ◌+◌, ◌≤◌, String, Bool, true, false, List, [], ◌∷◌, ◌≡◌, refl, sym, ap,
  ◌∙◌, inl, inr, ◌==◌, contains, all, In, In-All, any-In, Bool-cases, arith, eq_iff, ==_refl, ==-eq,
  if◌then◌else◌, map-In,
}
use latte_work.Store.State.{QueueRow}
use latte_work.Queue.Edits.{same_list}
use latte_work.Queue.Invariant.{request_ids, Distinct}
use latte_work.Queue.Order.{Ascending}
use latte_work.Queue.Fifo.{}

-- The place of a text in a list.
abbrev pub place : String → List String → ℕ
place s [] = 0
place s (x ∷ xs) = if x == s then 0 else suc (place s xs)

pub same_list-eq : (xs ys : List String) → same_list xs ys ≡ true → xs ≡ ys
same_list-eq [] [] h = refl
same_list-eq [] (y ∷ ys) h = absurd (cc)
same_list-eq (x ∷ xs) [] h = absurd (cc)
same_list-eq (x ∷ xs) (y ∷ ys) h =
    let first : (x == y) ≡ true = ground arith in
    let rest : same_list xs ys ≡ true = ground arith in
    cc (==-eq x y first, same_list-eq xs ys rest)

pub all-contains :
    (p : String → Bool) (xs : List String) (s : String)
    → all p xs ≡ true
    → contains xs s ≡ true
    → p s ≡ true
all-contains p [] s h c = absurd (cc)
all-contains p (x ∷ xs) s h c =
    ground (arith, eq_iff x s, all-contains p xs s, ap p {x = x} {y = s})

-- Ascending rows whose rank is the place of their request in a list of the same requests stand in
-- that list's order.
pub place_order :
    (base : ℕ) (order : List String) (rs : List QueueRow)
    → has_duplicates order ≡ false
    → Distinct (request_ids rs)
    → Ascending rs
    → ((r : QueueRow) → In r rs → r.sort_order ≡ base + place r.request_id order)
    → ((s : String) → contains (request_ids rs) s ≡ contains order s)
    → request_ids rs ≡ order
place_order base [] [] u d a h c = refl
place_order base [] (r ∷ rs) u d a h c =
    absurd (ground (arith, c r.request_id, ==_refl r.request_id))
place_order base (o ∷ os) [] u d a h c = absurd (ground (arith, c o, ==_refl o))
place_order base (o ∷ os) (r ∷ rs) u d a h c = elim (Bool-cases (o == r.request_id)) [
  | inl e ↦
      let same : o ≡ r.request_id = ==-eq o r.request_id e in
      cc (
        same,
        place_order (suc base) os rs (ground arith) d.1 a.1 (λ q m. after_first same q m)
            (λ s. contained same s),
      )
  | inr e ↦ absurd (first_missing e)
]
  where
    after_first :
        o ≡ r.request_id
        → (q : QueueRow) → In q rs
        → q.sort_order ≡ suc base + place q.request_id os
    after_first same q m =
        let k : contains (request_ids rs) q.request_id ≡ true =
          any-In (λ x. x == q.request_id) q.request_id (request_ids rs)
            (map-In (λ (x : QueueRow). x.request_id) q rs m) (==_refl q.request_id) in
        let other : (o == q.request_id) ≡ false = ground (
          arith,
          d.0,
          same,
          eq_iff o q.request_id,
          ap (contains (request_ids rs)) {x = q.request_id} {y = r.request_id},
        ) in
        ground (arith, h q (inr m))

    contained : o ≡ r.request_id → (s : String) → contains (request_ids rs) s ≡ contains os s
    contained same s = elim (Bool-cases (o == s)) [
      | inl e ↦
          let k : o ≡ s = ==-eq o s e in
          let left : contains (request_ids rs) s ≡ false = rw (← k) (rw same d.0) in
          let right : contains os s ≡ false = rw (← k) (ground arith) in left ∙ sym right
      | inr e ↦ let k : (r.request_id == s) ≡ false = rw (← same) e in ground (arith, c s)
    ]

    first_missing : (o == r.request_id) ≡ false → ⊥
    first_missing e =
        let there : contains (request_ids rs) o ≡ true =
          ground (arith, c o, ==_refl o, eq_iff r.request_id o, eq_iff o r.request_id) in
        let (q, m, k) = find_row rs there in
        let le : r.sort_order ≤ q.sort_order =
          In-All (λ s. r.sort_order ≤ s.sort_order) q rs a.0 m in
        ground (arith, h q (inr m), h r (inl refl), k, ==_refl o)
      where
        find_row :
            (xs : List QueueRow)
            → contains (request_ids xs) o ≡ true
            → (q : QueueRow) × In q xs × ((o == q.request_id) ≡ true)
        find_row [] t = absurd (cc)
        find_row (x ∷ xs) t = elim (Bool-cases (x.request_id == o)) [
          | inl i ↦ (x, inl refl, ground (arith, eq_iff o x.request_id, eq_iff x.request_id o))
          | inr i ↦ let (q, m, k) = find_row xs (ground arith) in (q, inr m, k)
        ]
