-- ===== src/Queue/Ranks.antt =====
-- What the loop of `reorder_queue` writes (crates/latte-work-server/src/message_queue.rs).
use latte_work.Common.{
  has_duplicates, ℕ, suc, ◌+◌, String, Bool, true, false, List, [], ◌∷◌, ◌≡◌, ◌≢◌, refl, sym, ap,
  ◌∙◌, inl, inr, ◌==◌, contains, In, Bool-cases, arith, eq_iff, ==_refl, ==-eq, select,
  update_where, select_outside-update, ==_ne,
}
use latte_work.Store.State.{QueueRow}
use latte_work.Queue.Rows.{pending_in}
use latte_work.Queue.Edits.{pending_row, assign_ranks}
use latte_work.Queue.Invariant.{request_ids, Distinct}
use latte_work.Queue.Places.{place}

-- A row of the new table whose request is not in the list is a row of the old one.
assign_ranks-In_old :
    (id : String) (rank : ℕ) (order : List String) (rs : List QueueRow) (r : QueueRow)
    → In r (assign_ranks id rank order rs)
    → contains order r.request_id ≡ false
    → In r rs
unfolding assign_ranks
assign_ranks-In_old id rank [] rs r m c = m
assign_ranks-In_old id rank (o ∷ os) rs r m c =
    let other : (o == r.request_id) ≡ false = ground arith in
    let i = assign_ranks-In_old id (suc rank) os _ r m (ground arith) in go rs other i
  where
    go :
        (rs : List QueueRow)
        → (o == r.request_id) ≡ false
        → In r (update_where (pending_row id o) (λ r. record r { sort_order = rank }) rs)
        → In r rs
    go [] e m = m
    go (x ∷ xs) e m = elim (Bool-cases (pending_row id o x)) [
      | inl p ↦ elim (rw p at m) [
        | inl k ↦ absurd (
            ground (
              arith,
              k,
              ap (λ (q : QueueRow). q.request_id) k,
              eq_iff o r.request_id,
              eq_iff x.request_id o,
            ))
        | inr k ↦ inr (go xs e k)
      ]
      | inr p ↦ elim (rw p at m) [ inl k ↦ inl k | inr k ↦ inr (go xs e k) ]
    ]

update-rank :
    (id o : String) (rank : ℕ) (rs : List QueueRow) (r : QueueRow)
    → In r (update_where (pending_row id o) (λ r. record r { sort_order = rank }) rs)
    → pending_in id r ≡ true
    → o ≡ r.request_id
    → r.sort_order ≡ rank
update-rank id o rank [] r m p e = elim m [ ]
update-rank id o rank (x ∷ xs) r m p e = elim (Bool-cases (pending_row id o x)) [
  | inl q ↦ elim (rw q at m) [
    | inl k ↦ ap (λ (q : QueueRow). q.sort_order) (sym k)
    | inr k ↦ update-rank id o rank xs r k p e
  ]
  | inr q ↦ elim (rw q at m) [
    | inl k ↦
        let missed : pending_row id o r ≡ false = rw (← k) q in
        absurd (ground (arith, e, ==_refl o))
    | inr k ↦ update-rank id o rank xs r k p e
  ]
]

-- A pending row of the new table whose request is in the list has its place as rank.
pub assign_ranks-place :
    (id : String) (rank : ℕ) (order : List String) (rs : List QueueRow) (r : QueueRow)
    → In r (assign_ranks id rank order rs)
    → pending_in id r ≡ true
    → has_duplicates order ≡ false
    → contains order r.request_id ≡ true
    → r.sort_order ≡ rank + place r.request_id order
unfolding assign_ranks
assign_ranks-place id rank [] rs r m p u c = absurd (cc)
assign_ranks-place id rank (o ∷ os) rs r m p u c = elim (Bool-cases (o == r.request_id)) [
  | inl e ↦
      let same : o ≡ r.request_id = ==-eq o r.request_id e in
      let old : contains os r.request_id ≡ false = rw (← same) (ground arith) in
      let k = update-rank id o rank rs r (assign_ranks-In_old id (suc rank) os _ r m old) p same in
      rw e (omega (arith, k))
  | inr e ↦
      let k = assign_ranks-place id (suc rank) os _ r m p (ground arith) (ground arith) in
      rw e (omega (arith, k))
]

-- The same requests are pending.
pub assign_ranks-ids :
    (id : String) (rank : ℕ) (order : List String) (rs : List QueueRow)
    → request_ids (select (pending_in id) (assign_ranks id rank order rs))
      ≡ request_ids (select (pending_in id) rs)
unfolding assign_ranks
assign_ranks-ids id rank [] rs = refl
assign_ranks-ids id rank (o ∷ os) rs = assign_ranks-ids id (suc rank) os _ ∙ go rs
  where
    go :
        (rs : List QueueRow)
        → request_ids (
            select
              (pending_in id)
              (update_where (pending_row id o) (λ r. record r { sort_order = rank }) rs))
          ≡ request_ids (select (pending_in id) rs)
    go [] = refl
    go (r ∷ rs) = ground (arith, go rs)

pub assign_ranks-elsewhere :
    (id other : String) (rank : ℕ) (order : List String) (rs : List QueueRow)
    → other ≢ id
    → select (pending_in other) (assign_ranks id rank order rs) ≡ select (pending_in other) rs
unfolding assign_ranks
assign_ranks-elsewhere id other rank [] rs ne = refl
assign_ranks-elsewhere id other rank (o ∷ os) rs ne =
    assign_ranks-elsewhere id other (suc rank) os _ ne
    ∙ select_outside-update (pending_in other) (pending_row id o)
        (λ r. record r { sort_order = rank }) rs
        (λ x p.
          let e : x.session_id ≡ id = ground (arith, eq_iff x.session_id id) in
          rw (e, ==_ne id other (λ k. ne (sym k))) (refl, refl))

pub select-Distinct :
    (p : QueueRow → Bool) (rs : List QueueRow)
    → Distinct (request_ids rs)
    → Distinct (request_ids (select p rs))
select-Distinct p [] d = tt
select-Distinct p (r ∷ rs) d = elim (Bool-cases (p r)) [
  | inl e ↦ rw e (fewer rs d.0, select-Distinct p rs d.1)
  | inr e ↦ rw e (select-Distinct p rs d.1)
]
  where
    fewer :
        (xs : List QueueRow)
        → contains (request_ids xs) r.request_id ≡ false
        → contains (request_ids (select p xs)) r.request_id ≡ false
    fewer [] c = refl
    fewer (x ∷ xs) c = ground (arith, fewer xs)
