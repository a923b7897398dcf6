-- ===== src/Runtime/Marking.antt =====
-- What `archive_session` does to the other sessions (crates/latte-work-server/src/store.rs).
use latte_work.Common.{
  String, Bool, true, false, ◌&&◌, List, [], ◌∷◌, none, some, ◌==◌, if◌then◌else◌, find?,
  update_where, ◌≡◌, ◌≢◌, refl, sym, ap, subst, ◌∙◌, ◌⊎◌, inl, inr, Bool-cases, ==_refl, ==-eq,
  ==_ne, arith, ok, ok_or, bail_if, >>=-eq-ok,
}
use latte_work.Protocol.Values.{Session}
use latte_work.Store.State.{Store, unknown_session}
use latte_work.Store.Sessions.{session, save}
use latte_work.Store.Manage.{active, archive_session}
use latte_work.Store.Organised.{session-found}
use latte_work.Runtime.Sessions.{}

abbrev pub IsArchived : Store → String → Type 0
IsArchived d id = (s : Session) × (session d id ≡ ok s) × (s.archived ≡ true)

find_other-save :
    (id other : String) (s : Session) (xs : List Session)
    → s.id ≡ other
    → id ≢ other
    → find? (λ r. r.id == id) (update_where (λ r. r.id == other) (λ _. s) xs)
      ≡ find? (λ r. r.id == id) xs
find_other-save id other s [] e ne = refl
find_other-save id other s (x ∷ xs) e ne =
    let apart : (s.id == id) ≡ false = ==_ne s.id id (λ p. ne (sym p ∙ e)) in
    elim (Bool-cases (x.id == other)) [
      | inl t ↦
          let here : (x.id == id) ≡ false = ==_ne x.id id (λ p. ne (sym p ∙ ==-eq x.id other t)) in
          rw (t, apart, here) (find_other-save id other s xs e ne)
      | inr t ↦
          rw t (ap (λ r. if x.id == id then some x else r) (find_other-save id other s xs e ne))
    ]

find_same-save :
    (a s : Session) (xs : List Session)
    → find? (λ r. r.id == s.id) xs ≡ some a
    → find? (λ r. r.id == s.id) (update_where (λ r. r.id == s.id) (λ _. s) xs) ≡ some s
find_same-save a s [] h = absurd (cc)
find_same-save a s (x ∷ xs) h = elim (Bool-cases (x.id == s.id)) [
  | inl t ↦ rw (t, ==_refl s.id) refl
  | inr t ↦ rw (t, t) (find_same-save a s xs (ground arith))
]

save-session : (d : Store) (a s : Session) → session d s.id ≡ ok a → session (save d s) s.id ≡ ok s
unfolding session save
save-session d a s h =
    let found = (session-found d s.id a h).0 in
    ap (λ o. ok_or o unknown_session) (find_same-save a s d.sessions found)

save-session_other :
    (d : Store) (id : String) (s : Session) → id ≢ s.id → session (save d s) id ≡ session d id
unfolding session save
save-session_other d id s ne =
    ap (λ o. ok_or o unknown_session) (find_other-save id s.id s d.sessions refl ne)

abbrev marked : Session → Bool → Session
marked s to = record s { archived = to; pinned_at = if to then none else s.pinned_at }

archive_session-shape :
    (d : Store) (id : String) (to : Bool) (r : Session × Store)
    → archive_session d id to ≡ ok r
    → (s : Session) × (session d id ≡ ok s) × (r ≡ (marked s to, save d (marked s to)))
unfolding archive_session
archive_session-shape d id to r done =
    let (s, found, rest) = >>=-eq-ok (session d id) _ done in
    let (_, idle, end) = >>=-eq-ok (bail_if (to && active s.status) _) _ rest in
    (s, found, ground arith)

-- The session that was archived or brought back, and the others.
archive_session-ok :
    (d : Store) (id : String) (to : Bool) (r : Session × Store)
    → archive_session d id to ≡ ok r
    → (r.0.archived ≡ to)
      × (session r.1 id ≡ ok r.0)
      × ((other : String) → other ≢ id → session r.1 other ≡ session d other)
archive_session-ok d id to r done =
    let (s, found, shape) = archive_session-shape d id to r done in
    let own = (session-found d id s found).1 in
    let mine = save-session d s (marked s to) (subst (λ k. session d k ≡ ok s) (sym own) found) in
    let here : session (save d (marked s to)) id ≡ ok (marked s to) =
      subst (λ k. session (save d (marked s to)) k ≡ ok (marked s to)) own mine in
    let first = ap (λ x. x.0) shape in
    let second = ap (λ x. x.1) shape in
    (
      ap (λ x. x.archived) first,
      rw (first, second) here,
      λ other ne. rw second (save-session_other d other (marked s to) (λ p. ne (p ∙ own))),
    )

pub IsArchived-archive :
    (d : Store) (id : String) (to : Bool) (r : Session × Store)
    → archive_session d id to ≡ ok r
    → (other : String) → IsArchived r.1 other
    → ((other ≡ id) × (to ≡ true)) ⊎ ((other ≢ id) × IsArchived d other)
IsArchived-archive d id to r done other (s, found, is) =
    let (flag, here, there) = archive_session-ok d id to r done in
    elim (Bool-cases (other == id)) [
      | inl e ↦
          let same = ==-eq other id e in
          let both : session r.1 id ≡ ok s = subst (λ k. session r.1 k ≡ ok s) same found in
          inl (same, cc (here, both, flag, is))
      | inr e ↦
          let apart : other ≢ id = λ p. absurd (cc (p, e, ==_refl other)) in
          inr (apart, (s, sym (there other apart) ∙ found, is))
    ]
