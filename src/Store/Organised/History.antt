-- ===== src/Store/Organised/History.antt =====
-- Sessions stay organised in every history of calls (crates/latte-work-server/src/store.rs).
use latte_work.Common.{
  ℕ, ◌≤◌, String, Bool, true, not, ◌&&◌, List, [], ◌∷◌, ◌++◌, ◌≡◌, refl, inl, inr, ◌==◌, any,
  any-append, contains, count_where, Bool-cases, arith, Result, ok, err, after, bail_if, >>=-eq-ok,
  if◌then◌else◌,
}
use latte_work.Protocol.Values.{Session}
use latte_work.Store.State.{Store, Error, project_active}
use latte_work.Store.Manage.{
  active, project, is_pinned, rename_session, sync_native_title, pin_session, mark_session_unread,
  archive_session, create_session, remove_project,
}
use latte_work.Store.Organised.{Organised}
use latte_work.Store.Organised.Calls.{
  rename_session-Organised, sync_native_title-Organised, pin_session-Organised,
  mark_session_unread-Organised, archive_session-Organised, create_session-Organised,
}

count-weaker :
    (p q : Session → Bool) (xs : List Session)
    → ((s : Session) → q s ≡ true → p s ≡ true)
    → count_where q xs ≤ count_where p xs
count-weaker p q [] f = omega arith
count-weaker p q (x ∷ xs) f =
    let rest = count-weaker p q xs f in
    elim (Bool-cases (q x)) [
      | inl e ↦ rw (e, f x e) (omega (arith, rest))
      | inr e ↦ rw e (omega (arith, rest))
    ]

still_shown :
    (hidden : List String) (id other : String) (kept : Bool)
    → (kept && not (contains (hidden ++ id ∷ []) other)) ≡ true
    → (kept && not (contains hidden other)) ≡ true
still_shown hidden id other kept h = ground (arith, any-append (λ x. x == other) hidden (id ∷ []))

remove_project-Organised :
    (d d' : Store) (id : String) → Organised d → remove_project d id ≡ ok d' → Organised d'
unfolding remove_project is_pinned
remove_project-Organised d d' id o h =
    let (_, _, h1) = >>=-eq-ok (project d id) _ h in
    let (_, _, h2) =
      >>=-eq-ok
        (bail_if (any (λ s. s.project_id == id && active s.status) d.sessions) project_active) _
        h1 in
    let hidden : List String =
      if contains d.hidden_projects id then d.hidden_projects else d.hidden_projects ++ id ∷ [] in
    let e : d' ≡ record d { hidden_projects = hidden } = ground arith in
    let fewer : count_where (is_pinned (record d { hidden_projects = hidden })) d.sessions
        ≤ count_where (is_pinned d) d.sessions =
      count-weaker (is_pinned d) (is_pinned (record d { hidden_projects = hidden })) d.sessions
        (λ s p. elim (Bool-cases (contains d.hidden_projects id)) [
          | inl k ↦ rw k at p
          | inr k ↦ still_shown d.hidden_projects id s.project_id _ (rw k at p)
        ]) in
    rw e (record { apart = o.apart; unpinned = o.unpinned; few = omega (arith, fewer, o.few) })

pub data ManageCall : Type 0 where
  creates : (project_id agent id : String) → (now : ℕ) → ManageCall
  renames : (id title : String) → ManageCall
  syncs : (id title : String) → (custom : Bool) → ManageCall
  pins : (id : String) → (pinned : Bool) → (now : ℕ) → ManageCall
  marks : (id : String) → (unread : Bool) → ManageCall
  archives : (id : String) → (archived : Bool) → ManageCall
  removes : (id : String) → ManageCall

-- The store that a call which answers leaves behind.
abbrev pub left_by : Result Error (Session × Store) → Result Error Store
left_by (ok a) = ok a.1
left_by (err e) = err e

unfoldable pub manage : Store → ManageCall → Result Error Store
manage d (creates project_id agent id now) = left_by (create_session d project_id agent id now)
manage d (renames id title) = left_by (rename_session d id title)
manage d (syncs id title custom) = left_by (sync_native_title d id title custom)
manage d (pins id pinned now) = left_by (pin_session d id pinned now)
manage d (marks id unread) = left_by (mark_session_unread d id unread)
manage d (archives id archived) = left_by (archive_session d id archived)
manage d (removes id) = remove_project d id

unfoldable pub manage_run : Store → List ManageCall → Store
unfolding manage
manage_run d [] = d
manage_run d (c ∷ cs) = manage_run (after d (manage d c)) cs

pub left_by-ok :
    (r : Result Error (Session × Store)) (d : Store)
    → left_by r ≡ ok d
    → (a : Session × Store) × (r ≡ ok a) × (d ≡ a.1)
left_by-ok (ok a) d h = (a, refl, ground arith)
left_by-ok (err e) d h = absurd (cc)

left_by-Organised :
    (r : Result Error (Session × Store)) (d : Store)
    → left_by r ≡ ok d
    → ((a : Session × Store) → r ≡ ok a → Organised a.1)
    → Organised d
left_by-Organised r d h f = let (a, e, k) = left_by-ok r d h in rw k (f a e)

manage-Organised : (d d' : Store) (c : ManageCall) → Organised d → manage d c ≡ ok d' → Organised d'
unfolding manage
manage-Organised d d' (creates project_id agent id now) o h =
    left_by-Organised _ d' h (λ a. create_session-Organised d project_id agent id now a o)
manage-Organised d d' (renames id title) o h =
    left_by-Organised _ d' h (λ a. rename_session-Organised d id title a o)
manage-Organised d d' (syncs id title custom) o h =
    left_by-Organised _ d' h (λ a. sync_native_title-Organised d id title custom a o)
manage-Organised d d' (pins id pinned now) o h =
    left_by-Organised _ d' h (λ a. pin_session-Organised d id pinned now a o)
manage-Organised d d' (marks id unread) o h =
    left_by-Organised _ d' h (λ a. mark_session_unread-Organised d id unread a o)
manage-Organised d d' (archives id archived) o h =
    left_by-Organised _ d' h (λ a. archive_session-Organised d id archived a o)
manage-Organised d d' (removes id) o h = remove_project-Organised d d' id o h

-- Through every history of creating, renaming, pinning, archiving and marking sessions and of hiding
-- projects, failed calls included, sessions that are organised stay so: their identifiers differ, no
-- archived session is pinned, and at most 100 show as pinned.
pub manage_run-Organised :
    (d : Store) (cs : List ManageCall) → Organised d → Organised (manage_run d cs)
unfolding manage_run
manage_run-Organised d [] o = o
manage_run-Organised d (c ∷ cs) o =
    manage_run-Organised (after d (manage d c)) cs (by_result (manage d c) refl)
  where
    by_result : (r : Result Error Store) → manage d c ≡ r → Organised (after d r)
    by_result (ok d') e = manage-Organised d d' c o e
    by_result (err x) e = o
