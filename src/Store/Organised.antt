-- ===== src/Store/Organised.antt =====
-- How the calls that organise sessions leave them (`pin_session`, `archive_session` and the like,
-- crates/latte-work-server/src/store.rs).
pub mod Calls
pub mod History
use latte_work.Common.{
  ℕ, zero, suc, ◌+◌, ◌≤◌, ◌<◌, String, Bool, true, false, not, ◌&&◌, ◌||◌, List, [], ◌∷◌, ◌++◌, map,
  ◌≡◌, refl, sym, ap, subst, ◌∙◌, inl, inr, ◌⊎◌, Option, none, some, ◌==◌, ==-eq, ==_refl, find?,
  find-In, any, contains, All, All-append, All-update, In, In-All, count_where, count-append,
  length, length-select, take, select, update_where, update_none, map-update, is_some_and, leb,
  arith, Bool-cases, Option-cases, Result, ok, err, after, bail_if, bail_if-ok, ok_or, >>=-eq-ok,
  ◌>>=◌, ◌>>◌, if◌then◌else◌, eq_iff, has_duplicates,
}
use latte_work.Protocol.Values.{Session, Project, Status}
use latte_work.Store.State.{
  Store, Error, unknown_session, archived_pin, too_many_pinned, active_archive,
}
use latte_work.Store.Sessions.{session, save}
use latte_work.Store.Manage.{
  active, project, is_pinned, pinned_sessions, order_pinned, insert_pinned, pinned_after,
  is_unusable_title, validate_session_title, rename_session, sync_native_title, pin_session,
  mark_session_unread, archive_session, create_session, remove_project,
}

abbrev pub session_ids : List Session → List String
session_ids = map λ s. s.id

-- No two sessions share an identifier, no archived session is pinned, and at most 100 are shown as
-- pinned.
pub record Organised (d : Store) : Type 0 where
  pub apart : has_duplicates (session_ids d.sessions) ≡ false
  pub unpinned : All (λ s. (s.archived && is_some_and (λ _. true) s.pinned_at) ≡ false) d.sessions
  pub few : count_where (is_pinned d) d.sessions ≤ 100

pub session-found :
    (d : Store) (id : String) (s : Session)
    → session d id ≡ ok s
    → (find? (λ r. r.id == id) d.sessions ≡ some s) × (s.id ≡ id)
unfolding session
session-found d id s h = elim (Option-cases (find? (λ (r : Session). r.id == id) d.sessions)) [
  | inl e ↦ absurd (ground arith)
  | inr (x, e) ↦
      let same : x ≡ s = ground arith in
      let found : find? (λ (r : Session). r.id == id) d.sessions ≡ some s = e ∙ ap some same in
      (found, ==-eq s.id id (find-In (λ (r : Session). r.id == id) s d.sessions found).1)
]

-- The replacement of the one row of an identifier adds no row to a count that the new row does not
-- enter anew, and one at most otherwise.
module _ (q : Session → Bool) (id : String) (s s' : Session) where
  others_stay :
      (xs : List Session)
      → contains (session_ids xs) id ≡ false
      → update_where (λ (r : Session). r.id == id) (λ _. s') xs ≡ xs
  others_stay [] h = refl
  others_stay (x ∷ xs) h = ground (arith, others_stay xs)

  count-replace :
      (xs : List Session)
      → has_duplicates (session_ids xs) ≡ false
      → find? (λ (r : Session). r.id == id) xs ≡ some s
      → count_where q (update_where (λ (r : Session). r.id == id) (λ _. s') xs)
          + (if q s then 1 else 0)
        ≡ count_where q xs + (if q s' then 1 else 0)
  count-replace [] d h = absurd (cc)
  count-replace (x ∷ xs) d h = elim (Bool-cases (x.id == id)) [
    | inl e ↦
        let same : x ≡ s = ground arith in
        let gone : contains (session_ids xs) id ≡ false = rw (← ==-eq x.id id e) (ground arith) in
        rw (e, others_stay xs gone, same) (omega arith)
    | inr e ↦
        let rest = count-replace xs (ground arith) (ground arith) in rw e (omega (arith, rest))
  ]

-- Saving another version of a session keeps the sessions organised when the new version is not both
-- archived and pinned, and shows as pinned only if the old one did or there is room.
pub save-Organised :
    (d : Store) (id : String) (s s' : Session)
    → Organised d
    → session d id ≡ ok s
    → s'.id ≡ s.id
    → (s'.archived && is_some_and (λ _. true) s'.pinned_at) ≡ false
    → (is_pinned d s' ≡ true
        → (is_pinned d s ≡ true) ⊎ (count_where (is_pinned d) d.sessions < 100))
    → Organised (save d s')
unfolding save is_pinned
save-Organised d id s s' o h same u p =
    let (f, i) = session-found d id s h in
    let own : s'.id ≡ id = same ∙ i in
    let f' : find? (λ (r : Session). r.id == s'.id) d.sessions ≡ some s =
      subst (λ k. find? (λ (r : Session). r.id == k) d.sessions ≡ some s) (sym own) f in
    let k = count-replace (is_pinned d) s'.id s s' d.sessions o.apart f' in
    record {
      apart =
          rw
            (map-update (λ (r : Session). r.id) (λ r. r.id == s'.id) (λ _. s') d.sessions
              (λ a e. sym (==-eq a.id s'.id e)))
            o.apart;
      unpinned =
          All-update (λ (r : Session). (r.archived && is_some_and (λ _. true) r.pinned_at) ≡ false)
            (λ r. r.id == s'.id) (λ _. s') d.sessions (λ a m e v. u) o.unpinned;
      few = bounded k;
    }
  where
    bounded :
        count_where
              (is_pinned d)
              (update_where (λ (r : Session). r.id == s'.id) (λ _. s') d.sessions)
            + (if is_pinned d s then 1 else 0)
          ≡ count_where (is_pinned d) d.sessions + (if is_pinned d s' then 1 else 0)
        → count_where
            (is_pinned d)
            (update_where (λ (r : Session). r.id == s'.id) (λ _. s') d.sessions)
          ≤ 100
    bounded k = elim (Bool-cases (is_pinned d s')) [
      | inl e ↦ elim (p e) [
        | inl t ↦ omega (arith, rw (e, t) at k, o.few)
        | inr t ↦ omega (arith, rw e at k, t)
      ]
      | inr e ↦ omega (arith, rw e at k, o.few)
    ]
