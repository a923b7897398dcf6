-- ===== src/Store/Organised/Calls.antt =====
-- Each call that organises sessions keeps them organised, and so does every history of such calls
-- (crates/latte-work-server/src/store.rs).
use mathlib.Core.List.{map-append}
use latte_work.Common.{
  ℕ, zero, suc, ◌<◌, String, Bool, true, false, not, ◌&&◌, ◌||◌, List, [], ◌∷◌, ◌++◌, ◌≡◌, refl,
  sym, ap, ◌∙◌, inl, inr, ◌⊎◌, Option, none, some, ◌==◌, find-In, any, any-append, contains,
  All-append, In-All, count_where, count-append, length, length-select, take, select, is_some_and,
  leb, arith, ok, bail_if, bail_if-ok, >>=-eq-ok, if◌then◌else◌, eq_iff, has_duplicates,
}
use latte_work.Store.Organised.{Organised, session_ids, session-found, save-Organised}
use latte_work.Protocol.Values.{Session}
use latte_work.Store.State.{Store, unique_violation, archived_pin, too_many_pinned, active_archive}
use latte_work.Store.Sessions.{session, save}
use latte_work.Store.Manage.{
  active, project, is_pinned, pinned_sessions, order_pinned, insert_pinned, validate_session_title,
  rename_session, sync_native_title, pin_session, mark_session_unread, archive_session,
  create_session,
}

length-insert_pinned :
    (s : Session) (xs : List Session) → length (insert_pinned s xs) ≡ suc (length xs)
unfolding insert_pinned
length-insert_pinned s [] = refl
length-insert_pinned s (x ∷ xs) = ground (arith, length-insert_pinned s xs)

length-order_pinned : (xs : List Session) → length (order_pinned xs) ≡ length xs
unfolding order_pinned
length-order_pinned [] = refl
length-order_pinned (x ∷ xs) =
    omega (arith, length-insert_pinned x (order_pinned xs), length-order_pinned xs)

length-take : (n : ℕ) (xs : List Session) → length (take n xs) < n → length xs < n
length-take zero xs h = absurd (omega arith)
length-take (suc n) [] h = h
length-take (suc n) (x ∷ xs) h = omega (arith, length-take n xs (omega arith))

not_leb : (m n : ℕ) → leb m n ≡ false → n < m
not_leb m n h = ground arith

room :
    (d : Store)
    → leb 100 (length (pinned_sessions d)) ≡ false
    → count_where (is_pinned d) d.sessions < 100
unfolding pinned_sessions
room d h =
    let fits = not_leb 100 (length (take 100 (order_pinned (select (is_pinned d) d.sessions)))) h in
    let all_fit = length-take 100 (order_pinned (select (is_pinned d) d.sessions)) fits in
    omega (
      arith,
      all_fit,
      length-order_pinned (select (is_pinned d) d.sessions),
      length-select (is_pinned d) d.sessions,
    )

kept_unpinned :
    (d : Store) (id : String) (s : Session)
    → Organised d
    → session d id ≡ ok s
    → (s.archived && is_some_and (λ _. true) s.pinned_at) ≡ false
kept_unpinned d id s o h =
    let (f, i) = session-found d id s h in
    In-All (λ (r : Session). (r.archived && is_some_and (λ _. true) r.pinned_at) ≡ false) s
      d.sessions o.unpinned (find-In (λ (r : Session). r.id == id) s d.sessions f).0

pub rename_session-Organised :
    (d : Store) (id title : String) (a : Session × Store)
    → Organised d
    → rename_session d id title ≡ ok a
    → Organised a.1
unfolding rename_session
rename_session-Organised d id title a o h =
    let (t, _, h1) = >>=-eq-ok (validate_session_title title) _ h in
    let (s, k, h2) = >>=-eq-ok (session d id) _ h1 in
    let e : a.1 ≡ save d (record s { title = t; custom_title = true }) = ground arith in
    rw e (
      save-Organised d id s (record s { title = t; custom_title = true }) o k refl
        (kept_unpinned d id s o k) (λ p. inl (unfold is_pinned in p)))

pub mark_session_unread-Organised :
    (d : Store) (id : String) (unread : Bool) (a : Session × Store)
    → Organised d
    → mark_session_unread d id unread ≡ ok a
    → Organised a.1
unfolding mark_session_unread
mark_session_unread-Organised d id unread a o h =
    let (s, k, h1) = >>=-eq-ok (session d id) _ h in
    let e : a.1 ≡ save d (record s { unread = unread }) = ground arith in
    rw e (
      save-Organised d id s (record s { unread = unread }) o k refl (kept_unpinned d id s o k)
        (λ p. inl (unfold is_pinned in p)))

archive_at : Bool → Option ℕ → Option ℕ
archive_at archived at = if archived then none else at

archive_unpinned :
    (archived : Bool) (at : Option ℕ)
    → (archived && is_some_and (λ _. true) (archive_at archived at)) ≡ false
unfolding archive_at
archive_unpinned true at = refl
archive_unpinned false at = refl

-- A session that shows as pinned after it left the archive was no archived one.
archive_shown :
    (archived before : Bool) (at : Option ℕ) (shown : Bool)
    → (before && is_some_and (λ _. true) at) ≡ false
    → (is_some_and (λ _. true) (archive_at archived at) && not archived && shown) ≡ true
    → (is_some_and (λ _. true) at && not before && shown) ≡ true
unfolding archive_at
archive_shown true before at shown h k = absurd (cc)
archive_shown false before none shown h k = absurd (cc)
archive_shown false true (some t) shown h k = absurd (cc)
archive_shown false false (some t) shown h k = k

pub archive_session-Organised :
    (d : Store) (id : String) (archived : Bool) (a : Session × Store)
    → Organised d
    → archive_session d id archived ≡ ok a
    → Organised a.1
unfolding archive_session archive_at
archive_session-Organised d id archived a o h =
    let (s, k, h1) = >>=-eq-ok (session d id) _ h in
    let (_, _, h2) = >>=-eq-ok (bail_if (archived && active s.status) active_archive) _ h1 in
    let s' : Session = record s {
      archived = archived;
      pinned_at = archive_at archived s.pinned_at;
    } in
    let e : a.1 ≡ save d s' = ground arith in
    rw e (
      save-Organised d id s s' o k refl (archive_unpinned archived s.pinned_at) (λ p. inl (
        unfold is_pinned in
        archive_shown archived s.archived s.pinned_at _ (kept_unpinned d id s o k) p)))

pin_at : Bool → ℕ → Option ℕ → Option ℕ
pin_at pinned now at = if pinned then (elim at [ none ↦ some now | some t ↦ some t ]) else none

pin_unarchived :
    (pinned archived : Bool) (now : ℕ) (at : Option ℕ)
    → (pinned && archived) ≡ false
    → (archived && is_some_and (λ _. true) (pin_at pinned now at)) ≡ false
unfolding pin_at
pin_unarchived true true now at h = absurd (cc)
pin_unarchived true false now at h = refl
pin_unarchived false true now at h = refl
pin_unarchived false false now at h = refl

pin_shown :
    (d : Store) (pinned : Bool) (now : ℕ) (at : Option ℕ) (kept shown : Bool)
    → (pinned && not (is_some_and (λ _. true) at) && leb 100 (length (pinned_sessions d))) ≡ false
    → (is_some_and (λ _. true) (pin_at pinned now at) && kept && shown) ≡ true
    → ((is_some_and (λ _. true) at && kept && shown) ≡ true)
      ⊎ (count_where (is_pinned d) d.sessions < 100)
unfolding pin_at
pin_shown d true now (some t) kept shown h k = inl k
pin_shown d true now none kept shown h k = inr (room d h)
pin_shown d false now at kept shown h k = absurd (cc)

pub pin_session-Organised :
    (d : Store) (id : String) (pinned : Bool) (now : ℕ) (a : Session × Store)
    → Organised d
    → pin_session d id pinned now ≡ ok a
    → Organised a.1
unfolding pin_session pin_at
pin_session-Organised d id pinned now a o h =
    let (s, k, h1) = >>=-eq-ok (session d id) _ h in
    let (_, x, h2) = >>=-eq-ok (bail_if (pinned && s.archived) archived_pin) _ h1 in
    let (_, y, h3) =
      >>=-eq-ok
        (bail_if
          (pinned
            && not (is_some_and (λ _. true) s.pinned_at)
            && leb 100 (length (pinned_sessions d)))
          too_many_pinned)
        _ h2 in
    let s' : Session = record s { pinned_at = pin_at pinned now s.pinned_at } in
    let e : a.1 ≡ save d s' = ground arith in
    rw e (
      save-Organised d id s s' o k refl
        (pin_unarchived pinned s.archived now s.pinned_at (bail_if-ok _ _ x))
        (λ p. unfold is_pinned in pin_shown d pinned now s.pinned_at _ _ (bail_if-ok _ _ y) p))

pub sync_native_title-Organised :
    (d : Store) (id title : String) (custom : Bool) (a : Session × Store)
    → Organised d
    → sync_native_title d id title custom ≡ ok a
    → Organised a.1
unfolding sync_native_title
sync_native_title-Organised d id title custom a o h =
    let (s, k, h1) = >>=-eq-ok (session d id) _ h in
    let s' : Session = record s { title = title; custom_title = s.custom_title || custom } in
    let named : Organised (save d s') =
      save-Organised d id s s' o k refl (kept_unpinned d id s o k)
        (λ p. inl (unfold is_pinned in p)) in
    let way : (a.1 ≡ d) ⊎ (a.1 ≡ save d s') = ground arith in
    elim way [ inl e ↦ rw e o | inr e ↦ rw e named ]

fresh_id :
    (ids : List String) (id : String)
    → has_duplicates ids ≡ false
    → contains ids id ≡ false
    → has_duplicates (ids ++ id ∷ []) ≡ false
fresh_id [] id d c = refl
fresh_id (x ∷ xs) id d c =
    rw (any-append (λ y. y == x) xs (id ∷ []))
      (ground (arith, fresh_id xs id, eq_iff x id, eq_iff id x))

any-ids :
    (xs : List Session) (id : String) → any (λ r. r.id == id) xs ≡ contains (session_ids xs) id
any-ids [] id = refl
any-ids (x ∷ xs) id = ap (λ b. x.id == id || b) (any-ids xs id)

pub create_session-Organised :
    (d : Store) (project_id agent id : String) (now : ℕ) (a : Session × Store)
    → Organised d
    → create_session d project_id agent id now ≡ ok a
    → Organised a.1
unfolding create_session is_pinned
create_session-Organised d project_id agent id now a o h =
    let (_, _, h1) = >>=-eq-ok (project d project_id) _ h in
    let (_, x, h2) =
      >>=-eq-ok (bail_if (any (λ (r : Session). r.id == id) d.sessions) unique_violation) _ h1 in
    let new : contains (session_ids d.sessions) id ≡ false =
      sym (any-ids d.sessions id) ∙ bail_if-ok _ _ x in
    let e : a.1 ≡ record d { sessions = d.sessions ++ a.0 ∷ [] } = ground arith in
    let same : a.0.id ≡ id = ground arith in
    let unpinned : a.0.pinned_at ≡ none = ground arith in
    rw e (record {
      apart = rw (map-append, same) (fresh_id (session_ids d.sessions) id o.apart new);
      unpinned = All-append _ d.sessions (a.0 ∷ []) o.unpinned (rw unpinned (ground arith), tt);
      few = rw (count-append _ d.sessions (a.0 ∷ [])) (rw unpinned (omega (arith, o.few)));
    })
