-- ===== src/Runtime/Archived.antt =====
-- An archived session has no task (`control_for`, `close`, `archive`,
-- crates/latte-work-server/src/runtime.rs).
use latte_work.Common.{
  ◌<◌, leb→gt, String, Bool, true, false, [], none, ◌==◌, leb, length, lookup, insert, remove, ◌≡◌,
  ◌≢◌, refl, subst, ◌∙◌, ◌⊎◌, inl, inr, Bool-cases, Option-cases, Result-cases, ==_refl, ==-eq,
  lookup-insert_other, lookup-remove, lookup-remove_other, arith, Result, ok, err, bail_if,
  bail_if-ok, >>=-eq-ok,
}
use latte_work.Protocol.Values.{Session}
use latte_work.Store.State.{Store, Error}
use latte_work.Store.Sessions.{session}
use latte_work.Store.Manage.{archive_session}
use latte_work.Runtime.Marking.{IsArchived, IsArchived-archive}
use latte_work.Runtime.Sessions.{
  Runs, Host, Cancelled, control_for, close_session, archive, after_cancel, set_archived, is_active,
  new_run, from_store, max_runs, archived_session, too_many_runs,
}

-- What a change of the store leaves archived was so before.
abbrev pub ArchivesNothing : Store → Store → Type 0
ArchivesNothing d d' = (id : String) → IsArchived d' id → IsArchived d id

-- A task that confirms a cancel has left the table, and archives nothing.
pub record Honest (d : Store) (c : Cancelled) : Type 0 where
  pub leaves : c.confirmed ≡ true → c.removed ≡ true
  pub archives_nothing : ArchivesNothing d c.store

-- What happens to the sessions of a host: a request opens, closes, archives or brings back one, with
-- the answer of its task, or anything else changes the store and archives nothing.
pub data Step (h : Host) : Host → Type 0 where
  opened :
      (id : String) (runs : Runs)
      → control_for h.store h.runs id ≡ ok runs
      → Step h (record { store = h.store; runs = runs })
  closed : (id : String) (c : Cancelled) → Honest h.store c → Step h (close_session h id c).0
  archived :
      (id : String) (to : Bool) (c : Cancelled) → Honest h.store c → Step h (archive h id to c).0
  changed : (d : Store) → ArchivesNothing h.store d → Step h (record { store = d; runs = h.runs })

pub data Reach (h : Host) : Host → Type 0 where
  start : Reach h h
  then_step : (mid end : Host) → Reach h mid → Step mid end → Reach h end

Apart : Host → Type 0
Apart h = (id : String) → IsArchived h.store id → lookup id h.runs ≡ none

lookup_none-remove :
    (id other : String) (runs : Runs) → lookup id runs ≡ none → lookup id (remove other runs) ≡ none
lookup_none-remove id other runs h = elim (Bool-cases (id == other)) [
  | inl e ↦ let same = ==-eq id other e in rw (← same) (lookup-remove id runs)
  | inr e ↦ lookup-remove_other other id runs (λ p. absurd (cc (p, e, ==_refl other))) ∙ h
]

set_archived-Apart :
    (h : Host) (id : String) (to : Bool)
    → Apart h
    → (to ≡ true → lookup id h.runs ≡ none)
    → Apart (set_archived h id to).0
unfolding Apart
set_archived-Apart h id to apart gone = elim (Result-cases (archive_session h.store id to)) [
  | inr (x, e) ↦ rw (set_archived, e) apart
  | inl (r, e) ↦
      rw (set_archived, e)
        (λ other is. elim (IsArchived-archive h.store id to r e other is) [
          | inl (same, now_so) ↦ rw same (gone now_so)
          | inr (ne, was) ↦ apart other was
        ])
]

after_cancel-Apart :
    (h : Host) (id : String) (c : Cancelled)
    → Honest h.store c
    → Apart h
    → Apart (after_cancel h id c)
unfolding Apart
after_cancel-Apart h id c honest apart = λ other is.
    let before = apart other (honest.archives_nothing other is) in
    elim (Bool-cases c.removed) [
      | inl e ↦ rw e (lookup_none-remove other id h.runs before)
      | inr e ↦ rw e before
    ]

close_session-Apart :
    (h : Host) (id : String) (c : Cancelled)
    → Honest h.store c
    → Apart h
    → Apart (close_session h id c).0
unfolding close_session
close_session-Apart h id c honest apart = elim (Result-cases (session h.store id)) [
  | inr (x, e) ↦ rw (close_session, e) apart
  | inl (s, e) ↦ elim (Option-cases (lookup id h.runs)) [
    | inl l ↦ rw (close_session, e, l) apart
    | inr (run, l) ↦ elim (Bool-cases run.closed) [
      | inl t ↦ rw (close_session, e, l, t) apart
      | inr t ↦ rw (close_session, e, l, t) (after_cancel-Apart h id c honest apart)
    ]
  ]
]

-- A close that succeeds leaves no task.
close_session-gone :
    (h : Host) (id : String) (c : Cancelled)
    → Honest h.store c
    → (close_session h id c).1 ≡ ok tt
    → lookup id (close_session h id c).0.runs ≡ none
unfolding close_session
close_session-gone h id c honest done = elim (Result-cases (session h.store id)) [
  | inr (x, e) ↦ absurd (cc (rw (close_session, e) at done))
  | inl (s, e) ↦ elim (Option-cases (lookup id h.runs)) [
    | inl l ↦ rw (close_session, e, l) l
    | inr (run, l) ↦ elim (Bool-cases run.closed) [
      | inl t ↦ absurd (cc (rw (close_session, e, l, t) at done))
      | inr t ↦ elim (Bool-cases c.confirmed) [
        | inr u ↦ absurd (cc (rw (close_session, e, l, t, u) at done))
        | inl u ↦ rw (close_session, e, l, t, honest.leaves u) (lookup-remove id h.runs)
      ]
    ]
  ]
]

archive-Apart :
    (h : Host) (id : String) (to : Bool) (c : Cancelled)
    → Honest h.store c
    → Apart h
    → Apart (archive h id to c).0
unfolding archive
archive-Apart h id false c honest apart = set_archived-Apart h id false apart (λ p. absurd (cc p))
archive-Apart h id true c honest apart = elim (Result-cases (is_active h.store id)) [
  | inr (x, e) ↦ rw (archive, e) apart
  | inl (true, e) ↦ rw (archive, e) apart
  | inl (false, e) ↦ elim (Result-cases ((close_session h id c).1)) [
    | inr (x, f) ↦ rw (archive, e, f) (close_session-Apart h id c honest apart)
    | inl (u, f) ↦
        rw (archive, e, f)
          (set_archived-Apart (close_session h id c).0 id true
            (close_session-Apart h id c honest apart) (λ p. close_session-gone h id c honest f))
  ]
]

from_store-ok : {A : Type 0} (r : Result Error A) (a : A) → from_store r ≡ ok a → r ≡ ok a
from_store-ok (ok b) a h = ground arith
from_store-ok (err e) a h = absurd (cc h)

-- What `control_for` returns, and what it takes.
pub control_for-ok :
    (d : Store) (runs after : Runs) (id : String)
    → control_for d runs id ≡ ok after
    → (s : Session) × (session d id ≡ ok s)
      × (s.archived ≡ false)
      × ((after ≡ runs) ⊎ ((length runs < max_runs) × (after ≡ insert id new_run runs)))
unfolding control_for
control_for-ok d runs after id done =
    let (s, found, rest) = >>=-eq-ok (from_store (session d id)) _ done in
    let (_, visible, end) = >>=-eq-ok (bail_if s.archived archived_session) _ rest in
    (
      s,
      from_store-ok (session d id) s found,
      bail_if-ok s.archived archived_session visible,
      elim (Option-cases (lookup id runs)) [
        | inr (run, e) ↦ let same : ok runs ≡ ok after = rw e at end in inl (ground arith)
        | inl e ↦
            let (_, room, new) =
              >>=-eq-ok (bail_if (leb max_runs (length runs)) too_many_runs) _ (rw e at end) in
            let below = leb→gt _ _ (bail_if-ok (leb max_runs (length runs)) too_many_runs room) in
            inr (below, ground arith)
      ],
    )

control_for-Apart :
    (h : Host) (id : String) (runs : Runs)
    → control_for h.store h.runs id ≡ ok runs
    → Apart h
    → Apart (record { store = h.store; runs = runs })
unfolding Apart
control_for-Apart h id runs done apart =
    let (s, found, visible, end) = control_for-ok h.store h.runs runs id done in
    λ other is. elim end [
      | inl same ↦ rw same (apart other is)
      | inr (room, new) ↦
          let ne : other ≢ id = λ p. absurd (
            let there : session h.store id ≡ ok is.0 =
              subst (λ k. session h.store k ≡ ok is.0) p is.1 in
            cc (there, found, visible, is.2)) in
          rw (new, lookup-insert_other id other new_run h.runs ne) (apart other is)
    ]

step-Apart : (h h' : Host) → Step h h' → Apart h → Apart h'
unfolding Apart
step-Apart h _ (opened id runs done) apart = control_for-Apart h id runs done apart
step-Apart h _ (closed id c honest) apart = close_session-Apart h id c honest apart
step-Apart h _ (archived id to c honest) apart = archive-Apart h id to c honest apart
step-Apart h _ (changed d keeps) apart = λ other is. apart other (keeps other is)

reach-Apart : (h h' : Host) → Reach h h' → Apart h → Apart h'
reach-Apart h _ start apart = apart
reach-Apart h _ (then_step mid end before last) apart =
    step-Apart mid end last (reach-Apart h mid before apart)

-- From a host without open sessions, whatever is opened, closed, archived and brought back, and
-- whatever else changes the store but archives nothing, a session that is archived has no task. The
-- tasks are honest: one that confirms a cancel has left the table, and none archives a session.
pub archived-apart :
    (h h' : Host) (id : String)
    → h.runs ≡ []
    → Reach h h'
    → IsArchived h'.store id
    → lookup id h'.runs ≡ none
unfolding Apart
archived-apart h h' id fresh reach is = reach-Apart h h' reach (λ other before. rw fresh refl) id is
