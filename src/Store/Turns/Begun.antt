-- ===== src/Store/Turns/Begun.antt =====
-- What a turn that is admitted finds and writes (`begin`, crates/latte-work-server/src/store.rs).
use latte_work.Common.{
  ℕ, String, Bool, true, false, List, [], ◌∷◌, ◌++◌, ◌≡◌, refl, ap, ◌∙◌, inl, inr, ◌⊎◌, none, ◌==◌,
  find?, update_where, ok, arith, Option-cases, if◌then◌else◌, bail_if, bail_if-ok, >>=-eq-ok,
  ◌>>=◌, ◌>>◌,
}
use latte_work.Protocol.Values.{Session, TaskSource}
use latte_work.Protocol.Events.{EventKind}
use latte_work.Store.State.{Store, JsonLibrary, session_busy, session_archived}
use latte_work.Store.Sessions.{session, insert_event}
use latte_work.Store.Sources.{event_sources}
use latte_work.Store.Events.{index_event, index_tool, index_sources, index_source}
use latte_work.Store.Manage.{active}
use latte_work.Store.Turns.{
  Turn, is_invalid_request, already_accepted, request_row, running_session, record_event,
  admit_turn, begin,
}

abbrev Keeps : Store → Store → Type 0
Keeps d d' = (d'.requests ≡ d.requests) × (d'.sessions ≡ d.sessions)

index_source-Keeps :
    (id : String) (now : ℕ) (d : Store) (s : TaskSource) → Keeps d (index_source id now d s)
unfolding index_source
index_source-Keeps id now d s = ground arith

index_sources-Keeps :
    (id : String) (now : ℕ) (ss : List TaskSource) (d : Store) → Keeps d (index_sources id now ss d)
unfolding index_sources
index_sources-Keeps id now [] d = (refl, refl)
index_sources-Keeps id now (s ∷ ss) d =
    let (a, b) = index_sources-Keeps id now ss (index_source id now d s) in
    let (p, q) = index_source-Keeps id now d s in (a ∙ p, b ∙ q)

index_tool-Keeps :
    (session id name : String) (now : ℕ) (d : Store) → Keeps d (index_tool session id name now d)
unfolding index_tool
index_tool-Keeps session id name now d = ground arith

index_event-Keeps :
    (json : JsonLibrary) (id : String) (e : EventKind) (now : ℕ) (d : Store)
    → Keeps d (index_event json id e now d)
unfolding index_event
index_event-Keeps json id (EventKind.tool tool name input) now d =
    index_tool-Keeps id tool name now d
index_event-Keeps json id e now d = index_sources-Keeps id now (event_sources json e) d

pub insert_event-Keeps :
    (d d' : Store) (id : String) (at : ℕ) (e : EventKind)
    → insert_event d id at e ≡ ok d'
    → Keeps d d'
unfolding insert_event
insert_event-Keeps d d' id at e h = ground arith

record_event-Keeps :
    (json : JsonLibrary) (id : String) (e : EventKind) (now : ℕ) (d d' : Store)
    → record_event json id e now d ≡ ok d'
    → Keeps d d'
unfolding record_event
record_event-Keeps json id e now d d' h =
    let (i, hi, k) = >>=-eq-ok (insert_event d id now e) _ h in
    let f : d' ≡ index_event json id e now i = ground arith in
    let (a, b) = index_event-Keeps json id e now i in
    let (p, q) = insert_event-Keeps d i id now e hi in rw f (a ∙ p, b ∙ q)

-- What a turn that is admitted finds and writes.
pub record Started (json : JsonLibrary) (d : Store) (t : Turn) (d' : Store) : Type 0 where
  pub valid : is_invalid_request t ≡ false
  pub before : Session
  pub known : session d t.session_id ≡ ok before
  pub idle : active before.status ≡ false
  pub unarchived : before.archived ≡ false
  pub fresh : find? (λ r. r.id == t.request_id) d.requests ≡ none
  pub requests : d'.requests ≡ d.requests ++ request_row t ∷ []
  pub sessions :
      d'.sessions
      ≡ update_where (λ r. r.id == t.session_id) (λ _. running_session t before) d.sessions

pub admit_turn-Keeps :
    (json : JsonLibrary) (d d' : Store) (t : Turn) (s : Session) (now : ℕ)
    → admit_turn json d t s now ≡ ok d'
    → (d'.requests ≡ d.requests ++ request_row t ∷ [])
      × (d'.sessions
          ≡ update_where (λ r. r.id == t.session_id) (λ _. running_session t s) d.sessions)
unfolding admit_turn
admit_turn-Keeps json d d' t s now h =
    let (told, h1, k) = >>=-eq-ok (record_event json t.session_id _ now _) _ h in
    let (started, h2, l) = >>=-eq-ok (record_event json t.session_id _ now told) _ k in
    let (a, b) = record_event-Keeps json t.session_id _ now _ told h1 in
    let (p, q) = record_event-Keeps json t.session_id _ now told started h2 in
    let r : d'.requests ≡ started.requests = ground arith in
    let s : d'.sessions ≡ started.sessions = ground arith in (r ∙ p ∙ a, s ∙ q ∙ b)

-- The two ways to an answer.
pub begin_cases :
    (json : JsonLibrary) (d : Store) (t : Turn) (now : ℕ) (a : Bool × Store)
    → begin json d t now ≡ ok a
    → ((already_accepted d t ≡ ok true) × (a ≡ (false, d)))
      ⊎ ((s : Session) × (already_accepted d t ≡ ok false)
          × (session d t.session_id ≡ ok s)
          × (active s.status ≡ false)
          × (s.archived ≡ false)
          × (admit_turn json d t s now ≡ ok a.1)
          × (a.0 ≡ true))
unfolding begin
begin_cases json d t now a h =
    let (accepted, e, k) = >>=-eq-ok (already_accepted d t) _ h in branch accepted e k
  where
    branch :
        (b : Bool)
        → already_accepted d t ≡ ok b
        → (if b then ok (false, d) else do
          s ← session d t.session_id
          bail_if (active s.status) session_busy
          bail_if s.archived session_archived
          started ← admit_turn json d t s now
          ok (true, started))
          ≡ ok a
        → ((already_accepted d t ≡ ok true) × (a ≡ (false, d)))
          ⊎ ((s : Session) × (already_accepted d t ≡ ok false)
              × (session d t.session_id ≡ ok s)
              × (active s.status ≡ false)
              × (s.archived ≡ false)
              × (admit_turn json d t s now ≡ ok a.1)
              × (a.0 ≡ true))
    branch true e k = inl (e, ground arith)
    branch false e k =
        let (s, p, k1) = >>=-eq-ok (session d t.session_id) _ k in
        let (_, q, k2) = >>=-eq-ok (bail_if (active s.status) session_busy) _ k1 in
        let (_, r, k3) = >>=-eq-ok (bail_if s.archived session_archived) _ k2 in
        let (started, n, k4) = >>=-eq-ok (admit_turn json d t s now) _ k3 in
        let f : a ≡ (true, started) = ground arith in
        inr (s, e, p, bail_if-ok _ _ q, bail_if-ok _ _ r, rw f n, ground arith)

already_accepted-false :
    (d : Store) (t : Turn)
    → already_accepted d t ≡ ok false
    → (is_invalid_request t ≡ false) × (find? (λ r. r.id == t.request_id) d.requests ≡ none)
unfolding already_accepted
already_accepted-false d t h =
    let (_, a, k) = >>=-eq-ok (bail_if (is_invalid_request t) _) _ h in
    (
      bail_if-ok _ _ a,
      elim (Option-cases (find? (λ r. r.id == t.request_id) d.requests)) [
        | inl e ↦ e
        | inr (r, e) ↦ absurd (ground arith)
      ],
    )

pub begin-ok :
    (json : JsonLibrary) (d d' : Store) (t : Turn) (now : ℕ)
    → begin json d t now ≡ ok (true, d')
    → Started json d t d'
begin-ok json d d' t now h = elim (begin_cases json d t now (true, d') h) [
  | inl (_, e) ↦ absurd (cc (ap (λ (x : Bool × Store). x.0) e))
  | inr (s, a, b, c, e, f, _) ↦
      let (v, g) = already_accepted-false d t a in
      let (r, q) = admit_turn-Keeps json d d' t s now f in
      record {
        valid = v;
        before = s;
        known = b;
        idle = c;
        unarchived = e;
        fresh = g;
        requests = r;
        sessions = q;
      }
]
