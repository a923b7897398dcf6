-- ===== src/Queue/Evolution/Turns.antt =====
-- The admission of a turn changes the queue only in the row of its message (`begin`,
-- crates/latte-work-server/src/store.rs).
use latte_work.Common.{
  ℕ, String, Bool, true, false, List, [], ◌∷◌, ◌≡◌, refl, ◌∙◌, ◌⊎◌, inl, inr, update_where,
  >>=-eq-ok, arith, ok,
}
use latte_work.Protocol.Values.{TaskSource, Session}
use latte_work.Protocol.Events.{EventKind}
use latte_work.Store.State.{Store, QueueRow, JsonLibrary, dispatched}
use latte_work.Store.Sessions.{session, insert_event}
use latte_work.Store.Sources.{event_sources}
use latte_work.Store.Events.{index_event, index_tool, index_sources, index_source}
use latte_work.Store.Turns.{Turn, begin, admit_turn, record_event, turn_row}
use latte_work.Store.Turns.Begun.{begin_cases}
use latte_work.Queue.Rows.{with_status}
use latte_work.Queue.Evolution.{is_final, EvolvesAll, EvolvesAll-refl, EvolvesAll-update}
use latte_work.Queue.Evolution.Calls.{with_status-Evolves}
use latte_work.Queue.Evolution.Handoff.{insert_event-rows}

index_source-rows :
    (id : String) (now : ℕ) (d : Store) (s : TaskSource)
    → (index_source id now d s).message_queue ≡ d.message_queue
unfolding index_source
index_source-rows id now d s = ground arith

index_sources-rows :
    (id : String) (now : ℕ) (ss : List TaskSource) (d : Store)
    → (index_sources id now ss d).message_queue ≡ d.message_queue
unfolding index_sources
index_sources-rows id now [] d = refl
index_sources-rows id now (s ∷ ss) d =
    index_sources-rows id now ss (index_source id now d s) ∙ index_source-rows id now d s

index_tool-rows :
    (session id name : String) (now : ℕ) (d : Store)
    → (index_tool session id name now d).message_queue ≡ d.message_queue
unfolding index_tool
index_tool-rows session id name now d = ground arith

pub index_event-rows :
    (json : JsonLibrary) (id : String) (e : EventKind) (now : ℕ) (d : Store)
    → (index_event json id e now d).message_queue ≡ d.message_queue
unfolding index_event
index_event-rows json id (EventKind.tool tool name input) now d = index_tool-rows id tool name now d
index_event-rows json id e now d = index_sources-rows id now (event_sources json e) d

record_event-rows :
    (json : JsonLibrary) (id : String) (e : EventKind) (now : ℕ) (d d' : Store)
    → record_event json id e now d ≡ ok d'
    → d'.message_queue ≡ d.message_queue
unfolding record_event
record_event-rows json id e now d d' h =
    let (i, hi, k) = >>=-eq-ok (insert_event d id now e) _ h in
    let f : d' ≡ index_event json id e now i = ground arith in
    rw f (index_event-rows json id e now i ∙ insert_event-rows d i id now e hi)

pub admit_turn-rows :
    (json : JsonLibrary) (d d' : Store) (t : Turn) (s : Session) (now : ℕ)
    → admit_turn json d t s now ≡ ok d'
    → d'.message_queue ≡ update_where (turn_row t) (with_status dispatched) d.message_queue
unfolding admit_turn
admit_turn-rows json d d' t s now h =
    let (told, h1, k) = >>=-eq-ok (record_event json t.session_id _ now _) _ h in
    let (started, h2, l) = >>=-eq-ok (record_event json t.session_id _ now told) _ k in
    let e1 = record_event-rows json t.session_id _ now _ told h1 in
    let e2 = record_event-rows json t.session_id _ now told started h2 in
    let f : d'.message_queue
        ≡ update_where (turn_row t) (with_status dispatched) started.message_queue =
      ground arith in
    rw (f, e2, e1) refl

waiting_not_final : (t : Turn) (r : QueueRow) → turn_row t r ≡ true → is_final r.status ≡ false
waiting_not_final t r h = ground arith

-- What a turn that is admitted writes, and that one accepted before writes nothing.
pub begin-rows :
    (json : JsonLibrary) (d : Store) (t : Turn) (now : ℕ) (a : Bool × Store)
    → begin json d t now ≡ ok a
    → (a.1 ≡ d)
      ⊎ (a.1.message_queue ≡ update_where (turn_row t) (with_status dispatched) d.message_queue)
unfolding begin
begin-rows json d t now a h = elim (begin_cases json d t now a h) [
  | inl (_, e) ↦ inl (ground arith)
  | inr (s, _, _, _, _, f, _) ↦ inr (admit_turn-rows json d a.1 t s now f)
]

pub begin-EvolvesAll :
    (json : JsonLibrary) (d : Store) (t : Turn) (now : ℕ) (a : Bool × Store)
    → begin json d t now ≡ ok a
    → EvolvesAll d.message_queue a.1.message_queue
begin-EvolvesAll json d t now a h = elim (begin-rows json d t now a h) [
  | inl e ↦ rw e (EvolvesAll-refl d.message_queue)
  | inr e ↦ rw e (
      EvolvesAll-update _ _ d.message_queue
        (λ r _ p. with_status-Evolves dispatched r (waiting_not_final t r p)))
]
