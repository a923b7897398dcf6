-- ===== src/Queue/Rows.antt =====
-- crates/latte-work-server/src/message_queue.rs: the SQL of the queue's two tables.
use latte_work.Common.{
  ℕ, String, Bool, true, false, ◌&&◌, ◌||◌, List, [], ◌∷◌, ◌++◌, map, Option, some, none, ◌==◌, ltb,
  leb, eqb, if◌then◌else◌, take, select, update_where, find?, any, max, not, Result, ok, bail_if,
  ◌>>=◌, ◌>>◌,
}
use latte_work.Protocol.Values.{QueuedMessage}
use latte_work.Store.State.{
  Store, QueueRow, QueueStatus, pending, forwarded, Error, foreign_key_violation,
}
use latte_work.Store.Sessions.{session, session_exists}

-- status='pending'.
abbrev pub is_pending : QueueStatus → Bool
is_pending pending = true
is_pending _ = false

-- status='forwarded'.
abbrev pub is_forwarded : QueueStatus → Bool
is_forwarded forwarded = true
is_forwarded _ = false

-- status IN ('pending','forwarded').
abbrev pub is_counted : QueueStatus → Bool
is_counted s = is_pending s || is_forwarded s

-- session_id=?1 AND status='pending'.
abbrev pub pending_in : String → QueueRow → Bool
pending_in id r = r.session_id == id && is_pending r.status

-- session_id=?1 AND status='forwarded'.
abbrev pub forwarded_in : String → QueueRow → Bool
forwarded_in id r = r.session_id == id && is_forwarded r.status

-- session_id=?1 AND status IN ('pending','forwarded').
abbrev pub counted_in : String → QueueRow → Bool
counted_in id r = r.session_id == id && is_counted r.status

-- session_id=?1 AND request_id=?2.
abbrev pub row_of : String → String → QueueRow → Bool
row_of id request_id r = r.session_id == id && r.request_id == request_id

-- ORDER BY sort_order,position, as an insertion sort.
abbrev pub comes_before : QueueRow → QueueRow → Bool
comes_before a b =
    ltb a.sort_order b.sort_order || (eqb a.sort_order b.sort_order && leb a.position b.position)

unfoldable pub insert_row : QueueRow → List QueueRow → List QueueRow
insert_row r [] = r ∷ []
insert_row r (x ∷ xs) = if comes_before x r then x ∷ insert_row r xs else r ∷ x ∷ xs

unfoldable pub insert_rows : List QueueRow → List QueueRow → List QueueRow
unfolding insert_row
insert_rows sorted [] = sorted
insert_rows sorted (x ∷ xs) = insert_rows (insert_row x sorted) xs

unfoldable pub order_rows : List QueueRow → List QueueRow
unfolding insert_rows
order_rows rows = insert_rows [] rows

-- The pending rows of a session in the order of their execution.
unfoldable pub pending_rows : Store → String → List QueueRow
unfolding order_rows
pending_rows d id = take 16 (order_rows (select (pending_in id) d.message_queue))

-- `Store::queued`.
unfoldable pub queued : Store → String → Result Error (List (QueuedMessage × Option String))
unfolding session
queued d id = do _ ← session d id; ok (map (λ r. (r.message, r.fingerprint)) (pending_rows d id))

-- `Store::queue_state`.
unfoldable pub queue_state : Store → String → Bool × Option String
queue_state d id = elim (find? (λ s. s.session_id == id) d.message_queue_state) [
  | none ↦ (false, none)
  | some s ↦ (s.paused, s.reason)
]

-- INSERT INTO message_queue_state … ON CONFLICT(session_id) DO UPDATE.
unfoldable pub upsert_state : Store → String → Bool → Option String → Result Error Store
upsert_state d id paused reason =
    if any (λ s. s.session_id == id) d.message_queue_state
    then ok (record d {
      message_queue_state =
          update_where (λ s. s.session_id == id)
            (λ s. record s { paused = paused; reason = reason }) d.message_queue_state;
    })
    else (bail_if (not (session_exists d id)) foreign_key_violation
        >> ok (record d {
          message_queue_state =
              d.message_queue_state
              ++ record { session_id = id; paused = paused; reason = reason } ∷ [];
        }))

-- COALESCE(MAX(sort_order),0) over the pending rows of a session.
abbrev pub last_order : String → List QueueRow → ℕ
last_order id [] = 0
last_order id (r ∷ rs) = max (if pending_in id r then r.sort_order else 0) (last_order id rs)

-- SET status=….
abbrev pub with_status : QueueStatus → QueueRow → QueueRow
with_status s r = record r { status = s }

-- SET data=….
abbrev pub with_message : QueuedMessage → QueueRow → QueueRow
with_message m r = record r { message = m }
