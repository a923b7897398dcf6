-- ===== src/Queue/Edits.antt =====
-- crates/latte-work-server/src/message_queue.rs: `edit_queued`, `reorder_queue`, `take_queued`,
-- `clear_queue` and `queue_snapshot`.
use latte_work.Common.{
  has_duplicates, ℕ, suc, ◌+◌, String, len, Bool, true, false, not, ◌&&◌, ◌||◌, List, [], ◌∷◌, ◌++◌,
  map, Option, some, none, ◌==◌, ltb, eqb, if◌then◌else◌, find?, any, all, length, contains, select,
  update_where, sum_where, is_empty, trim, Result, ok, err, bail_if, ok_or, ◌>>=◌, ◌>>◌,
}
use latte_work.Protocol.Values.{QueuedMessage}
use latte_work.Protocol.Responses.{Response}
use latte_work.Store.State.{
  Store, QueueRow, QueueStatus, pending, taken, cancelled, JsonLibrary, Error, no_rows,
  queue_bytes_full, invalid_message, not_queued, stale_revision, revision_overflow, invalid_order,
  incomplete_order, order_changed, not_takeable,
}
use latte_work.Store.Sessions.{session}
use latte_work.Queue.Rows.{
  queued, queue_state, is_pending, pending_in, counted_in, row_of, with_status, with_message,
}
use latte_work.Queue.Admission.{max_text, max_queue_bytes}

-- u32::checked_add(1).
unfoldable pub checked_next : ℕ → Option ℕ
checked_next n = if ltb n 4294967295 then some (n + 1) else none

-- The pending row that an UPDATE of a session's message meets.
abbrev pub pending_row : String → String → QueueRow → Bool
pending_row id request_id r = row_of id request_id r && is_pending r.status

-- `Store::queue_snapshot`.
unfoldable pub queue_snapshot : Store → String → Result Error Response
unfolding queued queue_state
queue_snapshot d id = do
  entries ← queued d id
  let state = queue_state d id
  ok (Response.message_queue (map (λ e. e.0) entries) state.0 state.1)

-- The bytes that the other counted messages of the session take.
unfoldable pub other_bytes : JsonLibrary → Store → String → String → ℕ
other_bytes json d id request_id =
    sum_where (λ r. counted_in id r && not (r.request_id == request_id))
      (λ r. json.message_len r.message) d.message_queue

cancel : Store → String → String → Store
cancel d id request_id = record d {
  message_queue = update_where (pending_row id request_id) (with_status cancelled) d.message_queue;
}

module _ (json : JsonLibrary) where
  edit_text : Store → String → String → QueuedMessage → String → Result Error Store
  unfolding checked_next other_bytes
  edit_text d id request_id old text = do
    bail_if (is_empty (trim text) || ltb max_text (len text)) invalid_message
    revision ← ok_or (checked_next old.revision) revision_overflow
    let entry = record old { text = text; revision = revision }
    bail_if (ltb max_queue_bytes (other_bytes json d id request_id + json.message_len entry))
        queue_bytes_full
    ok (record d {
      message_queue = update_where (pending_row id request_id) (with_message entry) d.message_queue;
    })

  -- `Store::edit_queued`: `none` cancels the message.
  unfoldable pub edit_queued : Store → String → String → ℕ → Option String → Result Error Store
  unfolding queued edit_text cancel
  edit_queued d id request_id revision text = do
    entries ← queued d id
    found ← ok_or (find? (λ e. e.0.request_id == request_id) entries) not_queued
    bail_if (not (eqb found.0.revision revision)) stale_revision
    elim text [ none ↦ ok (cancel d id request_id) | some t ↦ edit_text d id request_id found.0 t ]

-- `==` of two lists of texts, and of two `HashSet`s.
abbrev pub same_list : List String → List String → Bool
same_list [] [] = true
same_list (x ∷ xs) (y ∷ ys) = x == y && same_list xs ys
same_list _ _ = false

abbrev pub same_set : List String → List String → Bool
same_set xs ys = all (contains ys) xs && all (contains xs) ys

-- The loop over `order.iter().enumerate()`.
unfoldable pub assign_ranks : String → ℕ → List String → List QueueRow → List QueueRow
assign_ranks id rank [] rows = rows
assign_ranks id rank (request_id ∷ rest) rows =
    assign_ranks id (suc rank) rest
      (update_where (pending_row id request_id) (λ r. record r { sort_order = rank }) rows)

unfoldable pub is_invalid_order : List String → List String → Bool
is_invalid_order expected order =
    ltb 16 (length expected)
    || not (eqb (length expected) (length order))
    || any (λ v. is_empty v || ltb 100 (len v)) (expected ++ order)

unfoldable pub is_incomplete_order : List String → List String → Bool
is_incomplete_order expected order =
    has_duplicates expected || has_duplicates order || not (same_set expected order)

-- `Store::reorder_queue`.
unfoldable pub reorder_queue : Store → String → List String → List String → Result Error Store
unfolding is_invalid_order is_incomplete_order queued assign_ranks
reorder_queue d id expected order = do
  bail_if (is_invalid_order expected order) invalid_order
  bail_if (is_incomplete_order expected order) incomplete_order
  entries ← queued d id
  let current = map (λ e. e.0.request_id) entries
  if same_list current order
      then ok d
      else (if not (same_list current expected)
          then err order_changed
          else ok (record d { message_queue = assign_ranks id 0 order d.message_queue }))

-- status IN ('pending','taken').
abbrev pub is_takeable : QueueStatus → Bool
is_takeable pending = true
is_takeable taken = true
is_takeable _ = false

-- `Store::take_queued`.
unfoldable pub take_queued : Store → String → String → ℕ → Result Error (Response × Store)
unfolding session
take_queued d id request_id revision = do
  _ ← session d id
  row ← ok_or (find? (row_of id request_id) d.message_queue) no_rows
  bail_if (not (is_takeable row.status) || not (eqb row.message.revision revision)) not_takeable
  ok (
    Response.queued_message_taken row.message,
    record d {
      message_queue = update_where (row_of id request_id) (with_status taken) d.message_queue;
    },
  )

-- `Store::clear_queue`.
unfoldable pub clear_queue : Store → String → Result Error Store
unfolding session
clear_queue d id = do
  _ ← session d id
  ok (record d {
    message_queue = update_where (pending_in id) (with_status cancelled) d.message_queue;
    message_queue_state = select (λ s. not (s.session_id == id)) d.message_queue_state;
  })
