-- ===== src/Queue/Evolution/Calls.antt =====
-- Each call evolves the rows that it finds (message_queue.rs).
use latte_work.Common.{
  ℕ, suc, ◌+◌, ◌≤◌, String, Bool, true, false, ◌&&◌, List, [], ◌∷◌, ◌≡◌, sym, ap, map, ◌∙◌, inl,
  inr, Option, some, none, ◌==◌, find?, update_where, In, arith, Option-cases, eq_iff, ok, In-All,
  ◌⊎◌,
}
use latte_work.Store.State.{Store, QueueRow, QueueStatus, JsonLibrary, taken, cancelled}
use latte_work.Protocol.Responses.{Response}
use latte_work.Protocol.Values.{QueuedMessage}
use latte_work.Queue.Rows.{
  pending_rows, pending_in, row_of, is_pending, is_forwarded, with_status, with_message,
}
use latte_work.Queue.Edits.{
  pending_row, edit_queued, assign_ranks, reorder_queue, is_takeable, take_queued, clear_queue,
}
use latte_work.Queue.Evolution.{
  is_final, Evolves, EvolvesAll, EvolvesAll-refl, EvolvesAll-trans, EvolvesAll-update,
}
use latte_work.Queue.Invariant.{IsValid, found_row, one_row}
use latte_work.Queue.Membership.{find-queued}

-- A status that is not final may become any other, and a message of such a row a later version.
pub with_status-Evolves :
    (s : QueueStatus) (r : QueueRow) → is_final r.status ≡ false → Evolves r (with_status s r)
with_status-Evolves s r h = ground arith

pub with_message-Evolves :
    (m : QueuedMessage) (r : QueueRow)
    → is_final r.status ≡ false
    → m.request_id ≡ r.message.request_id
    → r.message.revision ≤ m.revision
    → Evolves r (with_message m r)
with_message-Evolves m r h e k = ground arith

pub pending_live :
    (b : Bool) (r : QueueRow) → (b && is_pending r.status) ≡ true → is_final r.status ≡ false
pending_live b r h = ground arith

pub forwarded_live :
    (b : Bool) (r : QueueRow) → (b && is_forwarded r.status) ≡ true → is_final r.status ≡ false
forwarded_live b r h = ground arith

pub clear_queue-EvolvesAll :
    (d d' : Store) (id : String)
    → clear_queue d id ≡ ok d'
    → EvolvesAll d.message_queue d'.message_queue
unfolding clear_queue
clear_queue-EvolvesAll d d' id h =
    let e : d'.message_queue
        ≡ update_where (pending_in id) (with_status cancelled) d.message_queue =
      ground arith in
    rw e (
      EvolvesAll-update _ _ d.message_queue
        (λ r _ p. with_status-Evolves cancelled r (pending_live _ r p)))

-- The message that `find` meets among the queued ones of a session.
abbrev pub find_queued : Store → String → String → Option (QueuedMessage × Option String)
find_queued d id request_id =
    find? (λ e. e.0.request_id == request_id)
      (map (λ r. (r.message, r.fingerprint)) (pending_rows d id))

-- What an edit that succeeds has found, and what it writes.
abbrev pub Edited : Store → Store → String → String → Option String → QueuedMessage → Type 0
Edited d d' id request_id none m = d' ≡ record d {
  message_queue = update_where (pending_row id request_id) (with_status cancelled) d.message_queue;
}
Edited d d' id request_id (some t) m = d' ≡ record d {
  message_queue =
      update_where (pending_row id request_id)
        (with_message (record m { text = t; revision = m.revision + 1 })) d.message_queue;
}

pub edit_queued-ok :
    (json : JsonLibrary) (d d' : Store) (id request_id : String) (revision : ℕ)
    (text : Option String)
    → edit_queued json d id request_id revision text ≡ ok d'
    → (e : QueuedMessage × Option String) × (find_queued d id request_id ≡ some e)
      × (e.0.revision ≡ revision)
      × Edited d d' id request_id text e.0
unfolding edit_queued
edit_queued-ok json d d' id request_id revision none h =
    elim (Option-cases (find_queued d id request_id)) [
      | inl e ↦ absurd (ground arith)
      | inr (m, e) ↦ (m, e, ground arith, ground arith)
    ]
edit_queued-ok json d d' id request_id revision (some t) h =
    elim (Option-cases (find_queued d id request_id)) [
      | inl e ↦ absurd (ground arith)
      | inr (m, e) ↦ (m, e, ground arith, ground arith)
    ]

pending_row-request :
    (id request_id : String) (r : QueueRow)
    → pending_row id request_id r ≡ true
    → r.request_id ≡ request_id
pending_row-request id request_id r h = ground (arith, eq_iff r.request_id request_id)

-- The row that an edit writes holds the message that it found.
pub edited_message :
    (d : Store) (id request_id : String) (e : QueuedMessage × Option String) (r : QueueRow)
    → IsValid d.message_queue
    → find_queued d id request_id ≡ some e
    → In r d.message_queue
    → pending_row id request_id r ≡ true
    → r.message ≡ e.0
edited_message d id request_id e r v f j g =
    let (row, i, p, s, q) = find-queued d id request_id e f in
    let aligned : row.message.request_id ≡ row.request_id =
      In-All (λ r. r.message.request_id ≡ r.request_id) row d.message_queue v.aligned i in
    let same : r ≡ row =
      one_row d.message_queue r row v.distinct j i
        (pending_row-request id request_id r g ∙ sym q ∙ aligned) in
    ap (λ (x : QueueRow). x.message) same ∙ s

pub edit_queued-EvolvesAll :
    (json : JsonLibrary) (d d' : Store) (id request_id : String) (revision : ℕ)
    (text : Option String)
    → IsValid d.message_queue
    → edit_queued json d id request_id revision text ≡ ok d'
    → EvolvesAll d.message_queue d'.message_queue
edit_queued-EvolvesAll json d d' id request_id revision none v h =
    let (m, f, k, e) = edit_queued-ok json d d' id request_id revision none h in
    rw e (
      EvolvesAll-update _ _ d.message_queue
        (λ r _ p. with_status-Evolves cancelled r (pending_live _ r p)))
edit_queued-EvolvesAll json d d' id request_id revision (some t) v h =
    let (m, f, k, e) = edit_queued-ok json d d' id request_id revision (some t) h in
    rw e (
      EvolvesAll-update _ _ d.message_queue (λ r j g.
        let same : r.message ≡ m.0 = edited_message d id request_id m r v f j g in
        with_message-Evolves _ r (pending_live _ r g)
          (ap (λ (x : QueuedMessage). x.request_id) (sym same))
          (omega (arith, ap (λ (x : QueuedMessage). x.revision) same))))

with_order-Evolves :
    (n : ℕ) (r : QueueRow) → is_final r.status ≡ false → Evolves r (record r { sort_order = n })
with_order-Evolves n r h = ground arith

pub assign_ranks-EvolvesAll :
    (id : String) (rank : ℕ) (order : List String) (rows : List QueueRow)
    → EvolvesAll rows (assign_ranks id rank order rows)
unfolding assign_ranks
assign_ranks-EvolvesAll id rank [] rows = EvolvesAll-refl rows
assign_ranks-EvolvesAll id rank (x ∷ xs) rows =
    let ranked = update_where (pending_row id x) (λ r. record r { sort_order = rank }) rows in
    EvolvesAll-trans rows ranked (assign_ranks id (suc rank) xs ranked)
      (EvolvesAll-update _ _ rows (λ r _ p. with_order-Evolves rank r (pending_live _ r p)))
      (assign_ranks-EvolvesAll id (suc rank) xs ranked)

-- What a reordering that succeeds has found, and what it writes.
pub reorder_queue-rows :
    (d d' : Store) (id : String) (expected order : List String)
    → reorder_queue d id expected order ≡ ok d'
    → (d' ≡ d) ⊎ (d' ≡ record d { message_queue = assign_ranks id 0 order d.message_queue })
unfolding reorder_queue
reorder_queue-rows d d' id expected order h = ground arith

pub reorder_queue-EvolvesAll :
    (d d' : Store) (id : String) (expected order : List String)
    → reorder_queue d id expected order ≡ ok d'
    → EvolvesAll d.message_queue d'.message_queue
reorder_queue-EvolvesAll d d' id expected order h =
    elim (reorder_queue-rows d d' id expected order h) [
      | inl e ↦ rw e (EvolvesAll-refl d.message_queue)
      | inr e ↦ rw e (assign_ranks-EvolvesAll id 0 order d.message_queue)
    ]

taken-Evolves : (r : QueueRow) → is_takeable r.status ≡ true → Evolves r (with_status taken r)
taken-Evolves r h = ground arith

-- What a message that is taken out was, and what that writes.
pub take_queued-ok :
    (d : Store) (id request_id : String) (revision : ℕ) (a : Response × Store)
    → take_queued d id request_id revision ≡ ok a
    → (row : QueueRow) × (find? (row_of id request_id) d.message_queue ≡ some row)
      × (is_takeable row.status ≡ true)
      × (row.message.revision ≡ revision)
      × (a ≡ (
        Response.queued_message_taken row.message,
        record d {
          message_queue = update_where (row_of id request_id) (with_status taken) d.message_queue;
        },
      ))
unfolding take_queued
take_queued-ok d id request_id revision a h =
    elim (Option-cases (find? (row_of id request_id) d.message_queue)) [
      | inl e ↦ absurd (ground arith)
      | inr (row, e) ↦ (row, e, ground arith, ground arith, ground arith)
    ]

pub take_queued-EvolvesAll :
    (d : Store) (id request_id : String) (revision : ℕ) (a : Response × Store)
    → IsValid d.message_queue
    → take_queued d id request_id revision ≡ ok a
    → EvolvesAll d.message_queue a.1.message_queue
take_queued-EvolvesAll d id request_id revision a v h =
    let (row, f, t, k, e) = take_queued-ok d id request_id revision a h in
    rw e (
      EvolvesAll-update _ _ d.message_queue (λ r m p.
        taken-Evolves r (rw (found_row d.message_queue id request_id row r v.distinct f m p) t)))
