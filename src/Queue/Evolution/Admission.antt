-- ===== src/Queue/Evolution/Admission.antt =====
-- What an admission that succeeds has checked, and that it keeps the rows valid (`enqueue`,
-- message_queue.rs).
use latte_work.Common.{
  ℕ, ◌+◌, ◌≤◌, ◌<◌, String, false, not, ◌||◌, List, [], ◌∷◌, ◌++◌, ◌≡◌, refl, sym, ap, ◌∙◌, ◌==◌,
  ltb, leb, any, count_where, count-append, contains, All-append, Option, opt_eq, >>=-eq-ok,
  bail_if-ok, arith, ok, eq_iff,
}
use latte_work.Protocol.Values.{QueuedMessage, Session}
use latte_work.Store.State.{Store, QueueRow, JsonLibrary}
use latte_work.Store.Sessions.{session}
use latte_work.Queue.Rows.{queued, counted_in}
use latte_work.Queue.Admission.{
  SendTurn, is_invalid_turn, new_entry, new_row, admit, queue_bytes, max_queue_bytes, enqueue,
}
use latte_work.Queue.Invariant.{IsValid, Distinct, request_ids}

pub record Admitted (json : JsonLibrary) (d : Store) (id : String) (turn : SendTurn) (now : ℕ)
    (d' : Store) : Type 0 where
  pub valid_turn : is_invalid_turn turn ≡ false
  pub target : Session
  pub known : session d id ≡ ok target
  pub open_session : target.archived ≡ false
  pub entries : List (QueuedMessage × Option String)
  pub queue : queued d id ≡ ok entries
  pub one_provider : any (λ e. not (opt_eq e.1 turn.fingerprint)) entries ≡ false
  pub room : count_where (counted_in id) d.message_queue < 16
  pub bytes : queue_bytes json d id + json.message_len (new_entry turn now) ≤ max_queue_bytes
  pub new_request : any (λ r. r.request_id == turn.request_id) d.message_queue ≡ false
  pub result : d' ≡ admit d id turn now

pub enqueue-ok :
    (json : JsonLibrary) (d d' : Store) (id : String) (turn : SendTurn) (now : ℕ)
    → enqueue json d id turn now ≡ ok d'
    → Admitted json d id turn now d'
unfolding enqueue
enqueue-ok json d d' id turn now h =
    let (_, a, h1) = >>=-eq-ok _ _ h in
    let (s, b, h2) = >>=-eq-ok (session d id) _ h1 in
    let (_, c, h3) = >>=-eq-ok _ _ h2 in
    let (entries, q, h4) = >>=-eq-ok (queued d id) _ h3 in
    let (_, o, h5) = >>=-eq-ok _ _ h4 in
    let (_, r, h6) = >>=-eq-ok _ _ h5 in
    let (_, y, h7) = >>=-eq-ok _ _ h6 in
    let (_, n, h8) = >>=-eq-ok _ _ h7 in
    record {
      valid_turn = bail_if-ok _ _ a;
      target = s;
      known = b;
      open_session = bail_if-ok _ _ c;
      entries = entries;
      queue = q;
      one_provider = bail_if-ok _ _ o;
      room =
          let e = bail_if-ok (leb 16 (count_where (counted_in id) d.message_queue)) _ r in
          ground arith;
      bytes =
          let e =
            bail_if-ok
              (ltb max_queue_bytes (queue_bytes json d id + json.message_len (new_entry turn now)))
              _ y in
          ground arith;
      new_request = bail_if-ok _ _ n;
      result = ground arith;
    }

contains-append :
    (xs ys : List String) (x : String) → contains (xs ++ ys) x ≡ (contains xs x || contains ys x)
contains-append [] ys x = refl
contains-append (y ∷ xs) ys x = ground (arith, contains-append xs ys x)

Distinct-append :
    (xs : List String) (y : String) → Distinct xs → contains xs y ≡ false → Distinct (xs ++ y ∷ [])
Distinct-append [] y d h = (refl, tt)
Distinct-append (x ∷ xs) y d h = (
  rw (contains-append xs (y ∷ []) x) (ground (arith, d.0, eq_iff x y, eq_iff y x)),
  Distinct-append xs y d.1 (ground arith),
)

request_ids-append :
    (rs : List QueueRow) (r : QueueRow)
    → request_ids (rs ++ r ∷ []) ≡ request_ids rs ++ r.request_id ∷ []
request_ids-append [] r = refl
request_ids-append (x ∷ rs) r = ap (◌∷◌ x.request_id) (request_ids-append rs r)

any-request :
    (rs : List QueueRow) (x : String)
    → any (λ r. r.request_id == x) rs ≡ contains (request_ids rs) x
any-request [] x = refl
any-request (r ∷ rs) x = ap (◌||◌ (r.request_id == x)) (any-request rs x)

pub admit-IsValid :
    (json : JsonLibrary) (d d' : Store) (id : String) (turn : SendTurn) (now : ℕ)
    → IsValid d.message_queue
    → Admitted json d id turn now d'
    → IsValid d'.message_queue
admit-IsValid json d d' id turn now v a =
    let row = new_row d id turn now in
    rw a.result (
      unfold admit in
      record {
        distinct = rw (request_ids-append d.message_queue row) (
            unfold new_row in
            Distinct-append (request_ids d.message_queue) turn.request_id v.distinct
              (sym (any-request d.message_queue turn.request_id) ∙ a.new_request));
        aligned = All-append _ d.message_queue _ v.aligned (unfold new_row new_entry in (refl, tt));
        bounded = λ sid.
            rw (count-append (counted_in sid) d.message_queue (row ∷ []))
              (unfold new_row in ground (arith, v.bounded sid, a.room, eq_iff id sid));
      })
