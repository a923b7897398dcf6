-- ===== src/Store/Turns/Once.antt =====
-- A turn is admitted once (`begin` and `already_accepted`, crates/latte-work-server/src/store.rs).
use latte_work.Common.{
  opt_eq_refl, ℕ, String, true, false, List, [], ◌∷◌, ◌++◌, ◌≡◌, ◌≢◌, sym, some, none, ◌==◌, find?,
  opt_eq, ok, err, arith, ==_refl, ==_ne,
}
use latte_work.Store.State.{Store, RequestRow, JsonLibrary, request_reused}
use latte_work.Store.Turns.{
  Turn, is_invalid_request, same_request, already_accepted, request_row, opt_as_str, begin,
}
use latte_work.Store.Turns.Begun.{Started, begin-ok}
use latte_work.Store.Turns.Later.{StoreCall, store_run, store_run-Extends}

same_request_self : (t : Turn) → same_request t (request_row t) ≡ true
unfolding same_request request_row
same_request_self t = rw (
  ==_refl t.session_id,
  ==_refl t.text,
  opt_eq_refl t.model,
  opt_eq_refl (opt_as_str t.effort),
  opt_eq_refl t.permission_mode,
)

-- The request of an admitted turn is found by its identifier.
find_request :
    (json : JsonLibrary) (d d' : Store) (t : Turn)
    → Started json d t d'
    → find? (λ r. r.id == t.request_id) d'.requests ≡ some (request_row t)
find_request json d d' t s = rw s.requests (find-fresh d.requests s.fresh)
  where
    find-fresh :
        (rs : List RequestRow)
        → find? (λ r. r.id == t.request_id) rs ≡ none
        → find? (λ r. r.id == t.request_id) (rs ++ request_row t ∷ []) ≡ some (request_row t)
    find-fresh [] e = unfold request_row in rw (==_refl t.request_id)
    find-fresh (r ∷ rs) e = ground (arith, find-fresh rs)

-- Requests behind the found one do not change what is found.
find-front :
    (id : String) (rs new : List RequestRow) (r : RequestRow)
    → find? (λ r. r.id == id) rs ≡ some r
    → find? (λ r. r.id == id) (rs ++ new) ≡ some r
find-front id [] new r h = absurd (cc h)
find-front id (x ∷ rs) new r h = ground (arith, find-front id rs new r)

-- A later store still finds the request of an admitted turn.
find_later :
    (json : JsonLibrary) (d d' : Store) (t : Turn) (cs : List StoreCall)
    → Started json d t d'
    → find? (λ r. r.id == t.request_id) (store_run json d' cs).requests ≡ some (request_row t)
find_later json d d' t cs s =
    let (new, e) = store_run-Extends json d' cs in
    rw e (find-front t.request_id d'.requests new (request_row t) (find_request json d d' t s))

accepted_again :
    (d : Store) (t : Turn)
    → is_invalid_request t ≡ false
    → find? (λ r. r.id == t.request_id) d.requests ≡ some (request_row t)
    → already_accepted d t ≡ ok true
unfolding already_accepted
accepted_again d t valid found =
    let same = same_request_self t in
    let fingerprint : opt_eq (request_row t).provider_fingerprint t.provider_fingerprint ≡ true =
      unfold request_row in opt_eq_refl t.provider_fingerprint in
    ground (arith, valid)

other_text :
    (t : Turn) (text : String)
    → text ≢ t.text
    → same_request (record t { text = text }) (request_row t) ≡ false
unfolding same_request request_row
other_text t text ne = rw (==_refl t.session_id, ==_ne t.text text (λ e. ne (sym e)))

reuse_refused :
    (d : Store) (t : Turn) (text : String)
    → find? (λ r. r.id == t.request_id) d.requests ≡ some (request_row t)
    → is_invalid_request (record t { text = text }) ≡ false
    → text ≢ t.text
    → already_accepted d (record t { text = text }) ≡ err request_reused
unfolding already_accepted
reuse_refused d t text found v ne = let other = other_text t text ne in ground (arith, v)

-- When a turn was admitted, then after any history of calls on the queue, on turns, of restarts, of
-- organising sessions and of reporting their status, failed calls included, the same request is
-- answered `false` with nothing changed, and a request that is valid in itself and reuses the
-- identifier with another text is refused.
pub begin_once :
    (json : JsonLibrary) (d d' : Store) (t : Turn) (cs : List StoreCall) (now later : ℕ)
    (text : String)
    → begin json d t now ≡ ok (true, d')
    → is_invalid_request (record t { text = text }) ≡ false
    → text ≢ t.text
    → (begin json (store_run json d' cs) t later ≡ ok (false, store_run json d' cs))
      × (begin json (store_run json d' cs) (record t { text = text }) later ≡ err request_reused)
unfolding begin
begin_once json d d' t cs now later text h v ne =
    let s = begin-ok json d d' t now h in
    let found = find_later json d d' t cs s in
    (
      rw (accepted_again (store_run json d' cs) t s.valid found),
      rw (reuse_refused (store_run json d' cs) t text found v ne),
    )
