-- ===== src/Lifecycle/Upgrade.antt =====
-- The way to a new version of the server (`handle_inner`,
-- crates/latte-work-server/src/upgrade.rs).
use latte_work.Common.{
  String, Bool, true, false, not, ◌||◌, List, [], ◌∷◌, ◌==◌, All, ◌≡◌, refl, sym, subst, arith,
  Result, ok, err, bail_if, bail_if-ok, >>=-eq-ok, ok-injective,
}
use latte_work.Runtime.Sessions.{Runs, Host, Cancelled}
use latte_work.Terminal.Table.{Terminals, is_idle}
use latte_work.Lifecycle.{
  Service, adopt, claim, LifecycleError, with_owners, close_owned, prepare, handle, Request,
  Response, server_status, prepare_upgrade, claim_resources, adopt_resources, close_owned_resources,
  answered, is_running, has_active_sessions, other_server, busy, work_left,
}
use latte_work.Lifecycle.Quiet.{
  SafeEntry, Quiet, close_owned_keeps, close_resource-Quiet, close_resource-Few,
}
use latte_work.Lifecycle.Limits.{Few, claim-Few, adopt-shorter}

-- A request, with what the tasks of the sessions will answer and whether the other requests end in
-- time.
pub record Call : Type 0 where
  pub answer : Host → String → Cancelled
  pub request : Request
  pub admitted : Bool

unfoldable pub after_call : Service → Call → Service
after_call s c = (handle c.answer s c.request c.admitted).0

unfoldable pub after_calls : Service → List Call → Service
unfolding after_call
after_calls s [] = s
after_calls s (c ∷ cs) = after_calls (after_call s c) cs

-- A request keeps what claims, adoptions, closes and preparations keep.
answered_keeps :
    {A : Type 0} (P : Service → Type 0) (s : Service) (r : Result LifecycleError A)
    (f : A → Service × Response)
    → P s
    → ((a : A) → r ≡ ok a → P (f a).0)
    → P (answered s r f).0
answered_keeps P s (err e) f p h = p
answered_keeps P s (ok a) f p h = h a refl

prepare-ok :
    (s t : Service) (server_id : String) (admitted : Bool)
    → prepare s server_id admitted ≡ ok t
    → ((is_running s.host.runs || not (is_idle s.terminals) || has_active_sessions s.host.store)
        ≡ false)
      × (t ≡ record s { draining = true })
unfolding prepare
prepare-ok s t server_id admitted done =
    let (_, same, rest) =
      >>=-eq-ok (bail_if (not (server_id == s.server_id)) other_server) _ done in
    let (_, alone, rest') = >>=-eq-ok (bail_if (not admitted) busy) _ rest in
    let left =
      is_running s.host.runs || not (is_idle s.terminals) || has_active_sessions s.host.store in
    let (_, idle, end) = >>=-eq-ok (bail_if left work_left) _ rest' in
    (bail_if-ok left work_left idle, sym (ok-injective end))

not_running-Safe : (runs : Runs) → is_running runs ≡ false → All SafeEntry runs
not_running-Safe [] h = tt
not_running-Safe (e ∷ runs) h = (ground arith, not_running-Safe runs (ground arith))

is_idle-eq : (ts : Terminals) → is_idle ts ≡ true → ts ≡ []
is_idle-eq [] h = refl
is_idle-eq (t ∷ ts) h = absurd (cc h)

prepare-Quiet :
    (s t : Service) (server_id : String) (admitted : Bool)
    → prepare s server_id admitted ≡ ok t
    → Quiet t
prepare-Quiet s t server_id admitted done =
    let (idle, shape) = prepare-ok s t server_id admitted done in
    let quiet : Quiet (record s { draining = true }) = record {
      draining_Quiet = refl;
      safe_Quiet = not_running-Safe s.host.runs (ground arith);
      terminals_Quiet = is_idle-eq s.terminals (ground arith);
    } in
    subst Quiet (sym shape) quiet

handle-Quiet :
    (answer : Host → String → Cancelled) (s : Service) (request : Request) (admitted : Bool)
    → Quiet s
    → Quiet (handle answer s request admitted).0
unfolding handle
handle-Quiet answer s server_status admitted q = q
handle-Quiet answer s (prepare_upgrade server_id) admitted q =
    answered_keeps Quiet s (prepare s server_id admitted) _ q
      (λ t e. prepare-Quiet s t server_id admitted e)
handle-Quiet answer s (claim_resources owner rs) admitted q =
    answered_keeps Quiet s (claim s owner rs) _ q
      (λ t e. absurd (cc ((claim-Few s t owner rs e).1, q.draining_Quiet)))
handle-Quiet answer s (adopt_resources server_id previous owner rs) admitted q =
    answered_keeps Quiet s (adopt s server_id previous owner rs) _ q (λ r e.
      let shape = (adopt-shorter s server_id previous owner rs r e).1 in
      let same : Quiet (with_owners s r.0.owners) = record {
        draining_Quiet = q.draining_Quiet;
        safe_Quiet = q.safe_Quiet;
        terminals_Quiet = q.terminals_Quiet;
      } in
      subst Quiet (sym shape) same)
handle-Quiet answer s (close_owned_resources server_id owner rs) admitted q =
    let closed = close_owned answer s server_id owner rs admitted in
    let keeps =
      close_owned_keeps answer Quiet (close_resource-Quiet answer) s server_id owner rs admitted
        q in
    answered_keeps Quiet closed.0 closed.1 _ keeps (λ u e. keeps)

handle-Few :
    (answer : Host → String → Cancelled) (s : Service) (request : Request) (admitted : Bool)
    → Few s
    → Few (handle answer s request admitted).0
unfolding handle
handle-Few answer s server_status admitted few = few
handle-Few answer s (prepare_upgrade server_id) admitted few =
    answered_keeps Few s (prepare s server_id admitted) _ few
      (λ t e. subst Few (sym (prepare-ok s t server_id admitted e).1) few)
handle-Few answer s (claim_resources owner rs) admitted few =
    answered_keeps Few s (claim s owner rs) _ few (λ t e. (claim-Few s t owner rs e).0)
handle-Few answer s (adopt_resources server_id previous owner rs) admitted few =
    answered_keeps Few s (adopt s server_id previous owner rs) _ few
      (λ r e. let same = (adopt-shorter s server_id previous owner rs r e).0 in omega arith)
handle-Few answer s (close_owned_resources server_id owner rs) admitted few =
    let closed = close_owned answer s server_id owner rs admitted in
    let keeps =
      close_owned_keeps answer Few (close_resource-Few answer) s server_id owner rs admitted few in
    answered_keeps Few closed.0 closed.1 _ keeps (λ u e. keeps)

-- If at most 4096 resources are owned, so it is after any requests.
pub calls-Few : (cs : List Call) (s : Service) → Few s → Few (after_calls s cs)
unfolding after_calls after_call
calls-Few [] s few = few
calls-Few (c ∷ cs) s few =
    calls-Few cs (after_call s c) (handle-Few c.answer s c.request c.admitted few)

calls-Quiet : (cs : List Call) (s : Service) → Quiet s → Quiet (after_calls s cs)
unfolding after_calls after_call
calls-Quiet [] s q = q
calls-Quiet (c ∷ cs) s q =
    calls-Quiet cs (after_call s c) (handle-Quiet c.answer s c.request c.admitted q)

-- Once the server said that it is ready for a new version, then after any further requests of this
-- kind it is still draining, each session that is left is safe to close, and there is no
-- terminal.
pub prepared-Quiet :
    (s t : Service) (server_id : String) (admitted : Bool) (cs : List Call)
    → prepare s server_id admitted ≡ ok t
    → Quiet (after_calls t cs)
prepared-Quiet s t server_id admitted cs done =
    calls-Quiet cs t (prepare-Quiet s t server_id admitted done)
