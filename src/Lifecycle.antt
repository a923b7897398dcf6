-- ===== src/Lifecycle.antt =====
-- crates/latte-work-server/src/upgrade.rs and crates/latte-work-protocol/src/lifecycle.rs: which App
-- owns which sessions and terminals of the host, and when the server makes room for a new version.
-- Locks are never poisoned here.
pub mod Owners
pub mod Adoption
pub mod Limits
pub mod Quiet
pub mod Upgrade
use latte_work.Common.{
  ℕ, ◌+◌, String, len, Bool, true, false, not, ◌&&◌, ◌||◌, List, [], ◌∷◌, Option, none, some, ◌==◌,
  ltb, if◌then◌else◌, length, lookup, any, count_where, is_empty, is_some_and, select, Result, ok,
  err, bail_if, ◌>>=◌, ◌>>◌,
}
use latte_work.Store.State.{Store}
use latte_work.Store.Manage.{active}
use latte_work.Terminal.Table.{Terminals, is_open, is_idle, close}
use latte_work.Runtime.Sessions.{Runs, Run, Host, Cancelled, close_session}

pub data Resource : Type 0 where
  agent_session : String → Resource
  terminal : String → Resource

abbrev pub resource_id : Resource → String
resource_id (agent_session id) = id
resource_id (terminal id) = id

-- The derived `==`.
abbrev pub same_resource : Resource → Resource → Bool
same_resource (agent_session a) (agent_session b) = a == b
same_resource (terminal a) (terminal b) = a == b
same_resource _ _ = false

pub data Request : Type 0 where
  server_status : Request
  prepare_upgrade : (server_id : String) → Request
  claim_resources : (owner_id : String) → (resources : List Resource) → Request
  adopt_resources :
      (server_id previous_owner_id owner_id : String) → (resources : List Resource) → Request
  close_owned_resources : (server_id owner_id : String) → (resources : List Resource) → Request

pub data Response : Type 0 where
  status : (server_id build_id : String) → (draining : Bool) → Response
  upgrade_ready resources_claimed resources_closed : Response
  resources_adopted : (resources : List Resource) → Response

pub data LifecycleError : Type 0 where
  invalid_resources invalid_owner stopping too_many_owned : LifecycleError
  busy not_closed other_server work_left : LifecycleError

abbrev pub Owners : Type 0
Owners = List (Resource × String)

pub record Service : Type 0 where
  pub server_id : String
  pub build_id : String
  pub draining : Bool
  pub owners : Owners
  pub host : Host
  pub terminals : Terminals

abbrev pub owner_limit : ℕ
owner_limit = 4096

unfoldable pub owner_of : Resource → Owners → Option String
owner_of r [] = none
owner_of r (o ∷ os) = if same_resource o.0 r then some o.1 else owner_of r os

unfoldable pub set_owner : Resource → String → Owners → Owners
set_owner r id [] = (r, id) ∷ []
set_owner r id (o ∷ os) = if same_resource o.0 r then (r, id) ∷ os else o ∷ set_owner r id os

unfoldable pub remove_owner : Resource → Owners → Owners
remove_owner r os = select (λ o. not (same_resource o.0 r)) os

unfoldable pub set_owners : List Resource → String → Owners → Owners
set_owners [] id os = os
set_owners (r ∷ rs) id os = set_owners rs id (set_owner r id os)

abbrev pub has_invalid_id : Resource → Bool
has_invalid_id r = is_empty (resource_id r) || ltb 256 (len (resource_id r))

-- `validate_resources`.
unfoldable pub is_invalid_resources : String → List Resource → Bool
is_invalid_resources owner rs =
    is_empty owner || ltb 128 (len owner) || ltb 128 (length rs) || any has_invalid_id rs

abbrev pub with_owners : Service → Owners → Service
with_owners s os = record s { owners = os }

abbrev pub is_unowned : Owners → Resource → Bool
is_unowned os r = not (is_some_and (λ o. true) (owner_of r os))

unfoldable pub claim : Service → String → List Resource → Result LifecycleError Service
unfolding is_invalid_resources
claim s owner rs = do
  bail_if (is_invalid_resources owner rs) invalid_resources
  bail_if s.draining stopping
  bail_if (ltb owner_limit (length s.owners + count_where (is_unowned s.owners) rs)) too_many_owned
  ok (with_owners s (set_owners rs owner s.owners))

-- A session lives while its task does, and it is open or not yet safe to close.
unfoldable pub is_live : Service → Resource → Bool
is_live s (agent_session id) =
    is_some_and (λ r. not r.closed && (r.session_open || not r.safe_to_close))
      (lookup id s.host.runs)
is_live s (terminal id) = is_open s.terminals id

abbrev pub is_owner : Owners → Resource → String → Bool
is_owner os r id = is_some_and (λ o. o == id) (owner_of r os)

-- The loop of `AdoptResources`: the owners afterwards, and what was adopted.
unfoldable pub adopt_all :
    Service → String → String → List Resource → Owners → Owners × List Resource
unfolding is_live
adopt_all s previous owner [] os = (os, [])
adopt_all s previous owner (r ∷ rs) os =
    let adopted = adopt_all s previous owner rs (set_owner r owner os) in
    let left = adopt_all s previous owner rs os in
    if is_live s r && (is_owner os r previous || is_owner os r owner)
    then (adopted.0, r ∷ adopted.1)
    else left

unfoldable pub adopt :
    Service
    → (server_id previous owner : String) → List Resource
    → Result LifecycleError (Service × List Resource)
unfolding is_invalid_resources
adopt s server_id previous owner rs = do
  bail_if (is_invalid_resources owner rs) invalid_resources
  bail_if (is_empty previous || ltb 128 (len previous)) invalid_owner
  if server_id == s.server_id
      then ok (
        with_owners s (adopt_all s previous owner rs s.owners).0,
        (adopt_all s previous owner rs s.owners).1,
      )
      else ok (s, [])

-- One resource is closed and no longer owned. What the task of a session answers to its cancelling,
-- in the state it is in, is an argument.
unfoldable pub close_resource :
    (Host → String → Cancelled) → Service → Resource → Service × Result LifecycleError (Unit {0})
close_resource answer s (terminal id) = (
  record s { owners = remove_owner (terminal id) s.owners; terminals = (close s.terminals id).0 },
  ok tt,
)
close_resource answer s (agent_session id) =
    if is_some_and (λ r. true) (lookup id s.host.runs)
    then elim (close_session s.host id (answer s.host id)).1 [
      | err e ↦ (record s { host = (close_session s.host id (answer s.host id)).0 }, err not_closed)
      | ok u ↦ (
        record s {
          owners = remove_owner (agent_session id) s.owners;
          host = (close_session s.host id (answer s.host id)).0;
        },
        ok tt,
      )
    ]
    else (with_owners s (remove_owner (agent_session id) s.owners), ok tt)

-- The loop of `CloseOwnedResources`, which an error ends.
unfoldable pub close_all :
    (Host → String → Cancelled)
    → String
    → List Resource
    → Service
    → Service × Result LifecycleError (Unit {0})
close_all answer owner [] s = (s, ok tt)
close_all answer owner (r ∷ rs) s =
    let skipped = close_all answer owner rs s in
    let rest = close_all answer owner rs (close_resource answer s r).0 in
    if is_owner s.owners r owner
    then elim (close_resource answer s r).1 [
      | ok u ↦ rest
      | err e ↦ ((close_resource answer s r).0, err e)
    ]
    else skipped

-- `admitted`: the other requests ended within two seconds.
unfoldable pub close_owned :
    (Host → String → Cancelled)
    → Service
    → (server_id owner : String) → List Resource
    → (admitted : Bool) → Service × Result LifecycleError (Unit {0})
unfolding is_invalid_resources
close_owned answer s server_id owner rs admitted =
    if is_invalid_resources owner rs
    then (s, err invalid_resources)
    else if not (server_id == s.server_id)
    then (s, ok tt)
    else if not admitted
    then (s, err busy)
    else close_all answer owner rs s

abbrev pub has_active_sessions : Store → Bool
has_active_sessions d = any (λ x. active x.status) d.sessions

abbrev pub is_running : Runs → Bool
is_running runs = any (λ e. not e.1.safe_to_close) runs

unfoldable pub prepare : Service → String → (admitted : Bool) → Result LifecycleError Service
prepare s server_id admitted = do
  bail_if (not (server_id == s.server_id)) other_server
  bail_if (not admitted) busy
  bail_if (is_running s.host.runs || not (is_idle s.terminals) || has_active_sessions s.host.store)
      work_left
  ok (record s { draining = true })

abbrev pub answered :
    {A : Type 0}
    → Service
    → Result LifecycleError A
    → (A → Service × Response)
    → Service × Result LifecycleError Response
answered s (err e) f = (s, err e)
answered s (ok a) f = ((f a).0, ok (f a).1)

-- `handle_inner`.
unfoldable pub handle :
    (Host → String → Cancelled)
    → Service
    → Request
    → Bool
    → Service × Result LifecycleError Response
handle answer s server_status admitted = (s, ok (status s.server_id s.build_id s.draining))
handle answer s (prepare_upgrade server_id) admitted =
    answered s (prepare s server_id admitted) (λ t. (t, upgrade_ready))
handle answer s (claim_resources owner rs) admitted =
    answered s (claim s owner rs) (λ t. (t, resources_claimed))
handle answer s (adopt_resources server_id previous owner rs) admitted =
    answered s (adopt s server_id previous owner rs) (λ r. (r.0, resources_adopted r.1))
handle answer s (close_owned_resources server_id owner rs) admitted =
    let closed = close_owned answer s server_id owner rs admitted in
    answered closed.0 closed.1 (λ _. (closed.0, resources_closed))

-- `forget`: a client closed the resource by a request of its own.
unfoldable pub forget : Service → Resource → Service
forget s r = with_owners s (remove_owner r s.owners)
