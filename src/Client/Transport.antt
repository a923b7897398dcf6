-- ===== src/Client/Transport.antt =====
-- crates/latte-work-client/src/lib.rs: the exchange of messages over one stream.
use latte_work.Common.{
  ℕ, String, Bool, true, false, not, ◌&&◌, List, [], ◌∷◌, ◌++◌, ◌==◌, ltb, if◌then◌else◌,
  is_some_and, Result, ok, err, ◌*◌,
}
use latte_work.Protocol.Requests
use latte_work.Protocol.Responses
use latte_work.Lifecycle.{
  Resource, prepare_upgrade, claim_resources, adopt_resources, close_owned_resources, upgrade_ready,
  resources_claimed, resources_closed, resources_adopted, Response as LifecycleResponse,
  Request as LifecycleRequest,
}

abbrev pub version : ℕ
version = 1

abbrev pub max_frame : ℕ
max_frame = 2 * 1024 * 1024

pub data Message : Type 0 where
  of_request : Requests.Request → Message
  of_lifecycle : LifecycleRequest → Message

-- `sent` is what was written to the stream, or begun to be written.
pub record Client : Type 0 where
  pub broken : Bool
  pub killed : Bool
  pub permission_settings : Bool
  pub server_id : String
  pub sent : List Message

pub data ClientError : Type 0 where
  broken_transport no_permissions too_large stream_failed late abandoned : ClientError
  incompatible refused : ClientError

-- What comes of a frame: an answer that can be read, an error of the stream or in the answer, none
-- in 25 seconds, or the caller gives up before it is known.
pub data Outcome (R : Type 0) : Type 0 where
  answered : R → Outcome R
  failed timed_out dropped : Outcome R

abbrev pub spoiled : Client → Client
spoiled c = record c { broken = true; killed = true }

abbrev pub with_sent : Client → Message → Client
with_sent c m = record c { sent = c.sent ++ m ∷ [] }

-- `exchange`; `size` is that of the encoded request.
unfoldable pub exchange :
    {R : Type 0} → Client → Message → ℕ → Outcome R → Client × Result ClientError R
exchange c m size outcome =
    if c.broken
    then (c, err broken_transport)
    else if ltb max_frame size
    then (spoiled c, err too_large)
    else elim outcome [
      | answered r ↦ (with_sent c m, ok r)
      | failed ↦ (spoiled (with_sent c m), err stream_failed)
      | timed_out ↦ (spoiled (with_sent c m), err late)
      | dropped ↦ (record (with_sent c m) { broken = true }, err abandoned)
    ]

-- A request that asks for a permission mode.
abbrev pub asks_permission : Requests.Request → Bool
asks_permission (Requests.send provider session_id request_id text model effort mode) =
    is_some_and (λ _. true) mode
asks_permission (Requests.send_queued provider session_id request_id text model effort mode) =
    is_some_and (λ _. true) mode
asks_permission r = false

unfoldable pub request :
    Client
    → Requests.Request
    → ℕ
    → Outcome Responses.Response
    → Client × Result ClientError Responses.Response
unfolding exchange
request c r size outcome =
    if c.broken
    then (c, err broken_transport)
    else if asks_permission r && not c.permission_settings
    then (c, err no_permissions)
    else exchange c (of_request r) size outcome

-- The answer of a request, read by its caller; an error of the exchange is passed on.
abbrev pub reading :
    {R A : Type 0}
    → Client × Result ClientError R
    → (R → Result ClientError A)
    → Client × Result ClientError A
reading (c, err e) f = (c, err e)
reading (c, ok r) f = (c, f r)

abbrev pub read_claimed : Result ClientError LifecycleResponse → Result ClientError (Unit {0})
read_claimed (ok resources_claimed) = ok tt
read_claimed (ok r) = err incompatible
read_claimed (err e) = err refused

-- The server's error is the left side of the inner result.
unfoldable pub claim_owned :
    Client
    → (owner : String) → List Resource
    → ℕ
    → Outcome (Result ClientError LifecycleResponse)
    → Client × Result ClientError (Unit {0})
unfolding exchange
claim_owned c owner rs size outcome =
    reading (exchange c (of_lifecycle (claim_resources owner rs)) size outcome) read_claimed

abbrev pub read_adopted : Result ClientError LifecycleResponse → Result ClientError (List Resource)
read_adopted (ok (resources_adopted rs)) = ok rs
read_adopted (ok r) = err incompatible
read_adopted (err e) = err refused

unfoldable pub adopt_owned :
    Client
    → (server_id previous owner : String) → List Resource
    → ℕ
    → Outcome (Result ClientError LifecycleResponse)
    → Client × Result ClientError (List Resource)
unfolding exchange
adopt_owned c server_id previous owner rs size outcome =
    if server_id == c.server_id
    then reading
        (exchange c (of_lifecycle (adopt_resources server_id previous owner rs)) size outcome)
        read_adopted
    else (c, ok [])

abbrev pub read_closed : Result ClientError LifecycleResponse → Result ClientError (Unit {0})
read_closed (ok resources_closed) = ok tt
read_closed (ok r) = err incompatible
read_closed (err e) = err refused

unfoldable pub close_server_owned :
    Client
    → (server_id owner : String) → List Resource
    → ℕ
    → Outcome (Result ClientError LifecycleResponse)
    → Client × Result ClientError (Unit {0})
unfolding exchange
close_server_owned c server_id owner rs size outcome =
    if server_id == c.server_id
    then reading (exchange c (of_lifecycle (close_owned_resources server_id owner rs)) size outcome)
        read_closed
    else (c, ok tt)

abbrev pub read_ready : Result ClientError LifecycleResponse → Result ClientError Bool
read_ready (ok upgrade_ready) = ok true
read_ready (ok r) = err incompatible
read_ready (err e) = ok false

unfoldable pub shutdown_if_idle :
    Client → ℕ → Outcome (Result ClientError LifecycleResponse) → Client × Result ClientError Bool
unfolding exchange
shutdown_if_idle c size outcome =
    reading (exchange c (of_lifecycle (prepare_upgrade c.server_id)) size outcome) read_ready
