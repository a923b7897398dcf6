-- ===== src/Client/Silence.antt =====
-- A stream whose exchange went wrong is not used again (`exchange`,
-- crates/latte-work-client/src/lib.rs).
use latte_work.Common.{
  ℕ, String, Bool, true, false, List, [], ◌∷◌, ◌==◌, ltb, if◌then◌else◌, ◌≡◌, refl, ap, ◌∙◌, Result,
  err,
}
use latte_work.Protocol.Requests
use latte_work.Protocol.Responses
use latte_work.Lifecycle.{Resource, Response as LifecycleResponse}
use latte_work.Client.Transport.{
  Client, Message, ClientError, Outcome, answered, failed, timed_out, dropped, exchange, request,
  claim_owned, adopt_owned, close_server_owned, shutdown_if_idle, max_frame, broken_transport,
  reading, read_claimed, read_adopted, read_closed, read_ready,
}

-- A call of the client, with what will come of its frame.
pub data Call : Type 0 where
  requested : Requests.Request → ℕ → Outcome Responses.Response → Call
  claimed :
      (owner : String) → List Resource → ℕ → Outcome (Result ClientError LifecycleResponse) → Call
  adopted :
      (server_id previous owner : String)
      → List Resource
      → ℕ
      → Outcome (Result ClientError LifecycleResponse)
      → Call
  closed :
      (server_id owner : String)
      → List Resource
      → ℕ
      → Outcome (Result ClientError LifecycleResponse)
      → Call
  shut_down : ℕ → Outcome (Result ClientError LifecycleResponse) → Call

unfoldable pub after_call : Client → Call → Client
after_call c (requested r size o) = (request c r size o).0
after_call c (claimed owner rs size o) = (claim_owned c owner rs size o).0
after_call c (adopted server previous owner rs size o) =
    (adopt_owned c server previous owner rs size o).0
after_call c (closed server owner rs size o) = (close_server_owned c server owner rs size o).0
after_call c (shut_down size o) = (shutdown_if_idle c size o).0

unfoldable pub after_calls : Client → List Call → Client
unfolding after_call
after_calls c [] = c
after_calls c (x ∷ xs) = after_calls (after_call c x) xs

if_true : {A : Type 0} (b : Bool) (x y : A) → b ≡ true → (if b then x else y) ≡ x
if_true true x y h = refl
if_true false x y h = absurd (cc h)

broken-exchange :
    {R : Type 0} (c : Client) (m : Message) (size : ℕ) (o : Outcome R)
    → c.broken ≡ true
    → exchange c m size o ≡ (c, err broken_transport)
unfolding exchange
broken-exchange c m size o h = if_true c.broken (c, err broken_transport) _ h

reading-broken :
    {R A : Type 0} (r : Client × Result ClientError R) (c : Client) (f : R → Result ClientError A)
    → r ≡ (c, err broken_transport)
    → (reading r f).0 ≡ c
reading-broken r c f h = ap (λ x. (reading x f).0) h

either_same :
    {A : Type 0} (b : Bool) (x y : Client × A) (c : Client)
    → x.0 ≡ c
    → y.0 ≡ c
    → (if b then x else y).0 ≡ c
either_same true x y c hx hy = hx
either_same false x y c hx hy = hy

broken-after_call : (c : Client) (x : Call) → c.broken ≡ true → after_call c x ≡ c
unfolding after_call request claim_owned adopt_owned close_server_owned shutdown_if_idle
broken-after_call c (requested r size o) h =
    ap (λ (x : Client × Result ClientError Responses.Response). x.0)
      (if_true c.broken (c, err broken_transport) _ h)
broken-after_call c (claimed owner rs size o) h =
    reading-broken _ c read_claimed (broken-exchange c _ size o h)
broken-after_call c (adopted server previous owner rs size o) h =
    either_same (server == c.server_id) _ _ c
      (reading-broken _ c read_adopted (broken-exchange c _ size o h)) refl
broken-after_call c (closed server owner rs size o) h =
    either_same (server == c.server_id) _ _ c
      (reading-broken _ c read_closed (broken-exchange c _ size o h)) refl
broken-after_call c (shut_down size o) h =
    reading-broken _ c read_ready (broken-exchange c _ size o h)

broken-after_calls : (xs : List Call) (c : Client) → c.broken ≡ true → after_calls c xs ≡ c
unfolding after_calls
broken-after_calls [] c h = refl
broken-after_calls (x ∷ xs) c h =
    let same = broken-after_call c x h in
    ap (λ d. after_calls d xs) same ∙ broken-after_calls xs c h

abbrev pub is_answered : {R : Type 0} → Outcome R → Bool
is_answered (answered r) = true
is_answered failed = false
is_answered timed_out = false
is_answered dropped = false

either_broken :
    {A : Type 0} (b l : Bool) (x y z : Client × A)
    → x.0.broken ≡ b
    → y.0.broken ≡ true
    → z.0.broken ≡ true
    → (if b then x else (if l then y else z)).0.broken ≡ true
either_broken true l x y z hx hy hz = hx
either_broken false true x y z hx hy hz = hy
either_broken false false x y z hx hy hz = hz

unanswered-exchange :
    {R : Type 0} (c : Client) (m : Message) (size : ℕ) (o : Outcome R)
    → is_answered o ≡ false
    → (exchange c m size o).0.broken ≡ true
unfolding exchange
unanswered-exchange c m size (answered r) h = absurd (cc h)
unanswered-exchange c m size failed h =
    either_broken c.broken (ltb max_frame size) _ _ _ refl refl refl
unanswered-exchange c m size timed_out h =
    either_broken c.broken (ltb max_frame size) _ _ _ refl refl refl
unanswered-exchange c m size dropped h =
    either_broken c.broken (ltb max_frame size) _ _ _ refl refl refl

-- When an exchange fails, is too late or is given up before its answer is known, then no call that
-- follows, of whichever kind, writes to the stream or changes the client.
pub exchange-silent :
    {R : Type 0} (c : Client) (m : Message) (size : ℕ) (o : Outcome R) (xs : List Call)
    → is_answered o ≡ false
    → after_calls (exchange c m size o).0 xs ≡ (exchange c m size o).0
exchange-silent c m size o xs h =
    broken-after_calls xs (exchange c m size o).0 (unanswered-exchange c m size o h)
