-- ===== src/Tests/Turns.antt =====
-- The admission of turns at concrete inputs.
use latte_work.Common.{
  List, [], ◌∷◌, none, ◌≡◌, ◌≢◌, refl, String, Bool, true, false, ok, err, Result, arith, eq_iff,
  is_empty, trim,
}
use latte_work.Store.State.{Store, Error, request_reused}
use latte_work.Store.Sessions.{session, insert_event}
use latte_work.Store.Events.{index_event, index_sources}
use latte_work.Store.Sources.{event_sources, references, rfind}
use latte_work.Store.Turns.{begin, already_accepted, admit_turn, record_event, is_invalid_request}
use latte_work.Store.Turns.Once.{begin_once}
use latte_work.Store.Turns.Later.{StoreCall, state_call, queue_call, manage_call, store_run}
use latte_work.Store.Organised.History.{renames}
use latte_work.Queue.Steps.{begins, reopens}
use latte_work.Protocol.Values.{Status}
use latte_work.Tests.Sample.{json, empty, turn}

abbrev stored_by : Result Error (Bool × Store) → Store
stored_by (ok a) = a.1
stored_by (err _) = empty

abbrev begun : Store
begun = stored_by (begin json empty (turn "r" "go") 5)

was_begun : begin json empty (turn "r" "go") 5 ≡ ok (true, begun)
unfolding begin already_accepted is_invalid_request session admit_turn record_event insert_event
    index_event is_empty trim index_sources event_sources references rfind
was_begun = refl

other_valid : is_invalid_request (turn "r" "stop") ≡ false
unfolding is_invalid_request is_empty trim
other_valid = refl

stop_is_not_go : ◌≢◌ {A = String} "stop" "go"
stop_is_not_go = ground (arith, eq_iff "stop" "go")

abbrev meanwhile : List StoreCall
meanwhile =
    state_call "s" Status.completed none 6
    ∷ queue_call (begins (turn "q" "next") 7)
    ∷ queue_call (reopens 8)
    ∷ manage_call (renames "s" "title")
    ∷ []

begin_once_example :
    (begin json (store_run json begun meanwhile) (turn "r" "go") 9
      ≡ ok (false, store_run json begun meanwhile))
    × (begin json (store_run json begun meanwhile) (turn "r" "stop") 9 ≡ err request_reused)
begin_once_example =
    begin_once json empty begun (turn "r" "go") meanwhile 5 9 "stop" was_begun other_valid
      stop_is_not_go
