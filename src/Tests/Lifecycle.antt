-- ===== src/Tests/Lifecycle.antt =====
-- The ownership of resources at concrete inputs.
use latte_work.Common.{
  ==_false, String, ◌≡◌, refl, true, false, List, [], ◌∷◌, some, ok, err, arith, inl, is_empty,
}
use latte_work.Terminal.Table.{Terminals, new_terminal, is_open, close}
use latte_work.Runtime.Sessions.{Host, Cancelled}
use latte_work.Lifecycle.{
  Resource, agent_session, terminal, Service, owner_of, set_owner, adopt, adopt_all, is_live,
  close_owned, close_all, close_resource, prepare, is_invalid_resources, claim_resources,
  server_status, work_left,
}
use latte_work.Lifecycle.Owners.{Spared, close_owned-Spared}
use latte_work.Lifecycle.Adoption.{Among, adopt-Among}
use latte_work.Lifecycle.Limits.{Few}
use latte_work.Lifecycle.Quiet.{Quiet}
use latte_work.Lifecycle.Upgrade.{Call, after_calls, calls-Few, prepared-Quiet}
use latte_work.Tests.Sample.{empty}

abbrev shell_open : Terminals
shell_open = ("t1", new_terminal "project" "t1" "sh") ∷ []

abbrev service : Service
service = record {
  server_id = "srv";
  build_id = "build";
  draining = false;
  owners = (terminal "t1", "app2") ∷ [];
  host = record { store = empty; runs = [] };
  terminals = shell_open;
}

abbrev refuse : Host → String → Cancelled
refuse h id = record { store = h.store; removed = false; confirmed = false }

-- The first App closes late what the second has reclaimed.
close_owned-Spared_example :
    Spared service
      (close_owned refuse service "srv" "app1" (terminal "t1" ∷ []) true).0
      (terminal "t1")
close_owned-Spared_example =
    close_owned-Spared refuse service "srv" "app1" "app2" (terminal "t1" ∷ []) true (terminal "t1")
      (unfold owner_of in refl) (==_false "app2" "app1" refl)

closed_by_owner :
    (close_owned refuse service "srv" "app2" (terminal "t1" ∷ []) true).0.terminals ≡ []
unfolding close_owned close_all close_resource is_invalid_resources owner_of close is_empty
closed_by_owner = refl

abbrev adopted : Service × List Resource
adopted = (record service { owners = (terminal "t1", "app3") ∷ [] }, terminal "t1" ∷ [])

adopts : adopt service "srv" "app2" "app3" (terminal "t1" ∷ []) ≡ ok adopted
unfolding adopt adopt_all is_live is_open is_invalid_resources owner_of set_owner is_empty
adopts = refl

adopt-Among_example :
    (is_live service (terminal "t1") ≡ true)
    × Among service "app2" "app3" service.owners (terminal "t1")
    × (owner_of (terminal "t1") adopted.0.owners ≡ some "app3")
    × ("srv" ≡ service.server_id)
adopt-Among_example =
    adopt-Among service "srv" "app2" "app3" (terminal "t1" ∷ []) adopted (terminal "t1") adopts
      (inl refl)

abbrev calls : List Call
calls =
    record {
      answer = refuse;
      request = claim_resources "app4" (agent_session "s" ∷ []);
      admitted = true;
    }
    ∷ record { answer = refuse; request = server_status; admitted = true }
    ∷ []

calls-Few_example : Few (after_calls service calls)
calls-Few_example = calls-Few calls service (omega arith)

with_terminal : prepare service "srv" true ≡ err work_left
unfolding prepare
with_terminal = refl

abbrev quiet : Service
quiet = record service { terminals = [] }

ready : prepare quiet "srv" true ≡ ok (record quiet { draining = true })
unfolding prepare
ready = refl

prepared-Quiet_example : Quiet (after_calls (record quiet { draining = true }) calls)
prepared-Quiet_example =
    prepared-Quiet quiet (record quiet { draining = true }) "srv" true calls ready
