-- ===== src/Tests/Runtime.antt =====
-- Sessions and titles at concrete inputs.
use latte_work.Common.{
  ==_false, ◌≤◌, ◌≡◌, refl, true, false, [], ◌∷◌, none, some, ok, err, length, lookup, arith,
}
use latte_work.Protocol.Values.{Session}
use latte_work.Store.Sessions.{session, save}
use latte_work.Store.Manage.{archive_session}
use latte_work.Runtime.Sessions.{
  Host, Cancelled, control_for, close_session, archive, new_run, is_active, not_closed,
}
use latte_work.Runtime.Marking.{IsArchived}
use latte_work.Runtime.Archived.{Reach, Honest, start, then_step, opened, archived, archived-apart}
use latte_work.Runtime.Titles.{claim, select_due, refresh_limit}
use latte_work.Runtime.Debounce.{claims, claim-once, select_due-limit}
use latte_work.Tests.Sample.{empty, session_called}

abbrev titled : Session
titled = record (session_called "s") { native_id = some "n" }

abbrev other_titled : Session
other_titled = record (session_called "t") { native_id = some "m" }

claimed_first : (claim [] titled 1000).1 ≡ true
unfolding claim
claimed_first = refl

later_again : (claim (claim [] titled 1000).0 titled 3000).1 ≡ true
unfolding claim
later_again = refl

claim-once_example :
    (claim (claims (claim [] titled 1000).0 ((other_titled, 1500) ∷ [])) titled 2999).1 ≡ false
claim-once_example =
    claim-once [] titled 1000 2999 ((other_titled, 1500) ∷ []) claimed_first
      ((omega arith, λ p. absurd (==_false "t" "s" refl p)), tt) (omega arith)

select_due-limit_example :
    (length (select_due [] (titled ∷ other_titled ∷ []) 5).0 ≤ refresh_limit)
    × (length (select_due [] (titled ∷ other_titled ∷ []) 5).1 ≤ 16)
select_due-limit_example = select_due-limit [] (titled ∷ other_titled ∷ []) 5 (omega arith)

abbrev host : Host
host = record { store = empty; runs = [] }

abbrev confirmed : Cancelled
confirmed = record { store = empty; removed = true; confirmed = true }

abbrev with_s : Host
with_s = record { store = empty; runs = ("s", new_run) ∷ [] }

open_s : control_for empty [] "s" ≡ ok (("s", new_run) ∷ [])
unfolding control_for session
open_s = refl

confirmed-Honest : Honest empty confirmed
confirmed-Honest = record { leaves = λ p. refl; archives_nothing = λ id is. is }

s-IsArchived : IsArchived (archive with_s "s" true confirmed).0.store "s"
unfolding archive is_active close_session archive_session session save
s-IsArchived = (record (session_called "s") { archived = true }, refl, refl)

kept_when_unconfirmed :
    (archive with_s "s" true (record { store = empty; removed = false; confirmed = false })).1
    ≡ err not_closed
unfolding archive is_active close_session archive_session session save
kept_when_unconfirmed = refl

reach_archived : Reach host (archive with_s "s" true confirmed).0
reach_archived =
    then_step with_s (archive with_s "s" true confirmed).0
      (then_step host with_s start (opened "s" (("s", new_run) ∷ []) open_s))
      (archived "s" true confirmed confirmed-Honest)

archived-apart_example : lookup "s" (archive with_s "s" true confirmed).0.runs ≡ none
archived-apart_example =
    archived-apart host (archive with_s "s" true confirmed).0 "s" refl reach_archived s-IsArchived
