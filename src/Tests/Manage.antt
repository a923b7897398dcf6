-- ===== src/Tests/Manage.antt =====
-- The organisation of sessions at concrete inputs.
use latte_work.Common.{refl, arith, true, false, List, [], ◌∷◌}
use latte_work.Store.Organised.{Organised}
use latte_work.Store.Manage.{is_pinned}
use latte_work.Store.Organised.History.{
  ManageCall, pins, archives, renames, manage_run, manage_run-Organised,
}
use latte_work.Tests.Sample.{empty}

empty-Organised : Organised empty
unfolding is_pinned
empty-Organised = record { apart = refl; unpinned = (refl, (refl, tt)); few = omega arith }

abbrev tidying : List ManageCall
tidying =
    pins "s" true 5
    ∷ archives "s" true
    ∷ pins "s" true 6
    ∷ archives "s" false
    ∷ renames "t" "Notes"
    ∷ []

manage_run-Organised_example : Organised (manage_run empty tidying)
manage_run-Organised_example = manage_run-Organised empty tidying empty-Organised
