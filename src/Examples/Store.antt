-- ===== src/Examples/Store.antt =====
-- The liveness record of a workplace: tests, and the theorems at concrete inputs.
use curator_agent_launcher.Base.{refl, ◌≡◌, str_eq, Bool, true, false, not, some, none, [], ◌∷◌}
use curator_agent_launcher.Tried.{granted}
use curator_agent_launcher.SessionManager.Store.{
  Binding, Liveness, Expected, expected_of, holds, absent, compare_and_swap, edit_dispatch, edit,
  dispatch, liveness, commit, carried, still_holds, may_follow, is_abandoned, is_positive,
  binding_eq, same_binding, same_operation,
}
use curator_agent_launcher.SessionManager.Store.Commits.{
  Swapped, IsStored, compare_and_swap-Swapped,
}
use curator_agent_launcher.SessionManager.Store.Retired.{
  here, swapped, dispatched, IsRetired, Run-IsRetired,
}

abbrev owner : Binding
owner = record { id = "m1"; executable = "/bin/m1"; registered_at = "t0" }

abbrev stored : Liveness
stored = record {
  profile = "p";
  id = "w1";
  state = "up";
  manager = owner;
  operation_id = some "op2";
  state_source = "manager";
  session = "SES-1";
  generation = 4;
  started_at = "t1";
  last_heartbeat_at = "t2";
  last_activity_at = none;
  doorbell = "off";
  doorbell_uncertain = false;
  current_task = some "T-1";
  queue_depth = 2;
  abandoned_operations = record { operation_id = "op1"; abandoned_at = "t1" } ∷ [];
}

-- The next operation, without the members that a swap carries over.
abbrev asked : Liveness
asked = record stored {
  operation_id = some "op3";
  generation = 5;
  current_task = none;
  queue_depth = 0;
  abandoned_operations = [];
}

abbrev committed : Liveness
committed = record stored { operation_id = some "op3"; generation = 5 }

-- A schema that wants a state.
abbrev has_state : Liveness → Bool
has_state l = not (str_eq l.state "")

abbrev seen : Expected
seen = expected_of (some stored)

test_swaps :
    (compare_and_swap "w1" has_state true false (holds stored) seen asked
      ≡ granted (some committed))
    × (compare_and_swap "w1" has_state true false
          (holds stored)
          seen
          (record asked { generation = 6 })
        ≡ granted none)
    × (compare_and_swap "w1" has_state true false
          (holds stored)
          seen
          (record asked { operation_id = some "op1" })
        ≡ granted none)
    × (compare_and_swap "w1" has_state true false absent seen asked ≡ granted none)
unfolding compare_and_swap liveness commit carried still_holds may_follow is_abandoned is_positive
    binding_eq same_binding same_operation
test_swaps = (refl, refl, refl, refl)

test_dispatch :
    edit_dispatch "w1" has_state true
      (holds committed)
      (expected_of (some committed))
      (some none)
      none
    ≡ granted (some (record committed { current_task = none }))
unfolding edit dispatch liveness commit still_holds binding_eq same_binding same_operation
test_dispatch = refl

compare_and_swap-Swapped_example :
    (still_holds (some stored) seen ≡ true)
    × Swapped false stored asked committed
    × IsStored "w1" has_state stored
    × IsStored "w1" has_state committed
compare_and_swap-Swapped_example =
    compare_and_swap-Swapped "w1" has_state true false seen asked stored committed test_swaps.0

op1-IsRetired : IsRetired "op1" stored
unfolding is_abandoned same_operation
op1-IsRetired = (refl, refl)

Run-IsRetired_example : IsRetired "op1" (record committed { current_task = none })
Run-IsRetired_example =
    Run-IsRetired "w1" has_state "op1"
      (dispatched true (expected_of (some committed)) (some none) none
        (swapped true seen asked here test_swaps.0) test_dispatch)
      op1-IsRetired
