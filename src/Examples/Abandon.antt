-- ===== src/Examples/Abandon.antt =====
-- Abandoning an operation: tests, and the theorem at a concrete input.
use curator_agent_launcher.Base.{true, false, ◌≡◌, ◌≢◌, refl, none, some, str_eq}
use curator_agent_launcher.Tried.{granted}
use curator_agent_launcher.SessionManager.Store
use curator_agent_launcher.SessionManager.Store.{
  is_abandoned, may_follow, carried, Liveness, Expected, liveness, commit, compare_and_swap,
}
use curator_agent_launcher.SessionManager.Pending.{PendingFile, pending, matches, remove_pending}
use curator_agent_launcher.SessionManager.LeaseJournal.{Admitted}
use curator_agent_launcher.SessionManager.Abandon.{
  recent, Files, Actions, abandon, abandoned, operation, record_or_new,
}
use curator_agent_launcher.SessionManager.Store.Retired.{exchanged, start}
use curator_agent_launcher.SessionManager.Abandon.Final.{abandon-final}

abbrev stuck : Admitted
stuck = record {
  phase = "";
  cwd = "";
  request = "";
  lease = none;
  profile = "p";
  operation_id = "o1";
  kind = "start";
  submitted_at = "t0";
  admission_key = "werkstatt:w1";
  manager = record { id = "m1"; executable = "/bin/m"; registered_at = "t" };
}

abbrev actions : Actions
actions = record {
  writes = true;
  owned = true;
  kept = true;
  removes = true;
  syncs = true;
  restores = true;
}

abbrev stuck_files : Files
stuck_files = record { pending = PendingFile.holding stuck; live = Store.absent }

abbrev marked : Liveness
marked = abandoned "o1" "t1" (record_or_new "w1" (some stuck) none)

abbrev marked_files : Files
marked_files = record { pending = PendingFile.absent; live = Store.holds marked }

stuck_read : pending "w1" false (λ _. true) (λ _. true) stuck_files.pending ≡ granted (some stuck)
unfolding pending matches
stuck_read = refl

no_record : liveness "w1" (λ _. true) true stuck_files.live ≡ granted none
unfolding liveness
no_record = refl

is_over : str_eq (operation (some stuck) none) "" ≡ false
unfolding operation
is_over = refl

stuck_named : some "o1" ≡ some (operation (some stuck) none)
unfolding operation
stuck_named = refl

abandons :
    abandon "w1" false "t1" (λ _. true) (λ _. true) (λ _. true) actions stuck_files
    ≡ (marked_files, granted tt)
unfolding abandon pending matches liveness commit operation remove_pending abandoned
abandons = refl

-- A swap to another operation, and one that names the abandoned operation again.
abbrev moved : Liveness
moved = record marked { operation_id = some "o2"; generation = 1; state = "ready" }

abbrev again : Liveness
again = record moved { operation_id = some "o1"; generation = 2 }

abbrev unread : Expected
unread = record { operation_id = none; generation = 0; manager = some stuck.manager }

abbrev read : Expected
read = record { operation_id = some "o2"; generation = 1; manager = some stuck.manager }

moves :
    compare_and_swap "w1" (λ _. true) true false (Store.holds marked) unread moved
    ≡ granted (some moved)
unfolding compare_and_swap liveness commit carried may_follow is_abandoned abandoned
    Store.still_holds Store.same_operation Store.same_binding Store.is_positive Store.binding_eq
    recent
moves = refl

abandon-final_example :
    (marked_files.pending ≡ PendingFile.absent)
    × (compare_and_swap "w1" (λ _. true) true false (Store.holds moved) read again
        ≢ granted (some again))
abandon-final_example =
    abandon-final "w1" false "t1" (λ _. true) (λ _. true) (λ _. true) actions stuck_files
      marked_files (some stuck) none true read marked moved again again stuck_read no_record is_over
      abandons refl (exchanged true false unread moved start moves) stuck_named
