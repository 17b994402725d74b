-- ===== src/Examples/Reconciler.antt =====
-- The reconciler: tests, and the theorems at concrete inputs.
use curator_agent_launcher.SessionManager.Reconciler.Durable.Submission.{submit-Stands}
use curator_agent_launcher.Tried.{granted}
use curator_agent_launcher.Base.{
  true, false, none, some, [], List, String, Option, ◌∷◌, ◌≡◌, refl, ◌⊎◌,
}
use curator_agent_launcher.SessionManager.Store
use curator_agent_launcher.SessionManager.Store.{
  Liveness, Expected, Binding, liveness, compare_and_swap, commit, carried, expected_of, may_follow,
  is_abandoned,
}
use curator_agent_launcher.SessionManager.Pending.{
  Pending, PendingFile, clear_terminal, remove_pending, pending, write_pending, is_terminal,
  matches,
}
use curator_agent_launcher.SessionManager.Reconciler
use curator_agent_launcher.SessionManager.Reconciler.{
  Setting, Session, Answer, Outcome, Disk, Entry, Correlation, World, Reply, Settled, session_reply,
  outcome_reply, failed_call, no_reply, judge, plain_loop, recover_loop, finish, close,
  session_record, submit, submit_new, owner, launched, recover, registered,
}
use curator_agent_launcher.SessionManager.Reconciler.Follows.{launches, settled_with}
use curator_agent_launcher.SessionManager.Reconciler.Conversation.{
  Conversation, loops-Conversation, made, plain_of,
}
use curator_agent_launcher.SessionManager.Reconciler.Durable.{Stands}
use curator_agent_launcher.SessionManager.Reconciler.Launches.Submission.{submit-launches}

abbrev session : String → Session
session op = record {
  session = "s1";
  operation_id = op;
  state = "ready";
  generation = 1;
  started_at = "t1";
  last_activity_at = none;
  doorbell_state = "quiet";
  doorbell_uncertain = false;
}

abbrev outcome : String → Option Session → Reply
outcome kind s =
    outcome_reply (record { outcome = kind; session = s; code = "native_start_failed" })

abbrev p1 : Pending String String
p1 = record {
  phase = "";
  cwd = "";
  request = "";
  lease = none;
  profile = "";
  operation_id = "o1";
  kind = "start";
  submitted_at = "t0";
  admission_key = "werkstatt:w1";
  manager = record { id = "m1"; executable = "/bin/m"; registered_at = "t" };
}

abbrev disk : Disk
disk = record { writes = true; swaps = true; removes = true; syncs = true; restores = true }

abbrev registry : List (String × Entry)
registry = ("m1", record { executable = "/bin/m"; registered_at = "t" }) ∷ []

abbrev read_correlation : String → Option Correlation
read_correlation r = some (record {
  operation_id = "o1";
  submitted_at = "t0";
  admission_key = "werkstatt:w1";
  profile = "p";
})

abbrev no_answer : Answer
no_answer = record { session = none; error = none }

abbrev empty : World String String
empty = record { pending = PendingFile.absent; live = Store.absent; calls = [] }

abbrev setting : Setting String String
setting = record {
  id = "w1";
  plain = false;
  now = "2026";
  valid_pending = λ _. true;
  correlated = λ _. true;
  valid_live = λ _. true;
  disk = disk;
  registry = registry;
  validate = λ k r. granted tt;
  correlation = read_correlation;
  run_leased = λ p w. (w, no_answer);
  settle_leased = λ p x w. (w, no_answer);
}

-- A cancel, a wait, and the session.
abbrev replies : List Reply
replies = outcome "admitted" none ∷ outcome "started" (some (session "o1")) ∷ []

-- What is on the disk behind the launch.
abbrev p2 : Pending String String
p2 = record p1 { profile = "p" }

abbrev after : World String String
after = record {
  pending = PendingFile.absent;
  live = Store.holds (session_record setting p2 (session "o1"));
  calls = Reconciler.start_call "o1" ∷ [];
}

launch_succeeds :
    submit setting p1 "" (session_reply (session "o1") ∷ []) empty
    ≡ (after, record { session = some (session "o1"); error = none })
unfolding submit submit_new owner registered launched finish close pending write_pending matches
    liveness compare_and_swap commit carried may_follow is_abandoned clear_terminal is_terminal
    remove_pending session_record Store.still_holds Store.same_operation Store.same_binding
    Store.is_positive
launch_succeeds = refl

-- A lost reply is recovered, with no second launch.
lost_reply : launches ((submit setting p1 "" (no_reply ∷ replies) empty).0).calls ≡ 1
unfolding submit submit_new owner registered launched recover Reconciler.recover_owned recover_loop
    judge finish close pending write_pending matches liveness compare_and_swap commit carried
    may_follow is_abandoned clear_terminal is_terminal remove_pending session_record
    Store.still_holds Store.same_operation Store.same_binding Store.is_positive
lost_reply = refl

loops-Conversation_example :
    (e : Option Settled) × (cs : List Reconciler.Call) × Conversation "o1"
      (outcome "not_found" none ∷ replies)
      e
      cs
    × (recover_loop setting p1 (expected_of none) (outcome "not_found" none) replies empty
        ≡ settled_with setting p1 (expected_of none) e (record empty { calls = made cs [] }))
    × (plain_loop "o1" (outcome "not_found" none) replies ≡ plain_of "o1" e)
loops-Conversation_example =
    loops-Conversation setting p1 (expected_of none) (outcome "not_found" none) replies empty

submit-launches_example :
    (launches ((submit setting p1 "" (no_reply ∷ replies) empty).0).calls ≡ 0)
    ⊎ ((launches ((submit setting p1 "" (no_reply ∷ replies) empty).0).calls ≡ 1)
        × (empty.pending ≡ PendingFile.absent))
submit-launches_example = submit-launches setting p1 "" (no_reply ∷ replies) empty refl refl

submit-Stands_example : Stands (session "o1") after
submit-Stands_example =
    submit-Stands setting refl p1 "" (session_reply (session "o1") ∷ []) empty after (session "o1")
      refl refl launch_succeeds
