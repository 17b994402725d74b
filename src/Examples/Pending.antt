-- ===== src/Examples/Pending.antt =====
-- The pending operation of a workplace: tests, and the theorems at concrete inputs.
use curator_agent_launcher.Base.{refl, ◌≡◌, ◌⊎◌, Bool, true, false, not, none, String, str_eq}
use curator_agent_launcher.Tried.{granted, denied}
use curator_agent_launcher.SessionManager.Routes.{Refusal}
use curator_agent_launcher.SessionManager.Pending.{
  Pending, PendingFile, absent, holding, busy, invalid, is_terminal, matches, pending,
  write_pending, clear_terminal, remove_pending,
}
use curator_agent_launcher.SessionManager.Pending.SingleFlight.{clear_terminal-cases}

abbrev operation : Pending String String
operation = record {
  phase = "";
  cwd = "/w";
  request = "{}";
  lease = none;
  profile = "";
  operation_id = "op1";
  kind = "launch";
  submitted_at = "t0";
  admission_key = "werkstatt:w1";
  manager = record { id = "m1"; executable = "/bin/m1"; registered_at = "t0" };
}

abbrev nothing_held : PendingFile String String
nothing_held = absent

-- A schema that wants a kind, and a lease check that wants a request.
abbrev has_kind : Pending String String → Bool
has_kind p = not (str_eq p.kind "")

abbrev has_request : Pending String String → Bool
has_request p = not (str_eq p.request "")

test_write :
    write_pending "w1" false has_kind has_request nothing_held true operation ≡ granted operation
unfolding write_pending pending matches
test_write = refl

test_busy :
    write_pending "w1" false has_kind has_request (holding operation) true operation ≡ denied busy
unfolding write_pending pending matches
test_busy = refl

test_clear :
    (clear_terminal "w1" false has_kind has_request true true true
        (holding operation)
        "op1"
        "started"
      ≡ (nothing_held, granted tt))
    × (clear_terminal "w1" false has_kind has_request true true true
          (holding operation)
          "op1"
          "running"
        ≡ (holding operation, denied (invalid "w1" false has_kind has_request)))
    × (clear_terminal "w1" false has_kind has_request true false true
          (holding operation)
          "op1"
          "failed"
        ≡ (holding operation, denied (invalid "w1" false has_kind has_request)))
unfolding clear_terminal pending matches remove_pending is_terminal
test_clear = (refl, refl, refl)

clear_terminal-cases_example :
    ((clear_terminal "w1" false has_kind has_request true true true
          (holding operation)
          "op1"
          "started"
        ≡ (absent, granted tt))
      × (is_terminal "started" ≡ true)
      × ((p : Pending String String) × (holding operation ≡ holding p)
          × (str_eq p.operation_id "op1" ≡ true)))
    ⊎ ((r : Refusal) × (clear_terminal "w1" false has_kind has_request true true true
            (holding operation)
            "op1"
            "started"
          ≡ (holding operation, denied r)))
clear_terminal-cases_example =
    clear_terminal-cases "w1" false has_kind has_request true true (holding operation) "op1"
      "started"
