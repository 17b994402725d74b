-- ===== src/Examples/Leases.antt =====
-- Home leases and their journal: tests, and the theorems at concrete inputs.
use curator_agent_launcher.SessionManager.Routes.{lease_failure}
use curator_agent_launcher.Base.{true, false, ◌≡◌, ◌≤◌, ◌+◌, refl, [], ◌∷◌, String, none, some}
use curator_agent_launcher.Tried.{granted, denied}
use curator_agent_launcher.SessionManager.Pending.{PendingFile, pending, matches}
use curator_agent_launcher.SessionManager.Store.{binding_eq}
use curator_agent_launcher.SessionManager.HomeLease.{
  PreparedHolder, LeaseRecord, LeaseAdmission, Acquired, allocation, acquire, answers, blocking,
  conflicts, same_lane, same_holder, same_texts,
}
use curator_agent_launcher.SessionManager.HomeLease.Exclusive.{
  exclusive, compatible_with, allocation-exclusive,
}
use curator_agent_launcher.SessionManager.LeaseJournal.{
  Admitted, update_lease, same_but_phase, same_admission, phase_rank, validate_lease_correlation,
  lease_matches, lane_matches, record_matches, LeaseRequest,
}
use curator_agent_launcher.SessionManager.LeaseJournal.Phases.{
  Kept, untouched, updated, Journal-Kept,
}

abbrev lane_holder : String → PreparedHolder
lane_holder w = record {
  kind = "prepared";
  launcher = "curator-run";
  manager_id = "m1";
  manager_registered_at = "t";
  request_id = "o1";
  werkstatt = some w;
  session = none;
  generation = none;
  process = none;
}

abbrev lane_record : String → String → LeaseRecord
lane_record w profile = record {
  kind = "lease";
  lease_id = "l1";
  manager_root_id = "r1";
  home_id = "h1";
  environment = "claude_code";
  profile = profile;
  lock_sha256 = "k";
  revision = 1;
  phase = "prepared";
  acquired_at = "t1";
  holder = lane_holder w;
  observed_state = "unknown";
  observed_at = none;
}

abbrev lane_admission : LeaseAdmission
lane_admission = record {
  request_id = "o1";
  route = "delegated";
  environment = "claude_code";
  lock_sha256 = "k";
  holder = lane_holder "w1";
  capabilities = [];
  operations = [];
  record_held = none;
}

abbrev admitted : String → Admitted
admitted phase = record {
  phase = phase;
  cwd = "/w";
  request = "{}";
  lease = some lane_admission;
  profile = "p";
  operation_id = "o1";
  kind = "start";
  submitted_at = "t0";
  admission_key = "werkstatt:w1";
  manager = record { id = "m1"; executable = "/bin/m"; registered_at = "t" };
}

-- Another lane holds another profile; one of the same profile is a conflict.
others_exclusive : exclusive (lane_record "w2" "q" ∷ []) ≡ true
unfolding exclusive compatible_with
others_exclusive = refl

others_free : allocation (lane_record "w2" "q" ∷ []) lane_admission "p" ≡ granted tt
unfolding allocation blocking conflicts same_lane
others_free = refl

others_conflict :
    allocation (lane_record "w2" "p" ∷ []) lane_admission "p"
    ≡ denied (lease_failure "allocation_conflict")
unfolding allocation blocking conflicts same_lane
others_conflict = refl

abbrev reply : Acquired
reply = record { reason = "acquired"; lease = some (lane_record "w1" "p") }

lease_acquired :
    acquire (admitted "lease_requested") lane_admission (granted reply)
    ≡ granted (lane_record "w1" "p", "acquired")
unfolding acquire answers same_lane same_holder
lease_acquired = refl

allocation-exclusive_example : exclusive (lane_record "w1" "p" ∷ lane_record "w2" "q" ∷ []) ≡ true
allocation-exclusive_example =
    allocation-exclusive (lane_record "w2" "q" ∷ []) (admitted "lease_requested") lane_admission
      reply (lane_record "w1" "p") "acquired" others_exclusive others_free lease_acquired

prepared :
    update_lease "w1" false
      (λ _. true)
      (λ _. true)
      (PendingFile.holding (admitted "lease_requested"))
      true
      (admitted "lease_prepared")
    ≡ granted (admitted "lease_prepared")
unfolding update_lease pending matches same_but_phase same_admission same_holder same_texts
    phase_rank binding_eq
prepared = refl

Journal-Kept_example :
    Kept (admitted "lease_requested") (admitted "lease_prepared")
    × (phase_rank "lease_requested" ≤ phase_rank "lease_prepared")
    × (phase_rank "lease_prepared" ≤ 1 + phase_rank "lease_requested")
Journal-Kept_example =
    Journal-Kept "w1" false (λ _. true) (λ _. true)
      (updated {old = admitted "lease_requested"} true (admitted "lease_prepared") untouched
        prepared)

abbrev lane_request : LeaseRequest
lane_request = record {
  operation_id = "o1";
  submitted_at = "t0";
  runtime = "claude_code";
  cwd = "/w";
  scope_cwd = "";
  admission_key = some "werkstatt:w1";
  profile_name = "p";
  profile_lock = "k";
}

-- A phase behind the first needs the record of the lease.
test_correlation :
    (validate_lease_correlation
        (λ k r. true)
        (λ r. some lane_request)
        (λ c. true)
        (admitted "lease_requested")
      ≡ true)
    × (validate_lease_correlation
          (λ k r. true)
          (λ r. some lane_request)
          (λ c. true)
          (admitted "lease_prepared")
        ≡ false)
unfolding validate_lease_correlation lease_matches lane_matches record_matches
test_correlation = (refl, refl)
