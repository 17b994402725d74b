-- ===== src/Examples/Routes.antt =====
-- The route decision of the session manager's client: tests, and the theorems at concrete inputs.
use curator_agent_launcher.Tried.{granted, denied}
use curator_agent_launcher.Base.{◌≡◌, refl, true, false, List, [], ◌∷◌, ◌||◌, String}
use curator_agent_launcher.SessionManager.Routes.{
  Describe, Needs, capability_missing, lease_failure, contains, lookup, put, sort_strings,
  muse_qualified, choose, not_lease_capable, need, need_doorbell, need_werkstatt, check_all,
  authorise, shape_checks, wanted, route_on, required,
}
use curator_agent_launcher.SessionManager.Routes.Wants.{demands}
use curator_agent_launcher.SessionManager.Routes.Delegated.{Qualified, required-Qualified}
use curator_agent_launcher.SessionManager.Routes.Served.{
  served, Qualified-required, required-hosted, shape_checks-granted,
}

abbrev manager : Describe
manager = record {
  capabilities =
      "launch-delegated/1" ∷ "admission/1" ∷ "status/1" ∷ "attach/1" ∷ "labels/1" ∷ "list/1"
      ∷ "stop/1" ∷ "doorbell-claude/1" ∷ [];
  runtimes = ("claude_code", "launch" ∷ "status" ∷ "cancel" ∷ "attach" ∷ "list" ∷ "stop" ∷ []) ∷ [];
}

abbrev request : Needs
request = record {
  runtime = "claude_code";
  host_mode = "auto";
  native = false;
  explicit_hosted = false;
  werkstatt = true;
  detached = false;
  resume = false;
  board_goal = false;
  credential_node = false;
  doorbell = true;
  attach_after = false;
  delegated_trial = false;
  signed_off = true;
}

abbrev listed : List String
listed =
    "admission/1" ∷ "attach/1" ∷ "doorbell-claude/1" ∷ "labels/1" ∷ "launch-delegated/1" ∷ "list/1"
    ∷ "status/1" ∷ "stop/1" ∷ []

test_required : required manager request ≡ granted (served listed)
unfolding contains lookup put sort_strings muse_qualified choose not_lease_capable need
    need_doorbell need_werkstatt check_all authorise shape_checks wanted route_on required
test_required = refl

test_refusals :
    (required manager (record request { board_goal = true })
      ≡ denied (capability_missing "board-goal/1"))
    × (required manager (record request { resume = true })
        ≡ denied (lease_failure "route_not_lease_capable"))
unfolding contains lookup put sort_strings muse_qualified choose not_lease_capable need
    need_doorbell need_werkstatt check_all authorise shape_checks wanted route_on required
test_refusals = (refl, refl)

manager-Qualified : Qualified manager request
manager-Qualified = required-Qualified manager request (served listed) refl test_required

required-Qualified_example : Qualified manager request
required-Qualified_example = required-Qualified manager request (served listed) refl test_required

Qualified-required_example :
    (caps : List String) × (required manager request ≡ granted (served caps))
    × ((k : String) → contains caps k ≡ demands request k)
Qualified-required_example = Qualified-required manager request refl refl manager-Qualified

required-hosted_example :
    ((served listed).kind ≡ "delegated")
    × ((served listed).notice ≡ "")
    × ((true || false) ≡ true)
    × ((k : String) → contains listed k ≡ demands request k)
required-hosted_example = required-hosted manager request (served listed) refl refl test_required

abbrev operations : List String
operations = "launch" ∷ "launch-exact" ∷ "status" ∷ "cancel" ∷ []

doorbell_lease :
    not_lease_capable (choose request operations) manager.capabilities operations ≡ false
unfolding not_lease_capable choose contains
doorbell_lease = refl

shape_checks-granted_example : shape_checks request operations ≡ granted tt
shape_checks-granted_example = shape_checks-granted manager request operations doorbell_lease
