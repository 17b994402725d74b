-- ===== src/SessionManager/Routes.antt =====
-- internal/sessionmanager/client/capabilities.go: which route a launch takes, and what the selected
-- manager must offer for it. What is proved stands in the modules below.
pub mod Wants
pub mod Kinds
pub mod Delegated
pub mod Served
use Prim.Native.String.{compare}
use Prim.Native.Nat.{Ordering}
use text.Mathlib.Text.{◌==◌ as str_eq}
use curator_agent_launcher.Tried.{Tried, granted, denied, deny_if, ◌>>=◌, ◌>>◌}
use curator_agent_launcher.Base.{
  refl, ◌≡◌, Bool, true, false, not, ◌&&◌, ◌||◌, Option, none, some, List, [], ◌∷◌, ◌++◌,
  if◌then◌else◌, String,
}

-- `refusal(code, details)`.
pub record Refusal : Type 0 where
  pub code : String
  pub details : List (String × String)

abbrev pub refusal : String → List (String × String) → Refusal
refusal code details = record { code = code; details = details }

abbrev pub lease_failure : String → Refusal
lease_failure reason = refusal "session_home_lease_unavailable" (("reason", reason) ∷ [])

abbrev pub capability_missing : String → Refusal
capability_missing cap = refusal "session_host_capability_missing" (("capability", cap) ∷ [])

-- The members of `Describe` that the decision reads; the map as the list of its entries.
pub record Describe : Type 0 where
  pub capabilities : List String
  pub runtimes : List (String × List String)

pub record Needs : Type 0 where
  pub runtime : String
  pub host_mode : String
  pub native : Bool
  pub explicit_hosted : Bool
  pub werkstatt : Bool
  pub detached : Bool
  pub resume : Bool
  pub board_goal : Bool
  pub credential_node : Bool
  pub doorbell : Bool
  pub attach_after : Bool
  pub delegated_trial : Bool
  pub signed_off : Bool

pub record Route : Type 0 where
  pub kind : String
  pub notice : String
  pub capabilities : List String

-- `slices.Contains`.
unfoldable pub contains : List String → String → Bool
contains [] k = false
contains (x ∷ xs) k = str_eq x k || contains xs k

-- `m[k]` of a map.
unfoldable pub lookup : {V : Type 0} → String → List (String × V) → Option V
lookup k [] = none
lookup k ((j, v) ∷ m) = if str_eq j k then some v else lookup k m

unfoldable pub put : String → String → List (String × String) → List (String × String)
put k v [] = (k, v) ∷ []
put k v ((j, w) ∷ m) = if str_eq j k then (j, v) ∷ m else (j, w) ∷ put k v m

-- The zero value of a missing key.
abbrev pub or_empty : Option String → String
or_empty none = ""
or_empty (some s) = s

-- `sort.Strings`.
abbrev str_le : String → String → Bool
str_le s t = elim (compare s t) [ Ordering.gt ↦ false | _ ↦ true ]

insert : String → List String → List String
insert s [] = s ∷ []
insert s (t ∷ ts) = if str_le s t then s ∷ (t ∷ ts) else t ∷ insert s ts

unfoldable pub sort_strings : List String → List String
unfolding insert
sort_strings [] = []
sort_strings (s ∷ ts) = insert s (sort_strings ts)

pub record Choice : Type 0 where
  pub route : String
  pub launch_cap : String
  pub launch_op : String

-- The condition on Muse, without its negation.
unfoldable pub muse_qualified : List String → List String → Bool
muse_qualified caps ops =
    (contains ops "launch" || contains ops "launch-exact")
    && contains ops "attach"
    && contains caps "attach/1"
    && ((contains ops "launch" && contains caps "launch-delegated/1")
        || (contains ops "launch-exact" && contains caps "launch-exact/2"))

abbrev pub delegated : Choice
delegated = record { route = "delegated"; launch_cap = "launch-delegated/1"; launch_op = "launch" }

unfoldable pub choose : Needs → List String → Choice
choose n ops =
    if n.resume
    then record { route = "delegated"; launch_cap = "resume/1"; launch_op = "resume" }
    else if not n.detached && not n.doorbell && contains ops "launch-exact"
    then record { route = "exact"; launch_cap = "launch-exact/2"; launch_op = "launch-exact" }
    else delegated

-- The route cannot hold a lease.
unfoldable pub not_lease_capable : Choice → List String → List String → Bool
not_lease_capable c caps ops =
    str_eq c.route "exact"
    || not (contains ops c.launch_op)
    || not (contains caps c.launch_cap)
    || not (contains ops "status")
    || not (contains ops "cancel")
    || not (contains caps "status/1")
    || not (contains caps "admission/1")

-- `required` and `neededOps`.
pub record Wanted : Type 0 where
  pub required : List String
  pub ops : List (String × String)

-- The closure `need`.
unfoldable pub need : String → String → Wanted → Wanted
need cap op w = record {
  required = if contains w.required cap then w.required else w.required ++ cap ∷ [];
  ops = if str_eq op "" then w.ops else put cap op w.ops;
}

abbrev pub first_wanted : Choice → Wanted
first_wanted c = record {
  required = c.launch_cap ∷ "admission/1" ∷ "status/1" ∷ [];
  ops = (c.launch_cap, c.launch_op) ∷ ("admission/1", "cancel") ∷ ("status/1", "status") ∷ [];
}

abbrev pub unsupported : Needs → Refusal
unsupported n = refusal "session_host_provider_unsupported" (("environment", n.runtime) ∷ [])

abbrev pub need_if : Bool → String → String → Wanted → Wanted
need_if b cap op w = if b then need cap op w else w

-- The switch on the runtime of a doorbell.
unfoldable pub need_doorbell : Needs → Wanted → Tried Refusal Wanted
need_doorbell n w =
    if not n.doorbell
    then granted w
    else if str_eq n.runtime "claude_code"
    then granted (need "doorbell-claude/1" "" w)
    else if str_eq n.runtime "codex_cli"
    then granted (need "doorbell-codex/1" "" w)
    else denied (unsupported n)

unfoldable pub need_werkstatt : Wanted → Wanted
need_werkstatt w = need "stop/1" "stop" (
    need "status/1" "status"
      (need "list/1" "list" (need "labels/1" "" (need "admission/1" "cancel" w))))

-- The test of the loop over `required`.
abbrev pub offered : List String → List String → List (String × String) → String → Bool
offered caps ops wanted_ops cap =
    contains caps cap
    && (str_eq (or_empty (lookup cap wanted_ops)) ""
        || contains ops (or_empty (lookup cap wanted_ops)))

unfoldable pub check_all :
    List String → List String → List (String × String) → List String → Tried Refusal (Unit {0})
check_all caps ops wanted_ops [] = granted tt
check_all caps ops wanted_ops (cap ∷ rest) =
    if not (offered caps ops wanted_ops cap)
    then denied (capability_missing cap)
    else check_all caps ops wanted_ops rest

-- What is decided once all is offered.
unfoldable pub authorise : Needs → Choice → List String → Tried Refusal Route
authorise n c caps =
    if str_eq c.route "delegated" && not n.signed_off
    then if n.explicit_hosted || n.werkstatt
      then if not n.delegated_trial
        then denied (refusal "session_host_delegated_unauthorized" [])
        else granted (record { kind = c.route; notice = ""; capabilities = caps })
      else if str_eq n.host_mode "hosted"
      then denied (refusal "session_host_missing" (("reason", "no manager selected") ∷ []))
      else granted (record { kind = "native"; notice = "notice-unselected"; capabilities = caps })
    else granted (record { kind = c.route; notice = ""; capabilities = caps })

unfoldable pub shape_checks : Needs → List String → Tried Refusal (Unit {0})
shape_checks n ops = do
  let exact_only = not (contains ops "launch") && contains ops "launch-exact"
  deny_if (not n.resume && n.doorbell && exact_only) (capability_missing "launch-exact-doorbell")
  deny_if (not n.resume && n.detached && exact_only) (capability_missing "launch-exact-detached")

-- Everything that the request needs beyond its launch.
unfoldable pub wanted : Needs → Choice → Tried Refusal Wanted
wanted n c = do
  let attach = need_if (not n.detached || n.attach_after) "attach/1" "attach" (first_wanted c)
  let resumed = need_if n.resume "resume/1" "resume" attach
  let goal = need_if n.board_goal "board-goal/1" "" resumed
  let credential = need_if n.credential_node "credential-node/1" "" goal
  rung ← need_doorbell n credential
  granted (if n.werkstatt then need_werkstatt rung else rung)

-- Behind the lookup of the runtime's operations.
unfoldable pub route_on : Describe → Needs → List String → Tried Refusal Route
route_on d n ops = do
  deny_if (str_eq n.runtime "muse" && not (muse_qualified d.capabilities ops)) (unsupported n)
  let c = choose n ops
  deny_if (not_lease_capable c d.capabilities ops) (lease_failure "route_not_lease_capable")
  shape_checks n ops
  w ← wanted n c
  check_all d.capabilities ops w.ops w.required
  authorise n c (sort_strings w.required)

abbrev pub on_runtime : Describe → Needs → Option (List String) → Tried Refusal Route
on_runtime d n none = denied (unsupported n)
on_runtime d n (some ops) = route_on d n ops

abbrev pub wants_native : Needs → Bool
wants_native n =
    n.native || (not n.explicit_hosted && not n.werkstatt && str_eq n.host_mode "native")

unfoldable pub required : Describe → Needs → Tried Refusal Route
required d n =
    if wants_native n
    then granted (record { kind = "native"; notice = ""; capabilities = [] })
    else on_runtime d n (lookup n.runtime d.runtimes)
