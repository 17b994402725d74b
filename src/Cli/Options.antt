-- ===== src/Cli/Options.antt =====
-- internal/cli/cli.go: the invocation and what each flag does to it, `set` included.

use curator_agent_launcher.Base.{
  refl, inr, inl, ◌⊎◌, ◌≡◌, [], ◌∷◌, dashed, ◌&&◌, not, member_of, ◌||◌, false, true, Bool, some,
  str_eq, List, none, Option, if◌then◌else◌,
}
use curator_agent_launcher.Cli.Flags.{
  Flag, permissions, board_goal, profile, system_prompt, model, effort, resume, a2a, network,
  network_policy, network_known_bad, Permission, yolo, SystemPrompt, append, replace, HostFlag,
  Usage, bad_a2a, bad_network_policy, bad_permissions, bad_system_prompt, unknown_flag, bad_value,
  flag_repeated, missing_value, switch_misused, is_a2a_identity, is_binary_digest, cut_prefix,
}
use curator_agent_launcher.Tried.{Tried, granted, denied}
use Prim.Native.String.{[], String, ◌++◌ as str_append}

-- A launch `Invocation`. An option holds a value and its `Set` companion; the empty host flag,
-- system prompt and permission mode are `none`.
pub record Invocation : Type 0 where
  pub env_id : String
  pub host_flag : Option HostFlag
  pub a2a_identity : String
  pub board_goal_set : Bool
  pub detached : Bool
  pub resume_requested : Bool
  pub resume_handle : Option String
  pub resume_id : Option String
  pub profile_name : Option String
  pub system_prompt_mode : Option SystemPrompt
  pub model_name : Option String
  pub effort_name : Option String
  pub permission : Option Permission
  pub network_name : Option String
  pub network_mode : String
  pub network_pin : String
  pub network_known_bad_path : String
  pub gateway_recovery_enabled : Bool
  pub native_args : List String

abbrev pub empty_invocation : Invocation
empty_invocation = record {
  env_id = "";
  host_flag = none;
  a2a_identity = "";
  board_goal_set = false;
  detached = false;
  resume_requested = false;
  resume_handle = none;
  resume_id = none;
  profile_name = none;
  system_prompt_mode = none;
  model_name = none;
  effort_name = none;
  permission = none;
  network_name = none;
  network_mode = "";
  network_pin = "";
  network_known_bad_path = "";
  gateway_recovery_enabled = false;
  native_args = [];
}

-- The variables of the loop.
pub record State : Type 0 where
  pub inv : Invocation
  pub seen : List String
  pub env_set : Bool
  pub permission_seen : Bool

-- What one round does: end with an error, or go on behind the token, or behind the next one too.
pub data Step : Type 0 where
  fail : Usage → Step
  took_one : State → Step
  took_two : State → Step

unfoldable pub set_permissions : String → Invocation → Tried Usage Invocation
set_permissions v inv =
    if str_eq v "native"
    then granted (record inv { permission = some Permission.native })
    else if str_eq v "yolo"
    then granted (record inv { permission = some yolo })
    else denied (bad_permissions v)

unfoldable pub set_system_prompt : String → Invocation → Tried Usage Invocation
set_system_prompt v inv =
    if str_eq v "append"
    then granted (record inv { system_prompt_mode = some append })
    else if str_eq v "replace"
    then granted (record inv { system_prompt_mode = some replace })
    else denied (bad_system_prompt v)

-- The policy behind `pinned:`.
abbrev pub set_pin : Option String → Invocation → Tried Usage Invocation
set_pin none inv = denied bad_network_policy
set_pin (some digest) inv =
    if is_binary_digest digest
    then granted (record inv { network_mode = "pinned"; network_pin = str_append "sha256-" digest })
    else denied bad_network_policy

unfoldable pub set_network_policy : String → Invocation → Tried Usage Invocation
set_network_policy v inv =
    if str_eq v "optimistic"
    then granted (record inv { network_mode = "" })
    else if str_eq v "strict"
    then granted (record inv { network_mode = "strict" })
    else set_pin (cut_prefix v "pinned:") inv

-- `set`, on the flag, its spelling and its value.
unfoldable pub set : Flag → String → String → Invocation → Tried Usage Invocation
set a2a name v inv =
    if is_a2a_identity v then granted (record inv { a2a_identity = v }) else denied bad_a2a
set profile name v inv = granted (record inv { profile_name = some v })
set model name v inv = granted (record inv { model_name = some v })
set effort name v inv = granted (record inv { effort_name = some v })
set permissions name v inv = set_permissions v inv
set system_prompt name v inv = set_system_prompt v inv
set resume name v inv = granted (record inv { resume_id = some v })
set network_policy name v inv = set_network_policy v inv
set network_known_bad name v inv = granted (record inv { network_known_bad_path = v })
set network name v inv = granted (record inv { network_name = some v })
set _ name v inv = denied (unknown_flag name)

abbrev pub is_a2a : Flag → Bool
is_a2a a2a = true
is_a2a _ = false

-- The value of a flag, checked and stored.
unfoldable pub store : (State → Step) → Flag → String → String → State → Step
store k f name v st =
    if str_eq v "" || (not (is_a2a f) && dashed v)
    then fail (bad_value name v)
    else elim (set f name v st.inv) [
      | denied e ↦ fail e
      | granted inv ↦ k (record st { inv = inv })
    ]

-- A flag with a value; `next` is the token behind it, if there is one.
unfoldable pub value_flag : Flag → String → String → Bool → Option String → State → Step
value_flag f name v has_eq next st =
    if member_of st.seen name
    then fail (flag_repeated name)
    else if has_eq
    then store took_one f name v (record st { seen = name ∷ st.seen })
    else elim next [
      | none ↦ fail (missing_value name)
      | some w ↦
          if str_eq w "--"
          then fail (missing_value name)
          else store took_two f name w (record st { seen = name ∷ st.seen })
    ]

-- `--board-goal` and `--detach`.
abbrev pub set_switch : Flag → Invocation → Invocation
set_switch board_goal inv = record inv { board_goal_set = true }
set_switch _ inv = record inv { detached = true }

unfoldable pub switch_flag : Flag → String → Bool → State → Step
switch_flag f name has_eq st =
    if has_eq || member_of st.seen name
    then fail (switch_misused name)
    else took_one (record st { seen = name ∷ st.seen; inv = set_switch f st.inv })

pub Step-cases :
    (s : Step)
    → ((e : Usage) × (s ≡ fail e))
      ⊎ (((st : State) × (s ≡ took_one st)) ⊎ ((st : State) × (s ≡ took_two st)))
Step-cases (fail e) = inl (e, refl)
Step-cases (took_one st) = inr (inl (st, refl))
Step-cases (took_two st) = inr (inr (st, refl))
