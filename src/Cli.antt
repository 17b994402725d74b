-- ===== src/Cli.antt =====
-- internal/cli/cli.go, `Parse`: the launcher's command line, token by token up to the first `--`,
-- and gateway_recover.go.
pub mod Flags
pub mod Options
pub mod Manager
pub mod Station
pub mod Tail
pub mod WellFormed
use curator_agent_launcher.Base.{
  is_some, String, Bool, true, false, not, ◌&&◌, ◌||◌, Option, none, some, List, [], ◌∷◌,
  if◌then◌else◌, str_eq, dashed, cut_eq, member_of,
}
use Flags.{
  explicit_native, Flag, flag_of, Usage, normalize_env_id, is_binary_digest, is_hosted, yolo,
  gateway_recovery, removed, rejected, yolo_alias, permissions, board_goal, detach, host, resume,
  unknown, gateway_with_flags, session_manager_with_flags, werkstatt_with_flags, migrate_with_flags,
  empty_operand, deprecated_alias, stray_operand, removed_flag, rejected_flag, unknown_flag,
  bad_gateway_recovery, yolo_with_value, permission_repeated, host_with_value, host_repeated,
  missing_env, gateway_needs_native, a2a_needs_hosted, bad_migrate, bad_gateway,
}
use Options.{
  Invocation, empty_invocation, State, Step, fail, took_one, took_two, value_flag, switch_flag,
}

-- A token that is a flag; `name`, `v` and `has_eq` are its cut at the first `=`.
unfoldable pub on_flag : Flag → String → String → String → Bool → Option String → State → Step
on_flag gateway_recovery tok name v has_eq next st =
    if has_eq || member_of st.seen name
    then fail bad_gateway_recovery
    else took_one (record st {
      seen = name ∷ st.seen;
      inv = record (st.inv) { gateway_recovery_enabled = true };
    })
on_flag removed tok name v has_eq next st = fail (removed_flag name)
on_flag rejected tok name v has_eq next st = fail (rejected_flag name)
on_flag yolo_alias tok name v has_eq next st =
    if has_eq
    then fail yolo_with_value
    else if st.permission_seen
    then fail permission_repeated
    else took_one
        (record st { permission_seen = true; inv = record (st.inv) { permission = some yolo } })
on_flag permissions tok name v has_eq next st =
    if st.permission_seen
    then fail permission_repeated
    else value_flag permissions name v has_eq next (record st { permission_seen = true })
on_flag board_goal tok name v has_eq next st = switch_flag board_goal name has_eq st
on_flag detach tok name v has_eq next st = switch_flag detach name has_eq st
on_flag (host h) tok name v has_eq next st =
    if has_eq
    then fail (host_with_value name)
    else if is_some st.inv.host_flag
    then fail host_repeated
    else took_one (record st { inv = record (st.inv) { host_flag = some h } })
on_flag unknown tok name v has_eq next st = fail (unknown_flag tok)
on_flag f tok name v has_eq next st = value_flag f name v has_eq next st

-- The first operand.
unfoldable pub env_operand : String → State → Step
env_operand tok st =
    if str_eq tok "gateway"
    then fail gateway_with_flags
    else if str_eq tok "session-manager"
    then fail session_manager_with_flags
    else if str_eq tok "werkstatt"
    then fail werkstatt_with_flags
    else if str_eq tok "migrate"
    then fail migrate_with_flags
    else if str_eq tok ""
    then fail empty_operand
    else if str_eq tok "openai-infra" || str_eq tok "anthropic-infra"
    then fail (deprecated_alias tok)
    else took_one
        (record st { env_set = true; inv = record (st.inv) { env_id = normalize_env_id tok } })

-- An operand behind it: the selector `resume`, and its handle.
unfoldable pub later_operand : String → State → Step
later_operand tok st =
    if not st.inv.resume_requested && str_eq tok "resume"
    then took_one (record st { inv = record (st.inv) { resume_requested = true } })
    else if st.inv.resume_requested && not (is_some st.inv.resume_handle)
    then took_one (record st { inv = record (st.inv) { resume_handle = some tok } })
    else fail (stray_operand tok)

unfoldable pub step : String → Option String → State → Step
step tok next st =
    let (name, v, has_eq) = cut_eq tok in
    if dashed tok
    then on_flag (flag_of name) tok name v has_eq next st
    else if st.env_set
    then later_operand tok st
    else env_operand tok st

-- What `Parse` returns: an error, an informational request, or an invocation. A Werkstatt or session
-- manager command is read from its arguments by a parser of its own.
pub data Parsed : Type 0 where
  usage_error : Usage → Parsed
  help version : Parsed
  migrate : Bool → Parsed
  gateway_recover : String → Parsed
  werkstatt session_manager : List String → Parsed
  launch : Invocation → Parsed

-- Behind the loop, on the arguments that are left.
unfoldable pub finish : State → List String → Parsed
finish st rest =
    if not st.env_set
    then usage_error missing_env
    else if st.inv.gateway_recovery_enabled && is_hosted st.inv.host_flag
    then usage_error gateway_needs_native
    else if not (str_eq st.inv.a2a_identity "") && explicit_native st.inv.host_flag
    then usage_error a2a_needs_hosted
    else launch (record (st.inv) { native_args = rest })

abbrev pub is_help : String → Bool
is_help tok = str_eq tok "--help" || str_eq tok "-h"

-- The loop, from a token on.
unfoldable pub parse_loop : State → List String → Parsed
parse_loop st [] = finish st []
parse_loop st (tok ∷ []) =
    if str_eq tok "--"
    then finish st []
    else if is_help tok
    then help
    else if str_eq tok "--version"
    then version
    else elim (step tok none st) [
      | fail e ↦ usage_error e
      | took_one st' ↦ finish st' []
      | took_two st' ↦ finish st' []
    ]
parse_loop st (tok ∷ next ∷ rest) =
    if str_eq tok "--"
    then finish st (next ∷ rest)
    else if is_help tok
    then help
    else if str_eq tok "--version"
    then version
    else elim (step tok (some next) st) [
      | fail e ↦ usage_error e
      | took_one st' ↦ parse_loop st' (next ∷ rest)
      | took_two st' ↦ parse_loop st' rest
    ]

abbrev pub start : State
start = record { inv = empty_invocation; seen = []; env_set = false; permission_seen = false }

-- `parseGatewayRecovery`, behind its first argument. A text of hex digits has as many bytes as
-- characters.
unfoldable pub parse_gateway_recovery : List String → Parsed
parse_gateway_recovery (verb ∷ flag ∷ attempt ∷ []) =
    if str_eq verb "recover" && str_eq flag "--attempt" && is_binary_digest attempt
    then gateway_recover attempt
    else usage_error bad_gateway
parse_gateway_recovery _ = usage_error bad_gateway

unfoldable pub parse_migrate : List String → Parsed
parse_migrate [] = migrate false
parse_migrate (flag ∷ []) =
    if str_eq flag "--dry-run" then migrate true else usage_error bad_migrate
parse_migrate _ = usage_error bad_migrate

unfoldable pub parse : List String → Parsed
parse [] = parse_loop start []
parse (word ∷ args) =
    if str_eq word "gateway"
    then parse_gateway_recovery args
    else if str_eq word "werkstatt"
    then werkstatt args
    else if str_eq word "session-manager"
    then session_manager args
    else if str_eq word "migrate"
    then parse_migrate args
    else parse_loop start (word ∷ args)
