-- ===== src/Examples/Cli.antt =====
-- The command line: tests, and the theorems at concrete inputs.
use curator_agent_launcher.Cli.Options.{
  value_flag, switch_flag, store, set, set_network_policy, Invocation, empty_invocation,
}
use curator_agent_launcher.Cli.{
  migrate, version, usage_error, Parsed, parse_migrate, parse_gateway_recovery, launch,
  later_operand, env_operand, on_flag, step, finish, parse_loop, parse,
}
use curator_agent_launcher.Cli.Options.{value_flag, empty_invocation, Invocation}
use curator_agent_launcher.Cli.Tail.{parse-front, with_tail}
use curator_agent_launcher.Cli.WellFormed.{parse-IsLaunch, IsLaunch}
use curator_agent_launcher.Cli.Flags.{
  bad_gateway, stray_operand, migrate_with_flags, bad_value, a2a_needs_hosted, host_repeated,
  flag_repeated, missing_value, missing_env, flag_of, normalize_env_id, all_chars, count_chars,
  cut_prefix,
}
use curator_agent_launcher.Base.{
  refl, ◌≡◌, true, [], some, ◌∷◌, ◌++◌, String, List, dashed, cut_eq, member_of,
}

abbrev words : List String
words =
    "claude" ∷ "--a2a=dev.1" ∷ "--model" ∷ "m1" ∷ "--network-policy" ∷ "strict" ∷ "resume" ∷ "SES-1"
    ∷ []

abbrev tail_words : List String
tail_words = "--model" ∷ "--" ∷ "" ∷ []

abbrev parsed : Invocation
parsed = record empty_invocation {
  env_id = "claude_code";
  a2a_identity = "dev.1";
  model_name = some "m1";
  network_mode = "strict";
  resume_requested = true;
  resume_handle = some "SES-1";
}

test_parse : parse words ≡ launch parsed
unfolding parse parse_loop finish step on_flag env_operand later_operand value_flag store set
    set_network_policy flag_of normalize_env_id all_chars count_chars cut_prefix dashed cut_eq
    member_of switch_flag
test_parse = refl

abbrev errors : List (List String)
errors =
    []
    ∷ ("codex" ∷ "--model" ∷ "--" ∷ "x" ∷ [])
    ∷ ("codex" ∷ "--model=a" ∷ "--model" ∷ "b" ∷ [])
    ∷ ("codex" ∷ "--hosted" ∷ "--untracked" ∷ [])
    ∷ ("codex" ∷ "--native" ∷ "--a2a" ∷ "x" ∷ [])
    ∷ ("codex" ∷ "--effort=-x" ∷ [])
    ∷ ("--detach" ∷ "migrate" ∷ [])
    ∷ ("codex" ∷ "stray" ∷ [])
    ∷ ("codex" ∷ "--version" ∷ "stray" ∷ [])
    ∷ ("gateway" ∷ "recover" ∷ "--attempt" ∷ "0" ∷ [])
    ∷ ("migrate" ∷ "--dry-run" ∷ [])
    ∷ []

abbrev parse_all : List (List String) → List Parsed
parse_all [] = []
parse_all (line ∷ lines) = parse line ∷ parse_all lines

test_errors : parse_all errors ≡ (
    usage_error missing_env
    ∷ usage_error (missing_value "--model")
    ∷ usage_error (flag_repeated "--model")
    ∷ usage_error host_repeated
    ∷ usage_error a2a_needs_hosted
    ∷ usage_error (bad_value "--effort" "-x")
    ∷ usage_error migrate_with_flags
    ∷ usage_error (stray_operand "stray")
    ∷ version
    ∷ usage_error bad_gateway
    ∷ migrate true
    ∷ [])
unfolding parse parse_loop finish step on_flag env_operand later_operand value_flag store set
    set_network_policy flag_of normalize_env_id all_chars count_chars cut_prefix dashed cut_eq
    member_of switch_flag parse_gateway_recovery parse_migrate
test_errors = refl

parse-front_example : parse (words ++ "--" ∷ tail_words) ≡ with_tail tail_words (parse words)
parse-front_example =
    parse-front words tail_words (refl, (refl, (refl, (refl, (refl, (refl, (refl, (refl, tt))))))))
      refl

parse-IsLaunch_example : IsLaunch parsed
parse-IsLaunch_example = parse-IsLaunch words parsed test_parse
