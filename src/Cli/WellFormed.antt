-- ===== src/Cli/WellFormed.antt =====
-- What `parse` accepts is well formed.
pub mod Flags
use curator_agent_launcher.Tried.{denied, granted, Tried}
use curator_agent_launcher.Cli.Flags.{
  normalize_env_id, missing_value, hosted, native_host, untracked, cut_prefix, is_a2a_identity,
  Flag, flag_of, gateway_recovery, removed, rejected, yolo_alias, permissions, board_goal, detach,
  host, profile, system_prompt, model, effort, resume, a2a, network, network_policy,
  network_known_bad, unknown,
}
use curator_agent_launcher.Cli.Options.{
  Step-cases, set_switch, is_a2a, set, set_pin, set_network_policy, set_system_prompt,
  set_permissions, switch_flag, store, value_flag, Step, State, took_two, took_one, fail,
}
use curator_agent_launcher.Cli.{
  parse_migrate, parse_gateway_recovery, explicit_native, parse, start, is_hosted, normalize_env_id,
  Usage, Invocation, is_binary_digest, env_operand, later_operand, step, on_flag, launch,
  parse_loop, finish, Parsed,
}
use curator_agent_launcher.Base.{
  is_some, sym, subst, inr, inl, if◌then◌else◌, Bool-cases, ◌&&◌, ◌||◌, member_of, dashed,
  str_eq_iff, true, not, Option, cut_eq, refl, some, none, arith, ◌∷◌, Bool, [], false, ◌≡◌, str_eq,
  String, List,
}
use Prim.Native.String.{◌++◌ as str_append}
use curator_agent_launcher.Cli.WellFormed.Flags.{
  optimistic, IsValid, is_environment, IsReached, Keeps, on_flag-Keeps,
}

-- The operands that are refused by name.
abbrev is_refused : String → Bool
is_refused tok =
    str_eq tok "gateway"
    || (str_eq tok "session-manager"
        || (str_eq tok "werkstatt"
            || (str_eq tok "migrate"
                || (str_eq tok "" || (str_eq tok "openai-infra" || str_eq tok "anthropic-infra")))))

normalize_env_id-is_environment :
    (tok : String)
    → dashed tok ≡ false
    → is_refused tok ≡ false
    → is_environment (normalize_env_id tok) ≡ true
unfolding normalize_env_id dashed
normalize_env_id-is_environment tok plain other = elim (Bool-cases (str_eq tok "claude")) [
  | inl claude ↦ rw claude refl
  | inr third ↦ elim (Bool-cases (str_eq tok "codex")) [
    | inl codex ↦ rw (third, codex) refl
    | inr fourth ↦ rw (third, fourth) (ground arith)
  ]
]

env_operand-Keeps :
    (tok : String) (st : State) → dashed tok ≡ false → IsReached st → Keeps (env_operand tok st)
unfolding env_operand
env_operand-Keeps tok st plain h = elim (Bool-cases (is_refused tok)) [
  | inl bad ↦ ground arith
  | inr good ↦ ground (arith, normalize_env_id-is_environment tok plain good)
]

later_operand-Keeps : (tok : String) (st : State) → IsReached st → Keeps (later_operand tok st)
unfolding later_operand
later_operand-Keeps tok st h = ground arith

step-Keeps :
    (tok : String) (next : Option String) (st : State) → IsReached st → Keeps (step tok next st)
unfolding step
step-Keeps tok next st h =
    let (name, v, has_eq) = cut_eq tok in
    ground (
      arith,
      on_flag-Keeps (flag_of name) tok name v has_eq next st refl h,
      later_operand-Keeps tok st h,
      env_operand-Keeps tok st,
    )

-- An accepted launch: its values are well formed, it names a canonical environment, gateway recovery
-- is not hosted, and a doorbell identity is not native.
abbrev pub IsLaunch : Invocation → Type 0
IsLaunch inv =
    IsValid inv
    × (is_environment inv.env_id ≡ true)
    × ((inv.gateway_recovery_enabled && is_hosted inv.host_flag) ≡ false)
    × ((not (str_eq inv.a2a_identity "") && explicit_native inv.host_flag) ≡ false)

abbrev Admits : Parsed → Type 0
Admits (launch inv) = IsLaunch inv
Admits _ = Unit

finish-Admits : (st : State) (rest : List String) → IsReached st → Admits (finish st rest)
unfolding finish
finish-Admits st rest h = ground arith

parse_loop-Admits : (st : State) (args : List String) → IsReached st → Admits (parse_loop st args)
unfolding parse_loop
parse_loop-Admits st [] h = finish-Admits st [] h
parse_loop-Admits st (tok ∷ []) h = elim (Step-cases (step tok none st)) [
  | inl (e, s) ↦ rw s (ground (arith, finish-Admits st [] h))
  | inr (inl (next, s)) ↦
      let k = finish-Admits next [] (subst Keeps s (step-Keeps tok none st h)) in
      rw s (ground (arith, finish-Admits st [] h, k))
  | inr (inr (next, s)) ↦
      let k = finish-Admits next [] (subst Keeps s (step-Keeps tok none st h)) in
      rw s (ground (arith, finish-Admits st [] h, k))
]
parse_loop-Admits st (tok ∷ w ∷ rest) h = elim (Step-cases (step tok (some w) st)) [
  | inl (e, s) ↦ rw s (ground (arith, finish-Admits st (w ∷ rest) h))
  | inr (inl (next, s)) ↦
      let k = parse_loop-Admits next (w ∷ rest) (subst Keeps s (step-Keeps tok (some w) st h)) in
      rw s (ground (arith, finish-Admits st (w ∷ rest) h, k))
  | inr (inr (next, s)) ↦
      let k = parse_loop-Admits next rest (subst Keeps s (step-Keeps tok (some w) st h)) in
      rw s (ground (arith, finish-Admits st (w ∷ rest) h, k))
]

start-IsReached : IsReached start
unfolding dashed
start-IsReached = ((refl, tt, tt, tt, tt, tt, refl, optimistic, refl), (λ e. cc), λ e. (refl, refl))

parse-Admits : (args : List String) → Admits (parse args)
unfolding parse parse_gateway_recovery parse_migrate
parse-Admits [] = parse_loop-Admits start [] start-IsReached
parse-Admits (word ∷ args) = ground (arith, parse_loop-Admits start (word ∷ args) start-IsReached)

-- Every accepted launch line is well formed.
pub parse-IsLaunch :
    (args : List String) (inv : Invocation) → parse args ≡ launch inv → IsLaunch inv
parse-IsLaunch args inv e = subst Admits e (parse-Admits args)
