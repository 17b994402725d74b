-- ===== src/Cli/Tail.antt =====
-- What `parse` does with the arguments behind the first `--`.
use curator_agent_launcher.Cli.Flags.{
  Flag, flag_of, gateway_recovery, removed, rejected, yolo_alias, permissions, board_goal, detach,
  host, profile, system_prompt, model, effort, resume, a2a, network, network_policy,
  network_known_bad, unknown,
}
use curator_agent_launcher.Cli.Options.{
  Step-cases, switch_flag, store, value_flag, Step, State, took_two,
}
use curator_agent_launcher.Cli.{
  start, is_help, parse, env_operand, later_operand, step, on_flag, launch, parse_loop, finish,
  Parsed,
}
use curator_agent_launcher.Base.{
  ◌||◌, subst, inr, inl, Bool-cases, ◌∙◌, true, cut_eq, refl, some, none, arith, ◌∷◌, ◌++◌, Bool,
  [], false, ◌≡◌, str_eq, String, List, All,
}

-- A parsed line with other native arguments.
abbrev pub with_tail : List String → Parsed → Parsed
with_tail rest (launch inv) = launch (record inv { native_args = rest })
with_tail rest p = p

-- No word is a `--`.
abbrev pub IsFront : List String → Type 0
IsFront = All λ w. str_eq w "--" ≡ false

finish-with_tail :
    (st : State) (rest : List String) → finish st rest ≡ with_tail rest (finish st [])
unfolding finish
finish-with_tail st rest = ground arith

parse_loop-terminator :
    (st : State) (rest : List String) → parse_loop st ("--" ∷ rest) ≡ finish st rest
unfolding parse_loop
parse_loop-terminator st [] = refl
parse_loop-terminator st (w ∷ rest) = refl

abbrev NotTwo : Step → Type 0
NotTwo (took_two st) = ⊥
NotTwo _ = Unit

value_flag-NotTwo :
    (f : Flag) (name v : String) (has_eq : Bool) (st : State)
    → NotTwo (value_flag f name v has_eq none st)
unfolding value_flag store
value_flag-NotTwo f name v has_eq st = ground arith

value_flag-terminator :
    (f : Flag) (name v : String) (has_eq : Bool) (st : State)
    → value_flag f name v has_eq (some "--") st ≡ value_flag f name v has_eq none st
unfolding value_flag
value_flag-terminator f name v has_eq st = refl

on_flag-NotTwo :
    (f : Flag) (tok name v : String) (has_eq : Bool) (st : State)
    → NotTwo (on_flag f tok name v has_eq none st)
unfolding on_flag switch_flag
on_flag-NotTwo gateway_recovery tok name v has_eq st = ground arith
on_flag-NotTwo removed tok name v has_eq st = tt
on_flag-NotTwo rejected tok name v has_eq st = tt
on_flag-NotTwo yolo_alias tok name v has_eq st = ground arith
on_flag-NotTwo permissions tok name v has_eq st =
    ground
      (arith, value_flag-NotTwo permissions name v has_eq (record st { permission_seen = true }))
on_flag-NotTwo board_goal tok name v has_eq st = ground arith
on_flag-NotTwo detach tok name v has_eq st = ground arith
on_flag-NotTwo (host h) tok name v has_eq st = ground arith
on_flag-NotTwo unknown tok name v has_eq st = tt
on_flag-NotTwo profile tok name v has_eq st = value_flag-NotTwo profile name v has_eq st
on_flag-NotTwo system_prompt tok name v has_eq st = value_flag-NotTwo system_prompt name v has_eq st
on_flag-NotTwo model tok name v has_eq st = value_flag-NotTwo model name v has_eq st
on_flag-NotTwo effort tok name v has_eq st = value_flag-NotTwo effort name v has_eq st
on_flag-NotTwo resume tok name v has_eq st = value_flag-NotTwo resume name v has_eq st
on_flag-NotTwo a2a tok name v has_eq st = value_flag-NotTwo a2a name v has_eq st
on_flag-NotTwo network tok name v has_eq st = value_flag-NotTwo network name v has_eq st
on_flag-NotTwo network_policy tok name v has_eq st =
    value_flag-NotTwo network_policy name v has_eq st
on_flag-NotTwo network_known_bad tok name v has_eq st =
    value_flag-NotTwo network_known_bad name v has_eq st

step-NotTwo : (tok : String) (st : State) → NotTwo (step tok none st)
unfolding step later_operand env_operand
step-NotTwo tok st =
    let (name, v, has_eq) = cut_eq tok in
    ground (arith, on_flag-NotTwo (flag_of name) tok name v has_eq st)

on_flag-terminator :
    (f : Flag) (tok name v : String) (has_eq : Bool) (st : State)
    → on_flag f tok name v has_eq (some "--") st ≡ on_flag f tok name v has_eq none st
unfolding on_flag value_flag
on_flag-terminator gateway_recovery tok name v has_eq st = refl
on_flag-terminator removed tok name v has_eq st = refl
on_flag-terminator rejected tok name v has_eq st = refl
on_flag-terminator yolo_alias tok name v has_eq st = refl
on_flag-terminator permissions tok name v has_eq st = refl
on_flag-terminator board_goal tok name v has_eq st = refl
on_flag-terminator detach tok name v has_eq st = refl
on_flag-terminator (host h) tok name v has_eq st = refl
on_flag-terminator profile tok name v has_eq st = refl
on_flag-terminator system_prompt tok name v has_eq st = refl
on_flag-terminator model tok name v has_eq st = refl
on_flag-terminator effort tok name v has_eq st = refl
on_flag-terminator resume tok name v has_eq st = refl
on_flag-terminator a2a tok name v has_eq st = refl
on_flag-terminator network tok name v has_eq st = refl
on_flag-terminator network_policy tok name v has_eq st = refl
on_flag-terminator network_known_bad tok name v has_eq st = refl
on_flag-terminator unknown tok name v has_eq st = refl

step-terminator : (tok : String) (st : State) → step tok (some "--") st ≡ step tok none st
unfolding step
step-terminator tok st =
    let (name, v, has_eq) = cut_eq tok in
    rw (on_flag-terminator (flag_of name) tok name v has_eq st)

-- The arguments behind the first `--` change nothing but the native arguments, which they become.
pub parse_loop-front :
    (st : State) (front rest : List String)
    → IsFront front
    → parse_loop st (front ++ "--" ∷ rest) ≡ with_tail rest (parse_loop st front)
unfolding parse_loop
parse_loop-front st [] rest free = parse_loop-terminator st rest ∙ finish-with_tail st rest
parse_loop-front st (tok ∷ []) rest free = elim (Bool-cases (is_help tok)) [
  | inl asks ↦ rw (free.0, asks)
  | inr silent ↦ elim (Bool-cases (str_eq tok "--version")) [
    | inl asks ↦ rw (free.0, silent, asks)
    | inr plain ↦ elim (Step-cases (step tok none st)) [
      | inl (e, s) ↦ rw (free.0, silent, plain, step-terminator tok st, s)
      | inr (inl (next, s)) ↦
          rw (free.0, silent, plain, step-terminator tok st, s)
            (parse_loop-terminator next rest ∙ finish-with_tail next rest)
      | inr (inr (next, s)) ↦ absurd (subst NotTwo s (step-NotTwo tok st))
    ]
  ]
]
parse_loop-front st (tok ∷ w ∷ front) rest free = elim (Bool-cases (is_help tok)) [
  | inl asks ↦ rw (free.0, asks)
  | inr silent ↦ elim (Bool-cases (str_eq tok "--version")) [
    | inl asks ↦ rw (free.0, silent, asks)
    | inr plain ↦ elim (Step-cases (step tok (some w) st)) [
      | inl (e, s) ↦ rw (free.0, silent, plain, s)
      | inr (inl (next, s)) ↦
          rw (free.0, silent, plain, s) (parse_loop-front next (w ∷ front) rest free.1)
      | inr (inr (next, s)) ↦
          rw (free.0, silent, plain, s) (parse_loop-front next front rest free.1.1)
    ]
  ]
]

-- The first word does not name a command of its own.
abbrev pub IsLaunchWord : List String → Type 0
IsLaunchWord [] = Unit
IsLaunchWord (word ∷ args) =
    (str_eq word "gateway"
      || (str_eq word "werkstatt" || (str_eq word "session-manager" || str_eq word "migrate")))
    ≡ false

-- On a launch line, the arguments behind the first `--` are not looked at: the result is that of the
-- line without them, error or not, with these as its native arguments, in their order.
pub parse-front :
    (front rest : List String)
    → IsFront front
    → IsLaunchWord front
    → parse (front ++ "--" ∷ rest) ≡ with_tail rest (parse front)
unfolding parse
parse-front [] rest free own = parse_loop-front start [] rest tt
parse-front (word ∷ args) rest free own =
    ground (arith, parse_loop-front start (word ∷ args) rest free)
