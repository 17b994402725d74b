-- ===== src/NativeArgs/Admitted.antt =====
-- What `native_args_conflict` admits, by a grammar of argument lists and by the words it has none of.
use curator_agent_launcher.Base.{
  has_prefix, inr, inl, ◌⊎◌, ℕ, ◌+◌, ◌≡◌, ◌↔◌, refl, sym, ap, ◌∙◌, subst, Bool, true, false, Option,
  none, some, List, [], ◌∷◌, arith, String, str_eq, str_eq_iff, member_of, All, Bool-cases,
  if◌then◌else◌,
}
use curator_agent_launcher.NativeArgs.{
  Detail, Shape, switch_arg, required_arg, optional_arg, variadic_arg, reserved_arg, any_prefix,
  reserved_before_terminator, looks_like_option, option_shape, Verdict, admitted, refused_at,
  scan_words, Move, refuse, behind, behind_value, move, scan_options, then_scan,
  native_args_conflict,
}

-- An option that goes with no further argument: a switch without a value, an option with an optional
-- one, or one that carries its value behind `=`.
pub data Alone : Option Shape × Bool → Type 0 where
  plain_switch : Alone (some switch_arg, false)
  optional : {b : Bool} → Alone (some optional_arg, b)
  inline_required : Alone (some required_arg, true)
  inline_variadic : Alone (some variadic_arg, true)

-- An option whose value is the next argument, whatever that is.
pub data WithNext : Option Shape × Bool → Type 0 where
  required : WithNext (some required_arg, false)
  variadic : WithNext (some variadic_arg, false)

-- The argument lists that the option parser reads with admitted options only.
pub data Tail : List String → Type 0 where
  nothing : Tail []
  terminator : (args : List String) → Tail ("--" ∷ args)
  operand :
      (arg : String) (args : List String)
      → looks_like_option arg ≡ false
      → Tail args
      → Tail (arg ∷ args)
  alone :
      (arg : String) (args : List String)
      → looks_like_option arg ≡ true
      → Alone (option_shape arg)
      → Tail args
      → Tail (arg ∷ args)
  with_next :
      (arg value : String) (args : List String)
      → looks_like_option arg ≡ true
      → WithNext (option_shape arg)
      → Tail args
      → Tail (arg ∷ value ∷ args)

move-behind : (o : Option Shape × Bool) → move o ≡ behind → Alone o
unfolding move
move-behind (none, b) e = cc
move-behind (some switch_arg, true) e = cc
move-behind (some switch_arg, false) e = plain_switch
move-behind (some required_arg, true) e = inline_required
move-behind (some required_arg, false) e = cc
move-behind (some variadic_arg, true) e = inline_variadic
move-behind (some variadic_arg, false) e = cc
move-behind (some optional_arg, b) e = optional

move-behind_value : (o : Option Shape × Bool) → move o ≡ behind_value → WithNext o
unfolding move
move-behind_value (none, b) e = cc
move-behind_value (some switch_arg, true) e = cc
move-behind_value (some switch_arg, false) e = cc
move-behind_value (some required_arg, true) e = cc
move-behind_value (some required_arg, false) e = required
move-behind_value (some variadic_arg, true) e = cc
move-behind_value (some variadic_arg, false) e = variadic
move-behind_value (some optional_arg, b) e = cc

Alone-move : {o : Option Shape × Bool} → Alone o → move o ≡ behind
unfolding move
Alone-move plain_switch = refl
Alone-move optional = refl
Alone-move inline_required = refl
Alone-move inline_variadic = refl

WithNext-move : {o : Option Shape × Bool} → WithNext o → move o ≡ behind_value
unfolding move
WithNext-move required = refl
WithNext-move variadic = refl

Move-cases : (m : Move) → ((d : Detail) × (m ≡ refuse d)) ⊎ ((m ≡ behind) ⊎ (m ≡ behind_value))
Move-cases (refuse d) = inl (d, refl)
Move-cases behind = inr (inl refl)
Move-cases behind_value = inr (inr refl)

-- The second loop admits only these lists, from whatever index.
scan_options-Tail : (i : ℕ) (args : List String) → scan_options i args ≡ admitted → Tail args
unfolding scan_options
scan_options-Tail i [] e = nothing
scan_options-Tail i (arg ∷ []) e = elim (Bool-cases (str_eq arg "--")) [
  | inl mark ↦ subst (λ a. Tail (a ∷ [])) (sym ((str_eq_iff arg "--").0 mark)) (terminator [])
  | inr other ↦ elim (Bool-cases (looks_like_option arg)) [
    | inr plain ↦ operand arg [] plain nothing
    | inl dashed ↦ elim (Move-cases (move (option_shape arg))) [
      | inl (d, m) ↦ cc (rw (other, dashed, m) at e)
      | inr (inl m) ↦ alone arg [] dashed (move-behind (option_shape arg) m) nothing
      | inr (inr m) ↦ cc (rw (other, dashed, m) at e)
    ]
  ]
]
scan_options-Tail i (arg ∷ value ∷ args) e = elim (Bool-cases (str_eq arg "--")) [
  | inl mark ↦
      subst (λ a. Tail (a ∷ value ∷ args)) (sym ((str_eq_iff arg "--").0 mark))
        (terminator (value ∷ args))
  | inr other ↦ elim (Bool-cases (looks_like_option arg)) [
    | inr plain ↦
        operand arg (value ∷ args) plain
          (scan_options-Tail (i + 1) (value ∷ args) (rw (other, plain) at e))
    | inl dashed ↦ elim (Move-cases (move (option_shape arg))) [
      | inl (d, m) ↦ cc (rw (other, dashed, m) at e)
      | inr (inl m) ↦
          alone arg (value ∷ args) dashed (move-behind (option_shape arg) m)
            (scan_options-Tail (i + 1) (value ∷ args) (rw (other, dashed, m) at e))
      | inr (inr m) ↦
          with_next arg value args dashed (move-behind_value (option_shape arg) m)
            (scan_options-Tail (i + 2) args (rw (other, dashed, m) at e))
    ]
  ]
]

-- And it admits all of them.
Tail-scan_options : (i : ℕ) (args : List String) → Tail args → scan_options i args ≡ admitted
unfolding scan_options
Tail-scan_options i _ nothing = refl
Tail-scan_options i _ (terminator []) = refl
Tail-scan_options i _ (terminator (a ∷ args)) = refl
Tail-scan_options i _ (operand arg [] plain t) = rw plain (ground arith)
Tail-scan_options i _ (operand arg (v ∷ args) plain t) =
    rw (plain, Tail-scan_options (i + 1) (v ∷ args) t) (ground arith)
Tail-scan_options i _ (alone arg [] dashed a t) = rw (dashed, Alone-move a) (ground arith)
Tail-scan_options i _ (alone arg (v ∷ args) dashed a t) =
    rw (dashed, Alone-move a, Tail-scan_options (i + 1) (v ∷ args) t) (ground arith)
Tail-scan_options i _ (with_next arg value args dashed w t) =
    rw (dashed, WithNext-move w, Tail-scan_options (i + 2) args t) (ground arith)

-- The arguments in front of the first `--`.
abbrev pub before_terminator : List String → List String
before_terminator [] = []
before_terminator (arg ∷ args) = if str_eq arg "--" then [] else arg ∷ before_terminator args

abbrev pub IsFree : String → Type 0
IsFree arg = reserved_arg arg ≡ false

abbrev pub IsFreeBefore : String → Type 0
IsFreeBefore arg = member_of reserved_before_terminator arg ≡ false

mark-IsFree : IsFree "--"
unfolding reserved_arg any_prefix member_of has_prefix
mark-IsFree = refl

scan_words_terminated :
    (i : ℕ) (args : List String) → (scan_words i true args ≡ admitted) ↔ All IsFree args
unfolding scan_words
scan_words_terminated i [] = (λ _. tt, λ _. refl)
scan_words_terminated i (arg ∷ args) =
    let (there, back) = scan_words_terminated (i + 1) args in
    (λ e. (ground arith, there (ground arith)), λ h. ground (arith, back h.1))

scan_words_start :
    (i : ℕ) (args : List String)
    → (scan_words i false args ≡ admitted)
      ↔ (All IsFree args × All IsFreeBefore (before_terminator args))
unfolding scan_words
scan_words_start i [] = (λ _. (tt, tt), λ _. refl)
scan_words_start i (arg ∷ args) = elim (Bool-cases (str_eq arg "--")) [
  | inl mark ↦
      let (there, back) = scan_words_terminated (i + 1) args in
      rw mark (
        λ e. ((subst IsFree (sym ((str_eq_iff arg "--").0 mark)) mark-IsFree, there e), tt),
        λ h. back h.0.1,
      )
  | inr other ↦
      let (there, back) = scan_words_start (i + 1) args in
      rw other (
        λ e. let (a, b) = there (ground arith) in ((ground arith, a), (ground arith, b)),
        λ h. ground (arith, back (h.0.1, h.1.1)),
      )
]

then_scan-admitted : (v w : Verdict) → then_scan v w ≡ admitted → (v ≡ admitted) × (w ≡ admitted)
then_scan-admitted admitted w e = (refl, e)
then_scan-admitted (refused_at i d) w e = cc

-- A native tail is admitted exactly when no argument is a word that the tool dispatches on, none in
-- front of the first `--` is one that it looks for there only, and the option parser reads the
-- arguments with admitted options alone.
pub native_args_conflict_iff :
    (args : List String)
    → (native_args_conflict args ≡ admitted)
      ↔ (All IsFree args × All IsFreeBefore (before_terminator args) × Tail args)
unfolding native_args_conflict
native_args_conflict_iff args =
    let (there, back) = scan_words_start 0 args in
    (
      λ e.
          let (words, options) =
            then_scan-admitted (scan_words 0 false args) (scan_options 0 args) e in
          let (free, before) = there words in (free, before, scan_options-Tail 0 args options),
      λ h.
          ap (λ v. then_scan v (scan_options 0 args)) (back (h.0, h.1))
          ∙ Tail-scan_options 0 args h.2,
    )
