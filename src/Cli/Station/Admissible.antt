-- ===== src/Cli/Station/Admissible.antt =====
-- The commands that `parse_command` accepts.
use curator_agent_launcher.Cli.Station.{
  action_of, is_value_flag, parse_action, dispatch_value, has_depth, blank, under, admits_value,
  store_depth, number, is_recover, parse_command, Action, completed, parse_words, store_value,
  is_update, depth_of, zero_only, bounded, is_list, is_status, is_down, is_up, denied, granted,
  valid_id, Rule, Tried, plain_flag, operand, Command,
}
use curator_agent_launcher.Base.{
  [], subst, member_of, has_prefix, ◌∷◌, refl, false, List, inr, none, inl, ◌≡◌, ◌&&◌, leb, ◌||◌,
  arith, Bool-cases, some, str_eq, String, true, not, Option, Bool, ℕ,
}
use curator_agent_launcher.Tried.{Grants, Grants-bind, ◌>>=◌}

abbrev pub implies : Bool → Bool → Bool
implies a b = not a || b

abbrev pub is_depth : Option ℕ → Bool
is_depth none = true
is_depth (some n) = leb n 9007199254740991

abbrev pub is_task : Bool → Option String → Bool
is_task set none = true
is_task set (some v) = set && not (str_eq v "")

-- Each flag belongs to the action, and each value has its form.
abbrev pub IsFlagged : Command → Type 0
IsFlagged c =
    ((str_eq c.id "" || valid_id c.id) ≡ true)
    × (implies c.attach (is_up c.action) ≡ true)
    × (implies c.new (is_up c.action) ≡ true)
    × (implies c.force (is_down c.action) ≡ true)
    × (implies c.json
          (is_status c.action || (is_list c.action || (is_update c.action || is_recover c.action)))
        ≡ true)
    × (implies c.rebind_manager (is_status c.action || is_recover c.action) ≡ true)
    × (implies c.abandon_operation (is_status c.action || is_recover c.action) ≡ true)
    × (implies (c.set_task || has_depth c) (is_status c.action || is_update c.action) ≡ true)
    × (implies (not (str_eq c.task_class "")) (is_up c.action && dispatch_value c.task_class)
        ≡ true)
    × (implies (not (str_eq c.difficulty "")) (is_up c.action && dispatch_value c.difficulty)
        ≡ true)
    × (is_task c.set_task c.task ≡ true)
    × (is_depth c.queue_depth ≡ true)

operand-IsFlagged : (a : String) (c : Command) → IsFlagged c → Grants IsFlagged (operand a c)
unfolding operand
operand-IsFlagged a c h = elim (Bool-cases (valid_id a)) [
  | inl good ↦ ground arith
  | inr bad ↦ ground arith
]

plain_flag-IsFlagged : (a : String) (c : Command) → IsFlagged c → Grants IsFlagged (plain_flag a c)
unfolding plain_flag
plain_flag-IsFlagged a c h = ground arith

bounded-is_depth : (o : Option ℕ) → is_depth (bounded o) ≡ true
bounded-is_depth none = refl
bounded-is_depth (some n) = ground arith

zero_only-is_depth : (o : Option ℕ) → is_depth (zero_only o) ≡ true
zero_only-is_depth none = refl
zero_only-is_depth (some n) = ground arith

depth_of-is_depth : (v : String) → is_depth (depth_of v) ≡ true
unfolding depth_of
depth_of-is_depth String.[] = refl
depth_of-is_depth (String.◌∷◌ c s) = ground (
  arith,
  zero_only-is_depth (number s),
  bounded-is_depth (number s),
  bounded-is_depth (number (String.◌∷◌ c s)),
)

store_depth-IsFlagged :
    (o : Option ℕ) (c : Command)
    → is_depth o ≡ true
    → (is_status c.action || is_update c.action) ≡ true
    → IsFlagged c
    → Grants IsFlagged (store_depth o c)
store_depth-IsFlagged none c d own h = tt
store_depth-IsFlagged (some n) c d own h = ground arith

store_value-IsFlagged :
    (a v : String) (c : Command)
    → admits_value a c ≡ true
    → IsFlagged c
    → Grants IsFlagged (store_value a v c)
unfolding store_value
store_value-IsFlagged a v c own h = elim (Bool-cases (str_eq a "--set-task")) [
  | inl task ↦ rw task (let own' = rw task at own in ground arith)
  | inr other ↦ elim (Bool-cases (str_eq a "--queue-depth")) [
    | inl depth ↦
        rw (other, depth)
          (store_depth-IsFlagged (depth_of v) c (depth_of-is_depth v) (rw (other, depth) at own) h)
    | inr word ↦
        let own' = rw (other, word) at own in
        elim (Bool-cases (dispatch_value v)) [
          | inl good ↦ rw (other, word, good) (ground arith)
          | inr bad ↦ rw (other, word, bad) tt
        ]
  ]
]

parse_words-IsFlagged :
    (seen : List String) (c : Command) (args : List String)
    → IsFlagged c
    → Grants IsFlagged (parse_words seen c args)
unfolding parse_words
parse_words-IsFlagged seen c [] h = h
parse_words-IsFlagged seen c (a ∷ []) h =
    ground (arith, operand-IsFlagged a c h, plain_flag-IsFlagged a c h)
parse_words-IsFlagged seen c (a ∷ v ∷ rest) h = elim (Bool-cases (has_prefix a "--")) [
  | inr word ↦ rw word (
      Grants-bind IsFlagged IsFlagged (operand a c) (λ d. parse_words seen d (v ∷ rest))
        (operand-IsFlagged a c h) (λ d k. parse_words-IsFlagged seen d (v ∷ rest) k))
  | inl flag ↦ elim (Bool-cases (member_of seen a)) [
    | inl again ↦ rw (flag, again) tt
    | inr first ↦ elim (Bool-cases (is_value_flag a)) [
      | inr plain ↦
          rw (flag, first, plain)
            (Grants-bind IsFlagged IsFlagged (plain_flag a c)
              (λ d. parse_words (a ∷ seen) d (v ∷ rest)) (plain_flag-IsFlagged a c h)
              (λ d k. parse_words-IsFlagged (a ∷ seen) d (v ∷ rest) k))
      | inl valued ↦ elim (Bool-cases (admits_value a c)) [
        | inr foreign ↦ rw (flag, first, valued, foreign) tt
        | inl own ↦ elim (Bool-cases (has_prefix v "--")) [
          | inl missing ↦ rw (flag, first, valued, own, missing) tt
          | inr given ↦
              rw (flag, first, valued, own, given)
                (Grants-bind IsFlagged IsFlagged (store_value a v c)
                  (λ d. parse_words (a ∷ seen) d rest) (store_value-IsFlagged a v c own h)
                  (λ d k. parse_words-IsFlagged (a ∷ seen) d rest k))
        ]
      ]
    ]
  ]
]

-- The flags go together, and the action has what it needs.
abbrev pub IsComplete : Command → Type 0
IsComplete c =
    (implies (is_list c.action) (str_eq c.id "") ≡ true)
    × (implies (str_eq c.id "") (is_list c.action || is_status c.action) ≡ true)
    × (implies (str_eq c.task_class "") (str_eq c.difficulty "") ≡ true)
    × ((c.rebind_manager && c.abandon_operation) ≡ false)
    × (implies (is_update c.action) (c.set_task || has_depth c) ≡ true)
    × (implies (is_recover c.action) (c.rebind_manager || c.abandon_operation) ≡ true)
    × (implies (str_eq c.id "")
          (not (c.set_task || (has_depth c || (c.rebind_manager || c.abandon_operation))))
        ≡ true)

abbrev pub IsAdmissible : Command → Type 0
IsAdmissible c = IsFlagged c × IsComplete c

completed-IsAdmissible : (c : Command) → IsFlagged c → Grants IsAdmissible (completed c)
unfolding completed
completed-IsAdmissible c h = ground arith

under-granted :
    (a : Action) (r : Tried Rule Command) (c : Command) → under a r ≡ granted c → r ≡ granted c
under-granted a (granted d) c e = cc
under-granted a (denied r) c e = cc

blank-IsFlagged : (a : Action) → IsFlagged (blank a)
blank-IsFlagged a = ground arith

-- Whatever the parser accepts, each flag belongs to its action, each value has its form, the flags go
-- together, and the action has what it needs.
pub parse_command-IsAdmissible :
    (args : List String) (c : Command) → parse_command args ≡ granted c → IsAdmissible c
unfolding parse_command
parse_command-IsAdmissible [] c e = cc
parse_command-IsAdmissible (word ∷ args) c e = of_action (action_of word) e
  where
    of_action : (o : Option Action) → parse_action o args ≡ granted c → IsAdmissible c
    of_action none e = cc
    of_action (some a) e =
        subst (Grants IsAdmissible)
          (under-granted a (parse_words [] (blank a) args >>= completed) c e)
          (Grants-bind IsFlagged IsAdmissible (parse_words [] (blank a) args) completed
            (parse_words-IsFlagged [] (blank a) args (blank-IsFlagged a)) completed-IsAdmissible)
