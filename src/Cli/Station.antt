-- ===== src/Cli/Station.antt =====
-- internal/werkstattcommand/command.go, `ParseCommand`: the grammar of the Werkstatt commands.
pub mod Admissible
use curator_agent_launcher.Base.{
  ℕ, ◌+◌, ◌*◌, ◌-◌, Bool, true, false, not, ◌&&◌, ◌||◌, ◌==◌, Option, none, some, List, [], ◌∷◌,
  if◌then◌else◌, String, str_eq, leb, within, code, member_of, has_prefix,
}
use curator_agent_launcher.Tried.{Tried, granted, denied, ◌>>=◌}
use curator_agent_launcher.Cli.Flags.{all_chars, count_chars}

pub data Action : Type 0 where
  up down recycle status update recover list : Action

unfoldable pub action_of : String → Option Action
action_of s =
    if str_eq s "up"
    then some up
    else if str_eq s "down"
    then some down
    else if str_eq s "recycle"
    then some recycle
    else if str_eq s "status"
    then some status
    else if str_eq s "update"
    then some update
    else if str_eq s "recover"
    then some recover
    else if str_eq s "list"
    then some list
    else none

abbrev pub is_up : Action → Bool
is_up up = true
is_up _ = false

abbrev pub is_down : Action → Bool
is_down down = true
is_down _ = false

abbrev pub is_status : Action → Bool
is_status status = true
is_status _ = false

abbrev pub is_update : Action → Bool
is_update update = true
is_update _ = false

abbrev pub is_recover : Action → Bool
is_recover recover = true
is_recover _ = false

abbrev pub is_list : Action → Bool
is_list list = true
is_list _ = false

-- `Command`; an absent task or queue depth is `none`.
pub record Command : Type 0 where
  pub action : Action
  pub id : String
  pub attach : Bool
  pub new : Bool
  pub force : Bool
  pub json : Bool
  pub rebind_manager : Bool
  pub abandon_operation : Bool
  pub task_class : String
  pub difficulty : String
  pub set_task : Bool
  pub task : Option String
  pub queue_depth : Option ℕ

abbrev pub blank : Action → Command
blank a = record {
  action = a;
  id = "";
  attach = false;
  new = false;
  force = false;
  json = false;
  rebind_manager = false;
  abandon_operation = false;
  task_class = "";
  difficulty = "";
  set_task = false;
  task = none;
  queue_depth = none;
}

-- The rules that an error names.
pub data Rule : Type 0 where
  second_operand bad_id unknown_flag exclusive_task bad_depth : Rule
  given_twice wrong_action needs_value empty_value bad_dispatch : String → Rule
  list_with_id id_required difficulty_alone exclusive_recovery : Rule
  nothing_to_update nothing_to_recover flags_need_id : Rule

pub data Fault : Type 0 where
  no_action unknown_action : Fault
  bad : Action → Rule → Fault

abbrev pub is_low : ℕ → Bool
is_low c = within b'a' b'z' c || within b'0' b'9' c

-- `ValidID`, `^[a-z0-9][a-z0-9-]{0,47}$`.
unfoldable pub valid_id : String → Bool
valid_id String.[] = false
valid_id (String.◌∷◌ c s) =
    is_low (code c) && all_chars (λ d. is_low d || d == b'-') s && leb (count_chars s) 47

abbrev pub is_dispatch_char : ℕ → Bool
is_dispatch_char c =
    is_low c
    || within b'A' b'Z' c
    || c == b'.'
    || c == b'_'
    || c == b':'
    || c == b'/'
    || c == b'@'
    || c == b'+'
    || c == b'-'

-- `dispatchValue`; a text of these characters has as many bytes.
unfoldable pub dispatch_value : String → Bool
dispatch_value s = all_chars is_dispatch_char s && leb 1 (count_chars s) && leb (count_chars s) 128

-- The value of the digits behind `n`, if there is nothing else.
unfoldable pub digits : ℕ → String → Option ℕ
digits n String.[] = some n
digits n (String.◌∷◌ c s) =
    if within b'0' b'9' (code c) then digits (n * 10 + (code c - b'0')) s else none

abbrev pub bounded : Option ℕ → Option ℕ
bounded none = none
bounded (some n) = if leb n 9007199254740991 then some n else none

abbrev pub zero_only : Option ℕ → Option ℕ
zero_only none = none
zero_only (some n) = if n == 0 then some 0 else none

-- At least one digit.
abbrev pub number : String → Option ℕ
number String.[] = none
number (String.◌∷◌ c s) = digits 0 (String.◌∷◌ c s)

-- `strconv.ParseInt(v, 10, 64)` with the bounds 0 and 2^53 - 1, so that of the negative numerals only
-- those of zero pass.
unfoldable pub depth_of : String → Option ℕ
depth_of String.[] = none
depth_of (String.◌∷◌ c s) =
    if code c == b'-'
    then zero_only (number s)
    else if code c == b'+'
    then bounded (number s)
    else bounded (number (String.◌∷◌ c s))

-- `knownFlag`.
abbrev pub known_flags : List String
known_flags =
    "--attach" ∷ "--new" ∷ "--force" ∷ "--json" ∷ "--rebind-manager" ∷ "--abandon-operation"
    ∷ "--clear-task" ∷ "--set-task" ∷ "--queue-depth" ∷ "--task-class" ∷ "--difficulty" ∷ []

abbrev pub is_value_flag : String → Bool
is_value_flag a =
    str_eq a "--set-task"
    || (str_eq a "--queue-depth" || (str_eq a "--task-class" || str_eq a "--difficulty"))

-- The operand.
unfoldable pub operand : String → Command → Tried Rule Command
operand a c =
    if not (str_eq c.id "")
    then denied second_operand
    else if not (valid_id a)
    then denied bad_id
    else granted (record c { id = a })

abbrev pub only : Bool → String → Command → Tried Rule Command
only allowed a c = if not allowed then denied (wrong_action a) else granted c

-- A flag without a value.
unfoldable pub plain_flag : String → Command → Tried Rule Command
plain_flag a c =
    if str_eq a "--attach"
    then only (is_up c.action) a (record c { attach = true })
    else if str_eq a "--new"
    then only (is_up c.action) a (record c { new = true })
    else if str_eq a "--force"
    then only (is_down c.action) a (record c { force = true })
    else if str_eq a "--json"
    then only
        (is_status c.action || (is_list c.action || (is_update c.action || is_recover c.action))) a
        (record c { json = true })
    else if str_eq a "--rebind-manager"
    then only (is_status c.action || is_recover c.action) a (record c { rebind_manager = true })
    else if str_eq a "--abandon-operation"
    then only (is_status c.action || is_recover c.action) a (record c { abandon_operation = true })
    else if str_eq a "--clear-task"
    then if not (is_status c.action || is_update c.action)
      then denied (wrong_action a)
      else if c.set_task
      then denied exclusive_task
      else granted (record c { set_task = true })
    else denied unknown_flag

abbrev pub store_depth : Option ℕ → Command → Tried Rule Command
store_depth none c = denied bad_depth
store_depth (some n) c = granted (record c { queue_depth = some n })

-- The value of a flag that the action admits.
unfoldable pub store_value : String → String → Command → Tried Rule Command
store_value a v c =
    if str_eq a "--set-task"
    then if c.set_task
      then denied exclusive_task
      else if str_eq v ""
      then denied (empty_value a)
      else granted (record c { set_task = true; task = some v })
    else if str_eq a "--queue-depth"
    then store_depth (depth_of v) c
    else if not (dispatch_value v)
    then denied (bad_dispatch a)
    else if str_eq a "--task-class"
    then granted (record c { task_class = v })
    else granted (record c { difficulty = v })

-- Whether the action admits a flag with a value.
abbrev pub admits_value : String → Command → Bool
admits_value a c =
    if str_eq a "--set-task" || str_eq a "--queue-depth"
    then is_status c.action || is_update c.action
    else is_up c.action

abbrev pub repeated : String → Rule
repeated a = if member_of known_flags a then given_twice a else unknown_flag

-- The loop, on the flags seen so far.
unfoldable pub parse_words : List String → Command → List String → Tried Rule Command
parse_words seen c [] = granted c
parse_words seen c (a ∷ []) =
    if not (has_prefix a "--")
    then operand a c
    else if member_of seen a
    then denied (repeated a)
    else if not (is_value_flag a)
    then plain_flag a c
    else if not (admits_value a c)
    then denied (wrong_action a)
    else denied (needs_value a)
parse_words seen c (a ∷ v ∷ rest) =
    if not (has_prefix a "--")
    then (operand a c >>= λ d. parse_words seen d (v ∷ rest))
    else if member_of seen a
    then denied (repeated a)
    else if not (is_value_flag a)
    then (plain_flag a c >>= λ d. parse_words (a ∷ seen) d (v ∷ rest))
    else if not (admits_value a c)
    then denied (wrong_action a)
    else if has_prefix v "--"
    then denied (needs_value a)
    else (store_value a v c >>= λ d. parse_words (a ∷ seen) d rest)

abbrev pub has_depth : Command → Bool
has_depth c = elim c.queue_depth [ none ↦ false | some n ↦ true ]

-- The conditions behind the loop.
unfoldable pub completed : Command → Tried Rule Command
completed c =
    if is_list c.action && not (str_eq c.id "")
    then denied list_with_id
    else if not (is_list c.action) && (not (is_status c.action) && str_eq c.id "")
    then denied id_required
    else if not (str_eq c.difficulty "") && str_eq c.task_class ""
    then denied difficulty_alone
    else if c.rebind_manager && c.abandon_operation
    then denied exclusive_recovery
    else if is_update c.action && (not c.set_task && not (has_depth c))
    then denied nothing_to_update
    else if is_recover c.action && (not c.rebind_manager && not c.abandon_operation)
    then denied nothing_to_recover
    else if str_eq c.id ""
        && (c.set_task || (has_depth c || (c.rebind_manager || c.abandon_operation)))
    then denied flags_need_id
    else granted c

abbrev pub under : Action → Tried Rule Command → Tried Fault Command
under a (granted c) = granted c
under a (denied r) = denied (bad a r)

abbrev pub parse_action : Option Action → List String → Tried Fault Command
parse_action none args = denied unknown_action
parse_action (some a) args = under a (parse_words [] (blank a) args >>= completed)

unfoldable pub parse_command : List String → Tried Fault Command
parse_command [] = denied no_action
parse_command (word ∷ args) = parse_action (action_of word) args
