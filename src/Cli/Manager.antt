-- ===== src/Cli/Manager.antt =====
-- internal/cli/session_manager.go, `parseSessionManager`: the grammar of the session manager commands.
pub mod Shape
use curator_agent_launcher.Base.{
  ℕ, Bool, true, false, not, ◌&&◌, ◌||◌, Option, none, some, List, [], ◌∷◌, if◌then◌else◌, String,
  str_eq, leb, within, code, ◌==◌, member_of, has_prefix,
}
use curator_agent_launcher.Tried.{Tried, granted, denied, ◌>>=◌}
use curator_agent_launcher.Cli.Flags.{all_chars, count_chars, cut_prefix}

-- `sessionmanager.Command`.
pub record Command : Type 0 where
  pub operation : String
  pub id : String
  pub scope : String
  pub session : String
  pub manifest : String
  pub json : Bool
  pub select : Bool
  pub no_select : Bool

abbrev pub blank : String → Command
blank op = record {
  operation = op;
  id = "";
  scope = "";
  session = "";
  manifest = "";
  json = false;
  select = false;
  no_select = false;
}

-- The rules that an error names.
pub data Rule : Type 0 where
  scope_twice scope_value : Rule
  observe_id session_twice session_value json_twice session_json_required : Rule
  no_id bad_id unexpected : Rule
  flag_twice : String → Rule
  unknown_argument manifest_value manifest_required both_selections : Rule

pub data Fault : Type 0 where
  no_operation unknown_operation : Fault
  fail : String → Rule → Fault

abbrev pub is_scope : String → Bool
is_scope s = str_eq s "user" || str_eq s "system"

abbrev pub is_alphanumeric : ℕ → Bool
is_alphanumeric c = within b'A' b'Z' c || within b'a' b'z' c || within b'0' b'9' c

abbrev pub handle_rest : Option String → Bool
handle_rest none = false
handle_rest (some s) =
    all_chars is_alphanumeric s && leb 1 (count_chars s) && leb (count_chars s) 48

-- `observationHandle`.
unfoldable pub is_handle : String → Bool
is_handle s = handle_rest (cut_prefix s "SES-")

-- `ValidID`, `^[a-z0-9][a-z0-9-]{0,31}$`.
abbrev pub is_id_char : ℕ → Bool
is_id_char c = within b'a' b'z' c || within b'0' b'9' c

unfoldable pub valid_id : String → Bool
valid_id String.[] = false
valid_id (String.◌∷◌ c s) =
    is_id_char (code c) && all_chars (λ d. is_id_char d || d == b'-') s && leb (count_chars s) 31

-- The filter of `--scope`, with the scope that is set so far.
unfoldable pub filter_scope : String → List String → Tried Rule (List String × String)
filter_scope scope [] = granted ([], scope)
filter_scope scope (w ∷ []) =
    if not (str_eq w "--scope")
    then granted (w ∷ [], scope)
    else if not (str_eq scope "")
    then denied scope_twice
    else denied scope_value
filter_scope scope (w ∷ v ∷ rest) =
    let plain = filter_scope scope (v ∷ rest) in
    let taken = filter_scope v rest in
    if not (str_eq w "--scope")
    then (plain >>= λ p. granted (w ∷ p.0, p.1))
    else if not (str_eq scope "")
    then denied scope_twice
    else if not (is_scope v)
    then denied scope_value
    else taken

-- The loop of `observe`, on the session and the mark of `--json` that are set so far.
unfoldable pub observe_flags : String → Bool → List String → Tried Rule (String × Bool)
observe_flags session json [] = granted (session, json)
observe_flags session json (w ∷ []) =
    if str_eq w "--json"
    then if json then denied json_twice else granted (session, true)
    else if str_eq w "--session"
    then if not (str_eq session "") then denied session_twice else denied session_value
    else denied unexpected
observe_flags session json (w ∷ v ∷ rest) =
    let marked = observe_flags session true (v ∷ rest) in
    let named = observe_flags v json rest in
    if str_eq w "--json"
    then if json then denied json_twice else marked
    else if str_eq w "--session"
    then if not (str_eq session "")
      then denied session_twice
      else if not (is_handle v)
      then denied session_value
      else named
    else denied unexpected

abbrev pub observed : String → String × Bool → Tried Rule Command
observed id (session, json) =
    if str_eq session "" || not json
    then denied session_json_required
    else granted (record (blank "observe") { id = id; session = session; json = json })

unfoldable pub observe : List String → Tried Rule Command
observe [] = denied observe_id
observe (id ∷ args) =
    if not (valid_id id) then denied observe_id else observe_flags "" false args >>= observed id

unfoldable pub list_managers : List String → Tried Rule Command
list_managers [] = granted (blank "list")
list_managers (w ∷ []) =
    if str_eq w "--json" then granted (record (blank "list") { json = true }) else denied unexpected
list_managers (w ∷ v ∷ rest) = denied unexpected

-- Behind the identifier of `show`.
abbrev pub show_json : Command → List String → Tried Rule Command
show_json c [] = granted c
show_json c (w ∷ []) =
    if str_eq w "--json" then granted (record c { json = true }) else denied unexpected
show_json c (w ∷ v ∷ rest) = denied unexpected

unfoldable pub show_manager : List String → Tried Rule Command
show_manager [] = denied no_id
show_manager (id ∷ args) =
    if not (valid_id id) then denied bad_id else show_json (record (blank "show") { id = id }) args

-- `use`, `select` and `unregister`, behind the filter.
abbrev pub chosen : String → List String × String → Tried Rule Command
chosen op ([], scope) = denied no_id
chosen op (id ∷ [], scope) =
    if not (valid_id id)
    then denied bad_id
    else granted (record (blank op) { id = id; scope = scope })
chosen op (id ∷ w ∷ rest, scope) = if not (valid_id id) then denied bad_id else denied unexpected

-- The value of `--manifest`.
abbrev pub is_manifest : String → Bool
is_manifest v = not (str_eq v "" || (not (str_eq v "-") && has_prefix v "--"))

abbrev pub repeated : String → Rule
repeated flag =
    if str_eq flag "--manifest"
      || (str_eq flag "--select" || (str_eq flag "--no-select" || str_eq flag "--scope"))
    then flag_twice flag
    else unknown_argument

-- The loop of `register`.
unfoldable pub register_flags : List String → Command → List String → Tried Rule Command
register_flags seen c [] = granted c
register_flags seen c (flag ∷ []) =
    if member_of seen flag
    then denied (repeated flag)
    else if str_eq flag "--manifest"
    then denied manifest_value
    else if str_eq flag "--scope"
    then denied scope_value
    else if str_eq flag "--select"
    then granted (record c { select = true })
    else if str_eq flag "--no-select"
    then granted (record c { no_select = true })
    else denied unknown_argument
register_flags seen c (flag ∷ v ∷ rest) =
    let manifest_set = register_flags (flag ∷ seen) (record c { manifest = v }) rest in
    let scope_set = register_flags (flag ∷ seen) (record c { scope = v }) rest in
    let select_set = register_flags (flag ∷ seen) (record c { select = true }) (v ∷ rest) in
    let no_select_set = register_flags (flag ∷ seen) (record c { no_select = true }) (v ∷ rest) in
    if member_of seen flag
    then denied (repeated flag)
    else if str_eq flag "--manifest"
    then if not (is_manifest v) then denied manifest_value else manifest_set
    else if str_eq flag "--scope"
    then if not (is_scope v) then denied scope_value else scope_set
    else if str_eq flag "--select"
    then select_set
    else if str_eq flag "--no-select"
    then no_select_set
    else denied unknown_argument

abbrev pub registered : Command → Tried Rule Command
registered c =
    if str_eq c.manifest ""
    then denied manifest_required
    else if c.select && c.no_select
    then denied both_selections
    else granted c

unfoldable pub register : List String → Tried Rule Command
register args = register_flags [] (blank "register") args >>= registered

abbrev pub named : String → Tried Rule Command → Tried Fault Command
named op (granted c) = granted c
named op (denied r) = denied (fail op r)

unfoldable pub parse_session_manager : List String → Tried Fault Command
parse_session_manager [] = denied no_operation
parse_session_manager (op ∷ args) =
    if str_eq op "use" || (str_eq op "select" || str_eq op "unregister")
    then named op (filter_scope "" args >>= chosen op)
    else if str_eq op "observe"
    then named op (observe args)
    else if str_eq op "list"
    then named op (list_managers args)
    else if str_eq op "show"
    then named op (show_manager args)
    else if str_eq op "register"
    then named op (register args)
    else denied unknown_operation
