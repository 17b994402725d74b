-- ===== src/Defaults.antt =====
-- internal/defaults/defaults.go: the launcher's defaults files, from their JSON values to the
-- resolution of flags, operator and machine defaults.
pub mod Loaded
pub mod Layers
use curator_agent_launcher.Base.{
  is_some, is_text, Bool, true, false, not, ◌&&◌, ◌||◌, Option, none, some, List, [], ◌∷◌,
  if◌then◌else◌, String, str_eq, Bytes, bytes_eq, codes,
}
use curator_agent_launcher.Tried.{Tried, granted, denied, deny_if, ◌>>=◌, ◌>>◌}
use curator_agent_launcher.Fragment.Value.{
  Value, boolean, string, object, Members, nil, member, members_of, get, home_variable,
}

-- `Pair`; a `Member` that is present is `some` of its value.
pub record Pair : Type 0 where
  pub model : Option Bytes
  pub effort : Option Bytes
  pub permissions : Option Bytes
  pub host : Option Bytes

abbrev pub empty_pair : Pair
empty_pair = record { model = none; effort = none; permissions = none; host = none }

-- `file`; the map is the list of its entries.
pub record File : Type 0 where
  pub locked : Bool
  pub entries : List (Bytes × Pair)

abbrev pub empty_file : File
empty_file = record { locked = false; entries = [] }

-- `Files`.
pub record Files : Type 0 where
  pub machine : File
  pub operator : File

-- `m[k] = v` and `m[k]` of the map.
unfoldable pub set_entry : Bytes → Pair → List (Bytes × Pair) → List (Bytes × Pair)
set_entry k p [] = (k, p) ∷ []
set_entry k p ((j, q) ∷ m) = if bytes_eq j k then (j, p) ∷ m else (j, q) ∷ set_entry k p m

unfoldable pub entry : Bytes → List (Bytes × Pair) → Option Pair
entry k [] = none
entry k ((j, q) ∷ m) = if bytes_eq j k then some q else entry k m

-- The schemas v1 to v3.
pub data Schema : Type 0 where
  v1 v2 v3 : Schema

abbrev pub is_v3 : Schema → Bool
is_v3 v3 = true
is_v3 _ = false

abbrev pub is_v1 : Schema → Bool
is_v1 v1 = true
is_v1 _ = false

unfoldable pub schema_of : Bytes → Option Schema
schema_of s =
    if is_text s "curator-run-defaults-v1"
    then some v1
    else if is_text s "curator-run-defaults-v2"
    then some v2
    else if is_text s "curator-run-defaults-v3"
    then some v3
    else none

-- The errors of `parse`; `host_withdrawn` is the family of its own.
pub data ParseFault : Type 0 where
  root_not_object schema_not_string bad_schema locked_not_boolean defaults_not_object : ParseFault
  host_withdrawn : ParseFault
  unknown_environment empty_entry : Bytes → ParseFault
  member_not_string unknown_pair_member : Bytes → Bytes → ParseFault
  permissions_need_v2 bad_permissions host_needs_v3 bad_host : Bytes → ParseFault
  unknown_member : Bytes → ParseFault
  missing : String → ParseFault

-- A member named `host`.
unfoldable pub names_host : Members → Bool
names_host nil = false
names_host (member k v ms) = is_text k "host" || names_host ms

abbrev pub is_mode : Bytes → Bool
is_mode v = is_text v "native" || is_text v "yolo"

abbrev pub is_host : Bytes → Bool
is_host v = is_text v "native" || is_text v "hosted"

-- One string member of an entry.
unfoldable pub pair_member : Schema → Bytes → Bytes → Bytes → Pair → Tried ParseFault Pair
pair_member schema env k v p =
    if is_text k "model"
    then granted (record p { model = some v })
    else if is_text k "effort"
    then granted (record p { effort = some v })
    else if is_text k "permissions"
    then if is_v1 schema
      then denied (permissions_need_v2 env)
      else if not (is_mode v)
      then denied (bad_permissions env)
      else granted (record p { permissions = some v })
    else if is_text k "host"
    then if not (is_v3 schema)
      then denied (host_needs_v3 env)
      else if not (is_host v)
      then denied (bad_host env)
      else granted (record p { host = some v })
    else denied (unknown_pair_member env k)

-- The members of an entry.
unfoldable pub pair_members : Schema → Bytes → Members → Pair → Tried ParseFault Pair
pair_members schema env nil p = granted p
pair_members schema env (member k (string v) ms) p =
    pair_member schema env k v p >>= pair_members schema env ms
pair_members schema env (member k v ms) p = denied (member_not_string env k)

-- The value of an entry.
abbrev pub entry_pair : Schema → Bytes → Value → Tried ParseFault Pair
entry_pair schema env (object (member k v ms)) = pair_members schema env (member k v ms) empty_pair
entry_pair schema env _ = denied (empty_entry env)

unfoldable pub environments :
    Schema → Members → List (Bytes × Pair) → Tried ParseFault (List (Bytes × Pair))
environments schema nil es = granted es
environments schema (member env v ms) es =
    deny_if (is_v3 schema && names_host (members_of v)) host_withdrawn
    >> deny_if (str_eq (home_variable env) "") (unknown_environment env)
    >> entry_pair schema env v
    >>= λ p. environments schema ms (set_entry env p es)

abbrev pub defaults_member : Schema → Value → File → Tried ParseFault File
defaults_member schema (object ms) f =
    environments schema ms f.entries >>= λ es. granted (record f { entries = es })
defaults_member schema _ f = denied defaults_not_object

abbrev pub locked_member : Value → File → Tried ParseFault File
locked_member (boolean b) f = granted (record f { locked = b })
locked_member _ f = denied locked_not_boolean

abbrev pub schema_member : Bytes → Value → File → Tried ParseFault File
schema_member s (string t) f = if bytes_eq t s then granted f else denied bad_schema
schema_member s _ f = denied bad_schema

-- One member of the root; `s` is the schema's text.
unfoldable pub root_member : Schema → Bytes → Bytes → Value → File → Tried ParseFault File
root_member schema s k v f =
    if is_text k "schema"
    then schema_member s v f
    else if is_text k "locked"
    then locked_member v f
    else if is_text k "defaults"
    then defaults_member schema v f
    else denied (unknown_member k)

unfoldable pub root_members : Schema → Bytes → Members → File → Tried ParseFault File
root_members schema s nil f = granted f
root_members schema s (member k v ms) f = root_member schema s k v f >>= root_members schema s ms

abbrev pub require : Option Value → String → File → Tried ParseFault File
require none k f = denied (missing k)
require (some v) k f = granted f

abbrev pub of_schema : Members → Bytes → Option Schema → Tried ParseFault File
of_schema ms s none = denied bad_schema
of_schema ms s (some schema) =
    root_members schema s ms empty_file
    >>= require (get (codes "schema") ms) "schema"
    >>= require (get (codes "defaults") ms) "defaults"

abbrev pub of_root : Members → Option Value → Tried ParseFault File
of_root ms (some (string s)) = of_schema ms s (schema_of s)
of_root ms _ = denied schema_not_string

-- `parse`, behind `ParseJSON`.
unfoldable pub parse_root : Value → Tried ParseFault File
parse_root (object ms) = of_root ms (get (codes "schema") ms)
parse_root _ = denied root_not_object

pub data Origin : Type 0 where
  flag operator machine default_origin : Origin

-- The errors of the resolutions: an unknown environment or host flag, and a flag on a locked member.
pub data ResolveFault : Type 0 where
  environment_unknown : ResolveFault
  host_flag_unknown : ResolveFault
  overrides_locked : String → ResolveFault

abbrev pub tagged : Origin → Option Bytes → Option (Bytes × Origin)
tagged o none = none
tagged o (some v) = some (v, o)

abbrev pub or_else : {A : Type 0} → Option A → Option A → Option A
or_else none b = b
or_else (some a) b = some a

abbrev pub pair_or_empty : Option Pair → Pair
pair_or_empty none = empty_pair
pair_or_empty (some p) = p

-- A row of the table of `Resolve`.
unfoldable pub resolve_row :
    Bool
    → String
    → Option Bytes
    → Option Bytes
    → Option Bytes
    → Tried ResolveFault (Option (Bytes × Origin))
resolve_row locked name f o m =
    if locked && (is_some f && is_some m)
    then denied (overrides_locked name)
    else granted (or_else (tagged flag f) (or_else (tagged operator o) (tagged machine m)))

pub record Partial : Type 0 where
  pub model : Option (Bytes × Origin)
  pub effort : Option (Bytes × Origin)
  pub permissions : Option (Bytes × Origin)

-- Whether the machine file is locked and names the environment.
unfoldable pub is_locked : Files → Bytes → Bool
is_locked f env = f.machine.locked && is_some (entry env f.machine.entries)

abbrev pub machine_pair : Files → Bytes → Pair
machine_pair f env = pair_or_empty (entry env f.machine.entries)

-- The operator's entry, which a lock hides.
unfoldable pub operator_pair : Files → Bytes → Pair
operator_pair f env =
    if is_locked f env then empty_pair else pair_or_empty (entry env f.operator.entries)

-- `Resolve`.
unfoldable pub resolve : Files → Bytes → Pair → Tried ResolveFault Partial
resolve f env flags =
    let m = machine_pair f env in
    let o = operator_pair f env in
    let locked = is_locked f env in
    if str_eq (home_variable env) ""
    then denied environment_unknown
    else (resolve_row locked "model" flags.model o.model m.model >>= λ a.
        resolve_row locked "effort" flags.effort o.effort m.effort >>= λ b.
        resolve_row locked "permissions" flags.permissions o.permissions m.permissions >>= λ c.
        granted (record { model = a; effort = b; permissions = c }))

-- `PermissionDefault`.
unfoldable pub permission_default : Files → Bytes → Tried ResolveFault (Option Bytes)
permission_default f env =
    if str_eq (home_variable env) ""
    then denied environment_unknown
    else if is_locked f env
    then granted (machine_pair f env).permissions
    else granted (
        or_else (pair_or_empty (entry env f.operator.entries)).permissions
          (machine_pair f env).permissions)

-- The switch on the literal host flag; `none` for an unknown one.
unfoldable pub host_request : String → Option (Option Bytes)
host_request s =
    if str_eq s ""
    then some none
    else if str_eq s "--hosted"
    then some (some (codes "hosted"))
    else if str_eq s "--native" || str_eq s "--untracked"
    then some (some (codes "native"))
    else none

-- The first value, or native.
abbrev pub or_native : Option (Bytes × Origin) → Bytes × Origin
or_native none = (codes "native", default_origin)
or_native (some r) = r

abbrev pub choose_host : Files → Bytes → Option Bytes → Tried ResolveFault (Bytes × Origin)
choose_host f env request =
    let m = (machine_pair f env).host in
    if is_locked f env
    then if is_some request && is_some m
      then denied (overrides_locked "host")
      else granted (or_native (or_else (tagged flag request) (tagged machine m)))
    else granted (
        or_native (
          or_else (tagged flag request) (
            or_else (tagged operator (pair_or_empty (entry env f.operator.entries)).host)
              (tagged machine m))))

abbrev pub of_request : Files → Bytes → Option (Option Bytes) → Tried ResolveFault (Bytes × Origin)
of_request f env none = denied host_flag_unknown
of_request f env (some request) = choose_host f env request

-- `ResolveHost`.
unfoldable pub resolve_host : Files → Bytes → String → Tried ResolveFault (Bytes × Origin)
resolve_host f env host_flag =
    if str_eq (home_variable env) ""
    then denied environment_unknown
    else of_request f env (host_request host_flag)
