-- ===== src/Fragment/Sections.antt =====
-- internal/fragment/fragment.go, `fromValue`: the sections that every fragment has. Each is a
-- function; Fragment/Document runs them in the order of the code.
pub mod Coherent
use curator_agent_launcher.Base.{
  ℕ, Bool, true, false, ◌&&◌, ◌||◌, not, List, [], ◌∷◌, ◌++◌, if◌then◌else◌, String, Bytes, Option,
  none, some, is_text, bytes_eq, codes, str_eq, Scan, done, refused, out_of_fuel, ◌>>=◌, ◌==◌,
}
use curator_agent_launcher.MemberWire.Number.{is_empty}
use curator_agent_launcher.Fragment.Value.{
  Value, Elements, boolean, string, array, no_more, element, get, members_of, home_variable,
}
use curator_agent_launcher.Fragment.Reader.{parse_json}
use curator_agent_launcher.Fragment.Canonical.{bytes_le, canonical}
use curator_agent_launcher.Fragment.Rules.{
  check, member_at, has_member, text_of, closed_object, string_member, enum_member, is_identifier,
  is_lock_hash, is_absolute_path, is_reserved_name, has_bytes_prefix,
}
use curator_agent_launcher.Fragment.Channels.{
  Channel, channels, same_channels, prompt_registry, mcp_registry,
}

pub record Profile : Type 0 where
  pub name : Bytes
  pub lock_sha256 : Bytes

pub record Permissions : Type 0 where
  pub mode : Bytes
  pub locked : Bool
  pub source : Bytes

pub record Precedence : Type 0 where
  pub winner : Bytes
  pub placement : Bytes

abbrev pub is_v1 : Bytes → Bool
is_v1 revision = is_text revision "launch-env-fragment-v1"

abbrev pub is_v3 : Bytes → Bool
is_v3 revision = is_text revision "launch-env-fragment-v3"

abbrev pub is_v4 : Bytes → Bool
is_v4 revision = is_text revision "launch-env-fragment-v4"

abbrev pub is_muse : Bytes → Bool
is_muse env = is_text env "muse"

abbrev pub revisions : List String
revisions =
    "launch-env-fragment-v1" ∷ "launch-env-fragment-v2" ∷ "launch-env-fragment-v3"
    ∷ "launch-env-fragment-v4" ∷ []

abbrev pub root_required : Bytes → List String
root_required revision =
    "fragment"
    ∷ "environment"
    ∷ "profile"
    ∷ "precedence"
    ∷ "env"
    ∷ (if is_v1 revision then [] else "permissions" ∷ [])

abbrev pub root_optional : Bytes → List String
root_optional revision =
    "system_prompt"
    ∷ "mcp"
    ∷ "path_prepend"
    ∷ (if is_v4 revision then "root_context" ∷ "credential_store" ∷ [] else [])

-- `environment`; Muse came with the third revision.
unfoldable pub environment_of : Bytes → Value → Scan Bytes
environment_of revision root = do
  env ←
      enum_member root "environment" ("claude_code" ∷ "codex_cli" ∷ "opencode" ∷ "pi" ∷ "muse" ∷ [])
  if is_muse env && not (is_v3 revision) && not (is_v4 revision) then refused else done env

abbrev pub bool_of : Value → Scan Bool
bool_of (boolean b) = done b
bool_of _ = refused

-- The two rules that tie the members of `permissions`.
abbrev pub is_coherent : Permissions → Bool
is_coherent p =
    (if p.locked then is_text p.source "global" else not (is_text p.source "global"))
    && (is_text p.source "profile" || is_text p.mode "native")

unfoldable pub permissions_at : Value → Scan Permissions
permissions_at v = do
  _ ← closed_object v ("mode" ∷ "locked" ∷ "source" ∷ []) []
  m ← enum_member v "mode" ("native" ∷ "yolo" ∷ [])
  l ← bool_of (member_at v "locked")
  s ← enum_member v "source" ("profile" ∷ "global" ∷ "default" ∷ [])
  let p : Permissions = record { mode = m; locked = l; source = s }
  if is_coherent p then done p else refused

unfoldable pub permissions_of : Bytes → Value → Scan (Option Permissions)
permissions_of revision root =
    if is_v1 revision
    then done none
    else do p ← permissions_at (member_at root "permissions"); done (some p)

unfoldable pub profile_of : Value → Scan Profile
profile_of v = do
  _ ← closed_object v ("name" ∷ "lock_sha256" ∷ []) []
  n ← string_member v "name"
  _ ← check (is_identifier n)
  h ← string_member v "lock_sha256"
  if is_lock_hash h then done record { name = n; lock_sha256 = h } else refused

unfoldable pub precedence_of : Value → Scan Precedence
precedence_of v = do
  _ ← closed_object v ("winner" ∷ "placement" ∷ []) []
  w ← enum_member v "winner" ("higher-weight" ∷ "lower-weight" ∷ [])
  p ← enum_member v "placement" ("winner-last" ∷ "winner-first" ∷ [])
  done record { winner = w; placement = p }

-- `variables`.
abbrev pub variables : Bytes → Bytes → List String
variables revision env =
    if is_muse env
    then "XDG_CONFIG_HOME"
      ∷ "XDG_DATA_HOME"
      ∷ "XDG_STATE_HOME"
      ∷ "XDG_CACHE_HOME"
      ∷ (if is_v4 revision then "TBH_CREDENTIAL_BACKEND" ∷ [] else [])
    else home_variable env ∷ []

-- The check on a variable: the backend is a constant, the others are paths.
abbrev pub is_env_value : String → Bytes → Bool
is_env_value name value =
    if str_eq name "TBH_CREDENTIAL_BACKEND" then is_text value "file" else is_absolute_path value

-- The loop over `variables`, into the map `f.Env`.
unfoldable pub env_entries : Value → List String → Scan (List (String × Bytes))
env_entries v [] = done []
env_entries v (name ∷ names) = do
  value ← string_member v name
  _ ← check (is_env_value name value)
  rest ← env_entries v names
  done ((name, value) ∷ rest)

-- `f.Env[name]`.
unfoldable pub env_at : String → List (String × Bytes) → Bytes
env_at name [] = []
env_at name ((n, value) ∷ es) = if str_eq n name then value else env_at name es

-- `strings.TrimSuffix`, for a suffix that is not empty.
unfoldable pub trim_suffix : Bytes → Bytes → Bytes
trim_suffix suffix [] = []
trim_suffix suffix (c ∷ s) =
    let rest = trim_suffix suffix s in if bytes_eq (c ∷ s) suffix then [] else c ∷ rest

-- `Home`.
unfoldable pub home : Bytes → List (String × Bytes) → Bytes
home environment env =
    if is_muse environment
    then trim_suffix (codes "/config") (env_at "XDG_CONFIG_HOME" env)
    else env_at (home_variable environment) env

-- The rule that ties the variables of Muse: they share one parent.
unfoldable pub shares_home : Bytes → List (String × Bytes) → Bool
shares_home parent env =
    bytes_eq (env_at "XDG_CONFIG_HOME" env) (parent ++ codes "/config")
    && bytes_eq (env_at "XDG_DATA_HOME" env) (parent ++ codes "/data")
    && bytes_eq (env_at "XDG_STATE_HOME" env) (parent ++ codes "/state")
    && bytes_eq (env_at "XDG_CACHE_HOME" env) (parent ++ codes "/cache")

unfoldable pub env_of : Bytes → Bytes → Value → Scan (List (String × Bytes))
env_of revision environment v = do
  _ ← closed_object v (variables revision environment) []
  env ← env_entries v (variables revision environment)
  let parent = home environment env
  if is_muse environment && not (shares_home parent env && is_absolute_path parent)
      then refused
      else done env
