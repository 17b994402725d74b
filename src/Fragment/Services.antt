-- ===== src/Fragment/Services.antt =====
-- internal/fragment/fragment.go, `fromValue`: the system prompt, the servers and the path to put in
-- front.
pub mod Registered
use curator_agent_launcher.Base.{
  ℕ, Bool, true, false, ◌&&◌, ◌||◌, not, List, [], ◌∷◌, ◌++◌, if◌then◌else◌, String, Bytes, Option,
  none, some, is_text, bytes_eq, codes, str_eq, Scan, done, refused, out_of_fuel, ◌>>=◌, ◌==◌,
}
use curator_agent_launcher.MemberWire.Number.{is_empty}
use curator_agent_launcher.Fragment.Value.{
  Value, Elements, boolean, string, array, no_more, element, get, members_of, home_variable,
}
use curator_agent_launcher.Fragment.Reader.{parse_json}
use curator_agent_launcher.Fragment.Canonical.{bytes_le, canonical}
use curator_agent_launcher.Fragment.Rules.{
  check, member_at, has_member, text_of, closed_object, string_member, enum_member, is_identifier,
  is_lock_hash, is_absolute_path, is_reserved_name, has_bytes_prefix,
}
use curator_agent_launcher.Fragment.Channels.{
  Channel, channels, same_channels, prompt_registry, mcp_registry,
}
use curator_agent_launcher.Fragment.Sections.{
  Profile, Permissions, Precedence, is_v1, is_v3, is_v4, is_muse, revisions, root_required,
  root_optional, environment_of, bool_of, is_coherent, permissions_at, permissions_of, profile_of,
  precedence_of, variables, is_env_value, env_entries, env_at, trim_suffix, home, shares_home,
  env_of,
}

pub record SystemPrompt : Type 0 where
  pub path : Bytes
  pub channels : List Channel

pub record Mcp : Type 0 where
  pub path : Bytes
  pub env_names : List Bytes
  pub channels : List Channel

unfoldable pub system_prompt_at : Bytes → Value → Scan SystemPrompt
system_prompt_at environment v = do
  _ ← closed_object v ("path" ∷ "channels" ∷ []) []
  p ← string_member v "path"
  _ ← check (is_absolute_path p)
  cs ← channels true (member_at v "channels")
  if same_channels cs (prompt_registry environment)
      then done record { path = p; channels = cs }
      else refused

unfoldable pub system_prompt_of : Bytes → Value → Scan (Option SystemPrompt)
system_prompt_of environment root =
    if not (has_member root "system_prompt")
    then done none
    else if is_muse environment
    then refused
    else do s ← system_prompt_at environment (member_at root "system_prompt"); done (some s)

-- The name in front is smaller.
abbrev pub is_after : Option Bytes → Bytes → Bool
is_after none n = true
is_after (some m) n = not (bytes_le n m)

-- The loop over "env_names", with the name in front.
unfoldable pub env_name_list : Option Bytes → Elements → Scan (List Bytes)
env_name_list last no_more = done []
env_name_list last (element v es) = do
  n ← text_of v
  _ ← check (is_identifier n && not (is_reserved_name n) && is_after last n)
  rest ← env_name_list (some n) es
  done (n ∷ rest)

abbrev pub env_names_of : Value → Scan (List Bytes)
env_names_of (array es) = env_name_list none es
env_names_of _ = refused

unfoldable pub mcp_at : Channel → Value → Scan Mcp
mcp_at registered v = do
  _ ← closed_object v ("path" ∷ "env_names" ∷ "channels" ∷ []) []
  p ← string_member v "path"
  _ ← check (is_absolute_path p)
  ns ← env_names_of (member_at v "env_names")
  cs ← channels false (member_at v "channels")
  if same_channels cs (registered ∷ [])
      then done record { path = p; env_names = ns; channels = cs }
      else refused

abbrev pub mcp_registered : Option Channel → Value → Scan (Option Mcp)
mcp_registered none v = refused
mcp_registered (some c) v = do m ← mcp_at c v; done (some m)

unfoldable pub mcp_of : Bytes → Value → Scan (Option Mcp)
mcp_of environment root =
    if has_member root "mcp"
    then mcp_registered (mcp_registry environment) (member_at root "mcp")
    else done none

-- `strings.TrimRight(home, "/")`.
unfoldable pub trim_slashes : Bytes → Bytes
trim_slashes [] = []
trim_slashes (c ∷ s) =
    let rest = trim_slashes s in if is_empty rest && c == b'/' then [] else c ∷ rest

abbrev pub or_here : ℕ → Option Bytes → Option Bytes
or_here c none = if c == b'/' then some [] else none
or_here c (some s) = some (c ∷ s)

-- What stands in front of the last slash.
unfoldable pub before_slash : Bytes → Option Bytes
before_slash [] = none
before_slash (c ∷ s) = or_here c (before_slash s)

-- Nothing for `none`, and for a slash at the front.
abbrev pub deep_enough : Option Bytes → Bytes
deep_enough none = []
deep_enough (some s) = s

-- `environmentsRoot`.
unfoldable pub environments_root : Bytes → Bytes
environments_root home = deep_enough (before_slash (deep_enough (before_slash (trim_slashes home))))

unfoldable pub path_prepend_of : Bytes → Value → Scan Bytes
path_prepend_of home root = if not (has_member root "path_prepend") then done [] else do
  p ← text_of (member_at root "path_prepend")
  _ ← check (is_absolute_path p)
  let dir = environments_root home
  if is_empty dir || not (has_bytes_prefix p (dir ++ b'/' ∷ [])) then refused else done p
