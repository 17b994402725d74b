-- ===== src/Fragment/Policy.antt =====
-- internal/fragment/v4.go, `v4Policy`: the root context and the credential store.
pub mod Agreed
use curator_agent_launcher.Base.{
  ℕ, Bool, true, false, ◌&&◌, ◌||◌, not, List, [], ◌∷◌, ◌++◌, if◌then◌else◌, String, Bytes, Option,
  none, some, is_text, bytes_eq, codes, str_eq, Scan, done, refused, out_of_fuel, ◌>>=◌, ◌==◌,
}
use curator_agent_launcher.MemberWire.Number.{is_empty}
use curator_agent_launcher.Fragment.Value.{
  Value, Elements, boolean, string, array, no_more, element, get, members_of, home_variable,
}
use curator_agent_launcher.Fragment.Reader.{parse_json}
use curator_agent_launcher.Fragment.Canonical.{bytes_le, canonical}
use curator_agent_launcher.Fragment.Rules.{
  check, member_at, has_member, text_of, closed_object, string_member, enum_member, is_identifier,
  is_lock_hash, is_absolute_path, is_reserved_name, has_bytes_prefix,
}
use curator_agent_launcher.Fragment.Channels.{
  Channel, channels, same_channels, prompt_registry, mcp_registry,
}
use curator_agent_launcher.Fragment.Sections.{
  Profile, Permissions, Precedence, is_v1, is_v3, is_v4, is_muse, revisions, root_required,
  root_optional, environment_of, bool_of, is_coherent, permissions_at, permissions_of, profile_of,
  precedence_of, variables, is_env_value, env_entries, env_at, trim_suffix, home, shares_home,
  env_of,
}

-- `CredentialStore`; the overrides are empty or of one key.
pub record CredentialStore : Type 0 where
  pub selection : Bytes
  pub config_overrides : List (String × Bytes)

-- `v4Policy` on "root_context".
unfoldable pub root_context_of : Bytes → Value → Scan Bool
root_context_of environment root = if not (has_member root "root_context") then done false else do
  _ ← check (is_muse environment)
  let v = member_at root "root_context"
  _ ← closed_object v ("exclusive" ∷ []) []
  exclusive ← bool_of (member_at v "exclusive")
  if exclusive then done true else refused

-- `expected`, which is empty where overrides are forbidden.
abbrev pub expected_override : Bytes → Bytes → Bytes
expected_override environment selection =
    if not (is_text environment "codex_cli")
    then []
    else if is_text selection "file"
    then codes "file"
    else if is_text selection "keychain"
    then codes "keyring"
    else []

-- The `switch` on the environment.
abbrev pub admits_selection : Bytes → Bytes → Bool
admits_selection environment selection =
    if is_muse environment
    then is_text selection "file"
    else is_text environment "codex_cli" || is_text selection "native"

unfoldable pub overrides_of : Bytes → Value → Scan (List (String × Bytes))
overrides_of expected v =
    if is_empty expected then if has_member v "config_overrides" then refused else done [] else do
      _ ← check (has_member v "config_overrides")
      let o = member_at v "config_overrides"
      _ ← closed_object o ("cli_auth_credentials_store" ∷ []) []
      actual ← string_member o "cli_auth_credentials_store"
      if bytes_eq actual expected
          then done (("cli_auth_credentials_store", expected) ∷ [])
          else refused

unfoldable pub credential_store_at : Bytes → Value → Scan CredentialStore
credential_store_at environment v = do
  _ ← closed_object v ("selection" ∷ []) ("config_overrides" ∷ [])
  s ← enum_member v "selection" ("native" ∷ "file" ∷ "keychain" ∷ [])
  _ ← check (admits_selection environment s)
  o ← overrides_of (expected_override environment s) v
  done record { selection = s; config_overrides = o }

-- `v4Policy` on "credential_store".
unfoldable pub credential_store_of : Bytes → Value → Scan (Option CredentialStore)
credential_store_of environment root =
    if not (has_member root "credential_store")
    then if is_muse environment then refused else done none
    else do c ← credential_store_at environment (member_at root "credential_store"); done (some c)

-- `v4Policy`, which older revisions never enter.
unfoldable pub v4_policy : Bytes → Bytes → Value → Scan (Bool × Option CredentialStore)
v4_policy revision environment root = if not (is_v4 revision) then done (false, none) else do
  r ← root_context_of environment root
  c ← credential_store_of environment root
  done (r, c)
