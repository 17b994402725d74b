-- ===== src/Fragment/Document.antt =====
-- internal/fragment/fragment.go, `fromValue` and `Parse`; launch.go. SHA-256 is a parameter of
-- `parse`.
pub mod Agreed
use curator_agent_launcher.Base.{
  ℕ, Bool, true, false, ◌&&◌, ◌||◌, not, List, [], ◌∷◌, ◌++◌, if◌then◌else◌, String, Bytes, Option,
  none, some, is_text, bytes_eq, codes, str_eq, Scan, done, refused, out_of_fuel, ◌>>=◌, ◌==◌,
}
use curator_agent_launcher.MemberWire.Number.{is_empty}
use curator_agent_launcher.Fragment.Value.{
  Value, Elements, boolean, string, array, no_more, element, get, members_of, home_variable,
}
use curator_agent_launcher.Fragment.Reader.{parse_json}
use curator_agent_launcher.Fragment.Canonical.{bytes_le, canonical}
use curator_agent_launcher.Fragment.Rules.{
  check, member_at, has_member, text_of, closed_object, string_member, enum_member, is_identifier,
  is_lock_hash, is_absolute_path, is_reserved_name, has_bytes_prefix,
}
use curator_agent_launcher.Fragment.Channels.{
  Channel, channels, same_channels, prompt_registry, mcp_registry,
}
use curator_agent_launcher.Fragment.Sections.{
  Profile, Permissions, Precedence, is_v1, is_v3, is_v4, is_muse, revisions, root_required,
  root_optional, environment_of, bool_of, is_coherent, permissions_at, permissions_of, profile_of,
  precedence_of, variables, is_env_value, env_entries, env_at, trim_suffix, home, shares_home,
  env_of,
}
use curator_agent_launcher.Fragment.Policy.{
  CredentialStore, root_context_of, expected_override, admits_selection, overrides_of,
  credential_store_at, credential_store_of, v4_policy,
}
use curator_agent_launcher.Fragment.Services.{
  SystemPrompt, Mcp, system_prompt_at, system_prompt_of, is_after, env_name_list, env_names_of,
  mcp_at, mcp_registered, mcp_of, trim_slashes, or_here, before_slash, deep_enough,
  environments_root, path_prepend_of,
}

-- `Fragment` without its canonical bytes and their digest. An absent section is `none`, and an absent
-- `path_prepend` empty.
pub record Fragment : Type 0 where
  pub revision : Bytes
  pub environment : Bytes
  pub profile : Profile
  pub precedence : Precedence
  pub permissions : Option Permissions
  pub root_context : Bool
  pub credential_store : Option CredentialStore
  pub env : List (String × Bytes)
  pub system_prompt : Option SystemPrompt
  pub mcp : Option Mcp
  pub path_prepend : Bytes

-- `fromValue`.
unfoldable pub from_value : Value → Scan Fragment
from_value root = do
  rev ← enum_member root "fragment" revisions
  _ ← closed_object root (root_required rev) (root_optional rev)
  environ ← environment_of rev root
  perms ← permissions_of rev root
  prof ← profile_of (member_at root "profile")
  prec ← precedence_of (member_at root "precedence")
  vars ← env_of rev environ (member_at root "env")
  (context, store) ← v4_policy rev environ root
  prompt ← system_prompt_of environ root
  servers ← mcp_of environ root
  prepend ← path_prepend_of (home environ vars) root
  done record {
    revision = rev;
    environment = environ;
    profile = prof;
    precedence = prec;
    permissions = perms;
    root_context = context;
    credential_store = store;
    env = vars;
    system_prompt = prompt;
    mcp = servers;
    path_prepend = prepend;
  }

-- `Parse`: the fragment, its canonical bytes and their digest. `sha256` gives the hash in
-- hexadecimal.
unfoldable pub parse : (Bytes → Bytes) → Bytes → Scan (Fragment × Bytes × Bytes)
parse sha256 s = do
  root ← parse_json s
  f ← from_value root
  done (f, canonical root, codes "sha256:" ++ sha256 (canonical root))

-- `CheckLaunchRevision`: is the fragment refused?
unfoldable pub needs_upgrade : Bytes → Bytes → Bool
needs_upgrade environment revision =
    is_muse environment
    && (is_v1 revision || is_text revision "launch-env-fragment-v2" || is_v3 revision)

abbrev pub upgrade_of : Bytes → Value → Value → Bool
upgrade_of requested (string e) (string r) = bytes_eq e requested && needs_upgrade e r
upgrade_of requested env rev = false

abbrev pub upgrade_in : Bytes → Scan Value → Bool
upgrade_in requested (done root) =
    upgrade_of requested (member_at root "environment") (member_at root "fragment")
upgrade_in requested refused = false
upgrade_in requested out_of_fuel = false

-- `legacyMuseUpgrade`.
unfoldable pub legacy_muse_upgrade : Bytes → Bytes → Bool
legacy_muse_upgrade raw requested = upgrade_in requested (parse_json raw)
