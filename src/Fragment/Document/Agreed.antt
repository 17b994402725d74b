-- ===== src/Fragment/Document/Agreed.antt =====
-- What `Parse` promises of a fragment that it returns.
use curator_agent_launcher.Base.{
  Yields-Ends, true, false, Bytes, ◌≡◌, refl, Option, none, some, done, Yields, bytes_eq,
  bytes_eq-eq, codes, yields, Yields-bind, Yields-done, Ends-Yields, arith, is_text, Ends,
}
use curator_agent_launcher.Fragment.Value.{Value}
use curator_agent_launcher.Fragment.Reader.{parse_json}
use curator_agent_launcher.Fragment.Reader.Admissible.{IsAdmissible}
use curator_agent_launcher.Fragment.Reader.Sound.{parse_json-Ends}
use curator_agent_launcher.Fragment.Rules.{member_at}
use curator_agent_launcher.Fragment.Channels.{mcp_registry}
use curator_agent_launcher.Fragment.Channels.Total.{closed_object-Total, enum_member-Yields}
use curator_agent_launcher.Fragment.Sections.{is_v4, is_muse, home}
use curator_agent_launcher.Fragment.Policy.{CredentialStore}
use curator_agent_launcher.Fragment.Services.{SystemPrompt, Mcp}
use curator_agent_launcher.Fragment.Document.{Fragment, from_value, parse, needs_upgrade}
use curator_agent_launcher.Fragment.Sections.Coherent.{
  KnowsMuse, PermissionsAgree, HasHome, environment_of-Yields, permissions_of-Yields,
  profile_of-Total, precedence_of-Total, env_of-Yields,
}
use curator_agent_launcher.Fragment.Policy.Agreed.{StoreAgrees, PolicyAgrees, v4_policy-Yields}
use curator_agent_launcher.Fragment.Services.Registered.{
  PromptAgrees, McpAgrees, Below, system_prompt_of-Yields, mcp_of-Yields, path_prepend_of-Yields,
}

-- The sections agree with the revision and the environment.
abbrev pub IsAgreed : Fragment → Type 0
IsAgreed f =
    KnowsMuse f.revision f.environment
    × PermissionsAgree f.revision f.permissions
    × HasHome f.environment f.env
    × PolicyAgrees f.revision f.environment (f.root_context, f.credential_store)
    × PromptAgrees f.environment f.system_prompt
    × McpAgrees f.environment f.mcp
    × Below (home f.environment f.env) f.path_prepend

from_value-Yields : (root : Value) → Yields IsAgreed (from_value root)
unfolding from_value
from_value-Yields root = Yields-bind (enum_member-Yields root "fragment" _) λ rev _.
    Yields-bind (closed_object-Total root _ _) λ _ _.
      Yields-bind (environment_of-Yields rev root) λ environ muse.
        Yields-bind (permissions_of-Yields rev root) λ perms agree.
          Yields-bind (profile_of-Total (member_at root "profile")) λ prof _.
            Yields-bind (precedence_of-Total (member_at root "precedence")) λ prec _.
              Yields-bind (env_of-Yields rev environ (member_at root "env")) λ vars at_home.
                Yields-bind (v4_policy-Yields rev environ root) λ (context, store) policy.
                  Yields-bind (system_prompt_of-Yields environ root) λ prompt prompted.
                    Yields-bind (mcp_of-Yields environ root) λ servers served.
                      Yields-bind (path_prepend_of-Yields (home environ vars) root)
                        λ prepend low. yields (muse, agree, at_home, policy, prompted, served, low)

abbrev IsParsed : Fragment × Bytes × Bytes → Type 0
IsParsed (f, bytes, digest) = IsAgreed f

parse_json-Yields : (s : Bytes) → Yields (IsAdmissible 0) (parse_json s)
parse_json-Yields s = Ends-Yields (parse_json-Ends s)

parse-Yields : (sha256 : Bytes → Bytes) (s : Bytes) → Yields IsParsed (parse sha256 s)
unfolding parse
parse-Yields sha256 s =
    Yields-bind (parse_json-Yields s) λ root _. Yields-bind (from_value-Yields root) λ f h. yields h

-- Whatever the bytes are, Parse ends, and if it returns a fragment, its sections agree: permissions
-- stand in it unless it is of the first revision, and are locked exactly by the global source and
-- native unless a profile set them; its managed home is an absolute path; a credential store or a root
-- context stands in the fourth revision only, and as the environment admits, with the configuration
-- override of the selection for Codex and none for the others; the channels are those of the registry;
-- the names for servers ascend and none is reserved; and what it puts in front of the path lies below
-- the root of the environments.
pub parse-IsAgreed :
    (sha256 : Bytes → Bytes) (s : Bytes) → Ends (λ (f, bytes, digest). IsAgreed f) (parse sha256 s)
parse-IsAgreed sha256 s = Yields-Ends (parse-Yields sha256 s)

latest :
    (env revision : Bytes)
    → KnowsMuse revision env
    → is_muse env ≡ true
    → needs_upgrade env revision ≡ false
    → is_v4 revision ≡ true
unfolding needs_upgrade
latest env revision knows muse fine = ground (arith, knows muse)

muse_store :
    (env : Bytes) (o : Option CredentialStore)
    → StoreAgrees env o
    → is_muse env ≡ true
    → (c : CredentialStore) × (o ≡ some c) × (is_text c.selection "file" ≡ true)
muse_store env none h muse = cc
muse_store env (some c) (file, _, _) muse = (c, refl, file muse)

muse_prompt :
    (env : Bytes) (o : Option SystemPrompt) → PromptAgrees env o → is_muse env ≡ true → o ≡ none
muse_prompt env none h muse = refl
muse_prompt env (some s) (other, _, _) muse = cc

muse_registry : (env : Bytes) → is_muse env ≡ true → mcp_registry env ≡ none
unfolding mcp_registry bytes_eq
muse_registry env muse = rw (bytes_eq-eq env (codes "muse") muse) refl

muse_servers : (env : Bytes) (o : Option Mcp) → McpAgrees env o → is_muse env ≡ true → o ≡ none
muse_servers env none h muse = refl
muse_servers env (some m) h muse = absurd (rw (muse_registry env muse) at h)

-- A fragment for Muse that Parse returned and that needs no upgrade is of the fourth revision and keeps
-- its credentials in a file, and it has neither a system prompt nor servers.
pub parse-muse_upgraded :
    (sha256 : Bytes → Bytes) (s : Bytes) (f : Fragment) (bytes digest : Bytes)
    → parse sha256 s ≡ done (f, bytes, digest)
    → is_muse f.environment ≡ true
    → needs_upgrade f.environment f.revision ≡ false
    → (is_v4 f.revision ≡ true)
      × ((c : CredentialStore) × (f.credential_store ≡ some c)
          × (is_text c.selection "file" ≡ true))
      × (f.system_prompt ≡ none)
      × (f.mcp ≡ none)
parse-muse_upgraded sha256 s f bytes digest e muse fine =
    let (knows, _, _, (_, store, _), prompt, servers, _) : IsAgreed f =
      Yields-done {P = IsParsed} (parse-Yields sha256 s) e in
    let last : is_v4 f.revision ≡ true = latest f.environment f.revision knows muse fine in
    (
      last,
      muse_store f.environment f.credential_store (store last) muse,
      muse_prompt f.environment f.system_prompt prompt muse,
      muse_servers f.environment f.mcp servers muse,
    )
