-- ===== src/Cli/Flags.antt =====
-- internal/cli/cli.go: the vocabularies of the command line, its usage errors and its patterns.
use curator_agent_launcher.Base.{
  ℕ, ◌+◌, Bool, true, false, ◌&&◌, ◌||◌, Option, none, some, ◌==◌, leb, if◌then◌else◌, String, code,
  str_eq, within,
}

-- `SystemPrompt`, without the value for no flag.
pub data SystemPrompt : Type 0 where
  append replace : SystemPrompt

-- `PermissionMode`.
pub data Permission : Type 0 where
  native yolo : Permission

-- The three spellings of the host request.
pub data HostFlag : Type 0 where
  hosted native_host untracked : HostFlag

-- `ExplicitNative`.
abbrev pub explicit_native : Option HostFlag → Bool
explicit_native (some native_host) = true
explicit_native (some untracked) = true
explicit_native _ = false

-- What a token at flag position is, by the comparisons of `Parse` in their order.
pub data Flag : Type 0 where
  gateway_recovery removed rejected yolo_alias permissions board_goal detach : Flag
  host : HostFlag → Flag
  profile system_prompt model effort resume a2a : Flag
  network network_policy network_known_bad : Flag
  unknown : Flag

unfoldable pub flag_of : String → Flag
flag_of s =
    if str_eq s "--gateway-recovery"
    then gateway_recovery
    else if str_eq s "--name" || str_eq s "--ax-profile"
    then removed
    else if str_eq s "-d" || str_eq s "--danger"
    then rejected
    else if str_eq s "--yolo"
    then yolo_alias
    else if str_eq s "--permissions"
    then permissions
    else if str_eq s "--board-goal"
    then board_goal
    else if str_eq s "--detach"
    then detach
    else if str_eq s "--hosted"
    then host hosted
    else if str_eq s "--native"
    then host native_host
    else if str_eq s "--untracked"
    then host untracked
    else if str_eq s "--profile"
    then profile
    else if str_eq s "--system-prompt"
    then system_prompt
    else if str_eq s "--model"
    then model
    else if str_eq s "--effort"
    then effort
    else if str_eq s "--resume"
    then resume
    else if str_eq s "--a2a"
    then a2a
    else if str_eq s "--network"
    then network
    else if str_eq s "--network-policy"
    then network_policy
    else if str_eq s "--network-known-bad"
    then network_known_bad
    else unknown

-- The usage errors, one for each message.
pub data Usage : Type 0 where
  gateway_with_flags session_manager_with_flags werkstatt_with_flags migrate_with_flags : Usage
  empty_operand : Usage
  deprecated_alias stray_operand removed_flag rejected_flag unknown_flag : String → Usage
  bad_gateway_recovery yolo_with_value permission_repeated : Usage
  switch_misused host_with_value : String → Usage
  host_repeated : Usage
  flag_repeated missing_value bad_permissions bad_system_prompt : String → Usage
  bad_value : String → String → Usage
  bad_a2a bad_network_policy : Usage
  missing_env gateway_needs_native a2a_needs_hosted : Usage
  bad_migrate bad_gateway : Usage

-- `NormalizeEnvID`.
unfoldable pub normalize_env_id : String → String
normalize_env_id s =
    if str_eq s "claude" then "claude_code" else if str_eq s "codex" then "codex_cli" else s

-- The characters of `^[a-z0-9._=-]{1,64}$`.
abbrev pub is_identity_char : ℕ → Bool
is_identity_char c =
    within b'a' b'z' c || within b'0' b'9' c || c == b'.' || c == b'_' || c == b'=' || c == b'-'

unfoldable pub all_chars : (ℕ → Bool) → String → Bool
all_chars p String.[] = true
all_chars p (String.◌∷◌ c s) = p (code c) && all_chars p s

unfoldable pub count_chars : String → ℕ
count_chars String.[] = 0
count_chars (String.◌∷◌ c s) = count_chars s + 1

-- `a2aIdentityPattern`.
abbrev pub is_a2a_identity : String → Bool
is_a2a_identity s = all_chars is_identity_char s && leb 1 (count_chars s) && leb (count_chars s) 64

-- `binaryDigestPattern`, `^[0-9a-f]{64}$`.
abbrev pub is_binary_digest : String → Bool
is_binary_digest s =
    all_chars (λ c. within b'0' b'9' c || within b'a' b'f' c) s && count_chars s == 64

-- `strings.CutPrefix(s, p)`.
unfoldable pub cut_prefix : String → String → Option String
cut_prefix s String.[] = some s
cut_prefix String.[] (String.◌∷◌ d p) = none
cut_prefix (String.◌∷◌ c s) (String.◌∷◌ d p) = if code c == code d then cut_prefix s p else none

abbrev pub is_hosted : Option HostFlag → Bool
is_hosted (some hosted) = true
is_hosted _ = false
