-- ===== src/NativeArgs.antt =====
-- internal/network/native_args.go: which native arguments a filtering gateway admits. The option
-- parser of the tool is mirrored from its shapes; a refusal names the position of an argument.
pub mod Admitted
use curator_agent_launcher.Base.{
  ℕ, ◌+◌, Bool, true, false, not, ◌&&◌, ◌||◌, Option, none, some, List, [], ◌∷◌, ◌==◌,
  if◌then◌else◌, String, code, str_eq, member_of, has_prefix, cut_eq,
}

-- `argShape`.
pub data Shape : Type 0 where
  switch_arg required_arg optional_arg variadic_arg : Shape

-- `gatewayNativeOptions`.
abbrev pub native_options : List (String × Shape)
native_options =
    ("--print", switch_arg)
    ∷ ("--verbose", switch_arg)
    ∷ ("--debug", optional_arg)
    ∷ ("--debug-file", required_arg)
    ∷ ("--output-format", required_arg)
    ∷ ("--input-format", required_arg)
    ∷ ("--json-schema", required_arg)
    ∷ ("--include-hook-events", switch_arg)
    ∷ ("--include-partial-messages", switch_arg)
    ∷ ("--replay-user-messages", switch_arg)
    ∷ ("--dangerously-skip-permissions", switch_arg)
    ∷ ("--allow-dangerously-skip-permissions", switch_arg)
    ∷ ("--permission-mode", required_arg)
    ∷ ("--permission-prompt-tool", required_arg)
    ∷ ("--thinking", required_arg)
    ∷ ("--thinking-display", required_arg)
    ∷ ("--max-thinking-tokens", required_arg)
    ∷ ("--max-turns", required_arg)
    ∷ ("--max-budget-usd", required_arg)
    ∷ ("--allowedTools", variadic_arg)
    ∷ ("--allowed-tools", variadic_arg)
    ∷ ("--disallowedTools", variadic_arg)
    ∷ ("--disallowed-tools", variadic_arg)
    ∷ ("--tools", variadic_arg)
    ∷ ("--mcp-config", variadic_arg)
    ∷ ("--strict-mcp-config", switch_arg)
    ∷ ("--system-prompt", required_arg)
    ∷ ("--system-prompt-file", required_arg)
    ∷ ("--append-system-prompt", required_arg)
    ∷ ("--append-system-prompt-file", required_arg)
    ∷ ("--exclude-dynamic-system-prompt-sections", switch_arg)
    ∷ ("--model", required_arg)
    ∷ ("--fallback-model", required_arg)
    ∷ ("--effort", required_arg)
    ∷ ("--agent", required_arg)
    ∷ ("--betas", variadic_arg)
    ∷ ("--session-id", required_arg)
    ∷ ("--name", required_arg)
    ∷ ("--no-session-persistence", switch_arg)
    ∷ ("--disable-slash-commands", switch_arg)
    ∷ []

-- `gatewayNativeShortOptions`.
abbrev pub native_short_options : List (String × Shape)
native_short_options = ("-p", switch_arg) ∷ ("-d", optional_arg) ∷ ("-n", required_arg) ∷ []

-- `claudeReservedArgs`, as `init` fills it.
abbrev pub reserved_args : List String
reserved_args =
    "help" ∷ "attach" ∷ "logs" ∷ "stop" ∷ "kill" ∷ "respawn" ∷ "rm" ∷ "edit-permission-rules"
    ∷ "edit-memory-settings" ∷ "edit-skill-overrides" ∷ "edit-sandbox-settings" ∷ "design-login"
    ∷ "edit-chrome-settings" ∷ "drop-worktree-registrations" ∷ "edit-hook" ∷ "project" ∷ "purge"
    ∷ "gateway" ∷ "auth" ∷ "login" ∷ "status" ∷ "logout" ∷ "setup-token" ∷ "agents" ∷ "ultrareview"
    ∷ "auto-mode" ∷ "defaults" ∷ "config" ∷ "reset" ∷ "critique" ∷ "remote-control" ∷ "rc"
    ∷ "doctor" ∷ "sandbox" ∷ "install" ∷ "uninstall" ∷ "update" ∷ "upgrade" ∷ "import"
    ∷ "import-conversations" ∷ "plugin" ∷ "plugins" ∷ "init" ∷ "validate" ∷ "tag" ∷ "list" ∷ "eval"
    ∷ "test" ∷ "details" ∷ "marketplace" ∷ "add" ∷ "remove" ∷ "prune" ∷ "enable" ∷ "disable"
    ∷ "configure" ∷ "xaa" ∷ "setup" ∷ "show" ∷ "clear" ∷ "mcp" ∷ "serve" ∷ "get" ∷ "add-json"
    ∷ "add-from-claude-desktop" ∷ "reset-project-choices" ∷ "i" ∷ "autoremove" ∷ "remote" ∷ "sync"
    ∷ "bridge" ∷ "daemon" ∷ "self-hosted-runner" ∷ "forward-home-settings" ∷ "--handle-uri"
    ∷ "--session-tunnel" ∷ "--runner-declares" ∷ "--eval-mock-server" ∷ "--claude-in-chrome-mcp"
    ∷ "--chrome-native-host" ∷ "--computer-use-mcp" ∷ "--daemon-worker" ∷ "--bg-pty-host"
    ∷ "--bg-spare" ∷ "--preload" ∷ "--update" ∷ "--upgrade" ∷ "--bg" ∷ "--background" ∷ "--tmux"
    ∷ "--worktree" ∷ "-w" ∷ "--agent-teams" ∷ "--hard-fail" ∷ "-c" ∷ "--continue" ∷ "-r"
    ∷ "--resume" ∷ "--from-pr" ∷ "--gh-standin" ∷ "--version" ∷ "-v" ∷ "-V" ∷ []

-- `claudeReservedBeforeTerminator`.
abbrev pub reserved_before_terminator : List String
reserved_before_terminator = "--safe-mode" ∷ "--bare" ∷ []

-- `claudeReservedPrefixes`.
abbrev pub reserved_prefixes : List String
reserved_prefixes =
    "--handle-uri=" ∷ "--worktree=" ∷ "--tmux=" ∷ "--runner-declares=" ∷ "--session-tunnel="
    ∷ "--resume=" ∷ "-r=" ∷ "--from-pr=" ∷ []

unfoldable pub any_prefix : List String → String → Bool
any_prefix [] arg = false
any_prefix (p ∷ ps) arg = has_prefix arg p || any_prefix ps arg

unfoldable pub reserved_arg : String → Bool
reserved_arg arg = member_of reserved_args arg || any_prefix reserved_prefixes arg

-- `len(arg) > 1 && arg[0] == '-'`.
unfoldable pub looks_like_option : String → Bool
looks_like_option String.[] = false
looks_like_option (String.◌∷◌ c String.[]) = false
looks_like_option (String.◌∷◌ c (String.◌∷◌ d s)) = code c == b'-'

unfoldable pub shape_of : List (String × Shape) → String → Option Shape
shape_of [] flag = none
shape_of ((name, shape) ∷ rest) flag = if str_eq name flag then some shape else shape_of rest flag

-- Why an argument is refused.
pub data Detail : Type 0 where
  dispatched_word not_admitted switch_value no_value : Detail

-- `nil`, or the refusal of the argument at an index.
pub data Verdict : Type 0 where
  admitted : Verdict
  refused_at : ℕ → Detail → Verdict

-- The first loop; `terminated` says that a `--` was met.
unfoldable pub scan_words : ℕ → Bool → List String → Verdict
scan_words i terminated [] = admitted
scan_words i terminated (arg ∷ args) =
    let stop = str_eq arg "--" && not terminated in
    let rest = scan_words (i + 1) (terminated || stop) args in
    if stop
    then rest
    else if reserved_arg arg || (not terminated && member_of reserved_before_terminator arg)
    then refused_at i dispatched_word
    else rest

-- The option that an argument names, with its shape and whether it carries its value.
unfoldable pub option_shape : String → Option Shape × Bool
option_shape arg =
    let (flag, _, inline) = cut_eq arg in
    if has_prefix arg "--"
    then (shape_of native_options flag, inline)
    else (shape_of native_short_options arg, false)

-- What the second loop does with an option: refuse it, go on behind it, or behind its value.
pub data Move : Type 0 where
  refuse : Detail → Move
  behind : Move
  behind_value : Move

unfoldable pub move : Option Shape × Bool → Move
move (none, inline) = refuse not_admitted
move (some switch_arg, inline) = if inline then refuse switch_value else behind
move (some required_arg, inline) = if inline then behind else behind_value
move (some variadic_arg, inline) = if inline then behind else behind_value
move (some optional_arg, inline) = behind

-- The second loop, on the arguments from index `i` on.
unfoldable pub scan_options : ℕ → List String → Verdict
scan_options i [] = admitted
scan_options i (arg ∷ []) =
    if str_eq arg "--" || not (looks_like_option arg)
    then admitted
    else elim (move (option_shape arg)) [
      | refuse d ↦ refused_at i d
      | behind ↦ admitted
      | behind_value ↦ refused_at i no_value
    ]
scan_options i (arg ∷ value ∷ args) =
    let next = scan_options (i + 1) (value ∷ args) in
    let skip = scan_options (i + 2) args in
    if str_eq arg "--"
    then admitted
    else if not (looks_like_option arg)
    then next
    else elim (move (option_shape arg)) [
      | refuse d ↦ refused_at i d
      | behind ↦ next
      | behind_value ↦ skip
    ]

abbrev pub then_scan : Verdict → Verdict → Verdict
then_scan admitted v = v
then_scan (refused_at i d) v = refused_at i d

unfoldable pub native_args_conflict : List String → Verdict
native_args_conflict args = then_scan (scan_words 0 false args) (scan_options 0 args)
