-- ===== src/Fragment/Value.antt =====
-- internal/fragment/json.go: the values that `ParseJSON` returns, and `Get`. fragment.go:
-- `HomeVariable`.
use curator_agent_launcher.Base.{
  is_text, ℕ, Bool, Option, none, some, if◌then◌else◌, String, Bytes, bytes_eq,
}

-- `Value`, a constructor for each `Kind`; an integer is its sign and its magnitude.
mutual
  pub data Value : Type 0 where
    null : Value
    boolean : Bool → Value
    int : Bool → ℕ → Value
    string : Bytes → Value
    array : Elements → Value
    object : Members → Value

  pub data Elements : Type 0 where
    no_more : Elements
    element : Value → Elements → Elements

  pub data Members : Type 0 where
    nil : Members
    member : Bytes → Value → Members → Members

-- `v.Obj`, which is nil unless the value is an object.
abbrev pub members_of : Value → Members
members_of (object ms) = ms
members_of _ = nil

unfoldable pub get : Bytes → Members → Option Value
get key nil = none
get key (member k v ms) = if bytes_eq k key then some v else get key ms

-- `HomeVariable`, with the empty string for an environment that it does not know.
unfoldable pub home_variable : Bytes → String
home_variable env =
    if is_text env "claude_code"
    then "CLAUDE_CONFIG_DIR"
    else if is_text env "codex_cli"
    then "CODEX_HOME"
    else if is_text env "opencode"
    then "XDG_CONFIG_HOME"
    else if is_text env "pi"
    then "PI_CODING_AGENT_DIR"
    else if is_text env "muse"
    then "XDG_CONFIG_HOME"
    else ""
