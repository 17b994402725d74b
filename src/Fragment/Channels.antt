-- ===== src/Fragment/Channels.antt =====
-- internal/fragment/fragment.go, `channels` and `channel`: the descriptors of the channels, the
-- registry of the adapters, and their comparison.
pub mod Total
use curator_agent_launcher.Base.{
  Bool, true, false, ◌&&◌, ◌||◌, not, List, [], ◌∷◌, ◌++◌, if◌then◌else◌, String, Bytes, Option,
  none, some, is_text, bytes_eq, codes, Scan, done, refused, ◌>>=◌,
}
use curator_agent_launcher.Fragment.Value.{
  Value, Elements, string, array, object, no_more, element, get, members_of,
}
use curator_agent_launcher.Fragment.Rules.{
  check, member_at, has_member, is_object, text_of, closed_object, string_member, enum_member,
  is_identifier, is_flag_token, is_portable_filename,
}
use curator_agent_launcher.Fragment.Reader.{is_seen}

-- `Channel`. A member that is not set is empty.
pub record Channel : Type 0 where
  pub kind : Bytes
  pub semantics : Bytes
  pub flag : Bytes
  pub argument : Bytes
  pub name : Bytes
  pub companions : List Bytes
  pub key : Bytes
  pub variable : Bytes
  pub filename : Bytes

abbrev pub blank_channel : Bytes → Bytes → Channel
blank_channel k s = record {
  kind = k;
  semantics = s;
  flag = [];
  argument = [];
  name = [];
  companions = [];
  key = [];
  variable = [];
  filename = [];
}

abbrev pub name_text : Value → Scan Bytes
name_text v = do s ← text_of v; _ ← check (is_identifier s); done s

-- "name", which stands exactly with the argument "name".
unfoldable pub name_of : Bytes → Value → Scan Bytes
name_of argument v =
    let named = is_text argument "name" in
    if named && not (has_member v "name") || not named && has_member v "name"
    then refused
    else if has_member v "name"
    then name_text (member_at v "name")
    else done []

-- The loop over "with": flag tokens, none of them twice.
unfoldable pub companion_flags : List Bytes → Elements → Scan (List Bytes)
companion_flags seen no_more = done []
companion_flags seen (element v es) = do
  s ← text_of v
  _ ← check (is_flag_token s && not (is_seen s seen))
  rest ← companion_flags (s ∷ seen) es
  done (s ∷ rest)

abbrev pub companion_list : Value → Scan (List Bytes)
companion_list (array (element v es)) = companion_flags [] (element v es)
companion_list _ = refused

unfoldable pub companions_of : Value → Scan (List Bytes)
companions_of v = if has_member v "with" then companion_list (member_at v "with") else done []

unfoldable pub flag_channel : Bytes → Bytes → Value → Scan Channel
flag_channel k s v = do
  token ← string_member v "flag"
  _ ← check (is_flag_token token)
  arg ← enum_member v "argument" ("path" ∷ "contents" ∷ "name" ∷ [])
  nm ← name_of arg v
  others ← companions_of v
  done record (blank_channel k s) { flag = token; argument = arg; name = nm; companions = others }

unfoldable pub key_channel : Bytes → Bytes → Value → Scan Channel
key_channel k s v = do
  id ← string_member v "key"
  _ ← check (is_identifier id)
  done record (blank_channel k s) { key = id }

unfoldable pub variable_channel : Bytes → Bytes → Value → Scan Channel
variable_channel k s v = do
  id ← string_member v "variable"
  _ ← check (is_identifier id)
  done record (blank_channel k s) { variable = id }

unfoldable pub file_channel : Bytes → Bytes → Value → Scan Channel
file_channel k s v = do
  file ← string_member v "filename"
  _ ← check (is_portable_filename file)
  done record (blank_channel k s) { filename = file }

-- The members that a kind requires, behind "kind" and "semantics".
abbrev pub kind_members : Bytes → List String
kind_members k =
    if is_text k "flag"
    then "flag" ∷ "argument" ∷ []
    else if is_text k "config-key"
    then "key" ∷ []
    else if is_text k "variable"
    then "variable" ∷ []
    else "filename" ∷ []

abbrev pub required_members : Bool → Bytes → List String
required_members with_semantics k =
    "kind" ∷ ((if with_semantics then "semantics" ∷ [] else []) ++ kind_members k)

abbrev pub optional_members : Bytes → List String
optional_members k = if is_text k "flag" then "name" ∷ "with" ∷ [] else []

abbrev pub semantics_of : Bool → Value → Scan Bytes
semantics_of true v = enum_member v "semantics" ("append" ∷ "replace" ∷ [])
semantics_of false v = done []

-- `channel`.
unfoldable pub channel : Bool → Value → Scan Channel
channel with_semantics v = do
  _ ← check (is_object v)
  k ← enum_member v "kind" ("flag" ∷ "config-key" ∷ "variable" ∷ "file" ∷ [])
  _ ← closed_object v (required_members with_semantics k) (optional_members k)
  s ← semantics_of with_semantics v
  if is_text k "flag"
      then flag_channel k s v
      else if is_text k "config-key"
      then key_channel k s v
      else if is_text k "variable"
      then variable_channel k s v
      else file_channel k s v

unfoldable pub channel_list : Bool → Elements → Scan (List Channel)
channel_list with_semantics no_more = done []
channel_list with_semantics (element v es) = do
  c ← channel with_semantics v
  rest ← channel_list with_semantics es
  done (c ∷ rest)

-- `channels`.
abbrev pub channels : Bool → Value → Scan (List Channel)
channels with_semantics (array es) = channel_list with_semantics es
channels with_semantics _ = refused

unfoldable pub same_texts : List Bytes → List Bytes → Bool
same_texts [] [] = true
same_texts (s ∷ ss) (t ∷ ts) = bytes_eq s t && same_texts ss ts
same_texts _ _ = false

unfoldable pub same_channel : Channel → Channel → Bool
same_channel x y =
    bytes_eq x.kind y.kind
    && bytes_eq x.semantics y.semantics
    && bytes_eq x.flag y.flag
    && bytes_eq x.argument y.argument
    && bytes_eq x.name y.name
    && bytes_eq x.key y.key
    && bytes_eq x.variable y.variable
    && bytes_eq x.filename y.filename
    && same_texts x.companions y.companions

-- `sameChannels`.
unfoldable pub same_channels : List Channel → List Channel → Bool
same_channels [] [] = true
same_channels (x ∷ xs) (y ∷ ys) = same_channel x y && same_channels xs ys
same_channels _ _ = false

abbrev pub path_flag : String → String → Channel
path_flag s token = record (blank_channel (codes "flag") (codes s)) {
  flag = codes token;
  argument = codes "path";
}

abbrev pub file_entry : String → String → Channel
file_entry s file = record (blank_channel (codes "file") (codes s)) { filename = codes file }

-- `systemPromptRegistry`, which is nil for another environment.
unfoldable pub prompt_registry : Bytes → List Channel
prompt_registry env =
    if is_text env "claude_code"
    then path_flag "append" "--append-system-prompt-file"
      ∷ path_flag "replace" "--system-prompt-file"
      ∷ []
    else if is_text env "codex_cli"
    then record (blank_channel (codes "config-key") (codes "replace")) {
      key = codes "model_instructions_file";
    }
      ∷ []
    else if is_text env "pi"
    then path_flag "append" "--append-system-prompt"
      ∷ file_entry "append" "APPEND_SYSTEM.md"
      ∷ file_entry "replace" "SYSTEM.md"
      ∷ []
    else []

-- `mcpRegistry`.
unfoldable pub mcp_registry : Bytes → Option Channel
mcp_registry env =
    if is_text env "claude_code"
    then some record (path_flag "" "--mcp-config") { companions = codes "--strict-mcp-config" ∷ [] }
    else if is_text env "codex_cli"
    then some record (blank_channel (codes "flag") []) {
      flag = codes "-p";
      argument = codes "name";
      name = codes "curator-mcp";
    }
    else if is_text env "opencode"
    then some record (blank_channel (codes "variable") []) { variable = codes "OPENCODE_CONFIG" }
    else none
