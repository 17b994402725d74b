-- ===== src/Fragment/Rules.antt =====
-- internal/fragment/fragment.go: the checks on texts and on objects that the sections share. A
-- refusal is an `InvalidError`, whose path and wording are not kept.
use curator_agent_launcher.Base.{
  ℕ, ◌+◌, Bool, true, false, ◌&&◌, ◌||◌, ◌==◌, not, List, [], ◌∷◌, ◌++◌, if◌then◌else◌, String,
  Bytes, Option, none, some, is_some, is_text, codes, within, leb, ltb, length, map, Scan, done,
  refused, ◌>>=◌,
}
use curator_agent_launcher.MemberWire.Number.{is_empty}
use curator_agent_launcher.MemberWire.Shapes.{is_alpha, hex_bytes, rune_count}
use curator_agent_launcher.Fragment.Value.{
  Value, Members, null, string, object, nil, member, members_of, get,
}

-- Goes on if the test holds.
abbrev pub check : Bool → Scan (Unit {0})
check b = if b then done tt else refused

-- `m, _ := v.Get(key)`: the zero `Value`, null, for a missing member.
abbrev pub or_null : Option Value → Value
or_null none = null
or_null (some v) = v

abbrev pub member_at : Value → String → Value
member_at v key = or_null (get (codes key) (members_of v))

abbrev pub has_member : Value → String → Bool
has_member v key = is_some (get (codes key) (members_of v))

abbrev pub is_object : Value → Bool
is_object (object ms) = true
is_object _ = false

unfoldable pub one_of_texts : Bytes → List String → Bool
one_of_texts s [] = false
one_of_texts s (t ∷ ts) = is_text s t || one_of_texts s ts

unfoldable pub only_allowed : Members → List String → Bool
only_allowed nil allowed = true
only_allowed (member k v ms) allowed = one_of_texts k allowed && only_allowed ms allowed

unfoldable pub has_required : Value → List String → Bool
has_required v [] = true
has_required v (k ∷ ks) = has_member v k && has_required v ks

-- `closedObject`.
unfoldable pub closed_object : Value → List String → List String → Scan (Unit {0})
closed_object v required optional =
    check
      (is_object v && only_allowed (members_of v) (required ++ optional) && has_required v required)

abbrev pub text_of : Value → Scan Bytes
text_of (string s) = done s
text_of _ = refused

-- `stringMember`.
unfoldable pub string_member : Value → String → Scan Bytes
string_member v key = text_of (member_at v key)

-- `enumMember`.
unfoldable pub enum_member : Value → String → List String → Scan Bytes
enum_member v key allowed = do
  s ← string_member v key
  if one_of_texts s allowed then done s else refused

-- The class `[A-Za-z0-9._-]`.
abbrev pub is_name_byte : ℕ → Bool
is_name_byte c = is_alpha c || c == b'.' || c == b'_' || c == b'-'

-- What follows the first byte in `identifierPattern`: name bytes, of which the last is no dot.
unfoldable pub name_tail : Bytes → Bool
name_tail [] = true
name_tail (c ∷ []) = is_name_byte c && not (c == b'.')
name_tail (c ∷ d ∷ s) = is_name_byte c && name_tail (d ∷ s)

unfoldable pub matches_identifier : Bytes → Bool
matches_identifier [] = false
matches_identifier (c ∷ s) = is_alpha c && name_tail s

abbrev pub lower : ℕ → ℕ
lower c = if within b'A' b'Z' c then c + 32 else c

-- The text in front of its first dot.
unfoldable pub before_dot : Bytes → Bytes
before_dot [] = []
before_dot (c ∷ s) = let rest = before_dot s in if c == b'.' then [] else c ∷ rest

-- `com[1-9]` and `lpt[1-9]`.
abbrev pub is_port : Bytes → Bool
is_port (a ∷ b ∷ c ∷ d ∷ []) =
    (is_text (a ∷ b ∷ c ∷ []) "com" || is_text (a ∷ b ∷ c ∷ []) "lpt") && within b'1' b'9' d
is_port _ = false

-- `windowsReserved`.
unfoldable pub windows_reserved : Bytes → Bool
windows_reserved s =
    let stem = map lower (before_dot s) in
    one_of_texts stem ("con" ∷ "prn" ∷ "aux" ∷ "nul" ∷ []) || is_port stem

-- `checkIdentifier`.
unfoldable pub is_identifier : Bytes → Bool
is_identifier s = leb (length s) 128 && matches_identifier s && not (windows_reserved s)

-- `hex256Pattern`.
unfoldable pub is_lock_hash : Bytes → Bool
is_lock_hash s = length s == 64 && hex_bytes s

unfoldable pub has_byte : ℕ → Bytes → Bool
has_byte x [] = false
has_byte x (c ∷ s) = c == x || has_byte x s

-- One more byte in front of the first segment.
abbrev pub onto_first : ℕ → List Bytes → List Bytes
onto_first c [] = (c ∷ []) ∷ []
onto_first c (s ∷ ss) = (c ∷ s) ∷ ss

-- `strings.Split(s, "/")`.
unfoldable pub segments : Bytes → List Bytes
segments [] = [] ∷ []
segments (c ∷ s) = let rest = segments s in if c == b'/' then [] ∷ rest else onto_first c rest

unfoldable pub any_text : List Bytes → String → Bool
any_text [] t = false
any_text (s ∷ ss) t = is_text s t || any_text ss t

abbrev pub starts_with : ℕ → Bytes → Bool
starts_with x [] = false
starts_with x (c ∷ s) = c == x

-- `checkAbsolutePath`.
unfoldable pub is_absolute_path : Bytes → Bool
is_absolute_path s =
    leb 2 (rune_count s)
    && leb (rune_count s) 4096
    && starts_with b'/' s
    && not (has_byte 0 s)
    && not (any_text (segments s) "..")

-- `strings.ContainsAny(s, " \t\n\r\f\v")`.
unfoldable pub has_blank : Bytes → Bool
has_blank [] = false
has_blank (c ∷ s) = c == b' ' || within 9 13 c || has_blank s

-- `checkFlagToken`.
unfoldable pub is_flag_token : Bytes → Bool
is_flag_token s = leb 2 (length s) && leb (length s) 128 && starts_with b'-' s && not (has_blank s)

-- The loop of `checkPortableFilename` over runes. Above ASCII, a control is 0xc2 and a byte up to 0x9f.
unfoldable pub has_control : Bytes → Bool
has_control [] = false
has_control (c ∷ []) = ltb c 0x20 || c == 0x7f
has_control (c ∷ d ∷ s) =
    ltb c 0x20 || c == 0x7f || c == 0xc2 && within 0x80 0x9f d || has_control (d ∷ s)

unfoldable pub ends_with : ℕ → Bytes → Bool
ends_with x [] = false
ends_with x (c ∷ []) = c == x
ends_with x (c ∷ d ∷ s) = ends_with x (d ∷ s)

-- `checkPortableFilename`. "." and ".." end with a dot.
unfoldable pub is_portable_filename : Bytes → Bool
is_portable_filename s =
    not (is_empty s)
    && leb (length s) 4096
    && not (has_byte b'/' s || has_byte 92 s || has_byte b':' s)
    && not (has_control s)
    && not (ends_with b' ' s || ends_with b'.' s || windows_reserved s)

-- `reservedEnvName`, but for the names that it gives by their first part.
abbrev pub reserved_names : List String
reserved_names =
    "PATH" ∷ "HOME" ∷ "TMPDIR" ∷ "TEMP" ∷ "TMP" ∷ "XDG_CONFIG_HOME" ∷ "XDG_CACHE_HOME"
    ∷ "XDG_DATA_HOME" ∷ "XDG_STATE_HOME" ∷ "HTTP_PROXY" ∷ "HTTPS_PROXY" ∷ "ALL_PROXY" ∷ "FTP_PROXY"
    ∷ "NO_PROXY" ∷ "http_proxy" ∷ "https_proxy" ∷ "all_proxy" ∷ "ftp_proxy" ∷ "no_proxy"
    ∷ "RES_OPTIONS" ∷ "HOSTALIASES" ∷ "LOCALDOMAIN" ∷ "IFS" ∷ "CSK_PROJECT_ROOT" ∷ "USERPROFILE"
    ∷ "APPDATA" ∷ "LOCALAPPDATA" ∷ "PATHEXT" ∷ "COMSPEC" ∷ "WINDIR" ∷ "SYSTEMROOT"
    ∷ "__PYVENV_LAUNCHER__" ∷ []

-- `strings.HasPrefix`.
unfoldable pub has_bytes_prefix : Bytes → Bytes → Bool
has_bytes_prefix s [] = true
has_bytes_prefix [] (x ∷ p) = false
has_bytes_prefix (c ∷ s) (x ∷ p) = c == x && has_bytes_prefix s p

-- An identifier holds no line feed, so `.*` matches whatever follows.
unfoldable pub is_reserved_name : Bytes → Bool
is_reserved_name s =
    one_of_texts s reserved_names
    || has_bytes_prefix s (codes "LD_")
    || has_bytes_prefix s (codes "DYLD_")
    || has_bytes_prefix s (codes "PYTHON")
    || has_bytes_prefix s (codes "NODE_")
    || has_bytes_prefix s (codes "NPM_CONFIG_")
