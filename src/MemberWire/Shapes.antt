-- ===== src/MemberWire/Shapes.antt =====
-- internal/memberwire/schema.go: the predicates that the record shapes are made of. What `v.(T)` gives
-- for another type, and what a map gives for a missing key, is written out.
pub mod Closed
use curator_agent_launcher.Base.{
  ℕ, suc, Bool, true, false, ◌&&◌, ◌||◌, ◌==◌, not, List, [], ◌∷◌, if◌then◌else◌, String, Bytes,
  is_text, within, leb, length,
}
use curator_agent_launcher.MemberWire.Json.{
  Value, Members, Items, object, array, string, uint, yes_value, no_value, null, nil, member, end,
  item,
}

-- `o[k]`, which is nil for a missing key.
unfoldable pub at : Members → String → Value
at nil key = null
at (member k v ms) key = if is_text k key then v else at ms key

-- `_, ok := o[k]`.
unfoldable pub has : Members → String → Bool
has nil key = false
has (member k v ms) key = is_text k key || has ms key

-- `len(o)`.
unfoldable pub size : Members → ℕ
size nil = 0
size (member k v ms) = suc (size ms)

unfoldable pub has_all : Members → List String → Bool
has_all o [] = true
has_all o (k ∷ keys) = has o k && has_all o keys

unfoldable pub closed : Members → List String → Bool
closed o keys = size o == length keys && has_all o keys

-- `object`: the nil map for a value of another type.
unfoldable pub fields : Value → Members
fields (object ms) = ms
fields _ = nil

unfoldable pub is_nil : Value → Bool
is_nil null = true
is_nil _ = false

-- `v == "..."` on an interface.
unfoldable pub equals : Value → String → Bool
equals (string s) choice = is_text s choice
equals _ choice = false

-- `is`.
unfoldable pub one_of : Value → List String → Bool
one_of v [] = false
one_of v (c ∷ choices) = equals v c || one_of v choices

unfoldable pub integer : Value → ℕ → ℕ → Bool
integer (uint n) low high = leb low n && leb n high
integer _ low high = false

abbrev pub is_lower_hex : ℕ → Bool
is_lower_hex c = within b'a' b'f' c || within b'0' b'9' c

unfoldable pub hex_bytes : Bytes → Bool
hex_bytes [] = true
hex_bytes (c ∷ s) = is_lower_hex c && hex_bytes s

unfoldable pub lower_hex : Value → ℕ → Bool
lower_hex (string s) len = length s == len && hex_bytes s
lower_hex _ len = false

unfoldable pub id : Value → Bool
id v = lower_hex v 32

unfoldable pub digest : Value → Bool
digest v = lower_hex v 64

abbrev pub is_alpha : ℕ → Bool
is_alpha c = within b'A' b'Z' c || within b'a' b'z' c || within b'0' b'9' c

-- The loop of `name`; the mark is whether the first byte is still to come.
unfoldable pub name_bytes : Bool → Bytes → Bool
name_bytes first [] = true
name_bytes first (c ∷ s) =
    (is_alpha c || not first && (c == b'.' || c == b'_' || c == b'-')) && name_bytes false s

unfoldable pub name : Value → Bool
name (string s) = leb 1 (length s) && leb (length s) 64 && name_bytes true s
name _ = false

-- `v.([]any)`, of at least `low` and at most `high` items that all pass.
unfoldable pub count : Items → ℕ
count end = 0
count (item v xs) = suc (count xs)

unfoldable pub every : (Value → Bool) → Items → Bool
every p end = true
every p (item v xs) = p v && every p xs

unfoldable pub list_of : (Value → Bool) → ℕ → ℕ → Value → Bool
list_of p low high (array xs) = leb low (count xs) && leb (count xs) high && every p xs
list_of p low high _ = false

-- `v == nil || p(v)`.
unfoldable pub optional : (Value → Bool) → Value → Bool
optional p v = is_nil v || p v

-- `_, ok := v.(bool)`.
unfoldable pub lifecycle_bool : Value → Bool
lifecycle_bool yes_value = true
lifecycle_bool no_value = true
lifecycle_bool _ = false

-- `utf8.RuneCountInString` of a text that is UTF-8: the bytes that continue no rune.
unfoldable pub rune_count : Bytes → ℕ
rune_count [] = 0
rune_count (c ∷ s) = let n = rune_count s in if within 128 191 c then n else suc n

unfoldable pub text_length : Value → ℕ → Bool
text_length (string s) maximum = let n = rune_count s in leb 1 n && leb n maximum
text_length _ maximum = false

unfoldable pub reference : Value → Bool
reference v =
    let o = fields v in
    closed o ("name" ∷ "length" ∷ "sha256" ∷ [])
    && name (at o "name")
    && integer (at o "length") 0 4194304
    && digest (at o "sha256")
