-- ===== src/Fragment/Canonical.antt =====
-- internal/fragment/ccj1.go: the canonical bytes of a value, which `Digest` hashes. The Go functions
-- append to a buffer; the model returns what they append. `sort.Strings` is an insertion sort, and a
-- Go map from keys to values is read by the value's text: its last entry for a key counts.
pub mod Numeral
pub mod Texts
pub mod Plain
pub mod Lookup
pub mod Order
pub mod Utf8
pub mod Printed
pub mod RoundTrip
use curator_agent_launcher.Base.{
  ℕ, zero, suc, ◌+◌, ◌-◌, ◌/◌, ◌%◌, Bool, true, false, List, [], ◌∷◌, ◌++◌, ◌==◌, ltb, map,
  if◌then◌else◌, Bytes, bytes_eq,
}
use curator_agent_launcher.MemberWire.Quoted.{quote, backslash}
use curator_agent_launcher.Fragment.Value.{
  Value, Elements, Members, null, boolean, int, string, array, object, no_more, element, nil,
  member,
}

-- `hexDigits[d]`.
abbrev pub hex_char : ℕ → ℕ
hex_char d = if ltb d 10 then b'0' + d else b'a' + (d - 10)

-- The `switch` of `appendString` on a byte.
unfoldable pub escaped : ℕ → Bytes
escaped c =
    if c == quote
    then backslash ∷ quote ∷ []
    else if c == backslash
    then backslash ∷ backslash ∷ []
    else if c == 8
    then backslash ∷ b'b' ∷ []
    else if c == 12
    then backslash ∷ b'f' ∷ []
    else if c == 10
    then backslash ∷ b'n' ∷ []
    else if c == 13
    then backslash ∷ b'r' ∷ []
    else if c == 9
    then backslash ∷ b't' ∷ []
    else if ltb c 0x20
    then backslash ∷ b'u' ∷ b'0' ∷ b'0' ∷ hex_char (c / 16) ∷ hex_char (c % 16) ∷ []
    else c ∷ []

-- The loop of `appendString`, with the closing quote.
unfoldable pub quoted_bytes : Bytes → Bytes
quoted_bytes [] = quote ∷ []
quoted_bytes (c ∷ s) = escaped c ++ quoted_bytes s

-- `appendString`.
abbrev pub quoted : Bytes → Bytes
quoted s = quote ∷ quoted_bytes s

-- `strconv.AppendInt` in base ten: the digits of a number of at most `f` digits.
unfoldable pub numeral : ℕ → ℕ → Bytes
numeral zero n = []
numeral (suc f) n =
    let front = numeral f (n / 10) in
    if ltb n 10 then (b'0' + n) ∷ [] else front ++ (b'0' + n % 10) ∷ []

-- An int64 has 19 digits at most.
unfoldable pub decimal_text : Bool → ℕ → Bytes
decimal_text true n = b'-' ∷ numeral 20 n
decimal_text false n = numeral 20 n

-- The order of Go strings.
unfoldable pub bytes_le : Bytes → Bytes → Bool
bytes_le [] t = true
bytes_le (a ∷ s) [] = false
bytes_le (a ∷ s) (b ∷ t) =
    let rest = bytes_le s t in if ltb a b then true else if a == b then rest else false

unfoldable pub insert_key : Bytes → List Bytes → List Bytes
insert_key k [] = k ∷ []
insert_key k (x ∷ xs) = let rest = insert_key k xs in if bytes_le k x then k ∷ x ∷ xs else x ∷ rest

-- `sort.Strings`.
unfoldable pub sort_keys : List Bytes → List Bytes
sort_keys [] = []
sort_keys (k ∷ ks) = insert_key k (sort_keys ks)

-- `byKey[k]`: an entry overwrites the earlier ones of its key.
unfoldable pub by_key : Bytes → Bytes → List (Bytes × Bytes) → Bytes
by_key found k [] = found
by_key found k ((x, t) ∷ ms) = by_key (if bytes_eq x k then t else found) k ms

-- What stands behind an entry: commas in front of the others, and the closing byte.
unfoldable pub more_entries : ℕ → List Bytes → Bytes
more_entries close [] = close ∷ []
more_entries close (t ∷ ts) = b',' ∷ t ++ more_entries close ts

unfoldable pub entries : ℕ → List Bytes → Bytes
entries close [] = close ∷ []
entries close (t ∷ ts) = t ++ more_entries close ts

abbrev pub entry_text : Bytes → Bytes → Bytes
entry_text k t = quoted k ++ b':' ∷ t

-- The zero `Value` is null.
abbrev pub zero_text : Bytes
zero_text = b'n' ∷ b'u' ∷ b'l' ∷ b'l' ∷ []

abbrev pub key_texts : List (Bytes × Bytes) → List Bytes
key_texts ms = map (λ (k, t). k) ms

abbrev pub sorted_entries : List (Bytes × Bytes) → List Bytes
sorted_entries ms = map (λ k. entry_text k (by_key zero_text k ms)) (sort_keys (key_texts ms))

-- `appendCanonical`, and the texts of the elements and of the members.
unfoldable mutual
  pub append_canonical : Value → Bytes
  append_canonical null = zero_text
  append_canonical (boolean true) = b't' ∷ b'r' ∷ b'u' ∷ b'e' ∷ []
  append_canonical (boolean false) = b'f' ∷ b'a' ∷ b'l' ∷ b's' ∷ b'e' ∷ []
  append_canonical (int neg n) = decimal_text neg n
  append_canonical (string s) = quoted s
  append_canonical (array es) = b'[' ∷ entries b']' (element_texts es)
  append_canonical (object ms) = b'{' ∷ entries b'}' (sorted_entries (member_texts ms))

  pub element_texts : Elements → List Bytes
  element_texts no_more = []
  element_texts (element v es) = append_canonical v ∷ element_texts es

  pub member_texts : Members → List (Bytes × Bytes)
  member_texts nil = []
  member_texts (member k v ms) = (k, append_canonical v) ∷ member_texts ms

-- The members without "sig".
unfoldable pub without_sig : Members → Members
without_sig nil = nil
without_sig (member k v ms) =
    let rest = without_sig ms in
    if bytes_eq k (b's' ∷ b'i' ∷ b'g' ∷ []) then rest else member k v rest

abbrev pub unsigned : Value → Value
unsigned (object ms) = object (without_sig ms)
unsigned v = v

-- `Canonical`.
unfoldable pub canonical : Value → Bytes
canonical v = append_canonical (unsigned v)
