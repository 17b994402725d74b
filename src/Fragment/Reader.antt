-- ===== src/Fragment/Reader.antt =====
-- internal/fragment/json.go, `ParseJSON`: the strict reader, for integers and objects without
-- repeated keys. As in Fragment/Quoted, a position is the bytes from there on.
pub mod Admissible
pub mod Sound
use curator_agent_launcher.Base.{
  length, ℕ, zero, suc, ◌+◌, ◌-◌, ◌*◌, Bool, true, false, not, ◌&&◌, ◌||◌, List, [], ◌∷◌, ◌==◌, ltb,
  leb, if◌then◌else◌, Bytes, bytes_eq, Scan, done, refused, out_of_fuel, ◌>>=◌,
}
use curator_agent_launcher.MemberWire.Runes.{utf8_valid}
use curator_agent_launcher.MemberWire.Number.{is_digit, safe_integer, is_empty}
use curator_agent_launcher.MemberWire.Quoted.{quote}
use curator_agent_launcher.Fragment.Value.{
  Value, Elements, Members, null, boolean, int, string, array, object, no_more, element, nil,
  member,
}
use curator_agent_launcher.Fragment.Quoted.{str}

-- `maxDepth`.
abbrev pub max_depth : ℕ
max_depth = 64

abbrev pub is_space : ℕ → Bool
is_space c = c == b' ' || c == 9 || c == 10 || c == 13

-- `skipSpace`.
unfoldable pub skip_space : Bytes → Bytes
skip_space [] = []
skip_space (c ∷ s) = let rest = skip_space s in if is_space c then rest else c ∷ s

-- The next byte is `c`.
abbrev pub starts : ℕ → Bytes → Bool
starts c [] = false
starts c (x ∷ s) = x == c

-- `p.pos++`.
abbrev pub behind : Bytes → Bytes
behind [] = []
behind (x ∷ s) = s

-- The next byte must be `c`.
abbrev pub expect : ℕ → Bytes → Scan Bytes
expect c s = if starts c s then done (behind s) else refused

-- `literal`.
unfoldable pub literal : Bytes → Value → Bytes → Scan (Value × Bytes)
literal [] v s = done (v, s)
literal (c ∷ word) v [] = refused
literal (c ∷ word) v (x ∷ s) = let rest = literal word v s in if x == c then rest else refused

-- The loop over digits: those taken, and the bytes left.
unfoldable pub digit_run : Bytes → Bytes × Bytes
digit_run [] = ([], [])
digit_run (c ∷ s) =
    let (ds, rest) = digit_run s in if is_digit c then (c ∷ ds, rest) else ([], c ∷ s)

abbrev pub starts_digit : Bytes → Bool
starts_digit [] = false
starts_digit (c ∷ s) = is_digit c

-- A numeral without a leading zero.
unfoldable pub whole_digits : Bytes → Scan (Bytes × Bytes)
whole_digits [] = refused
whole_digits (c ∷ s) =
    let (ds, rest) = digit_run s in
    if not (is_digit c)
    then refused
    else if c == b'0'
    then if starts_digit s then refused else done (c ∷ [], s)
    else done (c ∷ ds, rest)

-- What would make the number no integer.
abbrev pub has_fraction : Bytes → Bool
has_fraction [] = false
has_fraction (c ∷ s) = c == b'.' || c == b'e' || c == b'E'

-- The loop over `digits`. There are 16 at most, so the int64 never wraps.
unfoldable pub digits_value : ℕ → Bytes → ℕ
digits_value n [] = n
digits_value n (d ∷ ds) = digits_value (n * 10 + (d - b'0')) ds

-- The tests on the digits that were taken.
unfoldable pub in_range : Bool → Bytes → Bytes → Scan (Value × Bytes)
in_range neg digits rest =
    let n = digits_value 0 digits in
    if neg && bytes_eq digits (b'0' ∷ [])
    then refused
    else if ltb 16 (length digits)
    then refused
    else if ltb safe_integer n
    then refused
    else done (int neg n, rest)

unfoldable pub integer : Bool → Bytes → Scan (Value × Bytes)
integer neg s = do
  (digits, rest) ← whole_digits s
  if has_fraction rest then refused else in_range neg digits rest

-- `number`, at its first byte.
unfoldable pub number : ℕ → Bytes → Scan (Value × Bytes)
number c s = if c == b'-' then integer true s else integer false (c ∷ s)

-- `seen[key]`.
unfoldable pub is_seen : Bytes → List Bytes → Bool
is_seen k [] = false
is_seen k (x ∷ xs) = bytes_eq x k || is_seen k xs

-- A comma, or the closing byte: is there more?
abbrev pub separator : ℕ → Bytes → Scan (Bool × Bytes)
separator close [] = refused
separator close (c ∷ s) =
    if c == b',' then done (true, s) else if c == close then done (false, s) else refused

abbrev pub as_string : Bytes × Bytes → Scan (Value × Bytes)
as_string (s, rest) = done (string s, rest)

abbrev pub as_array : Elements × Bytes → Scan (Value × Bytes)
as_array (es, rest) = done (array es, rest)

abbrev pub as_object : Members × Bytes → Scan (Value × Bytes)
as_object (ms, rest) = done (object ms, rest)

abbrev pub with_element : Value → Elements × Bytes → Scan (Elements × Bytes)
with_element v (es, rest) = done (element v es, rest)

abbrev pub with_member : Bytes → Value → Members × Bytes → Scan (Members × Bytes)
with_member k v (ms, rest) = done (member k v ms, rest)

-- The quote of a key, and the key.
abbrev pub key_of : Bytes → Scan (Bytes × Bytes)
key_of s = expect quote s >>= str

-- The `switch` of `value` on the first byte, given what the loops behind `[` and `{` make.
unfoldable pub by_first :
    ℕ → ℕ → Bytes → Scan (Value × Bytes) → Scan (Value × Bytes) → Scan (Value × Bytes)
by_first depth c s items fields =
    if leb max_depth depth
    then refused
    else if c == b'{'
    then if starts b'}' (skip_space s) then done (object nil, behind (skip_space s)) else fields
    else if c == b'['
    then if starts b']' (skip_space s) then done (array no_more, behind (skip_space s)) else items
    else if c == quote
    then str s >>= as_string
    else if c == b't'
    then literal (b't' ∷ b'r' ∷ b'u' ∷ b'e' ∷ []) (boolean true) (c ∷ s)
    else if c == b'f'
    then literal (b'f' ∷ b'a' ∷ b'l' ∷ b's' ∷ b'e' ∷ []) (boolean false) (c ∷ s)
    else if c == b'n'
    then literal (b'n' ∷ b'u' ∷ b'l' ∷ b'l' ∷ []) null (c ∷ s)
    else if c == b'-' || is_digit c
    then number c s
    else refused

-- `value`, and the loops of `array` and of `object` behind the opening byte. A call leaves what is no
-- structural part of its input, so each costs a unit of fuel.
unfoldable mutual
  pub value : ℕ → ℕ → Bytes → Scan (Value × Bytes)
  value zero depth s = out_of_fuel
  value (suc f) depth [] = refused
  value (suc f) depth (c ∷ s) =
      let items = elements f (suc depth) s in
      let fields = members f (suc depth) [] s in
      by_first depth c s (items >>= as_array) (fields >>= as_object)

  pub elements : ℕ → ℕ → Bytes → Scan (Elements × Bytes)
  elements zero depth s = out_of_fuel
  elements (suc f) depth s = do
    (v, s1) ← value f depth (skip_space s)
    (more, s2) ← separator b']' (skip_space s1)
    let rest = elements f depth s2
    if more then rest >>= with_element v else done (element v no_more, s2)

  pub members : ℕ → ℕ → List Bytes → Bytes → Scan (Members × Bytes)
  members zero depth seen s = out_of_fuel
  members (suc f) depth seen s = do
    (key, s1) ← key_of (skip_space s)
    s2 ← (if is_seen key seen then refused else expect b':' (skip_space s1))
    (v, s3) ← value f depth (skip_space s2)
    (more, s4) ← separator b'}' (skip_space s3)
    let rest = members f depth (key ∷ seen) s4
    if more then rest >>= with_member key v else done (member key v nil, s4)

-- The end of the input.
abbrev pub whole : Value × Bytes → Scan Value
whole (v, rest) = if is_empty (skip_space rest) then done v else refused

-- `ParseJSON`.
unfoldable pub parse_json : Bytes → Scan Value
parse_json s =
    if not (utf8_valid s) then refused else (value (suc (2 * length s)) 0 (skip_space s) >>= whole)
