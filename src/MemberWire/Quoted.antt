-- ===== src/MemberWire/Quoted.antt =====
-- internal/memberwire/lex.go, `hexQuad` and `stringToken`: quoted texts with JSON's escapes. Where
-- the Go code keeps an index into `raw`, the model keeps the bytes from that index on.
pub mod Progress
pub mod RoundTrip
use curator_agent_launcher.Base.{
  length, ℕ, zero, suc, ◌+◌, ◌-◌, ◌*◌, ◌%◌, not, ◌&&◌, ◌||◌, [], ◌∷◌, ◌++◌, ◌==◌, ltb,
  if◌then◌else◌, within, Bytes, Scan, done, refused, out_of_fuel, ◌>>=◌,
}
use curator_agent_launcher.MemberWire.Runes.{decode_rune, write_rune}

abbrev pub quote : ℕ
quote = 34

abbrev pub backslash : ℕ
backslash = 92

-- The `switch` on a hexadecimal digit.
unfoldable pub hex_digit : ℕ → Scan ℕ
hex_digit c =
    if within b'0' b'9' c
    then done (c - b'0')
    else if within b'a' b'f' c
    then done (c - b'a' + 10)
    else if within b'A' b'F' c
    then done (c - b'A' + 10)
    else refused

-- One round of the loop, in uint16.
unfoldable pub hex_step : ℕ → ℕ → Scan ℕ
hex_step n c = do d ← hex_digit c; done ((n * 16 % 65536 + d) % 65536)

unfoldable pub hex_quad : Bytes → Scan (ℕ × Bytes)
hex_quad (a ∷ b ∷ c ∷ d ∷ rest) = do
  n1 ← hex_step 0 a
  n2 ← hex_step n1 b
  n3 ← hex_step n2 c
  n4 ← hex_step n3 d
  done (n4, rest)
hex_quad _ = refused

-- Behind a high surrogate: `\u` and a low one.
unfoldable pub low_surrogate : ℕ → Bytes → Scan (Bytes × Bytes)
low_surrogate high (x ∷ y ∷ raw) = if not (x == backslash) || not (y == b'u') then refused else do
  (low, rest) ← hex_quad raw
  if ltb low 0xdc00 || ltb 0xdfff low
      then refused
      else done (write_rune (decode_rune high low), rest)
low_surrogate high _ = refused

unfoldable pub unicode_escape : Bytes → Scan (Bytes × Bytes)
unicode_escape raw = do
  (u, rest) ← hex_quad raw
  if u == 0
      then refused
      else if within 0xd800 0xdbff u
      then low_surrogate u rest
      else if within 0xdc00 0xdfff u
      then refused
      else done (write_rune u, rest)

-- What stands behind a backslash: the bytes written and the bytes left.
unfoldable pub escape : Bytes → Scan (Bytes × Bytes)
escape [] = refused
escape (c ∷ raw) =
    if c == quote || c == backslash || c == b'/'
    then done (c ∷ [], raw)
    else if c == b'b'
    then done (8 ∷ [], raw)
    else if c == b'f'
    then done (12 ∷ [], raw)
    else if c == b'n'
    then done (10 ∷ [], raw)
    else if c == b'r'
    then done (13 ∷ [], raw)
    else if c == b't'
    then done (9 ∷ [], raw)
    else if c == b'u'
    then unicode_escape raw
    else refused

-- The loop, with the bytes written so far.
unfoldable pub string_loop : ℕ → Bytes → Bytes → Scan (Bytes × Bytes)
string_loop f [] b = refused
string_loop zero (c ∷ raw) b = out_of_fuel
string_loop (suc f) (c ∷ raw) b =
    let plain = string_loop f raw (b ++ c ∷ []) in
    let escaped = (escape raw >>= λ (written, rest). string_loop f rest (b ++ written)) in
    if c == quote
    then done (b, raw)
    else if ltb c 0x20
    then refused
    else if not (c == backslash)
    then plain
    else escaped

-- `stringToken`, behind the opening quote: each round takes a byte, so their number is fuel enough.
unfoldable pub string_token : Bytes → Scan (Bytes × Bytes)
unfolding string_loop
string_token raw = string_loop (length raw) raw []
