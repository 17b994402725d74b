-- ===== src/Fragment/Quoted.antt =====
-- internal/fragment/json.go, `str` and `hex4`: quoted texts. Where the Go code keeps the position
-- `p.pos` in `p.data`, the model keeps the bytes from there on; the offset and the wording of an
-- error are not kept.
pub mod Progress
use curator_agent_launcher.Base.{
  length, ℕ, zero, suc, ◌+◌, ◌*◌, not, ◌||◌, [], ◌∷◌, ◌++◌, ◌==◌, ltb, if◌then◌else◌, within, Bytes,
  Scan, done, refused, out_of_fuel, ◌>>=◌,
}
use curator_agent_launcher.MemberWire.Runes.{decode_rune, write_rune}
use curator_agent_launcher.MemberWire.Quoted.{quote, backslash, hex_digit}

-- Four digits, each of four bits: the rune does not overflow. The `switch` on a digit is the one of
-- internal/memberwire.
unfoldable pub hex4 : Bytes → Scan (ℕ × Bytes)
hex4 (a ∷ b ∷ c ∷ d ∷ rest) = do
  n1 ← hex_digit a
  n2 ← hex_digit b
  n3 ← hex_digit c
  n4 ← hex_digit d
  done (((n1 * 16 + n2) * 16 + n3) * 16 + n4, rest)
hex4 _ = refused

-- Behind a high surrogate: `\u` and a low one.
unfoldable pub low_half : ℕ → Bytes → Scan (ℕ × Bytes)
low_half high (x ∷ y ∷ s) = if not (x == backslash) || not (y == b'u') then refused else do
  (low, rest) ← hex4 s
  if ltb low 0xdc00 || ltb 0xdfff low then refused else done (decode_rune high low, rest)
low_half high _ = refused

-- The rune of a `\u` escape.
unfoldable pub escaped_rune : Bytes → Scan (ℕ × Bytes)
escaped_rune s = do
  (r, rest) ← hex4 s
  if within 0xd800 0xdbff r
      then low_half r rest
      else if within 0xdc00 0xdfff r
      then refused
      else done (r, rest)

-- What stands behind a backslash: the bytes that it appends and the bytes left.
unfoldable pub unescape : Bytes → Scan (Bytes × Bytes)
unescape [] = refused
unescape (e ∷ s) =
    let rune = (escaped_rune s >>= λ (r, rest). done (write_rune r, rest)) in
    if e == quote || e == backslash || e == b'/'
    then done (e ∷ [], s)
    else if e == b'b'
    then done (8 ∷ [], s)
    else if e == b'f'
    then done (12 ∷ [], s)
    else if e == b'n'
    then done (10 ∷ [], s)
    else if e == b'r'
    then done (13 ∷ [], s)
    else if e == b't'
    then done (9 ∷ [], s)
    else if e == b'u'
    then rune
    else refused

-- The loop, with the bytes of `out`.
unfoldable pub str_loop : ℕ → Bytes → Bytes → Scan (Bytes × Bytes)
str_loop f [] out = refused
str_loop zero (c ∷ s) out = out_of_fuel
str_loop (suc f) (c ∷ s) out =
    let plain = str_loop f s (out ++ c ∷ []) in
    let escaped = (unescape s >>= λ (written, rest). str_loop f rest (out ++ written)) in
    if c == quote
    then done (out, s)
    else if ltb c 0x20
    then refused
    else if c == backslash
    then escaped
    else plain

-- `str`, behind the opening quote: a round takes a byte at least, so their number is fuel enough.
unfoldable pub str : Bytes → Scan (Bytes × Bytes)
unfolding str_loop
str s = str_loop (length s) s []
