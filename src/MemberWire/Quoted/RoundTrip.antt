-- ===== src/MemberWire/Quoted/RoundTrip.antt =====
-- Spellings that `escape` and `string_token` read back: a text with JSON's escapes, and a rune as
-- UTF-16 code units.
use mathlib.Core.List.{append-nil, append_assoc}
use curator_agent_launcher.Base.{
  ap, inr, inl, Bool-cases, ◌*◌, ℕ, zero, suc, ◌≤◌, ◌<◌, ◌+◌, ◌-◌, ◌/◌, ◌%◌, ◌≡◌, ◌≢◌, refl, false,
  ◌||◌, ◌++◌, ◌∷◌, [], arith, length, Bytes, done, All, if◌then◌else◌, ltb, ◌==◌, ◌∙◌,
}
use curator_agent_launcher.MemberWire.Runes.{decode_rune, write_rune, is_surrogate}
use curator_agent_launcher.MemberWire.Quoted.{
  quote, backslash, hex_digit, hex_step, hex_quad, low_surrogate, unicode_escape, escape,
  string_loop, string_token,
}

-- The hexadecimal digit of a number below 16.
unfoldable pub nibble : ℕ → ℕ
nibble d = if ltb d 10 then d + b'0' else d - 10 + b'a'

-- A uint16 in four digits, in front of a text.
unfoldable pub quad : ℕ → Bytes → Bytes
quad u rest =
    nibble (u / 4096) ∷ nibble (u / 256 % 16) ∷ nibble (u / 16 % 16) ∷ nibble (u % 16) ∷ rest

hex_digit-nibble : (d : ℕ) → d < 16 → hex_digit (nibble d) ≡ done d
unfolding hex_digit nibble
hex_digit-nibble d h = ground arith

hex_step-nibble : (n d : ℕ) → n < 4096 → d < 16 → hex_step n (nibble d) ≡ done (n * 16 + d)
unfolding hex_step
hex_step-nibble n d small h = rw (hex_digit-nibble d h) (ground arith)

hex_quad-quad : (u : ℕ) (rest : Bytes) → u < 65536 → hex_quad (quad u rest) ≡ done (u, rest)
unfolding hex_quad quad
hex_quad-quad u rest h =
    let digits : u ≡ ((u / 4096 * 16 + u / 256 % 16) * 16 + u / 16 % 16) * 16 + u % 16 =
      omega arith in
    let first : hex_step 0 (nibble (u / 4096)) ≡ done (u / 4096) =
      hex_step-nibble 0 (u / 4096) (omega arith) (omega arith) ∙ ap done (omega arith) in
    rw (
      first,
      hex_step-nibble (u / 4096) (u / 256 % 16) (omega arith) (omega arith),
      hex_step-nibble (u / 4096 * 16 + u / 256 % 16) (u / 16 % 16) (omega arith) (omega arith),
      hex_step-nibble ((u / 4096 * 16 + u / 256 % 16) * 16 + u / 16 % 16) (u % 16) (omega arith)
          (omega arith),
      ← digits,
    )

-- A rune behind a backslash, as one or two UTF-16 code units.
abbrev pub utf16_escape : ℕ → Bytes → Bytes
utf16_escape r rest =
    if ltb r 0x10000
    then b'u' ∷ quad r rest
    else b'u'
      ∷ quad (0xd800 + (r - 0x10000) / 1024) (backslash ∷ b'u' ∷ quad (0xdc00 + r % 1024) rest)

unicode_escape-quad :
    (u : ℕ) (rest : Bytes)
    → u ≢ 0
    → u < 65536
    → is_surrogate u ≡ false
    → unicode_escape (quad u rest) ≡ done (write_rune u, rest)
unfolding unicode_escape
unicode_escape-quad u rest nz le s = ground (arith, hex_quad-quad u rest le)

low_surrogate-quad :
    (high low : ℕ) (rest : Bytes)
    → 0xdc00 ≤ low
    → low ≤ 0xdfff
    → low_surrogate high (backslash ∷ b'u' ∷ quad low rest)
      ≡ done (write_rune (decode_rune high low), rest)
unfolding low_surrogate
low_surrogate-quad high low rest ge le = ground (arith, hex_quad-quad low rest (omega arith))

unicode_escape-pair :
    (high low : ℕ) (rest : Bytes)
    → 0xd800 ≤ high
    → high ≤ 0xdbff
    → 0xdc00 ≤ low
    → low ≤ 0xdfff
    → unicode_escape (quad high (backslash ∷ b'u' ∷ quad low rest))
      ≡ done (write_rune (decode_rune high low), rest)
unfolding unicode_escape
unicode_escape-pair high low rest a b c d = ground (
  arith,
  hex_quad-quad high (backslash ∷ b'u' ∷ quad low rest) (omega arith),
  low_surrogate-quad high low rest c d,
)

pair-decode_rune :
    (r : ℕ) → 0x10000 ≤ r → decode_rune (0xd800 + (r - 0x10000) / 1024) (0xdc00 + r % 1024) ≡ r
pair-decode_rune r h = omega arith

-- Every rune but NUL and the surrogates is read back from its UTF-16 escape, as its UTF-8 bytes.
pub escape-utf16 :
    (r : ℕ) (rest : Bytes)
    → r ≢ 0
    → r < 0x110000
    → is_surrogate r ≡ false
    → escape (utf16_escape r rest) ≡ done (write_rune r, rest)
unfolding escape
escape-utf16 r rest nz le s = elim (Bool-cases (ltb r 0x10000)) [
  | inl one ↦ rw one (unicode_escape-quad r rest nz (ground arith) s)
  | inr two ↦
      let ge : 0x10000 ≤ r = ground arith in
      let high = 0xd800 + (r - 0x10000) / 1024 in
      let low = 0xdc00 + r % 1024 in
      rw two (
        unicode_escape-pair high low rest (omega arith) (omega arith) (omega arith) (omega arith)
        ∙ ap (λ x. done (write_rune x, rest)) (pair-decode_rune r ge))
]

-- A byte of a quoted text: escaped if it is a quote, a backslash or a control character.
abbrev pub escaped_byte : ℕ → Bytes → Bytes
escaped_byte c rest =
    if c == quote || c == backslash
    then backslash ∷ c ∷ rest
    else if ltb c 0x20
    then backslash ∷ b'u' ∷ quad c rest
    else c ∷ rest

abbrev pub escaped_text : Bytes → Bytes → Bytes
escaped_text [] rest = quote ∷ rest
escaped_text (c ∷ s) rest = escaped_byte c (escaped_text s rest)

string_loop-control :
    (f c : ℕ) (rest b : Bytes)
    → c ≢ 0
    → c < 0x20
    → string_loop (suc f) (backslash ∷ b'u' ∷ quad c rest) b ≡ string_loop f rest (b ++ c ∷ [])
unfolding string_loop escape write_rune
string_loop-control f c rest b nz low =
    ground (arith, unicode_escape-quad c rest nz (omega arith) (ground arith))

string_loop-escaped_byte :
    (f c : ℕ) (rest b : Bytes)
    → c ≢ 0
    → string_loop (suc f) (escaped_byte c rest) b ≡ string_loop f rest (b ++ c ∷ [])
unfolding string_loop escape
string_loop-escaped_byte f c rest b nz = elim (Bool-cases (c == quote || c == backslash)) [
  | inl sharp ↦ rw sharp (ground arith)
  | inr plain ↦ elim (Bool-cases (ltb c 0x20)) [
    | inl control ↦ rw (plain, control) (string_loop-control f c rest b nz (ground arith))
    | inr other ↦ rw (plain, other) (ground arith)
  ]
]

length-escaped_text : (s rest : Bytes) → length s < length (escaped_text s rest)
unfolding quad
length-escaped_text [] rest = omega arith
length-escaped_text (c ∷ s) rest = ground (arith, length-escaped_text s rest)

string_loop-quote : (f : ℕ) (rest b : Bytes) → string_loop (suc f) (quote ∷ rest) b ≡ done (b, rest)
unfolding string_loop
string_loop-quote f rest b = refl

string_loop-escaped_text :
    (s rest b : Bytes) (f : ℕ)
    → length s < f
    → All (λ c. c ≢ 0) s
    → string_loop f (escaped_text s rest) b ≡ done (b ++ s, rest)
string_loop-escaped_text s rest b zero h nz = elim h [ ]
string_loop-escaped_text [] rest b (suc f) h nz = string_loop-quote f rest b ∙ rw append-nil
string_loop-escaped_text (c ∷ s) rest b (suc f) h nz =
    string_loop-escaped_byte f c (escaped_text s rest) b nz.0
    ∙ string_loop-escaped_text s rest (b ++ c ∷ []) f (omega arith) nz.1
    ∙ rw append_assoc

-- A text without NUL is read back from its escaped spelling, up to the closing quote.
pub string_token-escaped_text :
    (s rest : Bytes) → All (λ c. c ≢ 0) s → string_token (escaped_text s rest) ≡ done (s, rest)
unfolding string_token
string_token-escaped_text s rest nz =
    string_loop-escaped_text s rest [] (length (escaped_text s rest)) (length-escaped_text s rest)
      nz
