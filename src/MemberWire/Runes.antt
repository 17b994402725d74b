-- ===== src/MemberWire/Runes.antt =====
-- What internal/memberwire/lex.go takes from unicode/utf8, unicode/utf16 and strings.Builder:
-- the test that bytes are UTF-8, the rune of a surrogate pair, and the bytes of a rune.
use curator_agent_launcher.Base.{
  ℕ, zero, suc, ◌+◌, ◌-◌, ◌*◌, ◌/◌, ◌%◌, Bool, true, false, ◌&&◌, ◌||◌, [], ◌∷◌, ◌==◌, ltb,
  if◌then◌else◌, within, Bytes,
}

-- `utf8.Valid` by one byte after the other: how many bytes the rune still has, and the range of
-- the next one.
unfoldable pub valid_from : ℕ → ℕ → ℕ → Bytes → Bool
valid_from zero lo hi [] = true
valid_from (suc need) lo hi [] = false
valid_from (suc need) lo hi (c ∷ s) = within lo hi c && valid_from need 0x80 0xbf s
valid_from zero lo hi (c ∷ s) =
    let ascii = valid_from 0 0x80 0xbf s in
    let two = valid_from 1 0x80 0xbf s in
    let three = λ (lo hi : ℕ). valid_from 2 lo hi s in
    let four = λ (lo hi : ℕ). valid_from 3 lo hi s in
    if ltb c 0x80
    then ascii
    else if within 0xc2 0xdf c
    then two
    else if c == 0xe0
    then three 0xa0 0xbf
    else if c == 0xed
    then three 0x80 0x9f
    else if within 0xe1 0xef c
    then three 0x80 0xbf
    else if c == 0xf0
    then four 0x90 0xbf
    else if within 0xf1 0xf3 c
    then four 0x80 0xbf
    else if c == 0xf4
    then four 0x80 0x8f
    else false

abbrev pub utf8_valid : Bytes → Bool
utf8_valid = valid_from 0 0x80 0xbf

abbrev pub is_surrogate : ℕ → Bool
is_surrogate r = within 0xd800 0xdfff r

-- `utf16.DecodeRune` of a high and a low surrogate.
abbrev pub decode_rune : ℕ → ℕ → ℕ
decode_rune high low = (high - 0xd800) * 1024 + (low - 0xdc00) + 0x10000

-- `strings.Builder.WriteRune`; what is no rune is written as U+FFFD.
unfoldable pub write_rune : ℕ → Bytes
write_rune r =
    if ltb r 0x80
    then r ∷ []
    else if ltb r 0x800
    then (0xc0 + r / 64) ∷ (0x80 + r % 64) ∷ []
    else if is_surrogate r || ltb 0x10ffff r
    then 0xef ∷ 0xbf ∷ 0xbd ∷ []
    else if ltb r 0x10000
    then (0xe0 + r / 4096) ∷ (0x80 + r / 64 % 64) ∷ (0x80 + r % 64) ∷ []
    else (0xf0 + r / 262144) ∷ (0x80 + r / 4096 % 64) ∷ (0x80 + r / 64 % 64) ∷ (0x80 + r % 64) ∷ []
