-- ===== src/Fragment/Canonical/Texts.antt =====
-- The quoted texts that the canonical form writes are read back by the reader.
use mathlib.Core.List.{append-nil, append_assoc}
use curator_agent_launcher.Base.{
  ℕ, zero, suc, ◌/◌, ◌%◌, ◌≤◌, ◌<◌, ◌≡◌, refl, Bool, true, ◌||◌, ◌∷◌, [], ◌++◌, ◌∙◌, ap, inl, inr,
  arith, length, length-append, Bytes, ltb, Bool-cases, done, ◌==◌,
}
use curator_agent_launcher.MemberWire.Runes.{write_rune}
use curator_agent_launcher.MemberWire.Quoted.{quote, backslash, hex_digit}
use curator_agent_launcher.Fragment.Quoted.{hex4, escaped_rune, unescape, str_loop, str}
use curator_agent_launcher.Fragment.Canonical.{hex_char, escaped, quoted_bytes}

hex_digit-hex_char : (d : ℕ) → d < 16 → hex_digit (hex_char d) ≡ done d
unfolding hex_digit
hex_digit-hex_char d h = ground arith

hex4-control :
    (c : ℕ) (rest : Bytes)
    → c < 0x20
    → hex4 (b'0' ∷ b'0' ∷ hex_char (c / 16) ∷ hex_char (c % 16) ∷ rest) ≡ done (c, rest)
unfolding hex4
hex4-control c rest h =
    rw
      (
        hex_digit-hex_char 0 (omega arith),
        hex_digit-hex_char (c / 16) (omega arith),
        hex_digit-hex_char (c % 16) (omega arith),
      )
      (ap (λ n. done (n, rest)) (omega arith))

unescape-control :
    (c : ℕ) (rest : Bytes)
    → c < 0x20
    → unescape (b'u' ∷ b'0' ∷ b'0' ∷ hex_char (c / 16) ∷ hex_char (c % 16) ∷ rest)
      ≡ done (c ∷ [], rest)
unfolding unescape escaped_rune write_rune
unescape-control c rest h = ground (arith, hex4-control c rest h)

-- The bytes with an escape of two.
abbrev is_short : ℕ → Bool
is_short c = c == quote || c == backslash || c == 8 || c == 12 || c == 10 || c == 13 || c == 9

str_loop-short :
    (f c : ℕ) (rest out : Bytes)
    → is_short c ≡ true
    → str_loop (suc f) (escaped c ++ rest) out ≡ str_loop f rest (out ++ c ∷ [])
unfolding str_loop escaped unescape
str_loop-short f c rest out h = ground arith

str_loop-escaped :
    (f c : ℕ) (rest out : Bytes)
    → str_loop (suc f) (escaped c ++ rest) out ≡ str_loop f rest (out ++ c ∷ [])
unfolding str_loop escaped
str_loop-escaped f c rest out = elim (Bool-cases (is_short c)) [
  | inl short ↦ str_loop-short f c rest out short
  | inr other ↦ elim (Bool-cases (ltb c 0x20)) [
    | inl low ↦ ground (arith, unescape-control c rest)
    | inr high ↦ ground arith
  ]
]

length-escaped : (c : ℕ) → 1 ≤ length (escaped c)
unfolding escaped
length-escaped c = ground arith

length-quoted_bytes : (s rest : Bytes) → length s < length (quoted_bytes s ++ rest)
unfolding quoted_bytes
length-quoted_bytes [] rest = omega arith
length-quoted_bytes (c ∷ s) rest = rw append_assoc (
    ground (
      arith,
      length-append (escaped c) (quoted_bytes s ++ rest),
      length-escaped c,
      length-quoted_bytes s rest,
    ))

str_loop-quote : (f : ℕ) (rest out : Bytes) → str_loop (suc f) (quote ∷ rest) out ≡ done (out, rest)
unfolding str_loop
str_loop-quote f rest out = refl

str_loop-quoted_bytes :
    (s rest out : Bytes) (f : ℕ)
    → length s < f
    → str_loop f (quoted_bytes s ++ rest) out ≡ done (out ++ s, rest)
unfolding quoted_bytes
str_loop-quoted_bytes s rest out zero h = absurd (omega arith)
str_loop-quoted_bytes [] rest out (suc f) h = str_loop-quote f rest out ∙ rw append-nil
str_loop-quoted_bytes (c ∷ s) rest out (suc f) h = rw append_assoc (
    str_loop-escaped f c (quoted_bytes s ++ rest) out
    ∙ str_loop-quoted_bytes s rest (out ++ c ∷ []) f (omega arith)
    ∙ rw append_assoc)

-- A text is read back from its quoted form, up to the closing quote.
pub str-quoted_bytes : (s rest : Bytes) → str (quoted_bytes s ++ rest) ≡ done (s, rest)
unfolding str
str-quoted_bytes s rest =
    str_loop-quoted_bytes s rest [] (length (quoted_bytes s ++ rest)) (length-quoted_bytes s rest)
