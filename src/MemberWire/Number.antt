-- ===== src/MemberWire/Number.antt =====
-- internal/memberwire/lex.go, `numberToken`: unsigned decimal numerals up to 2^53 - 1.
-- The proofs are in Number/Decimal.
pub mod Decimal
use curator_agent_launcher.Base.{
  ℕ, ◌+◌, ◌-◌, ◌*◌, ◌/◌, Bool, true, false, ◌&&◌, [], ◌∷◌, ◌==◌, ltb, if◌then◌else◌, within, Bytes,
}

abbrev pub safe_integer : ℕ
safe_integer = 9007199254740991

-- `s[i] >= '0' && s[i] <= '9'`, negated in the first loop.
abbrev pub is_digit : ℕ → Bool
is_digit c = within b'0' b'9' c

unfoldable pub all_digits : Bytes → Bool
all_digits [] = true
all_digits (c ∷ s) = is_digit c && all_digits s

-- The second loop. Its test keeps `n * 10 + d` at most `safe_integer`, so the uint64 never wraps.
unfoldable pub accumulate : ℕ → Bytes → ℕ × Bool × Bool
accumulate n [] = (n, true, false)
accumulate n (c ∷ s) =
    let rest = accumulate (n * 10 + (c - b'0')) s in
    if ltb ((safe_integer - (c - b'0')) / 10) n then (0, true, true) else rest

-- `len(s) > 1 && s[0] == '0'`.
unfoldable pub leading_zero : Bytes → Bool
leading_zero [] = false
leading_zero (c ∷ []) = false
leading_zero (c ∷ d ∷ s) = c == b'0'

unfoldable pub is_empty : Bytes → Bool
is_empty [] = true
is_empty (c ∷ s) = false

-- The number, whether the text is a numeral, and whether it is too large.
unfoldable pub number_token : Bytes → ℕ × Bool × Bool
unfolding leading_zero is_empty
number_token s =
    if is_empty s
    then (0, false, false)
    else if leading_zero s
    then (0, false, false)
    else if all_digits s
    then accumulate 0 s
    else (0, false, false)
