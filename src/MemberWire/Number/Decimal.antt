-- ===== src/MemberWire/Number/Decimal.antt =====
-- `number_token` against the value of a numeral as a sum of digits times powers of ten.
use native.Mathlib.Nat.{pow-suc}
use curator_agent_launcher.Base.{
  ℕ, zero, suc, ◌+◌, ◌-◌, ◌*◌, ◌^◌, ◌≤◌, ◌≡◌, Bool, true, false, ◌&&◌, not, [], ◌∷◌, arith, inl,
  inr, ◌/◌, ltb, leb, if◌then◌else◌, length, Bytes, Bool-cases,
}
use curator_agent_launcher.MemberWire.Number.{
  safe_integer, all_digits, accumulate, leading_zero, is_empty, number_token,
}

-- The value of a digit string: each digit is worth ten to the number of digits behind it.
abbrev pub decimal : Bytes → ℕ
decimal [] = 0
decimal (c ∷ s) = (c - b'0') * 10 ^ length s + decimal s

-- Digits only, at least one, and no leading zero but in "0" itself.
abbrev pub is_numeral : Bytes → Bool
is_numeral s = not (is_empty s) && not (leading_zero s) && all_digits s

le-mul : (n p : ℕ) → 1 ≤ p → n ≤ n * p
le-mul n p h = grind arith

le-mul-pow : (n k : ℕ) → n ≤ n * 10 ^ k
le-mul-pow n zero = omega arith
le-mul-pow n (suc k) = rw pow-suc (omega (arith, le-mul-pow n k))

-- One more digit is read: the value of the whole stays the same.
shift_digit :
    (n c : ℕ) (s : Bytes)
    → n * 10 ^ suc (length s) + decimal (c ∷ s) ≡ (n * 10 + (c - b'0')) * 10 ^ length s + decimal s
shift_digit n c s = rw pow-suc (omega arith)

-- The test is exactly that the number read so far, with the next digit, stays in range.
digit_fits :
    (n d : ℕ) → d ≤ 9 → ltb ((safe_integer - d) / 10) n ≡ not (leb (n * 10 + d) safe_integer)
digit_fits n d h = ground arith

too_large : (m k v : ℕ) → leb m safe_integer ≡ false → leb (m * 10 ^ k + v) safe_integer ≡ false
too_large m k v h = ground (arith, le-mul-pow m k)

abbrev pub bounded : ℕ → ℕ × Bool × Bool
bounded v = if leb v safe_integer then (v, true, false) else (0, true, true)

accumulate-bounded :
    (n : ℕ) (s : Bytes)
    → n ≤ safe_integer
    → all_digits s ≡ true
    → accumulate n s ≡ bounded (n * 10 ^ length s + decimal s)
unfolding accumulate all_digits
accumulate-bounded n [] le h = ground arith
accumulate-bounded n (c ∷ s) le h =
    let d = c - b'0' in
    let small : d ≤ 9 = ground arith in
    elim (Bool-cases (leb (n * 10 + d) safe_integer)) [
      | inl fits ↦
          rw (digit_fits n d small, fits, shift_digit n c s)
            (accumulate-bounded (n * 10 + d) s (ground arith) (ground arith))
      | inr big ↦ rw (
        digit_fits n d small,
        big,
        shift_digit n c s,
        too_large (n * 10 + d) (length s) (decimal s) big,
      )
    ]

-- Every text is read as its decimal value if it is a numeral of at most `safe_integer`, flagged as
-- too large if it is a larger numeral, and flagged as no numeral otherwise.
pub number_token-decimal :
    (s : Bytes) → number_token s ≡ (if is_numeral s then bounded (decimal s) else (0, false, false))
unfolding number_token
number_token-decimal s = ground (arith, accumulate-bounded 0 s (omega arith))
