-- ===== src/Fragment/Canonical/Numeral.antt =====
-- The digits that the canonical form writes are read back by the reader.
use native.Mathlib.Nat.{pow-suc}
use curator_agent_launcher.Base.{
  ℕ, zero, suc, ◌+◌, ◌-◌, ◌*◌, ◌/◌, ◌%◌, ◌^◌, ◌≤◌, ◌<◌, ◌≡◌, refl, Bool, true, false, ◌∷◌, [], ◌++◌,
  ◌∙◌, ap, subst, inl, inr, arith, length, length-append, Bytes, ltb, Bool-cases, done, bytes_eq,
  bytes_eq-eq, not, ◌&&◌, ◌||◌, ◌==◌,
}
use curator_agent_launcher.MemberWire.Number.{is_digit, all_digits}
use curator_agent_launcher.Fragment.Value.{int}
use curator_agent_launcher.Fragment.Reader.{
  digit_run, starts_digit, whole_digits, digits_value, in_range, has_fraction, integer, number,
}
use curator_agent_launcher.Fragment.Reader.Admissible.{IsSafe}
use curator_agent_launcher.Fragment.Canonical.{numeral, decimal_text}

all_digits-append :
    (ds es : Bytes) → all_digits ds ≡ true → all_digits es ≡ true → all_digits (ds ++ es) ≡ true
unfolding all_digits
all_digits-append [] es h k = k
all_digits-append (d ∷ ds) es h k = ground (arith, all_digits-append ds es)

digit_run-append :
    (ds rest : Bytes)
    → all_digits ds ≡ true
    → starts_digit rest ≡ false
    → digit_run (ds ++ rest) ≡ (ds, rest)
unfolding digit_run all_digits
digit_run-append [] [] h k = refl
digit_run-append [] (c ∷ rest) h k = ground arith
digit_run-append (d ∷ ds) rest h k = ground (arith, digit_run-append ds rest)

digits_value-append :
    (n d : ℕ) (ds : Bytes) → digits_value n (ds ++ d ∷ []) ≡ digits_value n ds * 10 + (d - b'0')
unfolding digits_value
digits_value-append n d [] = refl
digits_value-append n d (x ∷ ds) = digits_value-append (n * 10 + (x - b'0')) d ds

tenth : (n f : ℕ) → n < 10 ^ suc f → n / 10 < 10 ^ f
tenth n f h = let whole : n < 10 ^ f * 10 = rw pow-suc at h in omega arith

digits_value-numeral : (f n : ℕ) → n < 10 ^ f → digits_value 0 (numeral f n) ≡ n
unfolding numeral digits_value
digits_value-numeral zero n h = omega arith
digits_value-numeral (suc f) n h = elim (Bool-cases (ltb n 10)) [
  | inl one ↦ rw one (ground arith)
  | inr some_more ↦ rw some_more (
      digits_value-append 0 (b'0' + n % 10) (numeral f (n / 10))
      ∙ rw (digits_value-numeral f (n / 10) (tenth n f h)) (omega arith))
]

length-numeral : (f k n : ℕ) → n < 10 ^ suc k → length (numeral f n) ≤ suc k
unfolding numeral
length-numeral zero k n h = omega arith
length-numeral (suc f) zero n h = ground arith
length-numeral (suc f) (suc k) n h = ground (
  arith,
  length-numeral f k (n / 10) (tenth n (suc k) h),
  length-append (numeral f (n / 10)) ((b'0' + n % 10) ∷ []),
)

-- A numeral of a positive number is a digit that is not zero, and digits behind it.
abbrev IsPositive : Bytes → Type 0
IsPositive ds =
    (c : ℕ) × (es : Bytes) × (ds ≡ c ∷ es) × (b'1' ≤ c) × (c ≤ b'9') × (all_digits es ≡ true)

numeral-IsPositive : (f n : ℕ) → 1 ≤ n → n < 10 ^ f → IsPositive (numeral f n)
unfolding numeral all_digits
numeral-IsPositive zero n h k = absurd (omega arith)
numeral-IsPositive (suc f) n h k = elim (Bool-cases (ltb n 10)) [
  | inl one ↦ rw one (b'0' + n, [], refl, omega arith, ground arith, refl)
  | inr some_more ↦
      let (c, es, e, low, high, ds) = numeral-IsPositive f (n / 10) (ground arith) (tenth n f k) in
      rw (some_more, e)
        (
          c,
          es ++ (b'0' + n % 10) ∷ [],
          refl,
          low,
          high,
          all_digits-append es ((b'0' + n % 10) ∷ []) ds (ground arith),
        )
]

pub all_digits-numeral : (f n : ℕ) → all_digits (numeral f n) ≡ true
unfolding numeral all_digits
all_digits-numeral zero n = refl
all_digits-numeral (suc f) n = elim (Bool-cases (ltb n 10)) [
  | inl one ↦ rw one (ground arith)
  | inr some_more ↦ rw some_more (
      all_digits-append (numeral f (n / 10)) ((b'0' + n % 10) ∷ []) (all_digits-numeral f (n / 10))
        (ground arith))
]

-- Nothing behind a number may belong to it.
abbrev pub is_apart : Bytes → Bool
is_apart rest = not (starts_digit rest) && not (has_fraction rest)

whole_digits-nought :
    (rest : Bytes)
    → starts_digit rest ≡ false
    → whole_digits (numeral 20 0 ++ rest) ≡ done (numeral 20 0, rest)
unfolding whole_digits numeral
whole_digits-nought rest apart = rw apart refl

whole_digits-numeral :
    (n : ℕ) (rest : Bytes)
    → n < 10 ^ 20
    → starts_digit rest ≡ false
    → whole_digits (numeral 20 n ++ rest) ≡ done (numeral 20 n, rest)
unfolding whole_digits
whole_digits-numeral zero rest h apart = whole_digits-nought rest apart
whole_digits-numeral (suc n) rest h apart =
    let (c, es, e, low, high, ds) = numeral-IsPositive 20 (suc n) (omega arith) h in
    rw e (ground (arith, digit_run-append es rest ds apart))

is_nought : (ds : Bytes) → bytes_eq ds (b'0' ∷ []) ≡ true → digits_value 0 ds ≡ 0
unfolding digits_value
is_nought ds h = rw (bytes_eq-eq ds (b'0' ∷ []) h) refl

in_range-numeral :
    (neg : Bool) (n : ℕ) (rest : Bytes)
    → IsSafe neg n
    → in_range neg (numeral 20 n) rest ≡ done (int neg n, rest)
unfolding in_range
in_range-numeral neg n rest (small, nz) =
    let fits : n < 10 ^ 16 = omega arith in
    let same = digits_value-numeral 20 n (omega arith) in
    rw same (ground (arith, length-numeral 20 15 n fits, is_nought (numeral 20 n)))

integer-numeral :
    (neg : Bool) (n : ℕ) (rest : Bytes)
    → IsSafe neg n
    → is_apart rest ≡ true
    → integer neg (numeral 20 n ++ rest) ≡ done (int neg n, rest)
unfolding integer
integer-numeral neg n rest safe apart =
    rw (whole_digits-numeral n rest (omega arith) (ground arith))
      (ground (arith, in_range-numeral neg n rest safe))

nought_text : numeral 20 0 ≡ b'0' ∷ []
unfolding numeral
nought_text = refl

-- A number is read back from its canonical text, in front of what does not belong to it.
pub number-decimal_text :
    (neg : Bool) (n : ℕ) (rest : Bytes)
    → IsSafe neg n
    → is_apart rest ≡ true
    → (c : ℕ) × (s : Bytes) × (decimal_text neg n ++ rest ≡ c ∷ s)
      × ((c == b'-' || is_digit c) ≡ true)
      × (number c s ≡ done (int neg n, rest))
unfolding number decimal_text
number-decimal_text true n rest safe apart =
    (b'-', numeral 20 n ++ rest, refl, refl, integer-numeral true n rest safe apart)
number-decimal_text false zero rest safe apart =
    let read : integer false (b'0' ∷ rest) ≡ done (int false 0, rest) =
      subst (λ ds. integer false (ds ++ rest) ≡ done (int false 0, rest)) nought_text
        (integer-numeral false 0 rest safe apart) in
    (b'0', rest, ap (λ t. t ++ rest) nought_text, refl, read)
number-decimal_text false (suc n) rest safe apart =
    let (c, es, e, low, high, ds) = numeral-IsPositive 20 (suc n) (omega arith) (omega arith) in
    let read : integer false (c ∷ es ++ rest) ≡ done (int false (suc n), rest) =
      subst (λ ds. integer false (ds ++ rest) ≡ done (int false (suc n), rest)) e
        (integer-numeral false (suc n) rest safe apart) in
    (c, es ++ rest, ap (λ t. t ++ rest) e, ground arith, ground arith)
