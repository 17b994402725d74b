-- ===== src/Fragment/Reader/Sound.antt =====
-- What the reader returns: it never runs out of fuel, and a value that it returns is admissible.
use curator_agent_launcher.Base.{
  Ends-imp, Ends-bind, Bool-cases, ℕ, zero, suc, ◌+◌, ◌-◌, ◌*◌, ◌≤◌, ◌<◌, ◌≡◌, ◌⊎◌, inl, inr, true,
  false, ◌&&◌, List, ◌∷◌, [], arith, length, Bytes, ◌==◌, leb, if◌then◌else◌, Ends, bytes_eq, refl,
  Scan, refused, Bool,
}
use curator_agent_launcher.MemberWire.Quoted.Progress.{LeavesBelow}
use curator_agent_launcher.Fragment.Value.{Value, Elements, Members, null, boolean}
use curator_agent_launcher.Fragment.Quoted.{str}
use curator_agent_launcher.Fragment.Quoted.Progress.{str-Ends}
use curator_agent_launcher.Fragment.Reader.{
  max_depth, skip_space, expect, literal, digit_run, whole_digits, digits_value, in_range, integer,
  number, is_seen, separator, by_first, as_string, as_array, as_object, with_element, with_member,
  key_of, value, elements, members, whole, parse_json,
}
use curator_agent_launcher.Fragment.Reader.Admissible.{IsAdmissible, AreAdmissible, AreFields}

length-skip_space : (s : Bytes) → length (skip_space s) ≤ length s
unfolding skip_space
length-skip_space [] = omega arith
length-skip_space (c ∷ s) = ground (arith, length-skip_space s)

length-digit_run : (s : Bytes) → length (digit_run s).1 ≤ length s
unfolding digit_run
length-digit_run [] = omega arith
length-digit_run (c ∷ s) = ground (arith, length-digit_run s)

digits_value_grows : (n : ℕ) (ds : Bytes) → n ≤ digits_value n ds
unfolding digits_value
digits_value_grows n [] = omega arith
digits_value_grows n (d ∷ ds) = omega (arith, digits_value_grows (n * 10 + (d - b'0')) ds)

-- The digits are a zero alone, or their number is positive.
abbrev IsWhole : ℕ → Bytes × Bytes → Type 0
IsWhole n (ds, rest) =
    (length rest < n) × ((bytes_eq ds (b'0' ∷ []) ≡ true) ⊎ (1 ≤ digits_value 0 ds))

positive_digits : (c : ℕ) (ds : Bytes) → b'1' ≤ c → 1 ≤ digits_value 0 (c ∷ ds)
unfolding digits_value
positive_digits c ds h =
    let grows = digits_value_grows (0 * 10 + (c - b'0')) ds in
    let first : 1 ≤ 0 * 10 + (c - b'0') = omega arith in ground arith

whole_digits-Ends : (s : Bytes) → Ends (IsWhole (length s)) (whole_digits s)
unfolding whole_digits bytes_eq
whole_digits-Ends [] = tt
whole_digits-Ends (c ∷ s) = elim (Bool-cases (c == b'0')) [
  | inl nought ↦ rw nought (ground arith)
  | inr other ↦ rw other (ground (arith, length-digit_run s, positive_digits c (digit_run s).0))
]

-- A value that was read at a depth, from fewer bytes than a bound.
abbrev pub IsRead : ℕ → ℕ → Value × Bytes → Type 0
IsRead d n (v, rest) = IsAdmissible d v × (length rest < n)

in_range-nonzero :
    (d n : ℕ) (neg : Bool) (digits rest : Bytes)
    → d < max_depth
    → length rest < n
    → (neg && digits_value 0 digits == 0) ≡ false
    → Ends (IsRead d n) (in_range neg digits rest)
unfolding in_range IsAdmissible
in_range-nonzero d n neg digits rest deep fewer nz = ground arith

in_range-Ends :
    (d n : ℕ) (neg : Bool) (digits rest : Bytes)
    → d < max_depth
    → IsWhole n (digits, rest)
    → Ends (IsRead d n) (in_range neg digits rest)
unfolding in_range
in_range-Ends d n true digits rest deep (fewer, inl nought) = rw nought tt
in_range-Ends d n false digits rest deep (fewer, w) =
    in_range-nonzero d n false digits rest deep fewer refl
in_range-Ends d n true digits rest deep (fewer, inr pos) =
    in_range-nonzero d n true digits rest deep fewer (ground arith)

integer-Ends :
    (d : ℕ) (neg : Bool) (s : Bytes) → d < max_depth → Ends (IsRead d (length s)) (integer neg s)
unfolding integer
integer-Ends d neg s deep =
    Ends-bind (IsWhole (length s)) (IsRead d (length s)) (whole_digits s) _ (whole_digits-Ends s)
      λ (digits, rest) w. ground (arith, in_range-Ends d (length s) neg digits rest deep w)

literal-Ends :
    (d n : ℕ) (word : Bytes) (v : Value) (s : Bytes)
    → IsAdmissible d v
    → length s < n + length word
    → Ends (IsRead d n) (literal word v s)
unfolding literal
literal-Ends d n [] v s a h = (a, omega arith)
literal-Ends d n (c ∷ word) v [] a h = tt
literal-Ends d n (c ∷ word) v (x ∷ s) a h =
    ground (arith, literal-Ends d n word v s a (omega arith))

key_of-Ends : (s : Bytes) → Ends (LeavesBelow (length s)) (key_of s)
key_of-Ends [] = tt
key_of-Ends (c ∷ s) = ground (arith, str-Ends s)

separator-Ends : (close : ℕ) (s : Bytes) → Ends (LeavesBelow (length s)) (separator close s)
separator-Ends close [] = tt
separator-Ends close (c ∷ s) = ground arith

number-Ends : (d c : ℕ) (s : Bytes) → d < max_depth → Ends (IsRead d (suc (length s))) (number c s)
unfolding number
number-Ends d c s deep =
    ground (arith, integer-Ends d true s deep, integer-Ends d false (c ∷ s) deep)

abbrev AllRead : ℕ → ℕ → Elements × Bytes → Type 0
AllRead d n (es, rest) = AreAdmissible d es × (length rest < n)

abbrev FieldsRead : ℕ → List Bytes → ℕ → Members × Bytes → Type 0
FieldsRead d seen n (ms, rest) = AreFields d seen ms × (length rest < n)

-- A key that was not seen, and a colon behind it.
abbrev IsFresh : Bytes → List Bytes → ℕ → Bytes → Type 0
IsFresh key seen n rest = (is_seen key seen ≡ false) × (length rest < n)

colon-Ends : (n : ℕ) (s : Bytes) → length s ≤ n → Ends (λ rest. length rest < n) (expect b':' s)
colon-Ends n [] h = tt
colon-Ends n (c ∷ s) h = ground arith

IsFresh-Ends :
    (key : Bytes) (seen : List Bytes) (s : Bytes)
    → Ends
        (IsFresh key seen (length s))
        (if is_seen key seen then refused else expect b':' (skip_space s))
IsFresh-Ends key seen s = elim (Bool-cases (is_seen key seen)) [
  | inl old ↦ rw old tt
  | inr new ↦ rw new (
      Ends-imp (λ rest. length rest < length s) (IsFresh key seen (length s))
        (expect b':' (skip_space s)) (λ rest fewer. (new, fewer))
        (colon-Ends (length s) (skip_space s) (length-skip_space s)))
]

separated : (close : ℕ) (s : Bytes) → Ends (LeavesBelow (length s)) (separator close (skip_space s))
separated close s =
    Ends-imp (LeavesBelow (length (skip_space s))) _ (separator close (skip_space s))
      (λ r fewer. omega (arith, length-skip_space s)) (separator-Ends close (skip_space s))

by_first-Ends :
    (d c : ℕ) (s : Bytes) (items fields : Scan (Value × Bytes))
    → (d < max_depth → Ends (IsRead d (suc (length s))) items)
    → (d < max_depth → Ends (IsRead d (suc (length s))) fields)
    → Ends (IsRead d (suc (length s))) (by_first d c s items fields)
unfolding by_first IsAdmissible
by_first-Ends d c s items fields hi hf = elim (Bool-cases (leb max_depth d)) [
  | inl low ↦ rw low tt
  | inr high ↦
      let n = suc (length s) in
      let deep : d < max_depth = ground arith in
      let yes =
        literal-Ends d n (b't' ∷ b'r' ∷ b'u' ∷ b'e' ∷ []) (boolean true) (c ∷ s) deep
          (omega arith) in
      let nay =
        literal-Ends d n (b'f' ∷ b'a' ∷ b'l' ∷ b's' ∷ b'e' ∷ []) (boolean false) (c ∷ s) deep
          (omega arith) in
      let nought =
        literal-Ends d n (b'n' ∷ b'u' ∷ b'l' ∷ b'l' ∷ []) null (c ∷ s) deep (omega arith) in
      let text =
        Ends-bind (LeavesBelow (length s)) (IsRead d n) (str s) as_string (str-Ends s)
          λ (t, rest) fewer. (deep, omega arith) in
      rw high (
        ground (
          arith,
          hi deep,
          hf deep,
          number-Ends d c s deep,
          length-skip_space s,
          yes,
          nay,
          nought,
          text,
        ))
]

-- The number of bytes is enough fuel twice over.
mutual
  unfolding value IsAdmissible

  value-Ends : (f d : ℕ) (s : Bytes) → 2 * length s < f → Ends (IsRead d (length s)) (value f d s)
  value-Ends zero d s h = omega arith
  value-Ends (suc f) d [] h = tt
  value-Ends (suc f) d (c ∷ s) h =
      let n = suc (length s) in
      by_first-Ends d c s _ _
        (λ deep.
          Ends-bind (AllRead (suc d) (length s)) (IsRead d n) (elements f (suc d) s) as_array
            (elements-Ends f (suc d) s (omega arith))
            λ (es, rest) (ok, fewer). ((deep, ok), omega arith))
        λ deep.
          Ends-bind (FieldsRead (suc d) [] (length s)) (IsRead d n) (members f (suc d) [] s)
            as_object (members-Ends f (suc d) [] s (omega arith))
            λ (ms, rest) (ok, fewer). ((deep, ok), omega arith)

  elements-Ends :
      (f d : ℕ) (s : Bytes) → suc (2 * length s) < f → Ends (AllRead d (length s)) (elements f d s)
  elements-Ends zero d s h = omega arith
  elements-Ends (suc f) d s h =
      let start = skip_space s in
      Ends-bind (IsRead d (length start)) _ (value f d start) _
        (value-Ends f d start (omega (arith, length-skip_space s)))
        λ (v, s1) read.
          Ends-bind (LeavesBelow (length s1)) _ (separator b']' (skip_space s1)) _
            (separated b']' s1)
            λ (more, s2) fewer.
              let rest =
                Ends-bind (AllRead d (length s2)) (AllRead d (length s)) (elements f d s2)
                  (with_element v) (elements-Ends f d s2 (omega (arith, length-skip_space s)))
                  λ (es, s3) r. ((read.0, r.0), omega (arith, length-skip_space s)) in
              elim (Bool-cases more) [
                | inl e ↦ rw e rest
                | inr e ↦ rw e ((read.0, tt), omega (arith, length-skip_space s))
              ]

  members-Ends :
      (f d : ℕ) (seen : List Bytes) (s : Bytes)
      → suc (2 * length s) < f
      → Ends (FieldsRead d seen (length s)) (members f d seen s)
  members-Ends zero d seen s h = omega arith
  members-Ends (suc f) d seen s h =
      let start = skip_space s in
      Ends-bind (LeavesBelow (length start)) _ (key_of start) _ (key_of-Ends start)
        λ (key, s1) short.
          Ends-bind (IsFresh key seen (length s1)) _
            (if is_seen key seen then refused else expect b':' (skip_space s1)) _
            (IsFresh-Ends key seen s1)
            λ s2 (new, shorter).
              Ends-bind (IsRead d (length (skip_space s2))) _ (value f d (skip_space s2)) _
                (value-Ends f d (skip_space s2)
                  (omega (arith, length-skip_space s, length-skip_space s2)))
                λ (v, s3) read.
                  Ends-bind (LeavesBelow (length s3)) _ (separator b'}' (skip_space s3)) _
                    (separated b'}' s3)
                    λ (more, s4) fewer.
                      let fits : length s4 < length s =
                        omega (arith, length-skip_space s, length-skip_space s2) in
                      let rest =
                        Ends-bind (FieldsRead d (key ∷ seen) (length s4))
                          (FieldsRead d seen (length s)) (members f d (key ∷ seen) s4)
                          (with_member key v) (members-Ends f d (key ∷ seen) s4 (omega arith))
                          λ (ms, s5) r. ((new, read.0, r.0), omega arith) in
                      elim (Bool-cases more) [
                        | inl e ↦ rw e rest
                        | inr e ↦ rw e ((new, read.0, tt), fits)
                      ]

-- ParseJSON ends on every input: it refuses, or returns a value that is admissible, that is, less than
-- 64 deep, without repeated keys, and with integers of at most 2^53 - 1 and no negative zero.
pub parse_json-Ends : (s : Bytes) → Ends (IsAdmissible 0) (parse_json s)
unfolding parse_json
parse_json-Ends s =
    let start = skip_space s in
    let read =
      Ends-bind (IsRead 0 (length start)) (IsAdmissible 0) (value (suc (2 * length s)) 0 start)
        whole (value-Ends (suc (2 * length s)) 0 start (omega (arith, length-skip_space s)))
        λ (v, rest) r. ground arith in
    ground arith
