-- ===== src/MemberWire/Descriptor.antt =====
-- internal/memberwire/descriptor.go: `ParseDescriptorArgs`. The arrays `values`, `seen` and `used` are the
-- list of the indices that were set, with their numbers.
pub mod Distinct
use curator_agent_launcher.Base.{
  ℕ, ◌+◌, ◌*◌, ◌-◌, Bool, true, false, not, ◌&&◌, ◌||◌, ◌==◌, ltb, leb, within, Option, none, some,
  List, [], ◌∷◌, length, if◌then◌else◌, Bytes, is_text,
}

pub record DescriptorNumbers : Type 0 where
  pub request : ℕ
  pub authorization : ℕ
  pub objects : ℕ
  pub state : ℕ
  pub response : ℕ
  pub controller : ℕ

unfoldable pub index_of : Bytes → Option ℕ
index_of s =
    if is_text s "--request-fd"
    then some 0
    else if is_text s "--authorization-fd"
    then some 1
    else if is_text s "--objects-fd"
    then some 2
    else if is_text s "--state-fd"
    then some 3
    else if is_text s "--response-fd"
    then some 4
    else if is_text s "--controller-fd"
    then some 5
    else none

-- The loop over the digits; `n` is at most 999, so that nothing wraps.
unfoldable pub digits : Bytes → ℕ → Option ℕ
digits [] n = some n
digits (c ∷ s) n =
    let rest = digits s (n * 10 + (c - b'0')) in if within b'0' b'9' c then rest else none

unfoldable pub leading_zero : Bytes → Bool
leading_zero [] = false
leading_zero (c ∷ s) = c == b'0'

unfoldable pub spelled : Bytes → Option ℕ
spelled s = if length s == 0 || ltb 3 (length s) || leading_zero s then none else digits s 0

unfoldable pub seen : ℕ → List (ℕ × ℕ) → Bool
seen index [] = false
seen index ((j, n) ∷ set) = index == j || seen index set

unfoldable pub used : ℕ → List (ℕ × ℕ) → Bool
used number [] = false
used number ((j, n) ∷ set) = number == n || used number set

-- `values[index]`, which is 0 where nothing was set.
unfoldable pub value_at : ℕ → List (ℕ × ℕ) → ℕ
value_at index [] = 0
value_at index ((j, n) ∷ set) = if index == j then n else value_at index set

abbrev pub number_in : ℕ → List (ℕ × ℕ) → Option ℕ → Option (List (ℕ × ℕ))
number_in index set none = none
number_in index set (some n) =
    if ltb n 3 || ltb 255 n || used n set then none else some ((index, n) ∷ set)

-- One round of the loop.
abbrev pub round_of : Option ℕ → Bytes → List (ℕ × ℕ) → Option (List (ℕ × ℕ))
round_of none s set = none
round_of (some index) s set = if seen index set then none else number_in index set (spelled s)

-- The length of the arguments is even.
unfoldable pub descriptor_loop : List Bytes → List (ℕ × ℕ) → Option (List (ℕ × ℕ))
descriptor_loop [] set = some set
descriptor_loop (flag ∷ []) set = none
descriptor_loop (flag ∷ s ∷ args) set = elim (round_of (index_of flag) s set) [
  | none ↦ none
  | some next ↦ descriptor_loop args next
]

abbrev pub numbers_of : Option (List (ℕ × ℕ)) → Option DescriptorNumbers
numbers_of none = none
numbers_of (some set) = some (record {
  request = value_at 0 set;
  authorization = value_at 1 set;
  objects = value_at 2 set;
  state = value_at 3 set;
  response = value_at 4 set;
  controller = value_at 5 set;
})

unfoldable pub parse_descriptor_args : List Bytes → Option DescriptorNumbers
parse_descriptor_args args =
    if length args == 12 then numbers_of (descriptor_loop args []) else none
