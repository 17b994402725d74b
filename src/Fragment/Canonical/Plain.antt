-- ===== src/Fragment/Canonical/Plain.antt =====
-- A printer without the sort of the canonical form, and that the reader reads what it writes.
pub mod Read
use mathlib.Core.List.{append_assoc}
use curator_agent_launcher.Base.{
  ◌&&◌, not, ℕ, zero, suc, ◌+◌, ◌*◌, ◌≤◌, ◌<◌, ◌≡◌, refl, Bool, true, false, List, ◌∷◌, [], ◌++◌,
  ◌∙◌, ap, inl, inr, arith, length, length-append, Bytes, Bool-cases, done, map, Scan, ◌>>=◌, leb,
  ◌==◌,
}
use curator_agent_launcher.MemberWire.Quoted.{quote}
use curator_agent_launcher.Fragment.Value.{
  Value, Elements, Members, null, boolean, int, string, array, object, no_more, element, nil,
  member,
}
use curator_agent_launcher.Fragment.Quoted.{str}
use curator_agent_launcher.Fragment.Reader.{
  is_space, starts, max_depth, skip_space, literal, number, is_seen, by_first, value, elements,
  members,
}
use curator_agent_launcher.Fragment.Reader.Admissible.{IsAdmissible, AreAdmissible, AreFields}
use curator_agent_launcher.Fragment.Canonical.{
  zero_text, decimal_text, quoted, quoted_bytes, more_entries, entries, entry_text,
}
use curator_agent_launcher.Fragment.Canonical.Numeral.{is_apart, number-decimal_text}
use curator_agent_launcher.Fragment.Canonical.Texts.{str-quoted_bytes}

-- The members in their own order.
unfoldable mutual
  pub plain : Value → Bytes
  plain null = zero_text
  plain (boolean true) = b't' ∷ b'r' ∷ b'u' ∷ b'e' ∷ []
  plain (boolean false) = b'f' ∷ b'a' ∷ b'l' ∷ b's' ∷ b'e' ∷ []
  plain (int neg n) = decimal_text neg n
  plain (string s) = quoted s
  plain (array es) = b'[' ∷ entries b']' (plain_elements es)
  plain (object ms) = b'{' ∷ entries b'}' (plain_members ms)

  pub plain_elements : Elements → List Bytes
  plain_elements no_more = []
  plain_elements (element v es) = plain v ∷ plain_elements es

  pub plain_members : Members → List Bytes
  plain_members nil = []
  plain_members (member k v ms) = entry_text k (plain v) ∷ plain_members ms

-- A printed value is read back, in front of what does not belong to a number.
abbrev pub IsRead : Value → Type 0
IsRead v =
    (f d : ℕ) (rest : Bytes)
    → 2 * length (plain v) ≤ f
    → IsAdmissible d v
    → is_apart rest ≡ true
    → value (suc f) d (plain v ++ rest) ≡ done (v, rest)

pub plain_null : IsRead null
unfolding value by_first plain literal IsAdmissible
plain_null f d rest h deep apart = ground arith

pub plain_boolean : (b : Bool) → IsRead (boolean b)
unfolding value by_first plain literal IsAdmissible
plain_boolean true f d rest h deep apart = ground arith
plain_boolean false f d rest h deep apart = ground arith

pub plain_int : (neg : Bool) (n : ℕ) → IsRead (int neg n)
unfolding value by_first plain IsAdmissible
plain_int neg n f d rest h (deep, safe) apart =
    let (c, s, e, first, read) = number-decimal_text neg n rest safe apart in rw e (ground arith)

pub plain_string : (s : Bytes) → IsRead (string s)
unfolding value by_first plain IsAdmissible
plain_string s f d rest h deep apart = ground (arith, str-quoted_bytes s rest)

-- The first byte of a printed value.
abbrev is_start : ℕ → Bool
is_start c = not (is_space c) && not (c == b']')

abbrev pub Starts : Bytes → Type 0
Starts s = (skip_space s ≡ s) × (starts b']' s ≡ false)

starts_lem : (c : ℕ) (s : Bytes) → is_start c ≡ true → Starts (c ∷ s)
unfolding skip_space
starts_lem c s h = ground arith

pub plain-Starts :
    (d : ℕ) (v : Value) (rest : Bytes)
    → is_apart rest ≡ true
    → IsAdmissible d v
    → Starts (plain v ++ rest)
unfolding plain IsAdmissible
plain-Starts d null rest apart h = starts_lem _ _ refl
plain-Starts d (boolean true) rest apart h = starts_lem _ _ refl
plain-Starts d (boolean false) rest apart h = starts_lem _ _ refl
plain-Starts d (int neg n) rest apart (deep, safe) =
    let (c, s, e, first, read) = number-decimal_text neg n rest safe apart in
    rw e (starts_lem c s (ground arith))
plain-Starts d (string s) rest apart h = starts_lem _ _ refl
plain-Starts d (array es) rest apart h = starts_lem _ _ refl
plain-Starts d (object ms) rest apart h = starts_lem _ _ refl

-- What stands behind an entry is no part of a number.
pub more_entries-apart :
    (close : ℕ) (ts : List Bytes) (rest : Bytes)
    → is_apart (close ∷ []) ≡ true
    → is_apart (more_entries close ts ++ rest) ≡ true
unfolding more_entries
more_entries-apart close [] rest h = h
more_entries-apart close (t ∷ ts) rest h = refl

pub entries-Starts :
    (d : ℕ) (v : Value) (es : Elements) (rest : Bytes)
    → AreAdmissible d (element v es)
    → Starts (entries b']' (plain_elements (element v es)) ++ rest)
unfolding plain entries AreAdmissible
entries-Starts d v es rest (ok, oks) = rw append_assoc (
    plain-Starts d v (more_entries b']' (plain_elements es) ++ rest)
      (more_entries-apart b']' (plain_elements es) rest refl) ok)

abbrev pub AreRead : Value → Elements → Type 0
AreRead v es =
    (f d : ℕ) (rest : Bytes)
    → 2 * length (entries b']' (plain_elements (element v es))) ≤ suc f
    → AreAdmissible d (element v es)
    → elements (suc f) d (entries b']' (plain_elements (element v es)) ++ rest)
      ≡ done (element v es, rest)

abbrev pub FieldsRead : Bytes → Value → Members → Type 0
FieldsRead k v ms =
    (f d : ℕ) (seen : List Bytes) (rest : Bytes)
    → 2 * length (entries b'}' (plain_members (member k v ms))) ≤ suc f
    → AreFields d seen (member k v ms)
    → members (suc f) d seen (entries b'}' (plain_members (member k v ms)) ++ rest)
      ≡ done (member k v ms, rest)
