-- ===== src/Fragment/Canonical/Printed.antt =====
-- The canonical form of a value is UTF-8 if the texts of the value are.
use mathlib.Core.List.{append-nil}
use curator_agent_launcher.Base.{
  subst, ◌<◌, ◌≡◌, ◌∙◌, refl, Bool, true, false, List, ◌∷◌, [], ◌++◌, inl, inr, arith, Bytes,
  Bool-cases, ℕ, All, bytes_eq,
}
use curator_agent_launcher.MemberWire.Runes.{valid_from, utf8_valid}
use curator_agent_launcher.MemberWire.Number.{all_digits}
use curator_agent_launcher.MemberWire.Quoted.{quote}
use curator_agent_launcher.Fragment.Value.{
  Value, Elements, Members, null, boolean, int, string, array, object, no_more, element, nil,
  member,
}
use curator_agent_launcher.Fragment.Canonical.{
  bytes_le, numeral, decimal_text, quoted, entries, more_entries, without_sig, unsigned,
}
use curator_agent_launcher.Fragment.Canonical.Numeral.{all_digits-numeral}
use curator_agent_launcher.Fragment.Canonical.Plain.{plain, plain_elements, plain_members}
use curator_agent_launcher.Fragment.Canonical.Order.{
  insert_member, ordered, ordered_elements, ordered_members,
}
use curator_agent_launcher.Fragment.Canonical.Utf8.{
  valid_from-append, valid_from-quoted_bytes, ascii_bytes, AllAscii,
}

abbrev pub IsUtf8 : Bytes → Type 0
IsUtf8 s = utf8_valid s ≡ true

-- Every text and every key of the value is UTF-8.
unfoldable mutual
  pub HasUtf8 : Value → Type 0
  HasUtf8 (string s) = IsUtf8 s
  HasUtf8 (array es) = AllHaveUtf8 es
  HasUtf8 (object ms) = FieldsHaveUtf8 ms
  HasUtf8 null = Unit
  HasUtf8 (boolean b) = Unit
  HasUtf8 (int neg n) = Unit

  pub AllHaveUtf8 : Elements → Type 0
  AllHaveUtf8 no_more = Unit
  AllHaveUtf8 (element v es) = HasUtf8 v × AllHaveUtf8 es

  pub FieldsHaveUtf8 : Members → Type 0
  FieldsHaveUtf8 nil = Unit
  FieldsHaveUtf8 (member k v ms) = IsUtf8 k × HasUtf8 v × FieldsHaveUtf8 ms

append-IsUtf8 : (s t : Bytes) → IsUtf8 s → IsUtf8 t → IsUtf8 (s ++ t)
append-IsUtf8 s t = valid_from-append 0 0x80 0xbf s t

-- ASCII in front.
ascii-IsUtf8 : (s t : Bytes) → AllAscii s → IsUtf8 t → IsUtf8 (s ++ t)
ascii-IsUtf8 s t h k = ascii_bytes s t h ∙ k

quoted-IsUtf8 : (s : Bytes) → IsUtf8 s → IsUtf8 (quoted s)
quoted-IsUtf8 s h =
    ascii-IsUtf8 (quote ∷ []) _ (omega arith, tt)
      (valid_from-quoted_bytes 0 0x80 0xbf s (omega arith) h)

digits-AllAscii : (ds : Bytes) → all_digits ds ≡ true → AllAscii ds
unfolding all_digits
digits-AllAscii [] h = tt
digits-AllAscii (d ∷ ds) h = (ground arith, digits-AllAscii ds (ground arith))

numeral-IsUtf8 : (n : ℕ) → IsUtf8 (numeral 20 n)
unfolding valid_from
numeral-IsUtf8 n =
    subst IsUtf8 (append-nil (numeral 20 n)) (
      ascii-IsUtf8 (numeral 20 n) [] (digits-AllAscii (numeral 20 n) (all_digits-numeral 20 n))
        refl)

decimal_text-IsUtf8 : (neg : Bool) (n : ℕ) → IsUtf8 (decimal_text neg n)
unfolding decimal_text
decimal_text-IsUtf8 true n =
    ascii-IsUtf8 (b'-' ∷ []) (numeral 20 n) (omega arith, tt) (numeral-IsUtf8 n)
decimal_text-IsUtf8 false n = numeral-IsUtf8 n

more_entries-IsUtf8 :
    (close : ℕ) (ts : List Bytes) → close < 0x80 → All IsUtf8 ts → IsUtf8 (more_entries close ts)
unfolding more_entries valid_from
more_entries-IsUtf8 close [] c h = ascii-IsUtf8 (close ∷ []) [] (c, tt) refl
more_entries-IsUtf8 close (t ∷ ts) c (valid, h) =
    ascii-IsUtf8 (b',' ∷ []) (t ++ more_entries close ts) (omega arith, tt)
      (append-IsUtf8 t (more_entries close ts) valid (more_entries-IsUtf8 close ts c h))

entries-IsUtf8 :
    (close : ℕ) (ts : List Bytes) → close < 0x80 → All IsUtf8 ts → IsUtf8 (entries close ts)
unfolding entries valid_from
entries-IsUtf8 close [] c h = ascii-IsUtf8 (close ∷ []) [] (c, tt) refl
entries-IsUtf8 close (t ∷ ts) c (valid, h) =
    append-IsUtf8 t (more_entries close ts) valid (more_entries-IsUtf8 close ts c h)

mutual
  unfolding plain HasUtf8 valid_from

  pub plain-IsUtf8 : (v : Value) → HasUtf8 v → IsUtf8 (plain v)
  plain-IsUtf8 null h = refl
  plain-IsUtf8 (boolean true) h = refl
  plain-IsUtf8 (boolean false) h = refl
  plain-IsUtf8 (int neg n) h = decimal_text-IsUtf8 neg n
  plain-IsUtf8 (string s) h = quoted-IsUtf8 s h
  plain-IsUtf8 (array es) h =
      ascii-IsUtf8 (b'[' ∷ []) (entries b']' (plain_elements es)) (omega arith, tt)
        (entries-IsUtf8 b']' (plain_elements es) (omega arith) (plain_elements-IsUtf8 es h))
  plain-IsUtf8 (object ms) h =
      ascii-IsUtf8 (b'{' ∷ []) (entries b'}' (plain_members ms)) (omega arith, tt)
        (entries-IsUtf8 b'}' (plain_members ms) (omega arith) (plain_members-IsUtf8 ms h))

  plain_elements-IsUtf8 : (es : Elements) → AllHaveUtf8 es → All IsUtf8 (plain_elements es)
  plain_elements-IsUtf8 no_more h = tt
  plain_elements-IsUtf8 (element v es) (valid, h) =
      (plain-IsUtf8 v valid, plain_elements-IsUtf8 es h)

  plain_members-IsUtf8 : (ms : Members) → FieldsHaveUtf8 ms → All IsUtf8 (plain_members ms)
  plain_members-IsUtf8 nil h = tt
  plain_members-IsUtf8 (member k v ms) (key, valid, h) = (
    append-IsUtf8 (quoted k) (b':' ∷ plain v) (quoted-IsUtf8 k key)
        (ascii-IsUtf8 (b':' ∷ []) (plain v) (omega arith, tt) (plain-IsUtf8 v valid)),
    plain_members-IsUtf8 ms h,
  )

insert_member_utf8 :
    (k : Bytes) (v : Value) (ms : Members)
    → IsUtf8 k
    → HasUtf8 v
    → FieldsHaveUtf8 ms
    → FieldsHaveUtf8 (insert_member k v ms)
unfolding insert_member HasUtf8
insert_member_utf8 k v nil key valid h = (key, valid, tt)
insert_member_utf8 k v (member x w ms) key valid (name, good, h) =
    elim (Bool-cases (bytes_le k x)) [
      | inl le ↦ rw le (key, valid, (name, good, h))
      | inr gt ↦ rw gt (name, good, insert_member_utf8 k v ms key valid h)
    ]

mutual
  unfolding ordered HasUtf8

  pub ordered-HasUtf8 : (v : Value) → HasUtf8 v → HasUtf8 (ordered v)
  ordered-HasUtf8 null h = h
  ordered-HasUtf8 (boolean b) h = h
  ordered-HasUtf8 (int neg n) h = h
  ordered-HasUtf8 (string s) h = h
  ordered-HasUtf8 (array es) h = ordered_elements_utf8 es h
  ordered-HasUtf8 (object ms) h = ordered_members_utf8 ms h

  ordered_elements_utf8 : (es : Elements) → AllHaveUtf8 es → AllHaveUtf8 (ordered_elements es)
  ordered_elements_utf8 no_more h = tt
  ordered_elements_utf8 (element v es) (valid, h) =
      (ordered-HasUtf8 v valid, ordered_elements_utf8 es h)

  ordered_members_utf8 : (ms : Members) → FieldsHaveUtf8 ms → FieldsHaveUtf8 (ordered_members ms)
  ordered_members_utf8 nil h = tt
  ordered_members_utf8 (member k v ms) (key, valid, h) =
      insert_member_utf8 k (ordered v) (ordered_members ms) key (ordered-HasUtf8 v valid)
        (ordered_members_utf8 ms h)

without_sig_utf8 : (ms : Members) → FieldsHaveUtf8 ms → FieldsHaveUtf8 (without_sig ms)
unfolding without_sig HasUtf8
without_sig_utf8 nil h = tt
without_sig_utf8 (member k v ms) (key, valid, h) =
    elim (Bool-cases (bytes_eq k (b's' ∷ b'i' ∷ b'g' ∷ []))) [
      | inl sig ↦ rw sig (without_sig_utf8 ms h)
      | inr other ↦ rw other (key, valid, without_sig_utf8 ms h)
    ]

pub unsigned-HasUtf8 : (v : Value) → HasUtf8 v → HasUtf8 (unsigned v)
unfolding HasUtf8
unsigned-HasUtf8 (object ms) h = without_sig_utf8 ms h
unsigned-HasUtf8 null h = h
unsigned-HasUtf8 (boolean b) h = h
unsigned-HasUtf8 (int neg n) h = h
unsigned-HasUtf8 (string s) h = h
unsigned-HasUtf8 (array es) h = h
