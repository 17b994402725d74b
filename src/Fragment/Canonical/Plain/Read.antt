-- ===== src/Fragment/Canonical/Plain/Read.antt =====
-- The reader reads what the printer without a sort writes.
use mathlib.Core.List.{append_assoc}
use curator_agent_launcher.Base.{
  ℕ, zero, suc, ◌+◌, ◌≤◌, ◌<◌, ◌≡◌, refl, false, List, ◌∷◌, [], ◌++◌, arith, length, length-append,
  Bytes, done,
}
use curator_agent_launcher.MemberWire.Quoted.{quote}
use curator_agent_launcher.Fragment.Value.{
  Value, Elements, Members, null, boolean, int, string, array, object, no_more, element, nil,
  member,
}
use curator_agent_launcher.Fragment.Reader.{
  max_depth, skip_space, is_seen, by_first, value, elements, members,
}
use curator_agent_launcher.Fragment.Reader.Admissible.{IsAdmissible}
use curator_agent_launcher.Fragment.Canonical.{quoted, more_entries, entries, entry_text}
use curator_agent_launcher.Fragment.Canonical.Texts.{str-quoted_bytes}
use curator_agent_launcher.Fragment.Canonical.Plain.{
  plain, plain_elements, plain_members, IsRead, plain_null, plain_boolean, plain_int, plain_string,
  Starts, plain-Starts, entries-Starts, AreRead, FieldsRead,
}

last_element :
    (f d : ℕ) (v : Value) (s rest : Bytes)
    → value f d (skip_space s) ≡ done (v, b']' ∷ rest)
    → elements (suc f) d s ≡ done (element v no_more, rest)
unfolding elements skip_space
last_element f d v s rest read = rw read refl

next_element :
    (f d : ℕ) (v : Value) (es : Elements) (s next rest : Bytes)
    → value f d (skip_space s) ≡ done (v, b',' ∷ next)
    → elements f d next ≡ done (es, rest)
    → elements (suc f) d s ≡ done (element v es, rest)
unfolding elements skip_space
next_element f d v es s next rest read reads = rw (read, reads) refl

last_member :
    (f d : ℕ) (seen : List Bytes) (k : Bytes) (v : Value) (s rest : Bytes)
    → is_seen k seen ≡ false
    → value f d (skip_space s) ≡ done (v, b'}' ∷ rest)
    → members (suc f) d seen (quoted k ++ b':' ∷ s) ≡ done (member k v nil, rest)
unfolding members skip_space
last_member f d seen k v s rest new read = rw (str-quoted_bytes k (b':' ∷ s), new, read) refl

next_member :
    (f d : ℕ) (seen : List Bytes) (k : Bytes) (v : Value) (ms : Members) (s next rest : Bytes)
    → is_seen k seen ≡ false
    → value f d (skip_space s) ≡ done (v, b',' ∷ next)
    → members f d (k ∷ seen) next ≡ done (ms, rest)
    → members (suc f) d seen (quoted k ++ b':' ∷ s) ≡ done (member k v ms, rest)
unfolding members skip_space
next_member f d seen k v ms s next rest new read reads =
    rw (str-quoted_bytes k (b':' ∷ s), new, read, reads) refl

array_value :
    (f d : ℕ) (es : Elements) (s rest : Bytes)
    → d < max_depth
    → Starts s
    → elements f (suc d) s ≡ done (es, rest)
    → value (suc f) d (b'[' ∷ s) ≡ done (array es, rest)
unfolding value by_first
array_value f d es s rest deep (spaces, more) read = rw (spaces, more, read) (ground arith)

object_value :
    (f d : ℕ) (ms : Members) (s rest : Bytes)
    → d < max_depth
    → members f (suc d) [] (quote ∷ s) ≡ done (ms, rest)
    → value (suc f) d (b'{' ∷ quote ∷ s) ≡ done (object ms, rest)
unfolding value by_first skip_space
object_value f d ms s rest deep read = rw read (ground arith)

empty_array :
    (f d : ℕ) (rest : Bytes)
    → d < max_depth
    → value (suc f) d (b'[' ∷ b']' ∷ rest) ≡ done (array no_more, rest)
unfolding value by_first skip_space
empty_array f d rest deep = ground arith

empty_object :
    (f d : ℕ) (rest : Bytes)
    → d < max_depth
    → value (suc f) d (b'{' ∷ b'}' ∷ rest) ≡ done (object nil, rest)
unfolding value by_first skip_space
empty_object f d rest deep = ground arith

entry_assoc :
    (k t : Bytes) (ts : List Bytes) (rest : Bytes)
    → entries b'}' (entry_text k t ∷ ts) ++ rest
      ≡ quoted k ++ b':' ∷ (t ++ (more_entries b'}' ts ++ rest))
unfolding entries
entry_assoc k t ts rest = simp (append_assoc)

length-more_entries : (close : ℕ) (ts : List Bytes) → 1 ≤ length (more_entries close ts)
unfolding more_entries
length-more_entries close [] = omega arith
length-more_entries close (t ∷ ts) = omega arith

length-entry :
    (k t : Bytes) (ts : List Bytes)
    → length t + length (more_entries b'}' ts) + 2 ≤ length (entries b'}' (entry_text k t ∷ ts))
unfolding entries
length-entry k t ts = omega (
  arith,
  length-append (quoted k ++ b':' ∷ t) (more_entries b'}' ts),
  length-append (quoted k) (b':' ∷ t),
)

-- With fuel for twice its bytes, a printed value is read back.
mutual
  unfolding plain entries more_entries IsAdmissible

  pub plain-IsRead : (v : Value) → IsRead v
  plain-IsRead null f d rest h ok apart = plain_null f d rest h ok apart
  plain-IsRead (boolean b) f d rest h ok apart = plain_boolean b f d rest h ok apart
  plain-IsRead (int neg n) f d rest h ok apart = plain_int neg n f d rest h ok apart
  plain-IsRead (string s) f d rest h ok apart = plain_string s f d rest h ok apart
  plain-IsRead (array no_more) f d rest h (deep, ok) apart = empty_array f d rest deep
  plain-IsRead (array (element v es)) zero d rest h (deep, ok) apart = absurd (omega arith)
  plain-IsRead (array (element v es)) (suc f) d rest h (deep, ok) apart =
      array_value (suc f) d (element v es) _ rest deep (entries-Starts (suc d) v es rest ok)
        (elements_read v es f (suc d) rest (omega arith) ok)
  plain-IsRead (object nil) f d rest h (deep, ok) apart = empty_object f d rest deep
  plain-IsRead (object (member k v ms)) zero d rest h (deep, ok) apart = absurd (omega arith)
  plain-IsRead (object (member k v ms)) (suc f) d rest h (deep, ok) apart =
      object_value (suc f) d (member k v ms) _ rest deep
        (members_read k v ms f (suc d) [] rest (omega arith) ok)

  elements_read : (v : Value) (es : Elements) → AreRead v es
  elements_read v es zero d rest h ok = absurd (
      omega (
        arith,
        length-append (plain v) (more_entries b']' (plain_elements es)),
        length-more_entries b']' (plain_elements es),
      ))
  elements_read v no_more (suc f) d rest h (ok, oks) =
      let start = (plain-Starts d v (b']' ∷ rest) refl ok).0 in
      rw append_assoc (
        last_element (suc f) d v (plain v ++ b']' ∷ rest) rest (
          rw start (
            plain-IsRead v f d (b']' ∷ rest) (omega (arith, length-append (plain v) (b']' ∷ []))) ok
              refl)))
  elements_read v (element w es) (suc f) d rest h (ok, oks) =
      let body = entries b']' (plain_elements (element w es)) in
      let next = b',' ∷ body ++ rest in
      let start = (plain-Starts d v next refl ok).0 in
      rw append_assoc (
        next_element (suc f) d v (element w es) (plain v ++ next) (body ++ rest) rest
          (rw start (
            plain-IsRead v f d next (omega (arith, length-append (plain v) (b',' ∷ body))) ok refl))
          (elements_read w es f d rest (omega (arith, length-append (plain v) (b',' ∷ body))) oks))

  members_read : (k : Bytes) (v : Value) (ms : Members) → FieldsRead k v ms
  members_read k v ms zero d seen rest h ok =
      absurd (omega (arith, length-entry k (plain v) (plain_members ms)))
  members_read k v nil (suc f) d seen rest h (new, ok, oks) =
      let next = b'}' ∷ rest in
      let start = (plain-Starts d v next refl ok).0 in
      let read = plain-IsRead v f d next (omega (arith, length-entry k (plain v) [])) ok refl in
      rw (entry_assoc k (plain v) [] rest)
        (last_member (suc f) d seen k v (plain v ++ next) rest new (rw start read))
  members_read k v (member l w ms) (suc f) d seen rest h (new, ok, oks) =
      let body = entries b'}' (plain_members (member l w ms)) in
      let next = b',' ∷ body ++ rest in
      let start = (plain-Starts d v next refl ok).0 in
      let size = length-entry k (plain v) (plain_members (member l w ms)) in
      let read = plain-IsRead v f d next (omega (arith, size)) ok refl in
      rw (entry_assoc k (plain v) (plain_members (member l w ms)) rest) (
        next_member (suc f) d seen k v (member l w ms) (plain v ++ next) (body ++ rest) rest new
          (rw start read) (members_read l w ms f d (k ∷ seen) rest (omega (arith, size)) oks))
