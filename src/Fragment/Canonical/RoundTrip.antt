-- ===== src/Fragment/Canonical/RoundTrip.antt =====
-- The reader on canonical bytes.
use mathlib.Core.List.{append-nil}
use curator_agent_launcher.Base.{
  ap, subst, ◌≡◌, ◌∙◌, sym, refl, ◌↔◌, true, List, ◌∷◌, [], ◌++◌, inl, inr, arith, Bytes,
  Bool-cases, bytes_eq, ℕ, suc, ◌*◌, length, done,
}
use curator_agent_launcher.MemberWire.Runes.{utf8_valid}
use curator_agent_launcher.MemberWire.Number.{is_empty}
use curator_agent_launcher.Fragment.Value.{
  Value, Members, null, boolean, int, string, array, object, nil, member,
}
use curator_agent_launcher.Fragment.Reader.{is_seen, skip_space, value, parse_json}
use curator_agent_launcher.Fragment.Reader.Admissible.{IsAdmissible, AreFields}
use curator_agent_launcher.Fragment.Canonical.{without_sig, unsigned, canonical}
use curator_agent_launcher.Fragment.Canonical.Plain.{plain, plain-Starts}
use curator_agent_launcher.Fragment.Canonical.Plain.Read.{plain-IsRead}
use curator_agent_launcher.Fragment.Canonical.Printed.{
  HasUtf8, plain-IsUtf8, ordered-HasUtf8, unsigned-HasUtf8,
}
use curator_agent_launcher.Fragment.Canonical.Order.{
  ordered, append_canonical-ordered, ordered-IsAdmissible, SeenIn, AreFields-SeenIn,
}

plain_value :
    (v : Value) → IsAdmissible 0 v → value (suc (2 * length (plain v))) 0 (plain v) ≡ done (v, [])
plain_value v ok =
    let read : value (suc (2 * length (plain v))) 0 (plain v ++ []) ≡ done (v, []) =
      plain-IsRead v (2 * length (plain v)) 0 [] (omega arith) ok refl in
    rw append-nil at read

parse_json-plain :
    (v : Value) → IsAdmissible 0 v → utf8_valid (plain v) ≡ true → parse_json (plain v) ≡ done v
unfolding parse_json skip_space is_empty
parse_json-plain v ok valid =
    let start : skip_space (plain v) ≡ plain v =
      subst (λ s. skip_space s ≡ s) (append-nil (plain v)) (plain-Starts 0 v [] refl ok).0 in
    rw (valid, start, plain_value v ok) refl

forget : (k : Bytes) (seen : List Bytes) → SeenIn seen (k ∷ seen)
unfolding is_seen
forget k seen x h = ground arith

-- Fewer members of an object are as admissible.
AreFields-without_sig :
    (d : ℕ) (seen : List Bytes) (ms : Members)
    → AreFields d seen ms
    → AreFields d seen (without_sig ms)
unfolding without_sig IsAdmissible
AreFields-without_sig d seen nil h = tt
AreFields-without_sig d seen (member k v ms) (fresh, ok, h) =
    let rest = AreFields-without_sig d (k ∷ seen) ms h in
    elim (Bool-cases (bytes_eq k (b's' ∷ b'i' ∷ b'g' ∷ []))) [
      | inl sig ↦ rw sig (AreFields-SeenIn d seen (k ∷ seen) (without_sig ms) (forget k seen) rest)
      | inr other ↦ rw other (fresh, ok, rest)
    ]

unsigned-IsAdmissible : (d : ℕ) (v : Value) → IsAdmissible d v → IsAdmissible d (unsigned v)
unfolding IsAdmissible
unsigned-IsAdmissible d (object ms) (deep, h) = (deep, AreFields-without_sig (suc d) [] ms h)
unsigned-IsAdmissible d null h = h
unsigned-IsAdmissible d (boolean b) h = h
unsigned-IsAdmissible d (int neg n) h = h
unsigned-IsAdmissible d (string s) h = h
unsigned-IsAdmissible d (array es) h = h

canonical-plain : (v : Value) → IsAdmissible 0 v → canonical v ≡ plain (ordered (unsigned v))
unfolding canonical
canonical-plain v ok = append_canonical-ordered 0 (unsigned v) (unsigned-IsAdmissible 0 v ok)

-- The canonical bytes of an admissible value whose texts are UTF-8 are read as that value without its
-- top-level "sig", with the members of every object in the order of their keys.
pub parse_json-canonical :
    (v : Value)
    → IsAdmissible 0 v
    → HasUtf8 v
    → parse_json (canonical v) ≡ done (ordered (unsigned v))
parse_json-canonical v ok text = rw (canonical-plain v ok) (
    parse_json-plain (ordered (unsigned v))
      (ordered-IsAdmissible 0 (unsigned v) (unsigned-IsAdmissible 0 v ok))
      (plain-IsUtf8 (ordered (unsigned v))
        (ordered-HasUtf8 (unsigned v) (unsigned-HasUtf8 v text))))

-- Two admissible values have the same canonical bytes exactly if they are the same but for the order
-- of the members of their objects and a top-level "sig".
pub canonical_iff :
    (v w : Value)
    → IsAdmissible 0 v
    → IsAdmissible 0 w
    → (canonical v ≡ canonical w) ↔ (ordered (unsigned v) ≡ ordered (unsigned w))
canonical_iff v w ok fine = (there, back)
  where
    read :
        (x : Value)
        → IsAdmissible 0 x
        → value (suc (2 * length (canonical x))) 0 (canonical x) ≡ done (ordered (unsigned x), [])
    read x good = rw (canonical-plain x good) (
        plain_value (ordered (unsigned x))
          (ordered-IsAdmissible 0 (unsigned x) (unsigned-IsAdmissible 0 x good)))

    there : canonical v ≡ canonical w → ordered (unsigned v) ≡ ordered (unsigned w)
    there e = let first = read v ok in let second = read w fine in cc

    back : ordered (unsigned v) ≡ ordered (unsigned w) → canonical v ≡ canonical w
    back e = canonical-plain v ok ∙ ap plain e ∙ sym (canonical-plain w fine)
