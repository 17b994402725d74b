-- ===== src/Fragment/Canonical/Order.antt =====
-- The canonical form prints the value with its members in order.
use curator_agent_launcher.Base.{
  ap, ◌≡◌, ◌∙◌, refl, true, false, List, ◌∷◌, [], inl, inr, arith, Bytes, Bool-cases, bytes_eq,
  bytes_eq-eq, bytes_eq_refl, if◌then◌else◌, ℕ, suc,
}
use curator_agent_launcher.Fragment.Value.{
  Value, Elements, Members, null, boolean, int, string, array, object, no_more, element, nil,
  member,
}
use curator_agent_launcher.Fragment.Reader.{is_seen}
use curator_agent_launcher.Fragment.Reader.Admissible.{IsAdmissible, AreAdmissible, AreFields}
use curator_agent_launcher.Fragment.Canonical.{
  bytes_le, append_canonical, element_texts, member_texts,
}
use curator_agent_launcher.Fragment.Canonical.Plain.{plain, plain_elements, plain_members}
use curator_agent_launcher.Fragment.Canonical.Lookup.{
  Entries, insert_entry, sort_entries, AreNew, entry_texts, sorted_entries-new,
}

unfoldable pub insert_member : Bytes → Value → Members → Members
insert_member k v nil = member k v nil
insert_member k v (member x w ms) =
    let rest = insert_member k v ms in
    if bytes_le k x then member k v (member x w ms) else member x w rest

-- The members of every object in the order of their keys.
unfoldable mutual
  pub ordered : Value → Value
  ordered null = null
  ordered (boolean b) = boolean b
  ordered (int neg n) = int neg n
  ordered (string s) = string s
  ordered (array es) = array (ordered_elements es)
  ordered (object ms) = object (ordered_members ms)

  pub ordered_elements : Elements → Elements
  ordered_elements no_more = no_more
  ordered_elements (element v es) = element (ordered v) (ordered_elements es)

  pub ordered_members : Members → Members
  ordered_members nil = nil
  ordered_members (member k v ms) = insert_member k (ordered v) (ordered_members ms)

abbrev plain_entries : Members → Entries
plain_entries nil = []
plain_entries (member k v ms) = (k, plain v) ∷ plain_entries ms

plain_members-entries : (ms : Members) → plain_members ms ≡ entry_texts (plain_entries ms)
unfolding plain
plain_members-entries nil = refl
plain_members-entries (member k v ms) = rw (plain_members-entries ms) refl

plain_entries-insert :
    (k : Bytes) (v : Value) (ms : Members)
    → plain_entries (insert_member k v ms) ≡ insert_entry k (plain v) (plain_entries ms)
unfolding insert_member insert_entry
plain_entries-insert k v nil = refl
plain_entries-insert k v (member x w ms) = elim (Bool-cases (bytes_le k x)) [
  | inl le ↦ rw le refl
  | inr gt ↦ rw gt (ap (λ es. (x, plain w) ∷ es) (plain_entries-insert k v ms))
]

AreFields-AreNew :
    (d : ℕ) (seen : List Bytes) (ms : Members) → AreFields d seen ms → AreNew seen (member_texts ms)
unfolding IsAdmissible append_canonical
AreFields-AreNew d seen nil h = tt
AreFields-AreNew d seen (member k v ms) (fresh, ok, h) = (fresh, AreFields-AreNew d (k ∷ seen) ms h)

mutual
  unfolding append_canonical plain ordered IsAdmissible sort_entries

  pub append_canonical-ordered :
      (d : ℕ) (v : Value) → IsAdmissible d v → append_canonical v ≡ plain (ordered v)
  append_canonical-ordered d null h = refl
  append_canonical-ordered d (boolean true) h = refl
  append_canonical-ordered d (boolean false) h = refl
  append_canonical-ordered d (int neg n) h = refl
  append_canonical-ordered d (string s) h = refl
  append_canonical-ordered d (array es) (deep, h) = rw (elements-ordered (suc d) es h) refl
  append_canonical-ordered d (object ms) (deep, h) = rw (
    sorted_entries-new (member_texts ms) (AreFields-AreNew (suc d) [] ms h),
    plain_members-entries (ordered_members ms),
    members-ordered (suc d) [] ms h,
  )

  elements-ordered :
      (d : ℕ) (es : Elements)
      → AreAdmissible d es
      → element_texts es ≡ plain_elements (ordered_elements es)
  elements-ordered d no_more h = refl
  elements-ordered d (element v es) (ok, h) =
      rw (append_canonical-ordered d v ok, elements-ordered d es h) refl

  members-ordered :
      (d : ℕ) (seen : List Bytes) (ms : Members)
      → AreFields d seen ms
      → plain_entries (ordered_members ms) ≡ sort_entries (member_texts ms)
  members-ordered d seen nil h = refl
  members-ordered d seen (member k v ms) (fresh, ok, h) =
      plain_entries-insert k (ordered v) (ordered_members ms)
      ∙ rw (append_canonical-ordered d v ok, members-ordered d (k ∷ seen) ms h) refl

-- With fewer keys seen, no more is repeated.
abbrev pub SeenIn : List Bytes → List Bytes → Type 0
SeenIn seen other = (k : Bytes) → is_seen k other ≡ false → is_seen k seen ≡ false

pub AreFields-SeenIn :
    (d : ℕ) (seen other : List Bytes) (ms : Members)
    → SeenIn seen other
    → AreFields d other ms
    → AreFields d seen ms
unfolding IsAdmissible is_seen
AreFields-SeenIn d seen other nil less h = tt
AreFields-SeenIn d seen other (member k v ms) less (fresh, ok, h) = (
  less k fresh,
  ok,
  AreFields-SeenIn d (k ∷ seen) (k ∷ other) ms (λ x e. ground (arith, less x)) h,
)

swap_seen : (k x : Bytes) (seen : List Bytes) → SeenIn (k ∷ x ∷ seen) (x ∷ k ∷ seen)
unfolding is_seen
swap_seen k x seen y h = ground arith

apart_both : (k x : Bytes) → bytes_eq k x ≡ false → bytes_eq x k ≡ false
apart_both k x h = elim (Bool-cases (bytes_eq x k)) [
  | inl same ↦
      let e = bytes_eq-eq x k same in let clash : bytes_eq k x ≡ true = rw e (bytes_eq_refl k) in cc
  | inr other ↦ other
]

AreFields-insert_member :
    (d : ℕ) (seen : List Bytes) (k : Bytes) (v : Value) (ms : Members)
    → AreFields d seen (member k v ms)
    → AreFields d seen (insert_member k v ms)
unfolding insert_member IsAdmissible is_seen
AreFields-insert_member d seen k v nil h = h
AreFields-insert_member d seen k v (member x w ms) (fresh, ok, (new, good, h)) =
    elim (Bool-cases (bytes_le k x)) [
      | inl le ↦ rw le (fresh, ok, (new, good, h))
      | inr gt ↦ rw gt (
        ground arith,
        good,
        AreFields-insert_member d (x ∷ seen) k v ms (
          ground (arith, apart_both k x),
          ok,
          AreFields-SeenIn d (k ∷ x ∷ seen) (x ∷ k ∷ seen) ms (swap_seen k x seen) h,
        ),
      )
    ]

mutual
  unfolding ordered IsAdmissible

  pub ordered-IsAdmissible : (d : ℕ) (v : Value) → IsAdmissible d v → IsAdmissible d (ordered v)
  ordered-IsAdmissible d null h = h
  ordered-IsAdmissible d (boolean b) h = h
  ordered-IsAdmissible d (int neg n) h = h
  ordered-IsAdmissible d (string s) h = h
  ordered-IsAdmissible d (array es) (deep, h) = (deep, ordered_elements-AreAdmissible (suc d) es h)
  ordered-IsAdmissible d (object ms) (deep, h) = (deep, ordered_members-AreFields (suc d) [] ms h)

  ordered_elements-AreAdmissible :
      (d : ℕ) (es : Elements) → AreAdmissible d es → AreAdmissible d (ordered_elements es)
  ordered_elements-AreAdmissible d no_more h = tt
  ordered_elements-AreAdmissible d (element v es) (ok, h) =
      (ordered-IsAdmissible d v ok, ordered_elements-AreAdmissible d es h)

  ordered_members-AreFields :
      (d : ℕ) (seen : List Bytes) (ms : Members)
      → AreFields d seen ms
      → AreFields d seen (ordered_members ms)
  ordered_members-AreFields d seen nil h = tt
  ordered_members-AreFields d seen (member k v ms) (fresh, ok, h) =
      AreFields-insert_member d seen k (ordered v) (ordered_members ms)
        (fresh, ordered-IsAdmissible d v ok, ordered_members-AreFields d (k ∷ seen) ms h)
