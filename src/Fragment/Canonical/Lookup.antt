-- ===== src/Fragment/Canonical/Lookup.antt =====
-- Sorting the keys and looking each of them up is sorting the entries, if no key is repeated.
use curator_agent_launcher.Base.{
  subst, ap, ◌≡◌, ◌∙◌, refl, true, false, List, ◌∷◌, [], inl, inr, Bytes, Bool-cases, bytes_eq,
  bytes_eq-eq, bytes_eq_refl, All, map, if◌then◌else◌,
}
use curator_agent_launcher.Fragment.Reader.{is_seen}
use curator_agent_launcher.Fragment.Canonical.{
  bytes_le, insert_key, sort_keys, by_key, entry_text, key_texts, sorted_entries, zero_text,
}

abbrev pub Entries : Type 0
Entries = List (Bytes × Bytes)

unfoldable pub insert_entry : Bytes → Bytes → Entries → Entries
insert_entry k t [] = (k, t) ∷ []
insert_entry k t ((x, u) ∷ ms) =
    let rest = insert_entry k t ms in if bytes_le k x then (k, t) ∷ (x, u) ∷ ms else (x, u) ∷ rest

unfoldable pub sort_entries : Entries → Entries
sort_entries [] = []
sort_entries ((k, t) ∷ ms) = insert_entry k t (sort_entries ms)

-- No entry has the key of an earlier one or of `seen`.
abbrev pub AreNew : List Bytes → Entries → Type 0
AreNew seen [] = Unit
AreNew seen ((k, t) ∷ ms) = (is_seen k seen ≡ false) × AreNew (k ∷ seen) ms

key_texts-insert_entry :
    (k t : Bytes) (ms : Entries) → key_texts (insert_entry k t ms) ≡ insert_key k (key_texts ms)
unfolding insert_entry insert_key
key_texts-insert_entry k t [] = refl
key_texts-insert_entry k t ((x, u) ∷ ms) = elim (Bool-cases (bytes_le k x)) [
  | inl le ↦ rw le refl
  | inr gt ↦ rw gt (ap (λ ks. x ∷ ks) (key_texts-insert_entry k t ms))
]

key_texts-sort_entries : (ms : Entries) → key_texts (sort_entries ms) ≡ sort_keys (key_texts ms)
unfolding sort_entries sort_keys
key_texts-sort_entries [] = refl
key_texts-sort_entries ((k, t) ∷ ms) =
    key_texts-insert_entry k t (sort_entries ms) ∙ ap (insert_key k) (key_texts-sort_entries ms)

-- The entry is what a lookup of its key finds.
abbrev IsFound : Entries → Bytes × Bytes → Type 0
IsFound ms (k, t) = (found : Bytes) → by_key found k ms ≡ t

by_key-seen :
    (found k : Bytes) (seen : List Bytes) (ms : Entries)
    → is_seen k seen ≡ true
    → AreNew seen ms
    → by_key found k ms ≡ found
unfolding by_key is_seen
by_key-seen found k seen [] h new = refl
by_key-seen found k seen ((x, t) ∷ ms) h (fresh, new) = elim (Bool-cases (bytes_eq x k)) [
  | inl same ↦
      let e = bytes_eq-eq x k same in
      let clash : is_seen k seen ≡ false = subst (λ y. is_seen y seen ≡ false) e fresh in cc
  | inr other ↦ rw other (by_key-seen found k (x ∷ seen) ms (rw other h) new)
]

later : (x t : Bytes) (ms rest : Entries) → All (IsFound ms) rest → All (IsFound ((x, t) ∷ ms)) rest
unfolding by_key
later x t ms [] h = tt
later x t ms ((k, u) ∷ rest) (found, h) =
    (λ f. found (if bytes_eq x k then t else f), later x t ms rest h)

All-IsFound : (seen : List Bytes) (ms : Entries) → AreNew seen ms → All (IsFound ms) ms
unfolding by_key is_seen
All-IsFound seen [] h = tt
All-IsFound seen ((k, t) ∷ ms) (fresh, new) =
    let own : is_seen k (k ∷ seen) ≡ true = rw (bytes_eq_refl k) refl in
    (
      λ f. rw (bytes_eq_refl k) (by_key-seen t k (k ∷ seen) ms own new),
      later k t ms ms (All-IsFound (k ∷ seen) ms new),
    )

All-insert_entry :
    (P : Bytes × Bytes → Type 0) (k t : Bytes) (ms : Entries)
    → P (k, t)
    → All P ms
    → All P (insert_entry k t ms)
unfolding insert_entry
All-insert_entry P k t [] p h = (p, tt)
All-insert_entry P k t ((x, u) ∷ ms) p (q, h) = elim (Bool-cases (bytes_le k x)) [
  | inl le ↦ rw le (p, (q, h))
  | inr gt ↦ rw gt (q, All-insert_entry P k t ms p h)
]

All-sort_entries : (P : Bytes × Bytes → Type 0) (ms : Entries) → All P ms → All P (sort_entries ms)
unfolding sort_entries
All-sort_entries P [] h = tt
All-sort_entries P ((k, t) ∷ ms) (p, h) =
    All-insert_entry P k t (sort_entries ms) p (All-sort_entries P ms h)

abbrev pub entry_texts : Entries → List Bytes
entry_texts ms = map (λ (k, t). entry_text k t) ms

looked_up :
    (ms rest : Entries)
    → All (IsFound ms) rest
    → map (λ k. entry_text k (by_key zero_text k ms)) (key_texts rest) ≡ entry_texts rest
looked_up ms [] h = refl
looked_up ms ((k, t) ∷ rest) (found, h) = rw (found zero_text, looked_up ms rest h) refl

pub sorted_entries-new :
    (ms : Entries) → AreNew [] ms → sorted_entries ms ≡ entry_texts (sort_entries ms)
sorted_entries-new ms new =
    rw (← key_texts-sort_entries ms)
      (looked_up ms (sort_entries ms) (All-sort_entries (IsFound ms) ms (All-IsFound [] ms new)))
