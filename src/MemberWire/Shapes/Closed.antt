-- ===== src/MemberWire/Shapes/Closed.antt =====
-- A closed object has its keys and no other name.
use curator_agent_launcher.Base.{
  bytes_eq-eq, if◌then◌else◌, subst, suc, Bool, true, false, not, ◌&&◌, ◌||◌, List, [], ◌∷◌, String,
  Bytes, is_text, ◌≡◌, refl, length, codes, Bool-cases, inl, inr, arith,
}
use curator_agent_launcher.MemberWire.Json.{Members, nil, member}
use curator_agent_launcher.MemberWire.Shapes.{closed, has, has_all, size}

-- No two of the texts are equal.
unfoldable pub differs : String → List String → Bool
differs k [] = true
differs k (j ∷ keys) = not (is_text (codes j) k) && differs k keys

unfoldable pub distinct : List String → Bool
distinct [] = true
distinct (k ∷ keys) = differs k keys && distinct keys

-- Every name of the object is one of the keys.
unfoldable pub known : Bytes → List String → Bool
known n [] = false
known n (k ∷ keys) = is_text n k || known n keys

unfoldable pub only : Members → List String → Bool
only nil keys = true
only (member n v ms) keys = known n keys && only ms keys

-- The object without its first member of a name.
unfoldable without : Members → String → Members
without nil k = nil
without (member n v ms) k = let rest = without ms k in if is_text n k then ms else member n v rest

size-without : (o : Members) (k : String) → has o k ≡ true → size o ≡ suc (size (without o k))
unfolding size without has
size-without nil k e = cc
size-without (member n v ms) k e = ground (arith, size-without ms k)

-- Two texts that the same bytes equal are equal.
is_text_trans :
    (n : Bytes) (j k : String)
    → is_text n j ≡ true
    → is_text n k ≡ true
    → is_text (codes j) k ≡ true
is_text_trans n j k a b = subst (λ x. is_text x k ≡ true) (bytes_eq-eq n (codes j) a) b

has-without :
    (o : Members) (k j : String)
    → is_text (codes j) k ≡ false
    → has o j ≡ true
    → has (without o k) j ≡ true
unfolding without has
has-without nil k j apart e = e
has-without (member n v ms) k j apart e = elim (Bool-cases (is_text n k)) [
  | inr other ↦ ground (arith, has-without ms k j)
  | inl same ↦ elim (Bool-cases (is_text n j)) [
    | inr rest ↦ ground arith
    | inl also ↦ ground (arith, is_text_trans n j k)
  ]
]

has_all-without :
    (o : Members) (k : String) (keys : List String)
    → differs k keys ≡ true
    → has_all o keys ≡ true
    → has_all (without o k) keys ≡ true
unfolding differs has_all
has_all-without o k [] apart e = refl
has_all-without o k (j ∷ keys) apart e = ground (arith, has_all-without o k keys, has-without o k j)

only-more :
    (o : Members) (k : String) (keys : List String) → only o keys ≡ true → only o (k ∷ keys) ≡ true
unfolding only known
only-more nil k keys e = refl
only-more (member n v ms) k keys e = ground (arith, only-more ms k keys)

only-without :
    (o : Members) (k : String) (keys : List String)
    → only (without o k) keys ≡ true
    → only o (k ∷ keys) ≡ true
unfolding only known without
only-without nil k keys e = refl
only-without (member n v ms) k keys e = elim (Bool-cases (is_text n k)) [
  | inl same ↦ ground (arith, only-more ms k keys)
  | inr other ↦ ground (arith, only-without ms k keys)
]

exact-only :
    (o : Members) (keys : List String)
    → distinct keys ≡ true
    → size o ≡ length keys
    → has_all o keys ≡ true
    → only o keys ≡ true
unfolding distinct has_all only size
exact-only nil [] apart e all = refl
exact-only (member n v ms) [] apart e all = ground arith
exact-only o (k ∷ keys) apart e all = only-without o k keys (
    exact-only (without o k) keys (ground arith) (ground (arith, size-without o k))
      (ground (arith, has_all-without o k keys)))

-- If the keys are distinct, a closed object has all of them and no name besides.
pub closed-only :
    (o : Members) (keys : List String)
    → distinct keys ≡ true
    → closed o keys ≡ true
    → (has_all o keys ≡ true) × (only o keys ≡ true)
unfolding closed
closed-only o keys apart e =
    let all : has_all o keys ≡ true = ground arith in
    let same : size o ≡ length keys = ground arith in (all, exact-only o keys apart same all)
