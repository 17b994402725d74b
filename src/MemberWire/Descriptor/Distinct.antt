-- ===== src/MemberWire/Descriptor/Distinct.antt =====
-- The six numbers that are accepted.
use curator_agent_launcher.Base.{
  ==_iff, zero, subst, ℕ, suc, ◌+◌, ◌≡◌, refl, Bool, true, false, not, ◌&&◌, ◌||◌, ◌==◌, ltb,
  within, Option, none, some, List, [], ◌∷◌, length, Bytes, Bool-cases, Option-cases, inl, inr,
  arith,
}
use curator_agent_launcher.MemberWire.Descriptor.{
  DescriptorNumbers, index_of, spelled, seen, used, value_at, number_in, round_of, descriptor_loop,
  numbers_of, parse_descriptor_args,
}

-- What the loop keeps: known indices, numbers in range, and none of either twice.
unfoldable sound : List (ℕ × ℕ) → Bool
sound [] = true
sound ((i, n) ∷ set) =
    ltb i 6 && within 3 255 n && not (seen i set) && not (used n set) && sound set

index_of-range : (s : Bytes) (i : ℕ) → index_of s ≡ some i → ltb i 6 ≡ true
unfolding index_of
index_of-range s i e = ground arith

number_in-sound :
    (i : ℕ) (set next : List (ℕ × ℕ)) (n : Option ℕ)
    → ltb i 6 ≡ true
    → seen i set ≡ false
    → sound set ≡ true
    → number_in i set n ≡ some next
    → (sound next ≡ true) × (length next ≡ suc (length set))
unfolding sound
number_in-sound i set next none a b c e = cc
number_in-sound i set next (some n) a b c e =
    elim (Bool-cases (ltb n 3 || ltb 255 n || used n set)) [
      | inl bad ↦ cc (rw bad at e)
      | inr good ↦
          let same : ((i, n) ∷ set) ≡ next = cc (rw good at e) in
          subst (λ x. (sound x ≡ true) × (length x ≡ suc (length set))) same (ground arith, refl)
    ]

round_of-sound :
    (index : Option ℕ) (s : Bytes) (set next : List (ℕ × ℕ))
    → ((i : ℕ) → index ≡ some i → ltb i 6 ≡ true)
    → sound set ≡ true
    → round_of index s set ≡ some next
    → (sound next ≡ true) × (length next ≡ suc (length set))
round_of-sound none s set next range ok e = cc
round_of-sound (some i) s set next range ok e = elim (Bool-cases (seen i set)) [
  | inl again ↦ cc (rw again at e)
  | inr new ↦ number_in-sound i set next (spelled s) (range i refl) new ok (rw new at e)
]

descriptor_loop-sound :
    (args : List Bytes) (set out : List (ℕ × ℕ))
    → sound set ≡ true
    → descriptor_loop args set ≡ some out
    → (sound out ≡ true) × (length out + length out ≡ length set + length set + length args)
unfolding descriptor_loop
descriptor_loop-sound [] set out ok e =
    subst (λ x. (sound x ≡ true) × (length x + length x ≡ length set + length set + 0)) (cc e)
      (ok, omega arith)
descriptor_loop-sound (flag ∷ []) set out ok e = cc
descriptor_loop-sound (flag ∷ s ∷ args) set out ok e =
    elim (Option-cases (round_of (index_of flag) s set)) [
      | inl bad ↦ cc (rw (bad, descriptor_loop) at e)
      | inr (next, good) ↦
          let (ok', more) =
            round_of-sound (index_of flag) s set next (index_of-range flag) ok good in
          let (end, size) =
            descriptor_loop-sound args next out ok' (rw (good, descriptor_loop) at e) in
          (end, omega (arith, more, size))
    ]

-- One for an index that was set.
abbrev tick : Bool → ℕ
tick true = 1
tick false = 0

abbrev tally : List (ℕ × ℕ) → ℕ
tally set =
    tick (seen 0 set)
    + tick (seen 1 set)
    + tick (seen 2 set)
    + tick (seen 3 set)
    + tick (seen 4 set)
    + tick (seen 5 set)

tally-more :
    (i n : ℕ) (set : List (ℕ × ℕ))
    → ltb i 6 ≡ true
    → seen i set ≡ false
    → tally ((i, n) ∷ set) ≡ suc (tally set)
unfolding seen
tally-more zero n set a b = ground arith
tally-more (suc zero) n set a b = ground arith
tally-more (suc (suc zero)) n set a b = ground arith
tally-more (suc (suc (suc zero))) n set a b = ground arith
tally-more (suc (suc (suc (suc zero)))) n set a b = ground arith
tally-more (suc (suc (suc (suc (suc zero))))) n set a b = ground arith
tally-more (suc (suc (suc (suc (suc (suc i)))))) n set a b = ground arith

length-tally : (set : List (ℕ × ℕ)) → sound set ≡ true → length set ≡ tally set
unfolding sound seen
length-tally [] ok = refl
length-tally ((i, n) ∷ set) ok =
    omega (arith, length-tally set (ground arith), tally-more i n set (ground arith) (ground arith))

seen-range :
    (i n : ℕ) (set : List (ℕ × ℕ))
    → seen i set ≡ true
    → sound set ≡ true
    → (used (value_at i set) set && within 3 255 (value_at i set)) ≡ true
unfolding seen used value_at sound
seen-range i n [] e ok = cc
seen-range i n ((j, m) ∷ set) e ok = ground (arith, seen-range i n set)

-- Two indices never have the same number.
value_at-apart :
    (i j : ℕ) (set : List (ℕ × ℕ))
    → (i == j) ≡ false
    → seen i set ≡ true
    → seen j set ≡ true
    → sound set ≡ true
    → (value_at i set == value_at j set) ≡ false
unfolding seen value_at sound
value_at-apart i j [] apart a b ok = cc
value_at-apart i j ((k, m) ∷ set) apart a b ok =
    ground (arith, value_at-apart i j set, seen-range i 0 set, seen-range j 0 set)

all_seen :
    (set : List (ℕ × ℕ))
    → sound set ≡ true
    → length set ≡ 6
    → (seen 0 set && seen 1 set && seen 2 set && seen 3 set && seen 4 set && seen 5 set) ≡ true
all_seen set ok six = ground (arith, length-tally set ok)

unfoldable pub listed : DescriptorNumbers → List ℕ
listed d = d.request ∷ d.authorization ∷ d.objects ∷ d.state ∷ d.response ∷ d.controller ∷ []

unfoldable pub occurs : ℕ → List ℕ → Bool
occurs n [] = false
occurs n (m ∷ ns) = n == m || occurs n ns

-- No number stands twice, and all are from 3 to 255.
unfoldable pub proper : List ℕ → Bool
proper [] = true
proper (n ∷ ns) = within 3 255 n && not (occurs n ns) && proper ns

numbers-proper :
    (set : List (ℕ × ℕ))
    → sound set ≡ true
    → length set ≡ 6
    → proper (
        value_at 0 set
        ∷ value_at 1 set
        ∷ value_at 2 set
        ∷ value_at 3 set
        ∷ value_at 4 set
        ∷ value_at 5 set
        ∷ [])
      ≡ true
unfolding proper occurs
numbers-proper set ok six =
    let all = all_seen set ok six in
    let apart =
      λ (i : ℕ) (j : ℕ) (e : (i == j) ≡ false) (a : seen i set ≡ true) (b : seen j set ≡ true).
        value_at-apart i j set e a b ok in
    let range = λ (i : ℕ) (a : seen i set ≡ true). seen-range i 0 set a ok in
    let s0 : seen 0 set ≡ true = ground arith in
    let s1 : seen 1 set ≡ true = ground arith in
    let s2 : seen 2 set ≡ true = ground arith in
    let s3 : seen 3 set ≡ true = ground arith in
    let s4 : seen 4 set ≡ true = ground arith in
    let s5 : seen 5 set ≡ true = ground arith in
    rw
      (
        apart 0 1 refl s0 s1,
        apart 0 2 refl s0 s2,
        apart 0 3 refl s0 s3,
        apart 0 4 refl s0 s4,
        apart 0 5 refl s0 s5,
        apart 1 2 refl s1 s2,
        apart 1 3 refl s1 s3,
        apart 1 4 refl s1 s4,
        apart 1 5 refl s1 s5,
        apart 2 3 refl s2 s3,
        apart 2 4 refl s2 s4,
        apart 2 5 refl s2 s5,
        apart 3 4 refl s3 s4,
        apart 3 5 refl s3 s5,
        apart 4 5 refl s4 s5,
      )
      (ground (arith, range 0 s0, range 1 s1, range 2 s2, range 3 s3, range 4 s4, range 5 s5))

-- The numbers of the six descriptors, once they are accepted, are from 3 to 255, and no two are equal.
pub parse_descriptor_args-proper :
    (args : List Bytes) (d : DescriptorNumbers)
    → parse_descriptor_args args ≡ some d
    → proper (listed d) ≡ true
unfolding parse_descriptor_args listed sound
parse_descriptor_args-proper args d e = elim (Bool-cases (length args == 12)) [
  | inr other ↦ cc (rw (other, parse_descriptor_args) at e)
  | inl twelve ↦ elim (Option-cases (descriptor_loop args [])) [
    | inl bad ↦ cc (rw (twelve, bad) at e)
    | inr (out, good) ↦
        let (ok, size) = descriptor_loop-sound args [] out refl good in
        let made : numbers_of (some out) ≡ some d = rw (twelve, good) at e in
        subst (λ x. proper (listed x) ≡ true) (cc made)
          (numbers-proper out ok (omega (arith, size, (==_iff (length args) 12).0 twelve)))
  ]
]
