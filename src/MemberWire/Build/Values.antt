-- ===== src/MemberWire/Build/Values.antt =====
-- `build_value` over the tokens of a value that repeats no name: it returns the value.
use Prim.Native.Nat.{max}
use curator_agent_launcher.Base.{
  length, sym, ℕ, zero, suc, ◌+◌, ◌≤◌, ◌≡◌, refl, ◌∙◌, ap, Bool, false, ◌||◌, List, [], ◌∷◌, arith,
  bytes_eq, Bytes,
}
use curator_agent_launcher.MemberWire.Tokens.{Token}
use curator_agent_launcher.MemberWire.Json.{
  Value, object, array, string, uint, yes_value, no_value, null, Members, nil, member, Items, end,
  item, value_tokens, member_tokens, more_members, item_tokens, more_items, contains, repeats,
  member_repeats, item_repeats,
}
use curator_agent_launcher.MemberWire.Build.{
  built, ◌>>=◌, set_member, add_item, skip_comma, build_value, build_members, build_items,
}

-- Fuel enough for a value: one for each of its tokens is.
unfoldable mutual
  pub cost : Value → ℕ
  cost (object ms) = 1 + member_cost ms
  cost (array xs) = 1 + item_cost xs
  cost (string s) = 1
  cost (uint n) = 1
  cost yes_value = 1
  cost no_value = 1
  cost null = 1

  pub member_cost : Members → ℕ
  member_cost nil = 1
  member_cost (member k v ms) = 1 + (cost v + member_cost ms)

  pub item_cost : Items → ℕ
  item_cost end = 1
  item_cost (item v xs) = 1 + max (cost v) (item_cost xs)

abbrev append_members : Members → Members → Members
append_members nil ms = ms
append_members (member k v o) ms = member k v (append_members o ms)

abbrev append_items : Items → Items → Items
append_items end xs = xs
append_items (item v a) xs = item v (append_items a xs)

append_members-member :
    (o : Members) (k : Bytes) (v : Value) (ms : Members)
    → append_members (append_members o (member k v nil)) ms ≡ append_members o (member k v ms)
append_members-member nil k v ms = refl
append_members-member (member j w o) k v ms = ap (member j w) (append_members-member o k v ms)

append_items-item :
    (a : Items) (v : Value) (xs : Items)
    → append_items (append_items a (item v end)) xs ≡ append_items a (item v xs)
append_items-item end v xs = refl
append_items-item (item w a) v xs = ap (item w) (append_items-item a v xs)

append_members-nil : (o : Members) → append_members o nil ≡ o
append_members-nil nil = refl
append_members-nil (member j w o) = ap (member j w) (append_members-nil o)

append_items-end : (a : Items) → append_items a end ≡ a
append_items-end end = refl
append_items-end (item w a) = ap (item w) (append_items-end a)

add_item-append : (v : Value) (a : Items) → add_item v a ≡ append_items a (item v end)
unfolding add_item
add_item-append v end = refl
add_item-append v (item w a) = ap (item w) (add_item-append v a)

has_name : Members → Bytes → Bool
has_name nil k = false
has_name (member j w o) k = bytes_eq j k || has_name o k

set_member-append :
    (k : Bytes) (v : Value) (o : Members)
    → has_name o k ≡ false
    → set_member k v o ≡ append_members o (member k v nil)
unfolding set_member has_name
set_member-append k v nil h = refl
set_member-append k v (member j w o) h = ground (arith, set_member-append k v o)

has_name-append :
    (o : Members) (k : Bytes) (v : Value) (j : Bytes)
    → has_name (append_members o (member k v nil)) j ≡ bytes_eq k j || has_name o j
unfolding has_name
has_name-append nil k v j = refl
has_name-append (member i w o) k v j = ground (arith, has_name-append o k v j)

-- The names that the check has seen are those of the map.
abbrev Knows : List Bytes → Members → Type 0
Knows names o = (j : Bytes) → contains names j ≡ has_name o j

empty_Knows : Knows [] nil
unfolding contains has_name
empty_Knows j = refl

-- The name of a member is new, and so are those of its value and behind it.
apart : (b r s : Bool) → (b || (r || s)) ≡ false → (b ≡ false) × (r ≡ false) × (s ≡ false)
apart b r s h = ground arith

set_members :
    (names : List Bytes) (k : Bytes) (v : Value) (o ms : Members)
    → Knows names o
    → contains names k ≡ false
    → append_members (set_member k v o) ms ≡ append_members o (member k v ms)
set_members names k v o ms h fresh =
    ap (λ x. append_members x ms) (set_member-append k v o (sym (h k) ∙ fresh))
    ∙ append_members-member o k v ms

Knows-set :
    (names : List Bytes) (k : Bytes) (v : Value) (o : Members)
    → Knows names o
    → contains names k ≡ false
    → Knows (k ∷ names) (set_member k v o)
unfolding contains
Knows-set names k v o h fresh j =
    ground (arith, set_member-append k v o, has_name-append o k v j, h j, h k)

skip_more_members :
    (ms : Members) (rest : List Token)
    → skip_comma (more_members ms rest) ≡ built (member_tokens ms rest)
unfolding more_members
skip_more_members nil rest = refl
skip_more_members (member k v ms) rest = refl

skip_more_items :
    (xs : Items) (rest : List Token) → skip_comma (more_items xs rest) ≡ built (item_tokens xs rest)
unfolding more_items
skip_more_items end rest = refl
skip_more_items (item (object ms) xs) rest = refl
skip_more_items (item _ xs) rest = refl

build_items-value :
    (f : ℕ) (a : Items) (v : Value) (ts : List Token)
    → build_items (suc f) a (value_tokens v ts) ≡ (
        build_value f (value_tokens v ts) >>= λ (w, rest).
        skip_comma rest >>= λ rest'. build_items f (add_item w a) rest')
unfolding build_items value_tokens
build_items-value f a (object ms) ts = refl
build_items-value f a _ ts = refl

mutual
  unfolding build_value value_tokens repeats cost

  build_value-tokens :
      (v : Value) (f : ℕ) (rest : List Token)
      → cost v ≤ f
      → repeats v ≡ false
      → build_value f (value_tokens v rest) ≡ built (v, rest)
  build_value-tokens (object ms) (suc f) rest le once =
      rw (build_members-tokens ms f [] nil rest (omega arith) (λ j. empty_Knows j) once)
  build_value-tokens (array xs) (suc f) rest le once =
      rw (build_items-tokens xs f end rest (omega arith) once)
  build_value-tokens (string s) (suc f) rest le once = refl
  build_value-tokens (uint s) (suc f) rest le once = refl
  build_value-tokens yes_value (suc f) rest le once = refl
  build_value-tokens no_value (suc f) rest le once = refl
  build_value-tokens null (suc f) rest le once = refl
  build_value-tokens (object ms) zero rest le once = absurd (omega arith)
  build_value-tokens _ zero rest le once = absurd (omega arith)

  build_members-tokens :
      (ms : Members) (f : ℕ) (names : List Bytes) (o : Members) (rest : List Token)
      → member_cost ms ≤ f
      → Knows names o
      → member_repeats names ms ≡ false
      → build_members f o (member_tokens ms rest) ≡ built (append_members o ms, rest)
  build_members-tokens nil zero names o rest le h once = absurd (omega arith)
  build_members-tokens nil (suc f) names o rest le h once = rw append_members-nil
  build_members-tokens (member k v ms) zero names o rest le h once = absurd (omega arith)
  build_members-tokens (member k v ms) (suc f) names o rest le h once =
      let (fresh, once_v, once_ms) =
        apart (contains names k) (repeats v) (member_repeats (k ∷ names) ms) once in
      rw
        (
          build_value-tokens v f (more_members ms rest) (omega arith) once_v,
          skip_more_members ms rest,
        )
        (build_members-tokens ms f (k ∷ names) (set_member k v o) rest (omega arith)
            (Knows-set names k v o h fresh) once_ms
          ∙ ap (λ x. built (x, rest)) (set_members names k v o ms h fresh))

  build_items-tokens :
      (xs : Items) (f : ℕ) (a : Items) (rest : List Token)
      → item_cost xs ≤ f
      → item_repeats xs ≡ false
      → build_items f a (item_tokens xs rest) ≡ built (append_items a xs, rest)
  build_items-tokens end zero a rest le once = absurd (omega arith)
  build_items-tokens end (suc f) a rest le once = rw append_items-end
  build_items-tokens (item v xs) zero a rest le once = absurd (omega arith)
  build_items-tokens (item v xs) (suc f) a rest le once =
      let (_, once_v, once_xs) = apart false (repeats v) (item_repeats xs) once in
      build_items-value f a v (more_items xs rest)
      ∙ rw
          (
            build_value-tokens v f (more_items xs rest) (omega arith) once_v,
            skip_more_items xs rest,
          )
          (build_items-tokens xs f (add_item v a) rest (omega arith) once_xs
            ∙ ap (λ x. built (x, rest))
                (ap (λ x. append_items x xs) (add_item-append v a) ∙ append_items-item a v xs))

cost-pos : (v : Value) → 1 ≤ cost v
unfolding cost
cost-pos (object ms) = omega arith
cost-pos _ = omega arith

item_cost-pos : (xs : Items) → 1 ≤ item_cost xs
unfolding cost
item_cost-pos end = omega arith
item_cost-pos _ = omega arith

mutual
  unfolding value_tokens cost

  cost-le-value_tokens :
      (v : Value) (rest : List Token) → cost v + length rest ≤ length (value_tokens v rest)
  cost-le-value_tokens (object ms) rest = omega (arith, cost-le-member_tokens ms rest)
  cost-le-value_tokens (array xs) rest = omega (arith, cost-le-item_tokens xs rest)
  cost-le-value_tokens (string s) rest = omega arith
  cost-le-value_tokens (uint n) rest = omega arith
  cost-le-value_tokens yes_value rest = omega arith
  cost-le-value_tokens no_value rest = omega arith
  cost-le-value_tokens null rest = omega arith

  cost-le-member_tokens :
      (ms : Members) (rest : List Token)
      → member_cost ms + length rest ≤ length (member_tokens ms rest)
  cost-le-member_tokens nil rest = omega arith
  cost-le-member_tokens (member k v ms) rest =
      omega (arith, cost-le-value_tokens v (more_members ms rest), cost-le-more_members ms rest)

  cost-le-more_members :
      (ms : Members) (rest : List Token)
      → member_cost ms + length rest ≤ length (more_members ms rest)
  cost-le-more_members nil rest = omega arith
  cost-le-more_members (member k v ms) rest =
      omega (arith, cost-le-value_tokens v (more_members ms rest), cost-le-more_members ms rest)

  cost-le-item_tokens :
      (xs : Items) (rest : List Token) → item_cost xs + length rest ≤ length (item_tokens xs rest)
  cost-le-item_tokens end rest = omega arith
  cost-le-item_tokens (item v xs) rest = omega (
    arith,
    cost-pos v,
    item_cost-pos xs,
    cost-le-value_tokens v (more_items xs rest),
    cost-le-more_items xs rest,
  )

  cost-le-more_items :
      (xs : Items) (rest : List Token) → item_cost xs + length rest ≤ length (more_items xs rest)
  cost-le-more_items end rest = omega arith
  cost-le-more_items (item v xs) rest = omega (
    arith,
    cost-pos v,
    item_cost-pos xs,
    cost-le-value_tokens v (more_items xs rest),
    cost-le-more_items xs rest,
  )

-- The value of the tokens of a value that repeats no name is that value, with one unit of fuel for
-- each token and one more.
pub build_value-all :
    (v : Value)
    → repeats v ≡ false
    → build_value (suc (length (value_tokens v []))) (value_tokens v []) ≡ built (v, [])
build_value-all v once =
    build_value-tokens v (suc (length (value_tokens v []))) []
      (omega (arith, cost-le-value_tokens v [])) once
