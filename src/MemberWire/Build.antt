-- ===== src/MemberWire/Build.antt =====
-- internal/memberwire/lex.go, `buildValue`: the value of checked tokens. A read past the last token
-- is a Go panic; the loops and the recursion run on fuel.
pub mod Values
use curator_agent_launcher.Base.{ℕ, zero, suc, List, [], ◌∷◌, if◌then◌else◌, bytes_eq, Bytes}
use curator_agent_launcher.MemberWire.Tokens.{
  Token, open_object, close_object, open_array, close_array, colon, comma, text, number, true_word,
  false_word, null_word,
}
use curator_agent_launcher.MemberWire.Json.{
  Value, object, array, string, uint, yes_value, no_value, null, Members, nil, member, Items, end,
  item,
}

-- A value, a panic, or (in the model only) the end of the fuel.
pub data Built {ℓ} (A : Type ℓ) : Type ℓ where
  built : A → Built A
  panicked : Built A
  spent : Built A

infixl 5 ◌>>=◌
abbrev pub ◌>>=◌ {ℓ κ} : {A : Type ℓ} {B : Type κ} → Built A → (A → Built B) → Built B
built a >>= f = f a
panicked >>= f = panicked
spent >>= f = spent

-- `o[key] = v` on a map: an entry that is there is written over.
unfoldable pub set_member : Bytes → Value → Members → Members
set_member k v nil = member k v nil
set_member k v (member j w ms) =
    if bytes_eq j k then member j v ms else member j w (set_member k v ms)

-- `append(a, v)`.
unfoldable pub add_item : Value → Items → Items
add_item v end = item v end
add_item v (item w xs) = item w (add_item v xs)

-- The `text` field, which is empty in all tokens but strings.
abbrev pub token_text : Token → Bytes
token_text (text s) = s
token_text _ = []

-- `if tokens[*i].kind == ',' { *i++ }`.
abbrev pub skip_comma : List Token → Built (List Token)
skip_comma [] = panicked
skip_comma (comma ∷ ts) = built ts
skip_comma (t ∷ ts) = built (t ∷ ts)

unfoldable mutual
  pub build_value : ℕ → List Token → Built (Value × List Token)
  build_value zero ts = spent
  build_value (suc f) [] = panicked
  build_value (suc f) (open_object ∷ ts) = do
    (ms, rest) ← build_members f nil ts
    built (object ms, rest)
  build_value (suc f) (open_array ∷ ts) = do
    (xs, rest) ← build_items f end ts
    built (array xs, rest)
  build_value (suc f) (text s ∷ ts) = built (string s, ts)
  build_value (suc f) (number n ∷ ts) = built (uint n, ts)
  build_value (suc f) (true_word ∷ ts) = built (yes_value, ts)
  build_value (suc f) (false_word ∷ ts) = built (no_value, ts)
  build_value (suc f) (_ ∷ ts) = built (null, ts)

  -- The loop up to `}`, on the map `o`.
  pub build_members : ℕ → Members → List Token → Built (Members × List Token)
  build_members zero o ts = spent
  build_members (suc f) o [] = panicked
  build_members (suc f) o (close_object ∷ ts) = built (o, ts)
  build_members (suc f) o (k ∷ []) = panicked
  build_members (suc f) o (k ∷ sep ∷ ts) = do
    (v, rest) ← build_value f ts
    rest' ← skip_comma rest
    build_members f (set_member (token_text k) v o) rest'

  -- The loop up to `]`, on the slice `a`.
  pub build_items : ℕ → Items → List Token → Built (Items × List Token)
  build_items zero a ts = spent
  build_items (suc f) a [] = panicked
  build_items (suc f) a (close_array ∷ ts) = built (a, ts)
  build_items (suc f) a (t ∷ ts) = do
    (v, rest) ← build_value f (t ∷ ts)
    rest' ← skip_comma rest
    build_items f (add_item v a) rest'
