-- ===== src/MemberWire/Json.antt =====
-- The values of internal/memberwire (`map[string]any`, `[]any`, `string`, `uint64`, `bool`, `nil`)
-- and their spelling in tokens. A Go map is the list of its entries, in the order of insertion.
use curator_agent_launcher.Base.{ℕ, ◌+◌, Bool, false, ◌||◌, List, [], ◌∷◌, bytes_eq, Bytes}
use curator_agent_launcher.MemberWire.Tokens.{
  Token, open_object, close_object, open_array, close_array, colon, comma, text, number, true_word,
  false_word, null_word,
}
use Prim.Native.Nat.{max}

mutual
  pub data Value : Type 0 where
    object : Members → Value
    array : Items → Value
    string : Bytes → Value
    uint : ℕ → Value
    yes_value : Value
    no_value : Value
    null : Value

  pub data Members : Type 0 where
    nil : Members
    member : Bytes → Value → Members → Members

  pub data Items : Type 0 where
    end : Items
    item : Value → Items → Items

-- The tokens of a value, in front of others. What follows the first member or item of a container
-- is spelled by the `more` functions, with its commas.
unfoldable mutual
  pub value_tokens : Value → List Token → List Token
  value_tokens (object ms) rest = open_object ∷ member_tokens ms rest
  value_tokens (array xs) rest = open_array ∷ item_tokens xs rest
  value_tokens (string s) rest = text s ∷ rest
  value_tokens (uint n) rest = number n ∷ rest
  value_tokens yes_value rest = true_word ∷ rest
  value_tokens no_value rest = false_word ∷ rest
  value_tokens null rest = null_word ∷ rest

  pub member_tokens : Members → List Token → List Token
  member_tokens nil rest = close_object ∷ rest
  member_tokens (member k v ms) rest = text k ∷ colon ∷ value_tokens v (more_members ms rest)

  pub more_members : Members → List Token → List Token
  more_members nil rest = close_object ∷ rest
  more_members (member k v ms) rest = comma ∷ text k ∷ colon ∷ value_tokens v (more_members ms rest)

  pub item_tokens : Items → List Token → List Token
  item_tokens end rest = close_array ∷ rest
  item_tokens (item v xs) rest = value_tokens v (more_items xs rest)

  pub more_items : Items → List Token → List Token
  more_items end rest = close_array ∷ rest
  more_items (item v xs) rest = comma ∷ value_tokens v (more_items xs rest)

-- The number of values in a value, itself included; names of members do not count.
unfoldable mutual
  pub nodes : Value → ℕ
  nodes (object ms) = 1 + member_nodes ms
  nodes (array xs) = 1 + item_nodes xs
  nodes (string s) = 1
  nodes (uint n) = 1
  nodes yes_value = 1
  nodes no_value = 1
  nodes null = 1

  pub member_nodes : Members → ℕ
  member_nodes nil = 0
  member_nodes (member k v ms) = nodes v + member_nodes ms

  pub item_nodes : Items → ℕ
  item_nodes end = 0
  item_nodes (item v xs) = nodes v + item_nodes xs

-- How deep containers stand in one another.
unfoldable mutual
  pub depth : Value → ℕ
  depth (object ms) = 1 + member_depth ms
  depth (array xs) = 1 + item_depth xs
  depth (string s) = 0
  depth (uint n) = 0
  depth yes_value = 0
  depth no_value = 0
  depth null = 0

  pub member_depth : Members → ℕ
  member_depth nil = 0
  member_depth (member k v ms) = max (depth v) (member_depth ms)

  pub item_depth : Items → ℕ
  item_depth end = 0
  item_depth (item v xs) = max (depth v) (item_depth xs)

unfoldable pub contains : List Bytes → Bytes → Bool
contains [] k = false
contains (n ∷ names) k = bytes_eq n k || contains names k

-- Whether an object repeats a name, at any depth. `names` are those that stood before.
unfoldable mutual
  pub repeats : Value → Bool
  repeats (object ms) = member_repeats [] ms
  repeats (array xs) = item_repeats xs
  repeats (string s) = false
  repeats (uint n) = false
  repeats yes_value = false
  repeats no_value = false
  repeats null = false

  pub member_repeats : List Bytes → Members → Bool
  member_repeats names nil = false
  member_repeats names (member k v ms) =
      contains names k || (repeats v || member_repeats (k ∷ names) ms)

  pub item_repeats : Items → Bool
  item_repeats end = false
  item_repeats (item v xs) = repeats v || item_repeats xs
