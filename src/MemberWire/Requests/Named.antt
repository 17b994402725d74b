-- ===== src/MemberWire/Requests/Named.antt =====
-- The names of an effects set.
use curator_agent_launcher.Base.{ℕ, Bool, true, not, ◌&&◌, ◌≡◌, refl, List, [], ◌∷◌, Bytes, arith}
use curator_agent_launcher.MemberWire.Json.{Value, Items, array, string, end, item, contains}
use curator_agent_launcher.MemberWire.Shapes.{at, fields}
use curator_agent_launcher.MemberWire.Requests.{names, fresh_names, effects}

-- The texts of an array, up to the first item that is none.
unfoldable pub texts : Items → List Bytes
texts (item (string s) xs) = s ∷ texts xs
texts _ = []

unfoldable pub texts_of : Value → List Bytes
texts_of (array xs) = texts xs
texts_of _ = []

-- Whether all texts differ from each other and from those seen before.
unfoldable pub all_fresh : List Bytes → List Bytes → Bool
all_fresh seen [] = true
all_fresh seen (s ∷ ss) = not (contains seen s) && all_fresh (s ∷ seen) ss

fresh_names-all_fresh :
    (seen : List Bytes) (xs : Items) → fresh_names seen xs ≡ true → all_fresh seen (texts xs) ≡ true
unfolding fresh_names all_fresh texts
fresh_names-all_fresh seen end e = refl
fresh_names-all_fresh seen (item (string s) xs) e =
    ground (arith, fresh_names-all_fresh (s ∷ seen) xs)
fresh_names-all_fresh seen (item _ xs) e = cc

names-all_fresh :
    (v : Value) (maximum : ℕ) → names v maximum ≡ true → all_fresh [] (texts_of v) ≡ true
unfolding names texts_of
names-all_fresh (array xs) maximum e = fresh_names-all_fresh [] xs (ground arith)
names-all_fresh _ maximum e = cc

-- An effects set that is accepted names no tool, no object and no output twice.
pub effects-all_fresh :
    (v : Value)
    → effects v ≡ true
    → (all_fresh [] (texts_of (at (fields v) "tools")) ≡ true)
      × (all_fresh [] (texts_of (at (fields v) "read_objects")) ≡ true)
      × (all_fresh [] (texts_of (at (fields v) "output_names")) ≡ true)
unfolding effects
effects-all_fresh v e = (
  names-all_fresh (at (fields v) "tools") 32 (ground arith),
  names-all_fresh (at (fields v) "read_objects") 128 (ground arith),
  names-all_fresh (at (fields v) "output_names") 128 (ground arith),
)
