-- ===== src/MemberWire/Grammar/Sound.antt =====
-- What the loop accepts is the rest of an object: with the open frames, its tokens are those of the
-- members and items that the frames still wait for.
use curator_agent_launcher.Base.{
  sym, ◌+◌, ℕ, ◌≡◌, refl, ◌∙◌, ap, List, [], ◌∷◌, arith, Bytes, Option, some, none,
}
use curator_agent_launcher.MemberWire.Tokens.{
  Token, open_object, close_object, open_array, close_array, colon, comma, text, number, true_word,
  false_word, null_word, Faults,
}
use curator_agent_launcher.MemberWire.Json.{
  Value, object, array, string, uint, yes_value, no_value, null, Members, nil, member, Items, end,
  item, value_tokens, member_tokens, more_members, item_tokens, more_items,
}
use curator_agent_launcher.MemberWire.Grammar.{
  value_step, Kind, in_object, in_array, Place, at_first, at_colon, at_value, at_end, at_next,
  Frame, Machine, opened, grammar_loop, round, grammar,
}

-- The tokens from a place in a container on, up to the container's end.
abbrev Fills : Kind → Place → List Token → List Token → Type 0
Fills in_object at_first ts rest = (ms : Members) × (ts ≡ member_tokens ms rest)
Fills in_object at_colon ts rest =
    (v : Value) × (ms : Members) × (ts ≡ colon ∷ value_tokens v (more_members ms rest))
Fills in_object at_value ts rest =
    (v : Value) × (ms : Members) × (ts ≡ value_tokens v (more_members ms rest))
Fills in_object at_end ts rest = (ms : Members) × (ts ≡ more_members ms rest)
Fills in_object at_next ts rest =
    (k : Bytes) × (v : Value) × (ms : Members) × (ts
      ≡ text k ∷ colon ∷ value_tokens v (more_members ms rest))
Fills in_array at_first ts rest = (xs : Items) × (ts ≡ item_tokens xs rest)
Fills in_array at_colon ts rest =
    (v : Value) × (xs : Items) × (ts ≡ colon ∷ value_tokens v (more_items xs rest))
Fills in_array at_value ts rest =
    (v : Value) × (xs : Items) × (ts ≡ value_tokens v (more_items xs rest))
Fills in_array at_end ts rest = (xs : Items) × (ts ≡ more_items xs rest)
Fills in_array at_next ts rest =
    (v : Value) × (xs : Items) × (ts ≡ value_tokens v (more_items xs rest))

-- The tokens close every open frame, the innermost first, and then end.
abbrev Closes : List Frame → List Token → Type 0
Closes [] ts = ts ≡ []
Closes (top ∷ stack) ts = (rest : List Token) × Fills top.kind top.state ts rest × Closes stack rest

abbrev frame : Kind → Place → List Bytes → Frame
frame k p names = record { kind = k; state = p; names = names }

-- The same of what a round returns; a refusal closes nothing.
abbrev Behind : Option Machine → List Token → Type 0
Behind none ts = ⊥
Behind (some m) ts = Closes m.stack ts

-- A value's tokens, its first one included, and then what closes the stack.
abbrev Starts : Token → List Token → List Frame → Type 0
Starts t ts stack =
    (v : Value) × (mid : List Token) × (t ∷ ts ≡ value_tokens v mid) × Closes stack mid

value_step-Starts :
    (t : Token) (ts : List Token) (top : Frame) (stack : List Frame) (n : ℕ) (f : Faults)
    → Behind (value_step t (top ∷ stack) n f) ts
    → Starts t ts (top ∷ stack)
unfolding value_step value_tokens
value_step-Starts open_object ts top stack n f (rest, (ms, e), c) =
    (object ms, rest, ap (◌∷◌ open_object) e, c)
value_step-Starts open_array ts top stack n f (rest, (xs, e), c) =
    (array xs, rest, ap (◌∷◌ open_array) e, c)
value_step-Starts (text s) ts top stack n f c = (string s, ts, refl, c)
value_step-Starts (number k) ts top stack n f c = (uint k, ts, refl, c)
value_step-Starts true_word ts top stack n f c = (yes_value, ts, refl, c)
value_step-Starts false_word ts top stack n f c = (no_value, ts, refl, c)
value_step-Starts null_word ts top stack n f c = (null, ts, refl, c)
value_step-Starts _ ts top stack n f c = absurd c

-- At a member's value, and at an array's.
object_value :
    (t : Token) (ts : List Token) (names : List Bytes) (stack : List Frame)
    → Starts t ts (frame in_object at_end names ∷ stack)
    → Closes (frame in_object at_value names ∷ stack) (t ∷ ts)
object_value t ts names stack (v, mid, e, (rest, (ms, e'), c)) =
    (rest, (v, ms, e ∙ ap (value_tokens v) e'), c)

array_value :
    (t : Token) (ts : List Token) (names : List Bytes) (stack : List Frame)
    → Starts t ts (frame in_array at_end names ∷ stack)
    → Closes (frame in_array at_next names ∷ stack) (t ∷ ts)
array_value t ts names stack (v, mid, e, (rest, (xs, e'), c)) =
    (rest, (v, xs, e ∙ ap (value_tokens v) e'), c)

array_first :
    (t : Token) (ts : List Token) (names : List Bytes) (stack : List Frame)
    → Closes (frame in_array at_next names ∷ stack) (t ∷ ts)
    → Closes (frame in_array at_first names ∷ stack) (t ∷ ts)
unfolding value_tokens
array_first t ts names stack (rest, (v, xs, e), c) = (rest, (item v xs, e), c)

-- An array's first item, or any token but its end.
first_item :
    (t : Token) (ts : List Token) (names : List Bytes) (stack : List Frame) (n : ℕ) (f : Faults)
    → Behind (value_step t (frame in_array at_end names ∷ stack) n f) ts
    → Closes (frame in_array at_first names ∷ stack) (t ∷ ts)
first_item t ts names stack n f c =
    array_first t ts names stack
      (array_value t ts names stack (value_step-Starts t ts _ stack n f c))

-- One round, backwards: what closes the stack behind it closes the one before, with its token.
round-Closes :
    (k : Kind) (p : Place) (t : Token) (ts : List Token) (names : List Bytes) (stack : List Frame)
    (n : ℕ) (f : Faults)
    → Behind (round k p t names stack n f) ts
    → Closes (frame k p names ∷ stack) (t ∷ ts)
unfolding round value_tokens
round-Closes in_object at_first close_object ts names stack n f c = (ts, (nil, refl), c)
round-Closes in_object at_first (text s) ts names stack n f (rest, (v, ms, e), c) =
    (rest, (member s v ms, ap (◌∷◌ (text s)) e), c)
round-Closes in_object at_first _ ts names stack n f c = absurd c
round-Closes in_object at_colon colon ts names stack n f (rest, (v, ms, e), c) =
    (rest, (v, ms, ap (◌∷◌ colon) e), c)
round-Closes in_object at_colon _ ts names stack n f c = absurd c
round-Closes in_object at_value t ts names stack n f c =
    object_value t ts names stack (value_step-Starts t ts _ stack (n + 1) f c)
round-Closes in_object at_end close_object ts names stack n f c = (ts, (nil, refl), c)
round-Closes in_object at_end comma ts names stack n f (rest, (k, v, ms, e), c) =
    (rest, (member k v ms, ap (◌∷◌ comma) e), c)
round-Closes in_object at_end _ ts names stack n f c = absurd c
round-Closes in_object at_next (text s) ts names stack n f (rest, (v, ms, e), c) =
    (rest, (s, v, ms, ap (◌∷◌ (text s)) e), c)
round-Closes in_object at_next _ ts names stack n f c = absurd c
round-Closes in_array at_first close_array ts names stack n f c = (ts, (end, refl), c)
round-Closes in_array at_first t ts names stack n f c = first_item t ts names stack (n + 1) f c
round-Closes in_array at_colon colon ts names stack n f (rest, (v, xs, e), c) =
    (rest, (v, xs, ap (◌∷◌ colon) e), c)
round-Closes in_array at_colon _ ts names stack n f c = absurd c
round-Closes in_array at_value t ts names stack n f c =
    array_value t ts names stack (value_step-Starts t ts _ stack (n + 1) f c)
round-Closes in_array at_end close_array ts names stack n f c = (ts, (end, refl), c)
round-Closes in_array at_end comma ts names stack n f (rest, (v, xs, e), c) =
    (rest, (item v xs, ap (◌∷◌ comma) e), c)
round-Closes in_array at_end _ ts names stack n f c = absurd c
round-Closes in_array at_next t ts names stack n f c =
    array_value t ts names stack (value_step-Starts t ts _ stack (n + 1) f c)

abbrev run_on : Option Machine → List Token → Option Faults
run_on none ts = none
run_on (some m) ts = grammar_loop ts m.stack m.nodes m.faults

grammar_loop-cons :
    (t : Token) (ts : List Token) (top : Frame) (stack : List Frame) (n : ℕ) (f : Faults)
    → grammar_loop (t ∷ ts) (top ∷ stack) n f
      ≡ run_on (round top.kind top.state t top.names stack n f) ts
unfolding grammar_loop
grammar_loop-cons t ts top stack n f = ground arith

run_on-Behind :
    (o : Option Machine) (ts : List Token) (f' : Faults)
    → ((m : Machine) → grammar_loop ts m.stack m.nodes m.faults ≡ some f' → Closes m.stack ts)
    → run_on o ts ≡ some f'
    → Behind o ts
run_on-Behind none ts f' ih e = cc
run_on-Behind (some m) ts f' ih e = ih m e

grammar_loop-Closes :
    (ts : List Token) (stack : List Frame) (n : ℕ) (f f' : Faults)
    → grammar_loop ts stack n f ≡ some f'
    → Closes stack ts
unfolding grammar_loop
grammar_loop-Closes [] [] n f f' e = refl
grammar_loop-Closes (t ∷ ts) [] n f f' e = cc
grammar_loop-Closes [] (top ∷ stack) n f f' e = cc
grammar_loop-Closes (t ∷ ts) (top ∷ stack) n f f' e =
    round-Closes top.kind top.state t ts top.names stack n f (
      run_on-Behind (round top.kind top.state t top.names stack n f) ts f'
        (λ m. grammar_loop-Closes ts m.stack m.nodes m.faults f')
        (sym (grammar_loop-cons t ts top stack n f) ∙ e))

-- Whatever tokens pass the check are those of an object, and of nothing more.
pub grammar-IsObject :
    (ts : List Token) (f : Faults) {f' : Faults}
    → grammar ts f ≡ some f'
    → (ms : Members) × (ts ≡ value_tokens (object ms) [])
unfolding grammar value_tokens
grammar-IsObject [] f e = cc
grammar-IsObject (open_object ∷ ts) f {f' = f'} e =
    let (rest, (ms, shape), nothing) = grammar_loop-Closes ts (opened in_object ∷ []) 1 f f' e in
    (ms, ap (◌∷◌ open_object) (shape ∙ ap (member_tokens ms) nothing))
grammar-IsObject (_ ∷ ts) f e = cc
