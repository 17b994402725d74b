-- ===== src/MemberWire/Grammar/Complete.antt =====
-- The loop over the tokens of a value: it takes them all, counts their nodes, and flags exactly
-- the depths, the numbers of nodes and the repeated names that are out of bounds.
use curator_agent_launcher.Base.{
  ap, inr, inl, sym, ◌⊎◌, ℕ, suc, ◌+◌, ◌≡◌, refl, ◌∙◌, Bool, false, ◌||◌, List, [], ◌∷◌, arith, ltb,
  ◌==◌, if◌then◌else◌, length, Bytes, some,
}
use Prim.Native.Nat.{max}
use mathlib.Core.Path.{ap₂}
use curator_agent_launcher.MemberWire.Tokens.{Token, Faults}
use curator_agent_launcher.MemberWire.Json.{
  Value, object, array, string, uint, yes_value, no_value, null, Members, nil, member, Items, end,
  item, value_tokens, member_tokens, more_members, item_tokens, more_items, nodes, member_nodes,
  item_nodes, depth, member_depth, item_depth, repeats, member_repeats, item_repeats, contains,
}
use curator_agent_launcher.MemberWire.Grammar.{
  flag_schema, Kind, in_object, in_array, Place, at_first, at_value, at_end, at_next, Frame, opened,
  round, grammar_loop, grammar,
}

-- `k` more are over the limit, counted from `n`. Nothing more is never over it.
over : ℕ → ℕ → ℕ → Bool
over limit n k = if k == 0 then false else ltb limit (n + k)

-- The faults behind a part with `dp` levels and `nd` nodes, met at depth `d` behind `n` nodes.
charged : ℕ → ℕ → ℕ → ℕ → Bool → Faults → Faults
charged d n dp nd rep f = record {
  bounds = f.bounds || over 16 d dp || over 8192 n nd;
  schema = f.schema || rep;
}

over-max : (l d a b : ℕ) → over l d (max a b) ≡ over l d a || over l d b
unfolding over
over-max l d a b = ground arith

over-add : (l n a b : ℕ) → over l n (a + b) ≡ over l n a || over l (n + a) b
unfolding over
over-add l n a b = ground arith

charged_seq :
    (d n p q a b : ℕ) (r s : Bool) (f : Faults)
    → charged d (n + a) q b s (charged d n p a r f) ≡ charged d n (max p q) (a + b) (r || s) f
unfolding charged
charged_seq d n p q a b r s f = ground (arith, over-max 16 d p q, over-add 8192 n a b)

charged_none : (d n : ℕ) (f : Faults) → charged d n 0 0 false f ≡ f
unfolding charged over
charged_none d n f = ground arith

charged_leaf :
    (d n : ℕ) (f : Faults)
    → charged d n 0 1 false f ≡ record f { bounds = f.bounds || ltb 8192 (n + 1) }
unfolding charged over
charged_leaf d n f = ground arith

-- A container's opening token, and then what it holds.
charged_open :
    (d n p a : ℕ) (r : Bool) (f : Faults)
    → charged
        (suc d)
        (n + 1)
        p
        a
        r
        (record f { bounds = (f.bounds || ltb 16 (suc d)) || ltb 8192 (n + 1) })
      ≡ charged d n (1 + p) (1 + a) r f
unfolding charged over
charged_open d n p a r f = ground arith

abbrev frame : Kind → Place → List Bytes → Frame
frame k p names = record { kind = k; state = p; names = names }

-- Where an array expects a value, it stands as it does right before one.
array_value :
    (p : Place) (v : Value) (rest : List Token) (names : List Bytes) (stack : List Frame) (n : ℕ)
    (f : Faults)
    → (p ≡ at_first) ⊎ (p ≡ at_next)
    → grammar_loop (value_tokens v rest) (frame in_array p names ∷ stack) n f
      ≡ grammar_loop (value_tokens v rest) (frame in_array at_value names ∷ stack) n f
unfolding value_tokens grammar_loop round
array_value p (object ms) rest names stack n f (inl e) = rw e
array_value p (object ms) rest names stack n f (inr e) = rw e
array_value p _ rest names stack n f (inl e) = rw e
array_value p _ rest names stack n f (inr e) = rw e

-- What the loop does over a part of the tokens that ends in front of `rest`.
abbrev Runs : List Token → List Frame → List Token → List Frame → ℕ → ℕ → ℕ → Bool → Type 0
Runs ts from rest to d dp nd r =
    (n : ℕ) (f : Faults)
    → grammar_loop ts from n f ≡ grammar_loop rest to (n + nd) (charged d n dp nd r f)

Runs-step :
    (rest : List Token) (to : List Frame) (a b : ℕ) (f g : Faults)
    → a ≡ b
    → f ≡ g
    → grammar_loop rest to a f ≡ grammar_loop rest to b g
Runs-step rest to a b f g e h = ap₂ (grammar_loop rest to) e h

Runs-seq :
    (ts mid rest : List Token) (s t u : List Frame) (d p q a b : ℕ) (r r' : Bool)
    → Runs ts s mid t d p a r
    → Runs mid t rest u d q b r'
    → Runs ts s rest u d (max p q) (a + b) (r || r')
Runs-seq ts mid rest s t u d p q a b r r' h k n f =
    h n f
    ∙ k (n + a) (charged d n p a r f)
    ∙ Runs-step rest u (n + a + b) (n + (a + b)) _ _ (omega arith) (charged_seq d n p q a b r r' f)

Runs-leaf :
    (rest : List Token) (top : Frame) (stack : List Frame) (n : ℕ) (f : Faults)
    → grammar_loop rest (top ∷ stack) (n + 1) (record f { bounds = f.bounds || ltb 8192 (n + 1) })
      ≡ grammar_loop rest (top ∷ stack) (n + 1) (charged (suc (length stack)) n 0 1 false f)
Runs-leaf rest top stack n f =
    Runs-step rest (top ∷ stack) (n + 1) (n + 1) _ _ refl
      (sym (charged_leaf (suc (length stack)) n f))

Runs-open :
    (ts rest : List Token) (child top : Frame) (stack : List Frame) (p a : ℕ) (r : Bool)
    → Runs ts (child ∷ top ∷ stack) rest (top ∷ stack) (suc (suc (length stack))) p a r
    → (n : ℕ) (f : Faults)
    → grammar_loop ts
        (child ∷ top ∷ stack)
        (n + 1)
        (record f { bounds = (f.bounds || ltb 16 (suc (suc (length stack)))) || ltb 8192 (n + 1) })
      ≡ grammar_loop rest
          (top ∷ stack)
          (n + (1 + a))
          (charged (suc (length stack)) n (1 + p) (1 + a) r f)
Runs-open ts rest child top stack p a r h n f =
    h (n + 1) _
    ∙ Runs-step rest (top ∷ stack) (n + 1 + a) (n + (1 + a)) _ _ (omega arith)
        (charged_open (suc (length stack)) n p a r f)

Runs-name :
    (n d : ℕ) (f : Faults) (p a : ℕ) (b r : Bool)
    → charged d n p a r (record f { schema = f.schema || b }) ≡ charged d n p a (b || r) f
unfolding charged
Runs-name n d f p a b r = ground arith

-- A member's name, its value and the members behind it, from the value on.
Runs-member :
    (v : Value) (ms : Members) (rest : List Token) (k : Bytes) (names : List Bytes)
    (stack : List Frame)
    → Runs
        (value_tokens v (more_members ms rest))
        (frame in_object at_value (k ∷ names) ∷ stack)
        (more_members ms rest)
        (frame in_object at_end (k ∷ names) ∷ stack)
        (suc (length stack))
        (depth v)
        (nodes v)
        (repeats v)
    → Runs
        (more_members ms rest)
        (frame in_object at_end (k ∷ names) ∷ stack)
        rest
        stack
        (suc (length stack))
        (member_depth ms)
        (member_nodes ms)
        (member_repeats (k ∷ names) ms)
    → (n : ℕ) (f : Faults)
    → grammar_loop
        (value_tokens v (more_members ms rest))
        (frame in_object at_value (k ∷ names) ∷ stack)
        n
        (flag_schema (contains names k) f)
      ≡ grammar_loop rest stack (n + (nodes v + member_nodes ms)) (
          charged
            (suc (length stack))
            n
            (max (depth v) (member_depth ms))
            (nodes v + member_nodes ms)
            (contains names k || (repeats v || member_repeats (k ∷ names) ms))
            f)
Runs-member v ms rest k names stack hv hm n f =
    Runs-seq (value_tokens v (more_members ms rest)) (more_members ms rest) rest _ _ stack
      (suc (length stack)) (depth v) (member_depth ms) (nodes v) (member_nodes ms) (repeats v)
      (member_repeats (k ∷ names) ms) hv hm n (flag_schema (contains names k) f)
    ∙ Runs-step rest stack _ _ _ _ refl (
        Runs-name n (suc (length stack)) f (max (depth v) (member_depth ms))
          (nodes v + member_nodes ms) (contains names k)
          (repeats v || member_repeats (k ∷ names) ms))

mutual
  unfolding value_tokens grammar_loop round nodes depth repeats

  run-value :
      (v : Value) (rest : List Token) (k : Kind) (names : List Bytes) (stack : List Frame)
      → Runs
          (value_tokens v rest)
          (frame k at_value names ∷ stack)
          rest
          (frame k at_end names ∷ stack)
          (suc (length stack))
          (depth v)
          (nodes v)
          (repeats v)
  run-value (object ms) rest k names stack n f =
      Runs-open (member_tokens ms rest) rest (opened in_object) (frame k at_end names) stack
        (member_depth ms) (member_nodes ms) (member_repeats [] ms)
        (run-members ms rest [] (frame k at_end names ∷ stack)) n f
  run-value (array xs) rest k names stack n f =
      Runs-open (item_tokens xs rest) rest (opened in_array) (frame k at_end names) stack
        (item_depth xs) (item_nodes xs) (item_repeats xs)
        (run-items xs rest [] (frame k at_end names ∷ stack)) n f
  run-value (string s) rest k names stack n f = Runs-leaf rest (frame k at_end names) stack n f
  run-value (uint m) rest k names stack n f = Runs-leaf rest (frame k at_end names) stack n f
  run-value yes_value rest k names stack n f = Runs-leaf rest (frame k at_end names) stack n f
  run-value no_value rest k names stack n f = Runs-leaf rest (frame k at_end names) stack n f
  run-value null rest k names stack n f = Runs-leaf rest (frame k at_end names) stack n f

  run-members :
      (ms : Members) (rest : List Token) (names : List Bytes) (stack : List Frame)
      → Runs
          (member_tokens ms rest)
          (frame in_object at_first names ∷ stack)
          rest
          stack
          (suc (length stack))
          (member_depth ms)
          (member_nodes ms)
          (member_repeats names ms)
  run-members nil rest names stack n f =
      Runs-step rest stack n (n + 0) _ _ (omega arith) (sym (charged_none (suc (length stack)) n f))
  run-members (member k v ms) rest names stack n f =
      Runs-member v ms rest k names stack
        (run-value v (more_members ms rest) in_object (k ∷ names) stack)
        (run-more_members ms rest (k ∷ names) stack) n f

  run-more_members :
      (ms : Members) (rest : List Token) (names : List Bytes) (stack : List Frame)
      → Runs
          (more_members ms rest)
          (frame in_object at_end names ∷ stack)
          rest
          stack
          (suc (length stack))
          (member_depth ms)
          (member_nodes ms)
          (member_repeats names ms)
  run-more_members nil rest names stack n f =
      Runs-step rest stack n (n + 0) _ _ (omega arith) (sym (charged_none (suc (length stack)) n f))
  run-more_members (member k v ms) rest names stack n f =
      Runs-member v ms rest k names stack
        (run-value v (more_members ms rest) in_object (k ∷ names) stack)
        (run-more_members ms rest (k ∷ names) stack) n f

  run-items :
      (xs : Items) (rest : List Token) (names : List Bytes) (stack : List Frame)
      → Runs
          (item_tokens xs rest)
          (frame in_array at_first names ∷ stack)
          rest
          stack
          (suc (length stack))
          (item_depth xs)
          (item_nodes xs)
          (item_repeats xs)
  run-items end rest names stack n f =
      Runs-step rest stack n (n + 0) _ _ (omega arith) (sym (charged_none (suc (length stack)) n f))
  run-items (item v xs) rest names stack n f =
      array_value at_first v (more_items xs rest) names stack n f (inl refl)
      ∙ Runs-seq (value_tokens v (more_items xs rest)) (more_items xs rest) rest _ _ stack _
          (depth v) (item_depth xs) (nodes v) (item_nodes xs) (repeats v) (item_repeats xs)
          (run-value v (more_items xs rest) in_array names stack)
          (run-more_items xs rest names stack) n f

  run-more_items :
      (xs : Items) (rest : List Token) (names : List Bytes) (stack : List Frame)
      → Runs
          (more_items xs rest)
          (frame in_array at_end names ∷ stack)
          rest
          stack
          (suc (length stack))
          (item_depth xs)
          (item_nodes xs)
          (item_repeats xs)
  run-more_items end rest names stack n f =
      Runs-step rest stack n (n + 0) _ _ (omega arith) (sym (charged_none (suc (length stack)) n f))
  run-more_items (item v xs) rest names stack n f =
      array_value at_next v (more_items xs rest) names stack n f (inr refl)
      ∙ Runs-seq (value_tokens v (more_items xs rest)) (more_items xs rest) rest _ _ stack _
          (depth v) (item_depth xs) (nodes v) (item_nodes xs) (repeats v) (item_repeats xs)
          (run-value v (more_items xs rest) in_array names stack)
          (run-more_items xs rest names stack) n f

charged_root :
    (p a : ℕ) (r : Bool) (f : Faults)
    → charged 1 1 p a r f
      ≡ record { bounds = f.bounds || (ltb 16 (1 + p) || ltb 8192 (1 + a)); schema = f.schema || r }
unfolding charged over
charged_root p a r f = ground arith

-- The tokens of an object pass, and the flags that are raised are exactly these: a depth above 16
-- or more than 8192 nodes for the bounds, and a repeated name for the schema.
pub grammar-object :
    (ms : Members) (f : Faults)
    → grammar (value_tokens (object ms) []) f
      ≡ some (record {
        bounds = f.bounds || (ltb 16 (depth (object ms)) || ltb 8192 (nodes (object ms)));
        schema = f.schema || repeats (object ms);
      })
unfolding grammar value_tokens grammar_loop depth nodes repeats
grammar-object ms f =
    run-members ms [] [] [] 1 f
    ∙ ap some (charged_root (member_depth ms) (member_nodes ms) (member_repeats [] ms) f)
