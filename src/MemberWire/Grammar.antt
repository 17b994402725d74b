-- ===== src/MemberWire/Grammar.antt =====
-- internal/memberwire/lex.go, `grammar`: the check of a token list by a stack of frames. Each round
-- of the loop takes one token, so the model recurs on the tokens.
pub mod Complete
pub mod Sound
use curator_agent_launcher.Base.{
  ℕ, ◌+◌, Bool, true, ◌||◌, Option, none, some, List, [], ◌∷◌, ltb, suc, length, if◌then◌else◌,
  Bytes,
}
use curator_agent_launcher.MemberWire.Tokens.{
  Token, open_object, close_object, open_array, close_array, colon, comma, text, number, true_word,
  false_word, null_word, Faults,
}
use curator_agent_launcher.MemberWire.Json.{contains}

pub data Kind : Type 0 where
  in_object in_array : Kind

-- The states 0 to 4 of a frame.
pub data Place : Type 0 where
  at_first at_colon at_value at_end at_next : Place

pub record Frame : Type 0 where
  pub kind : Kind
  pub state : Place
  pub names : List Bytes

pub record Machine : Type 0 where
  pub stack : List Frame
  pub nodes : ℕ
  pub faults : Faults

abbrev pub opened : Kind → Frame
opened k = record { kind = k; state = at_first; names = [] }

abbrev pub flag_bounds : Bool → Faults → Faults
flag_bounds b f = record f { bounds = f.bounds || b }

abbrev pub flag_schema : Bool → Faults → Faults
flag_schema b f = record f { schema = f.schema || b }

-- `nodes > 8192`, behind the switch.
abbrev pub counted : List Frame → ℕ → Faults → Option Machine
counted stack n f = some (record { stack = stack; nodes = n; faults = flag_bounds (ltb 8192 n) f })

abbrev pub push : Kind → List Frame → ℕ → Faults → Option Machine
push k stack n f = counted (opened k ∷ stack) n (flag_bounds (ltb 16 (suc (length stack))) f)

-- The common step of all values, the frame being in its state 3 and the node counted.
unfoldable pub value_step : Token → List Frame → ℕ → Faults → Option Machine
value_step open_object stack n f = push in_object stack n f
value_step open_array stack n f = push in_array stack n f
value_step (text s) stack n f = counted stack n f
value_step (number k) stack n f = counted stack n f
value_step true_word stack n f = counted stack n f
value_step false_word stack n f = counted stack n f
value_step null_word stack n f = counted stack n f
value_step _ stack n f = none

abbrev pub take_value : Token → List Bytes → Kind → List Frame → ℕ → Faults → Option Machine
take_value t names k stack n f =
    value_step t (record { kind = k; state = at_end; names = names } ∷ stack) (n + 1) f

abbrev pub continue : List Frame → ℕ → Faults → Option Machine
continue stack n f = some (record { stack = stack; nodes = n; faults = f })

-- A member's name.
abbrev pub take_name : Bytes → List Bytes → List Frame → ℕ → Faults → Option Machine
take_name s names stack n f =
    continue (record { kind = in_object; state = at_colon; names = s ∷ names } ∷ stack) n
      (flag_schema (contains names s) f)

-- One round, on the top frame's kind, state and names.
unfoldable pub round : Kind → Place → Token → List Bytes → List Frame → ℕ → Faults → Option Machine
unfolding value_step
round in_object at_first close_object names stack n f = continue stack n f
round in_object at_first (text s) names stack n f = take_name s names stack n f
round in_object at_first _ names stack n f = none
round in_object at_next (text s) names stack n f = take_name s names stack n f
round in_object at_next _ names stack n f = none
round in_array at_first close_array names stack n f = continue stack n f
round in_array at_first t names stack n f = take_value t names in_array stack n f
round in_array at_next t names stack n f = take_value t names in_array stack n f
round k at_colon colon names stack n f =
    continue (record { kind = k; state = at_value; names = names } ∷ stack) n f
round k at_colon _ names stack n f = none
round k at_value t names stack n f = take_value t names k stack n f
round in_object at_end close_object names stack n f = continue stack n f
round in_array at_end close_array names stack n f = continue stack n f
round k at_end comma names stack n f =
    continue (record { kind = k; state = at_next; names = names } ∷ stack) n f
round k at_end _ names stack n f = none

-- The loop: `none` for `false`, the faults for `true`.
unfoldable pub grammar_loop : List Token → List Frame → ℕ → Faults → Option Faults
grammar_loop [] [] n f = some f
grammar_loop (t ∷ ts) [] n f = none
grammar_loop [] (top ∷ stack) n f = none
grammar_loop (t ∷ ts) (top ∷ stack) n f = elim (round top.kind top.state t top.names stack n f) [
  | none ↦ none
  | some m ↦ grammar_loop ts m.stack m.nodes m.faults
]

unfoldable pub grammar : List Token → Faults → Option Faults
unfolding grammar_loop round
grammar (open_object ∷ ts) f = grammar_loop ts (opened in_object ∷ []) 1 f
grammar _ f = none
