-- ===== src/MemberWire/Tokens/Progress.antt =====
-- `tokenize` ends within its fuel on every input.
use curator_agent_launcher.MemberWire.Quoted.Progress.{LeavesBelow, string_token-Ends}
use curator_agent_launcher.MemberWire.Tokens.{
  no_faults, string_token, Token, Faults, drop_line, after_comment, split_word, number_word,
  word_token, word, comment, quoted, next_token, token_loop, tokenize,
}
use curator_agent_launcher.Base.{
  zero, none, ◌++◌, suc, [], Ends-bind, ◌∷◌, arith, Ends, ◌≤◌, some, length, Option, Bytes, List, ℕ,
}

abbrev LeavesAtMost : ℕ → List Token × Faults × Bytes → Type 0
LeavesAtMost n (_, _, rest) = length rest ≤ n

length-drop_line : (raw : Bytes) → length (drop_line raw) ≤ length raw
unfolding drop_line
length-drop_line [] = omega arith
length-drop_line (c ∷ raw) = ground (arith, length-drop_line raw)

abbrev RestAtMost : ℕ → Option Bytes → Type 0
RestAtMost n none = Unit
RestAtMost n (some rest) = length rest ≤ n

RestAtMost-mono : (n m : ℕ) (o : Option Bytes) → n ≤ m → RestAtMost n o → RestAtMost m o
RestAtMost-mono n m none h k = tt
RestAtMost-mono n m (some rest) h k = omega arith

after_comment-RestAtMost : (raw : Bytes) → RestAtMost (length raw) (after_comment raw)
unfolding after_comment
after_comment-RestAtMost [] = tt
after_comment-RestAtMost (c ∷ []) = tt
after_comment-RestAtMost (c ∷ d ∷ raw) =
    let later =
      RestAtMost-mono (length (d ∷ raw)) (length (c ∷ d ∷ raw)) (after_comment (d ∷ raw))
        (omega arith) (after_comment-RestAtMost (d ∷ raw)) in
    ground arith

length-split_word : (raw : Bytes) → length (split_word raw).1 ≤ length raw
unfolding split_word
length-split_word [] = omega arith
length-split_word (c ∷ raw) = ground (arith, length-split_word raw)

word-Ends : (c : ℕ) (raw : Bytes) (f : Faults) → Ends (LeavesAtMost (length raw)) (word c raw f)
unfolding word word_token number_word
word-Ends c raw f = ground (arith, length-split_word raw)

comment-Ends : (raw : Bytes) (f : Faults) → Ends (LeavesAtMost (length raw)) (comment raw f)
unfolding comment
comment-Ends [] f = word-Ends b'/' [] f
comment-Ends (d ∷ raw) f =
    ground (arith, length-drop_line raw, after_comment-RestAtMost raw, word-Ends b'/' (d ∷ raw) f)

quoted-Ends : (raw : Bytes) (f : Faults) → Ends (LeavesAtMost (length raw)) (quoted raw f)
unfolding quoted
quoted-Ends raw f =
    Ends-bind (LeavesBelow (length raw)) (LeavesAtMost (length raw)) (string_token raw) _
      (string_token-Ends raw) λ (s, rest) h. omega arith

next_token-Ends :
    (c : ℕ) (raw : Bytes) (f : Faults) → Ends (LeavesAtMost (length raw)) (next_token c raw f)
unfolding next_token
next_token-Ends c raw f = ground (arith, quoted-Ends raw f, comment-Ends raw f, word-Ends c raw f)

token_loop-Ends :
    (fuel : ℕ) (raw : Bytes) (out : List Token) (f : Faults)
    → length raw ≤ fuel
    → Ends (λ _. Unit) (token_loop fuel raw out f)
unfolding token_loop
token_loop-Ends fuel [] out f h = tt
token_loop-Ends zero (c ∷ raw) out f h = omega arith
token_loop-Ends (suc fuel) (c ∷ raw) out f h =
    Ends-bind (LeavesAtMost (length raw)) (λ _. Unit) (next_token c raw f) _
      (next_token-Ends c raw f)
      λ (ts, f', rest) le. token_loop-Ends fuel rest (out ++ ts) f' (omega arith)

-- Whatever the bytes, `tokenize` returns tokens or refuses: it never runs out of fuel.
pub tokenize-Ends : (raw : Bytes) → Ends (λ _. Unit) (tokenize raw)
unfolding tokenize
tokenize-Ends raw = token_loop-Ends (length raw) raw [] no_faults (omega arith)
