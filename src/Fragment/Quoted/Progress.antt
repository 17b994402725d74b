-- ===== src/Fragment/Quoted/Progress.antt =====
-- A quoted text is read within its fuel, and leaves fewer bytes than it was given.
use curator_agent_launcher.Base.{
  Ends-imp, Ends-bind, ℕ, zero, suc, ◌≤◌, ◌++◌, ◌∷◌, [], arith, length, Bytes, ◌>>=◌, Ends,
}
use curator_agent_launcher.MemberWire.Quoted.{hex_digit}
use curator_agent_launcher.MemberWire.Quoted.Progress.{LeavesBelow}
use curator_agent_launcher.Fragment.Quoted.{hex4, low_half, escaped_rune, unescape, str_loop, str}

abbrev IsAny : ℕ → Type 0
IsAny n = Unit

hex_digit-Ends : (c : ℕ) → Ends IsAny (hex_digit c)
unfolding hex_digit
hex_digit-Ends c = ground arith

hex4-Ends : (s : Bytes) → Ends (LeavesBelow (length s)) (hex4 s)
unfolding hex4
hex4-Ends [] = tt
hex4-Ends (a ∷ []) = tt
hex4-Ends (a ∷ b ∷ []) = tt
hex4-Ends (a ∷ b ∷ c ∷ []) = tt
hex4-Ends (a ∷ b ∷ c ∷ d ∷ rest) =
    let Goal = LeavesBelow {A = ℕ} (suc (suc (suc (suc (length rest))))) in
    Ends-bind IsAny Goal (hex_digit a) _ (hex_digit-Ends a) λ _ _.
      Ends-bind IsAny Goal (hex_digit b) _ (hex_digit-Ends b) λ _ _.
        Ends-bind IsAny Goal (hex_digit c) _ (hex_digit-Ends c)
          λ _ _. Ends-bind IsAny Goal (hex_digit d) _ (hex_digit-Ends d) λ _ _. omega arith

low_half-Ends : (n high : ℕ) (s : Bytes) → length s ≤ n → Ends (LeavesBelow n) (low_half high s)
unfolding low_half
low_half-Ends n high [] h = tt
low_half-Ends n high (x ∷ []) h = tt
low_half-Ends n high (x ∷ y ∷ s) h = ground (arith, hex4-Ends s)

escaped_rune-Ends : (s : Bytes) → Ends (LeavesBelow (length s)) (escaped_rune s)
unfolding escaped_rune
escaped_rune-Ends s =
    Ends-bind (LeavesBelow (length s)) (LeavesBelow (length s)) (hex4 s) _ (hex4-Ends s)
      λ (r, rest) h. ground (arith, low_half-Ends (length s) r rest)

unescape-Ends : (s : Bytes) → Ends (LeavesBelow (length s)) (unescape s)
unfolding unescape
unescape-Ends [] = tt
unescape-Ends (e ∷ s) = grind (arith, escaped_rune-Ends s)

below :
    (f : ℕ) (s out : Bytes)
    → Ends (LeavesBelow (length s)) (str_loop f s out)
    → Ends (LeavesBelow (suc (length s))) (str_loop f s out)
below f s out =
    Ends-imp (LeavesBelow (length s)) (LeavesBelow (suc (length s))) (str_loop f s out)
      (λ r le. omega arith)

str_loop-Ends :
    (f : ℕ) (s out : Bytes) → length s ≤ f → Ends (LeavesBelow (length s)) (str_loop f s out)
unfolding str_loop
str_loop-Ends f [] out h = tt
str_loop-Ends zero (c ∷ s) out h = omega arith
str_loop-Ends (suc f) (c ∷ s) out h =
    let plain = below f s (out ++ c ∷ []) (str_loop-Ends f s (out ++ c ∷ []) (omega arith)) in
    let escaped : Ends (LeavesBelow (suc (length s)))
        (unescape s >>= λ (written, rest). str_loop f rest (out ++ written)) =
      Ends-bind (LeavesBelow (length s)) (LeavesBelow (suc (length s))) (unescape s) _
        (unescape-Ends s)
        λ (written, rest) fewer.
          Ends-imp (LeavesBelow (length rest)) _ (str_loop f rest (out ++ written))
            (λ r le. omega arith) (str_loop-Ends f rest (out ++ written) (omega arith)) in
    ground arith

-- A quoted text is read or refused, and leaves fewer bytes than it was given.
pub str-Ends : (s : Bytes) → Ends (LeavesBelow (length s)) (str s)
unfolding str
str-Ends s = str_loop-Ends (length s) s [] (omega arith)
