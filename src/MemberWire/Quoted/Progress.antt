-- ===== src/MemberWire/Quoted/Progress.antt =====
-- Every scan of a quoted text ends within its fuel, and leaves fewer bytes than it was given.
use curator_agent_launcher.Base.{
  Ends-imp, Ends-bind, ℕ, zero, suc, ◌≤◌, ◌<◌, ◌++◌, ◌∷◌, [], arith, length, Bytes, ◌>>=◌, Ends,
}
use curator_agent_launcher.MemberWire.Quoted.{
  hex_digit, hex_step, hex_quad, low_surrogate, unicode_escape, escape, string_loop, string_token,
}

abbrev pub LeavesBelow {ℓ} : {A : Type ℓ} → ℕ → A × Bytes → Type 0
LeavesBelow n (_, rest) = length rest < n

hex_step-Ends : (n c : ℕ) → Ends (λ v. v < 65536) (hex_step n c)
unfolding hex_step hex_digit
hex_step-Ends n c = ground arith

-- Four hexadecimal digits are a uint16.
abbrev IsQuad : ℕ → ℕ × Bytes → Type 0
IsQuad n (u, rest) = (u < 65536) × (length rest < n)

pub hex_quad-Ends : (raw : Bytes) → Ends (IsQuad (length raw)) (hex_quad raw)
unfolding hex_quad
hex_quad-Ends [] = tt
hex_quad-Ends (a ∷ []) = tt
hex_quad-Ends (a ∷ b ∷ []) = tt
hex_quad-Ends (a ∷ b ∷ c ∷ []) = tt
hex_quad-Ends (a ∷ b ∷ c ∷ d ∷ rest) =
    let IsWord : ℕ → Type 0 = λ v. v < 65536 in
    let Goal = IsQuad (suc (suc (suc (suc (length rest))))) in
    Ends-bind IsWord Goal (hex_step 0 a) _ (hex_step-Ends 0 a) λ n1 _.
      Ends-bind IsWord Goal (hex_step n1 b) _ (hex_step-Ends n1 b) λ n2 _.
        Ends-bind IsWord Goal (hex_step n2 c) _ (hex_step-Ends n2 c) λ n3 _.
          Ends-bind IsWord Goal (hex_step n3 d) _ (hex_step-Ends n3 d) λ n4 h. (h, omega arith)

low_surrogate-Ends :
    (n high : ℕ) (raw : Bytes) → length raw ≤ n → Ends (LeavesBelow n) (low_surrogate high raw)
unfolding low_surrogate
low_surrogate-Ends n high [] h = tt
low_surrogate-Ends n high (x ∷ []) h = tt
low_surrogate-Ends n high (x ∷ y ∷ raw) h = ground (arith, hex_quad-Ends raw)

unicode_escape-Ends : (raw : Bytes) → Ends (LeavesBelow (length raw)) (unicode_escape raw)
unfolding unicode_escape
unicode_escape-Ends raw =
    Ends-bind (IsQuad (length raw)) (LeavesBelow (length raw)) (hex_quad raw) _ (hex_quad-Ends raw)
      λ (u, rest) h. ground (arith, low_surrogate-Ends (length raw) u rest)

escape-Ends : (raw : Bytes) → Ends (LeavesBelow (length raw)) (escape raw)
unfolding escape
escape-Ends [] = tt
escape-Ends (c ∷ raw) = grind (arith, unicode_escape-Ends raw)

below :
    (f : ℕ) (raw b : Bytes)
    → Ends (LeavesBelow (length raw)) (string_loop f raw b)
    → Ends (LeavesBelow (suc (length raw))) (string_loop f raw b)
below f raw b =
    Ends-imp (LeavesBelow (length raw)) (LeavesBelow (suc (length raw))) (string_loop f raw b)
      (λ r le. omega arith)

string_loop-Ends :
    (f : ℕ) (raw b : Bytes) → length raw ≤ f → Ends (LeavesBelow (length raw)) (string_loop f raw b)
unfolding string_loop
string_loop-Ends f [] b h = tt
string_loop-Ends zero (c ∷ raw) b h = omega arith
string_loop-Ends (suc f) (c ∷ raw) b h =
    let plain = below f raw (b ++ c ∷ []) (string_loop-Ends f raw (b ++ c ∷ []) (omega arith)) in
    let escaped : Ends (LeavesBelow (suc (length raw)))
        (escape raw >>= λ (written, rest). string_loop f rest (b ++ written)) =
      Ends-bind (LeavesBelow (length raw)) (LeavesBelow (suc (length raw))) (escape raw) _
        (escape-Ends raw)
        λ (written, rest) fewer.
          Ends-imp (LeavesBelow (length rest)) _ (string_loop f rest (b ++ written))
            (λ r le. omega arith) (string_loop-Ends f rest (b ++ written) (omega arith)) in
    ground arith

-- The scan of a quoted text ends: it refuses, or leaves fewer bytes than it was given.
pub string_token-Ends : (raw : Bytes) → Ends (LeavesBelow (length raw)) (string_token raw)
unfolding string_token
string_token-Ends raw = string_loop-Ends (length raw) raw [] (omega arith)
