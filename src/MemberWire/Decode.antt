-- ===== src/MemberWire/Decode.antt =====
-- internal/memberwire/lex.go, `parseObject`, and decode.go: the whole decoder, phase by phase.
pub mod Exact
pub mod Shaped
use curator_agent_launcher.Base.{
  ◌*◌, ℕ, suc, Bool, true, false, not, ◌||◌, ◌&&◌, Option, none, some, List, [], ◌∷◌, ◌==◌, ltb,
  if◌then◌else◌, length, Bytes, Scan, done, refused, out_of_fuel,
}
use curator_agent_launcher.MemberWire.Runes.{utf8_valid}
use curator_agent_launcher.MemberWire.Tokens.{Token, Faults, tokenize}
use curator_agent_launcher.MemberWire.Json.{Value, object, Members}
use curator_agent_launcher.MemberWire.Grammar.{grammar}
use curator_agent_launcher.MemberWire.Build.{Built, built, panicked, spent, build_value}

abbrev pub request_limit : ℕ
request_limit = 64 * 1024

abbrev pub authorization_limit : ℕ
authorization_limit = 4 * 1024

-- The codes of `parseError`.
pub data Code : Type 0 where
  bounds_exceeded encoding_invalid schema_invalid : Code

-- What a decoder does: a value, an error, a Go panic, or (in the model only) no more fuel.
pub data Outcome (A : Type 0) : Type 0 where
  ok : A → Outcome A
  err : Code → Outcome A
  panic : Outcome A
  no_fuel : Outcome A

-- `bytes.HasPrefix(raw, []byte{0xef, 0xbb, 0xbf})`.
abbrev pub has_bom : Bytes → Bool
has_bom (a ∷ b ∷ c ∷ raw) = a == 0xef && b == 0xbb && c == 0xbf
has_bom _ = false

-- `bytes.IndexByte(raw, 0) >= 0`.
unfoldable pub has_nul : Bytes → Bool
has_nul [] = false
has_nul (c ∷ raw) = c == 0 || has_nul raw

-- `buildValue(tokens, &i).(map[string]any)`.
abbrev pub as_object : Built (Value × List Token) → Outcome Members
as_object (built (object ms, rest)) = ok ms
as_object (built (_, rest)) = panic
as_object panicked = panic
as_object spent = no_fuel

-- Behind `grammar`.
abbrev pub checked : List Token → Option Faults → Outcome Members
checked ts none = err encoding_invalid
checked ts (some f) =
    if f.bounds
    then err bounds_exceeded
    else if f.schema
    then err schema_invalid
    else as_object (build_value (suc (length ts)) ts)

-- Behind `tokenize`.
abbrev pub lexed : Scan (List Token × Faults) → Outcome Members
lexed (done (ts, f)) = checked ts (grammar ts f)
lexed refused = err encoding_invalid
lexed out_of_fuel = no_fuel

abbrev pub ill_encoded : Bytes → Bool
ill_encoded raw = not (utf8_valid raw) || has_bom raw || has_nul raw

unfoldable pub parse_object : Bytes → Outcome Members
parse_object raw =
    if ltb request_limit (length raw)
    then err bounds_exceeded
    else if ill_encoded raw
    then err encoding_invalid
    else lexed (tokenize raw)

-- `UntrustedRecord`, without the digest of `raw`, which crypto/sha256 computes.
pub record UntrustedRecord : Type 0 where
  pub raw : Bytes
  pub value : Members

abbrev pub validated : Bytes → (Members → Bool) → Outcome Members → Outcome UntrustedRecord
validated raw valid (ok ms) =
    if not (valid ms) then err schema_invalid else ok (record { raw = raw; value = ms })
validated raw valid (err e) = err e
validated raw valid panic = panic
validated raw valid no_fuel = no_fuel

unfoldable pub decode : Bytes → ℕ → (Members → Bool) → Outcome UntrustedRecord
decode raw limit valid =
    if ltb limit (length raw) then err bounds_exceeded else validated raw valid (parse_object raw)
