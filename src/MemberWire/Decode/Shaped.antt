-- ===== src/MemberWire/Decode/Shaped.antt =====
-- What the decoder of a record accepts.
use curator_agent_launcher.Base.{
  ap, ℕ, Bool, true, false, ◌≡◌, ◌≤◌, ◌↔◌, Bytes, length, ltb, Bool-cases, inl, inr, arith,
}
use curator_agent_launcher.MemberWire.Json.{Members}
use curator_agent_launcher.MemberWire.Decode.{
  Outcome, ok, err, panic, no_fuel, UntrustedRecord, decode, validated, parse_object,
}
use curator_agent_launcher.MemberWire.Decode.Exact.{Spells, parse_object_exact}

-- The record is what the bytes spell, and meets its shape.
pub record Shaped (raw : Bytes) (limit : ℕ) (valid : Members → Bool) (r : UntrustedRecord)
    : Type 0 where
  pub within_limit : length raw ≤ limit
  pub spells : Spells raw r.value
  pub kept : r.raw ≡ raw
  pub shape : valid r.value ≡ true

validated-ok :
    (raw : Bytes) (valid : Members → Bool) (m : Outcome Members) (r : UntrustedRecord)
    → validated raw valid m ≡ ok r
    → (m ≡ ok r.value) × (r.raw ≡ raw) × (valid r.value ≡ true)
validated-ok raw valid (ok ms) r e = ground arith
validated-ok raw valid (err x) r e = cc
validated-ok raw valid panic r e = cc
validated-ok raw valid no_fuel r e = cc

-- The decoder of a record returns it exactly when the bytes are within its limit and spell it, it keeps
-- the bytes, and its value has the shape.
pub decode_exact :
    (raw : Bytes) (limit : ℕ) (valid : Members → Bool) (r : UntrustedRecord)
    → (decode raw limit valid ≡ ok r) ↔ Shaped raw limit valid r
unfolding decode
decode_exact raw limit valid r = (
  λ e. elim (Bool-cases (ltb limit (length raw))) [
    | inl long ↦ cc (rw long at e)
    | inr short ↦
        let (parsed, kept, shape) = validated-ok raw valid (parse_object raw) r (rw short at e) in
        record {
          within_limit = ground arith;
          spells = (parse_object_exact raw r.value).0 parsed;
          kept = kept;
          shape = shape;
        }
  ],
  λ s.
      let short : ltb limit (length raw) ≡ false = ground (arith, s.within_limit) in
      rw (short, (parse_object_exact raw r.value).1 s.spells, s.shape) (ap ok (cc s.kept)),
)
