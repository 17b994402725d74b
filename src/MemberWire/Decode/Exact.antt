-- ===== src/MemberWire/Decode/Exact.antt =====
-- `parse_object` returns or refuses on every input, and returns exactly the objects within bounds.
use mathlib.Core.Path.{ap₂}
use curator_agent_launcher.MemberWire.Tokens.Progress.{tokenize-Ends}
use curator_agent_launcher.MemberWire.Grammar.Complete.{grammar-object}
use curator_agent_launcher.MemberWire.Grammar.Sound.{grammar-IsObject}
use curator_agent_launcher.MemberWire.Build.Values.{build_value-all}
use curator_agent_launcher.MemberWire.Tokens.{Token, Faults, no_faults, tokenize}
use curator_agent_launcher.MemberWire.Json.{Members, object, value_tokens, depth, nodes, repeats}
use curator_agent_launcher.MemberWire.Grammar.{grammar}
use curator_agent_launcher.MemberWire.Decode.{
  Outcome, ok, err, panic, no_fuel, as_object, checked, lexed, ill_encoded, parse_object,
  request_limit, bounds_exceeded, schema_invalid, validated, decode,
}
use curator_agent_launcher.Base.{
  refl, ◌↔◌, true, ltb, ◌||◌, if◌then◌else◌, sym, subst, out_of_fuel, inr, refused, inl, done,
  length, Ends, Option-cases, ◌≤◌, Bytes, Scan, List, arith, ◌∙◌, ap, false, ◌≡◌, [], Bool, ℕ,
}

-- What the check makes of the tokens of an object: the first flag that is raised, or the object.
abbrev verdict : Faults → Members → Outcome Members
verdict f ms =
    if f.bounds || (ltb 16 (depth (object ms)) || ltb 8192 (nodes (object ms)))
    then err bounds_exceeded
    else if f.schema || repeats (object ms)
    then err schema_invalid
    else ok ms

-- The value is looked at only where no flag is raised.
gate : Bool → Bool → Outcome Members → Outcome Members
gate b c x = if b then err bounds_exceeded else if c then err schema_invalid else x

gate-eq : (b c : Bool) (x y : Outcome Members) → (c ≡ false → x ≡ y) → gate b c x ≡ gate b c y
unfolding gate
gate-eq true c x y h = refl
gate-eq false true x y h = refl
gate-eq false false x y h = h refl

or_false : (a b : Bool) → (a || b) ≡ false → b ≡ false
or_false a b h = ground arith

checked-object :
    (ms : Members) (f : Faults)
    → checked (value_tokens (object ms) []) (grammar (value_tokens (object ms) []) f) ≡ verdict f ms
unfolding gate
checked-object ms f =
    ap (checked (value_tokens (object ms) [])) (grammar-object ms f)
    ∙ gate-eq (f.bounds || (ltb 16 (depth (object ms)) || ltb 8192 (nodes (object ms))))
        (f.schema || repeats (object ms)) _ (ok ms)
        (λ once.
          ap as_object (build_value-all (object ms) (or_false f.schema (repeats (object ms)) once)))

-- The decoder came to a result: a value or an error, no panic and no end of the fuel.
abbrev pub Settles : {A : Type 0} → Outcome A → Type 0
Settles (ok a) = Unit
Settles (err e) = Unit
Settles panic = ⊥
Settles no_fuel = ⊥

verdict-Settles : (f : Faults) (ms : Members) → Settles (verdict f ms)
verdict-Settles f ms = ground arith

checked-Settles : (ts : List Token) (f : Faults) → Settles (checked ts (grammar ts f))
checked-Settles ts f = elim (Option-cases (grammar ts f)) [
  | inl refusal ↦ rw refusal tt
  | inr (f', pass) ↦
      let (ms, shape) = grammar-IsObject ts f pass in
      subst (λ x. Settles (checked x (grammar x f))) (sym shape)
        (subst Settles (sym (checked-object ms f)) (verdict-Settles f ms))
]

lexed-Settles : (r : Scan (List Token × Faults)) → Ends (λ _. Unit) r → Settles (lexed r)
lexed-Settles (done (ts, f)) h = checked-Settles ts f
lexed-Settles refused h = tt
lexed-Settles out_of_fuel h = h

parse_object-Settles : (raw : Bytes) → Settles (parse_object raw)
unfolding parse_object
parse_object-Settles raw = ground (arith, lexed-Settles (tokenize raw) (tokenize-Ends raw))

validated-Settles :
    (raw : Bytes) (valid : Members → Bool) (r : Outcome Members)
    → Settles r
    → Settles (validated raw valid r)
validated-Settles raw valid (ok ms) h = ground arith
validated-Settles raw valid (err e) h = tt
validated-Settles raw valid panic h = h
validated-Settles raw valid no_fuel h = h

-- Whatever the bytes, the limit and the shape that is asked for, the decoder returns a record or an
-- error. It never reads past its tokens, never fails the type assertion on the root, and its loops
-- end.
pub decode-Settles :
    (raw : Bytes) (limit : ℕ) (valid : Members → Bool) → Settles (decode raw limit valid)
unfolding decode
decode-Settles raw limit valid =
    ground (arith, validated-Settles raw valid (parse_object raw) (parse_object-Settles raw))

-- The bytes spell the object, within all bounds.
pub record Spells (raw : Bytes) (ms : Members) : Type 0 where
  pub size : length raw ≤ request_limit
  pub encoded : ill_encoded raw ≡ false
  pub tokens : tokenize raw ≡ done (value_tokens (object ms) [], no_faults)
  pub depth_bound : depth (object ms) ≤ 16
  pub nodes_bound : nodes (object ms) ≤ 8192
  pub once : repeats (object ms) ≡ false

verdict-ok :
    (f : Faults) (ms ms' : Members)
    → verdict f ms ≡ ok ms'
    → (ms ≡ ms')
      × (f ≡ no_faults)
      × (depth (object ms) ≤ 16)
      × (nodes (object ms) ≤ 8192)
      × (repeats (object ms) ≡ false)
verdict-ok f ms ms' e = ground arith

lexed-ok :
    (r : Scan (List Token × Faults)) (ms : Members)
    → lexed r ≡ ok ms
    → (r ≡ done (value_tokens (object ms) [], no_faults))
      × (depth (object ms) ≤ 16)
      × (nodes (object ms) ≤ 8192)
      × (repeats (object ms) ≡ false)
lexed-ok refused ms e = cc
lexed-ok out_of_fuel ms e = cc
lexed-ok (done (ts, f)) ms e = elim (Option-cases (grammar ts f)) [
  | inl refusal ↦ cc refusal
  | inr (f', pass) ↦
      let (ms', shape) = grammar-IsObject ts f pass in
      let (same, clean, d, n, once) =
        verdict-ok f ms' ms
          (sym (checked-object ms' f) ∙ ap (λ x. checked x (grammar x f)) (sym shape) ∙ e) in
      (
        ap done (
            ap₂ (λ (a : List Token) (b : Faults). (a, b))
              (shape ∙ ap (λ x. value_tokens (object x) []) same) clean),
        subst (λ x. depth (object x) ≤ 16) same d,
        subst (λ x. nodes (object x) ≤ 8192) same n,
        subst (λ x. repeats (object x) ≡ false) same once,
      )
]

spelled-ok :
    (ms : Members)
    → depth (object ms) ≤ 16
    → nodes (object ms) ≤ 8192
    → repeats (object ms) ≡ false
    → lexed (done (value_tokens (object ms) [], no_faults)) ≡ ok ms
spelled-ok ms d n once = checked-object ms no_faults ∙ ground arith

parse_object-lexed :
    (raw : Bytes) (ms : Members)
    → parse_object raw ≡ ok ms
    → (length raw ≤ request_limit) × (ill_encoded raw ≡ false) × (lexed (tokenize raw) ≡ ok ms)
unfolding parse_object
parse_object-lexed raw ms e = ground arith

ok-parse_object :
    (raw : Bytes) (ms : Members)
    → length raw ≤ request_limit
    → ill_encoded raw ≡ false
    → lexed (tokenize raw) ≡ ok ms
    → parse_object raw ≡ ok ms
unfolding parse_object
ok-parse_object raw ms size clean e = ground arith

-- The decoder returns an object exactly when the bytes spell it: no more than 64 KiB of UTF-8 with
-- no byte order mark and no NUL, whose tokens are those of the object with no fault among them, at
-- most 16 levels and 8192 values, and no name twice in one object.
pub parse_object_exact : (raw : Bytes) (ms : Members) → (parse_object raw ≡ ok ms) ↔ Spells raw ms
parse_object_exact raw ms = (
  λ e.
      let (size, clean, inner) = parse_object-lexed raw ms e in
      let (tokens, d, n, once) = lexed-ok (tokenize raw) ms inner in
      record {
        size = size;
        encoded = clean;
        tokens = tokens;
        depth_bound = d;
        nodes_bound = n;
        once = once;
      },
  λ s.
      ok-parse_object raw ms s.size s.encoded
        (ap lexed s.tokens ∙ spelled-ok ms s.depth_bound s.nodes_bound s.once),
)
