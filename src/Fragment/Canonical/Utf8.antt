-- ===== src/Fragment/Canonical/Utf8.antt =====
-- The canonical form of a value is UTF-8 if its texts are.
use curator_agent_launcher.Base.{
  ◌&&◌, ◌==◌, none, within, if◌then◌else◌, some, All, Option, ◌≤◌, ◌<◌, ◌≡◌, ◌∙◌, refl, Bool, true,
  false, ◌∷◌, [], ◌++◌, inl, inr, arith, Bytes, Bool-cases, ltb→lt, ℕ, zero, suc, ltb,
}
use curator_agent_launcher.MemberWire.Runes.{valid_from, utf8_valid}
use curator_agent_launcher.Fragment.Canonical.{escaped, quoted_bytes}

valid_start : (lo hi : ℕ) (t : Bytes) → valid_from 0 lo hi t ≡ utf8_valid t
unfolding valid_from
valid_start lo hi [] = refl
valid_start lo hi (c ∷ t) = refl

-- What a first byte asks of the next ones: their number, and the range of the next.
abbrev ByteState : Type 0
ByteState = ℕ × ℕ × ℕ

abbrev next_state : ℕ → Option ByteState
next_state c =
    if ltb c 0x80
    then some (0, 0x80, 0xbf)
    else if within 0xc2 0xdf c
    then some (1, 0x80, 0xbf)
    else if c == 0xe0
    then some (2, 0xa0, 0xbf)
    else if c == 0xed
    then some (2, 0x80, 0x9f)
    else if within 0xe1 0xef c
    then some (2, 0x80, 0xbf)
    else if c == 0xf0
    then some (3, 0x90, 0xbf)
    else if within 0xf1 0xf3 c
    then some (3, 0x80, 0xbf)
    else if c == 0xf4
    then some (3, 0x80, 0x8f)
    else none

abbrev valid_after : Option ByteState → Bytes → Bool
valid_after none s = false
valid_after (some (need, lo, hi)) s = valid_from need lo hi s

valid_next : (lo hi c : ℕ) (s : Bytes) → valid_from 0 lo hi (c ∷ s) ≡ valid_after (next_state c) s
unfolding valid_from
valid_next lo hi c s = ground arith

-- A next byte is none of ASCII.
abbrev IsHigh : Option ByteState → Type 0
IsHigh none = Unit
IsHigh (some (need, lo, hi)) = 0x80 ≤ lo

next_state-IsHigh : (c : ℕ) → IsHigh (next_state c)
next_state-IsHigh c = ground arith

and_both : (a b : Bool) → (a && b) ≡ true → (a ≡ true) × (b ≡ true)
and_both true b h = (refl, h)
and_both false b h = cc

above : (lo hi c : ℕ) → 0x80 ≤ lo → within lo hi c ≡ true → 0x80 ≤ c
above lo hi c l h = ground arith

high_byte : (c : ℕ) → ltb c 0x80 ≡ false → 0x80 ≤ c
high_byte c h = ground arith

after-append :
    (o : Option ByteState) (s t : Bytes)
    → ((need lo hi : ℕ) → valid_from need lo hi s ≡ true → valid_from need lo hi (s ++ t) ≡ true)
    → valid_after o s ≡ true
    → valid_after o (s ++ t) ≡ true
after-append none s t ih h = cc
after-append (some (need, lo, hi)) s t ih h = ih need lo hi h

pub valid_from-append :
    (need lo hi : ℕ) (s t : Bytes)
    → valid_from need lo hi s ≡ true
    → utf8_valid t ≡ true
    → valid_from need lo hi (s ++ t) ≡ true
unfolding valid_from
valid_from-append zero lo hi [] t h k = rw (valid_start lo hi t) k
valid_from-append (suc need) lo hi [] t h k = cc
valid_from-append (suc need) lo hi (c ∷ s) t h k =
    let (first, rest) = and_both (within lo hi c) (valid_from need 0x80 0xbf s) h in
    rw (first, valid_from-append need 0x80 0xbf s t rest k) refl
valid_from-append zero lo hi (c ∷ s) t h k = rw (valid_next lo hi c (s ++ t)) (
    after-append (next_state c) s t (λ n l u e. valid_from-append n l u s t e k)
      (rw (valid_next lo hi c s) at h))

escaped_high : (c : ℕ) → 0x80 ≤ c → escaped c ≡ c ∷ []
unfolding escaped
escaped_high c h = ground arith

ascii_byte : (lo hi c : ℕ) (t : Bytes) → c < 0x80 → valid_from 0 lo hi (c ∷ t) ≡ utf8_valid t
unfolding valid_from
ascii_byte lo hi c t h = ground arith

abbrev pub AllAscii : Bytes → Type 0
AllAscii s = All (λ c. c < 0x80) s

pub ascii_bytes : (s t : Bytes) → AllAscii s → utf8_valid (s ++ t) ≡ utf8_valid t
ascii_bytes [] t h = refl
ascii_bytes (c ∷ s) t (low, h) = ascii_byte 0x80 0xbf c (s ++ t) low ∙ ascii_bytes s t h

escaped_ascii : (c : ℕ) → c < 0x80 → AllAscii (escaped c)
unfolding escaped
escaped_ascii c h = ground arith

after-quoted_bytes :
    (o : Option ByteState) (s : Bytes)
    → ((need lo hi : ℕ)
        → 0x80 ≤ lo
        → valid_from need lo hi s ≡ true
        → valid_from need lo hi (quoted_bytes s) ≡ true)
    → IsHigh o
    → valid_after o s ≡ true
    → valid_after o (quoted_bytes s) ≡ true
after-quoted_bytes none s ih l h = cc
after-quoted_bytes (some (need, lo, hi)) s ih l h = ih need lo hi l h

pub valid_from-quoted_bytes :
    (need lo hi : ℕ) (s : Bytes)
    → 0x80 ≤ lo
    → valid_from need lo hi s ≡ true
    → valid_from need lo hi (quoted_bytes s) ≡ true
unfolding valid_from quoted_bytes
valid_from-quoted_bytes zero lo hi [] l h = refl
valid_from-quoted_bytes (suc need) lo hi [] l h = cc
valid_from-quoted_bytes (suc need) lo hi (c ∷ s) l h =
    let (first, rest) = and_both (within lo hi c) (valid_from need 0x80 0xbf s) h in
    rw
      (
        escaped_high c (above lo hi c l first),
        first,
        valid_from-quoted_bytes need 0x80 0xbf s (omega arith) rest,
      )
      refl
valid_from-quoted_bytes zero lo hi (c ∷ s) l h = elim (Bool-cases (ltb c 0x80)) [
  | inl ascii ↦
      let low = ltb→lt c 0x80 ascii in
      let rest = rw (ascii_byte lo hi c s low) at h in
      valid_start lo hi (escaped c ++ quoted_bytes s)
      ∙ ascii_bytes (escaped c) (quoted_bytes s) (escaped_ascii c low)
      ∙ valid_from-quoted_bytes 0 0x80 0xbf s (omega arith) rest
  | inr high ↦
      rw (escaped_high c (high_byte c high), valid_next lo hi c (quoted_bytes s))
        (after-quoted_bytes (next_state c) s (λ n l u. valid_from-quoted_bytes n l u s)
          (next_state-IsHigh c) (rw (valid_next lo hi c s) at h))
]
