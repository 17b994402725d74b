-- ===== src/Tried.antt =====
-- The result of Go code that returns a value and an error, one of the two.
use curator_agent_launcher.Base.{Bool, true, false, refl, ◌≡◌, ◌⊎◌, inl, inr}

pub data Tried (E A : Type 0) : Type 0 where
  granted : A → Tried E A
  denied : E → Tried E A

-- `if err != nil { return err }`.
infixl 5 ◌>>=◌ ◌>>◌
abbrev pub ◌>>=◌ : {E A B : Type 0} → Tried E A → (A → Tried E B) → Tried E B
denied e >>= k = denied e
granted a >>= k = k a

abbrev pub ◌>>◌ : {E B : Type 0} → Tried E (Unit {0}) → Tried E B → Tried E B
m >> n = m >>= λ _. n

-- `if failed { return err }`.
abbrev pub deny_if : {E : Type 0} → Bool → E → Tried E (Unit {0})
deny_if false e = granted tt
deny_if true e = denied e

-- A sequence that grants has granted its first part.
pub granted-parts :
    {E A B : Type 0} {b : B} (m : Tried E A) (k : A → Tried E B)
    → m >>= k ≡ granted b
    → (a : A) × (m ≡ granted a) × (k a ≡ granted b)
granted-parts (denied e) k h = cc
granted-parts (granted a) k h = (a, refl, h)

-- Whatever is granted meets the predicate.
abbrev pub Grants : {E A : Type 0} → (A → Type 0) → Tried E A → Type 0
Grants P (granted a) = P a
Grants P (denied e) = Unit

pub Grants-bind :
    {E A B : Type 0} (P : A → Type 0) (Q : B → Type 0) (m : Tried E A) (k : A → Tried E B)
    → Grants P m
    → ((a : A) → P a → Grants Q (k a))
    → Grants Q (m >>= k)
Grants-bind P Q (denied e) k h f = tt
Grants-bind P Q (granted a) k h f = f a h

pub Grants-deny_if :
    {E B : Type 0} (Q : B → Type 0) (b : Bool) (e : E) (m : Tried E B)
    → (b ≡ false → Grants Q m)
    → Grants Q (deny_if b e >> m)
Grants-deny_if Q true e m h = tt
Grants-deny_if Q false e m h = h refl

pub Tried-cases :
    {E A : Type 0} (m : Tried E A) → ((e : E) × (m ≡ denied e)) ⊎ ((a : A) × (m ≡ granted a))
Tried-cases (denied e) = inl (e, refl)
Tried-cases (granted a) = inr (a, refl)
