-- ===== src/Base/Outcome.antt =====
-- The outcomes of a scanner: a value, a refusal (the Go code returns `ok == false`), or, in the
-- model only, fuel that ran out.
use mathlib.Core.Path.{◌≡◌, refl, subst}
use mathlib.Core.Bool.{Bool, true, false}
use curator_agent_launcher.Base.Tests.{if◌then◌else◌}

pub data Scan {ℓ} (A : Type ℓ) : Type ℓ where
  done : A → Scan A
  refused : Scan A
  out_of_fuel : Scan A

infixl 5 ◌>>=◌
abbrev pub ◌>>=◌ {ℓ κ} : {A : Type ℓ} {B : Type κ} → Scan A → (A → Scan B) → Scan B
done a >>= f = f a
refused >>= f = refused
out_of_fuel >>= f = out_of_fuel

-- The scan ended, and if with a value then with one of which `P` holds.
abbrev pub Ends {ℓ} : {A : Type ℓ} → (A → Type 0) → Scan A → Type 0
Ends P (done a) = P a
Ends P refused = Unit
Ends P out_of_fuel = ⊥

pub Ends-bind {ℓ κ} :
    {A : Type ℓ} {B : Type κ} (P : A → Type 0) (Q : B → Type 0) (r : Scan A) (f : A → Scan B)
    → Ends P r
    → ((a : A) → P a → Ends Q (f a))
    → Ends Q (r >>= f)
Ends-bind P Q (done a) f h k = k a h
Ends-bind P Q refused f h k = tt
Ends-bind P Q out_of_fuel f h k = h

pub Ends-imp {ℓ} :
    {A : Type ℓ} (P Q : A → Type 0) (r : Scan A) → ((a : A) → P a → Q a) → Ends P r → Ends Q r
Ends-imp P Q (done a) h e = h a e
Ends-imp P Q refused h e = tt
Ends-imp P Q out_of_fuel h e = e

-- `Ends` as a data type, for proofs that follow the code: `P` is found by unification.
pub data Yields {ℓ} {A : Type ℓ} (P : A → Type 0) : Scan A → Type ℓ where
  yields : {a : A} → P a → Yields P (done a)
  refuses : Yields P refused

module _ {ℓ} {A : Type ℓ} {P : A → Type 0} where
  pub Yields-Ends : {r : Scan A} → Yields P r → Ends P r
  Yields-Ends (yields h) = h
  Yields-Ends refuses = tt

  pub Ends-Yields : {r : Scan A} → Ends P r → Yields P r
  Ends-Yields {r = done a} h = yields h
  Ends-Yields {r = refused} h = refuses
  Ends-Yields {r = out_of_fuel} h = absurd h

  pub Yields-done : {r : Scan A} {a : A} → Yields P r → r ≡ done a → P a
  Yields-done (yields h) e = subst P (cc) h
  Yields-done refuses e = cc

  pub Yields-if :
      (b : Bool) {x y : Scan A}
      → (b ≡ true → Yields P x)
      → (b ≡ false → Yields P y)
      → Yields P (if b then x else y)
  Yields-if true h k = h refl
  Yields-if false h k = k refl

  pub Yields-bind {κ} :
      {B : Type κ} {Q : B → Type 0} {r : Scan A} {f : A → Scan B}
      → Yields P r
      → ((a : A) → P a → Yields Q (f a))
      → Yields Q (r >>= f)
  Yields-bind (yields {a} h) k = k a h
  Yields-bind refuses k = refuses
