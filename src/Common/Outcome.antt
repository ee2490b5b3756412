-- ===== src/Common/Outcome.antt =====
-- Go's `(value, error)`: a value, or an error of the type that the component names.
use mathlib.Core.Path.{◌≡◌, refl, subst}
use mathlib.Core.Option.{some}
use mathlib.Core.Bool.{Bool, true, false}
use mathlib.Core.Logic.{◌⊎◌, inl, inr}

pub data Result {ℓ κ} (E : Type ℓ) (A : Type κ) : Type (ℓ ⊔ κ) where
  ok : A → Result E A
  err : E → Result E A

infixl 5 ◌>>=◌
abbrev pub ◌>>=◌ {ℓ κ μ} :
    {E : Type ℓ} {A : Type κ} {B : Type μ} → Result E A → (A → Result E B) → Result E B
ok a >>= f = f a
err e >>= f = err e

-- `if bad { return error }`
abbrev pub reject {ℓ} : {E : Type ℓ} → Bool → E → Result E (Unit {0})
reject true e = err e
reject false e = ok tt

pub Result-cases {ℓ κ} :
    {E : Type ℓ} {A : Type κ} (r : Result E A) → ((a : A) × (r ≡ ok a)) ⊎ ((e : E) × (r ≡ err e))
Result-cases (ok a) = inl (a, refl)
Result-cases (err e) = inr (e, refl)

-- The parts of a chain that succeeded.
module _ {ℓ κ μ} {E : Type ℓ} {A : Type κ} {B : Type μ} where
  pub >>=-eq-ok :
      (first : Result E A) (next : A → Result E B) {last : B}
      → (first >>= next) ≡ ok last
      → (a : A) × (first ≡ ok a) × (next a ≡ ok last)
  >>=-eq-ok (ok a) next h = (a, refl, h)
  >>=-eq-ok (err e) next h = cc

pub ok_cancel : {E A : Type 0} (x y : A) → ◌≡◌ {A = Result E A} (ok x) (ok y) → x ≡ y
ok_cancel x y e = cc

-- A property of the value that a success holds is one of the value that it is said to hold.
pub of_ok {ℓ} :
    {E A : Type 0} (P : A → Type ℓ) {x y : A} → ◌≡◌ {A = Result E A} (ok x) (ok y) → P x → P y
of_ok P {x} {y} e h = subst P (ok_cancel x y e) h

pub some_cancel : {A : Type 0} (x y : A) → some x ≡ some y → x ≡ y
some_cancel x y e = cc

pub of_some {ℓ} : {A : Type 0} (P : A → Type ℓ) {x y : A} → some x ≡ some y → P x → P y
of_some P {x} {y} e h = subst P (some_cancel x y e) h
