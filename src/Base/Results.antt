-- ===== src/Base/Results.antt =====
-- The result of a Python call that may raise: `err` holds the exception.
use mathlib.Core.Path.{◌≡◌, refl, ap}
use mathlib.Core.Logic.{◌⊎◌, inl, inr}
use native.Mathlib.Omega.{arith}

pub data Result {ℓ κ} (E : Type ℓ) (A : Type κ) : Type (ℓ ⊔ κ) where
  ok : A → Result E A
  err : E → Result E A

-- The next call runs unless an exception was raised before it.
infixl 5 ◌>>=◌
abbrev pub ◌>>=◌ {ℓ₁ ℓ₂ ℓ₃} :
    {E : Type ℓ₁} {A : Type ℓ₂} {B : Type ℓ₃} → Result E A → (A → Result E B) → Result E B
err raised >>= next = err raised
ok x >>= next = next x

-- Two calls in a row that return have both returned.
pub >>=-eq-ok :
    {E A B : Type 0} (first : Result E A) (next : A → Result E B) {y : B}
    → (first >>= next) ≡ ok y
    → (x : A) × (first ≡ ok x) × (next x ≡ ok y)
>>=-eq-ok (err raised) next returned = absurd (ground arith)
>>=-eq-ok (ok x) next returned = (x, refl, returned)

pub Result-cases :
    {E A : Type 0} (r : Result E A) → ((a : A) × (r ≡ ok a)) ⊎ ((e : E) × (r ≡ err e))
Result-cases (ok a) = inl (a, refl)
Result-cases (err e) = inr (e, refl)

pub ok_inj : {E A : Type 0} {a b : A} → ◌≡◌ {A = Result E A} (ok a) (ok b) → a ≡ b
ok_inj {E} {A} {a} h = ap (λ (r : Result E A). elim r [ ok x ↦ x | err e ↦ a ]) h
