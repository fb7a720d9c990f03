-- ===== src/Prelude/Exceptions.antt =====
-- C++ exceptions as values: a call returns, or throws.
use Prim.Native.Nat.{ℕ}
use mathlib.Core.List.{List}
use mathlib.Core.Logic.{◌⊎◌, inl, inr}
use mathlib.Core.Path.{◌≡◌, refl}

pub data Exception : Type 0 where
  invalid_argument : Exception
  out_of_range : Exception
  filesystem_error : Exception
  -- a std::string that is thrown
  message : List ℕ → Exception

pub data Result {ℓ} (A : Type ℓ) : Type ℓ where
  ok : A → Result A
  throw : Exception → Result A

-- A split on a computed result that keeps the equation.
pub Result-cases {ℓ} :
    {A : Type ℓ} (r : Result A) → ((a : A) × (r ≡ ok a)) ⊎ ((e : Exception) × (r ≡ throw e))
Result-cases (ok a) = inl (a, refl)
Result-cases (throw e) = inr (e, refl)

pub throw-ne-ok : {A : Type 0} {e : Exception} {a : A} → throw e ≡ ok a → ⊥
throw-ne-ok h = cc

pub ok-injective : {A : Type 0} {a b : A} → ok a ≡ ok b → a ≡ b
ok-injective h = cc
