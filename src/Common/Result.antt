-- ===== src/Common/Result.antt =====
-- Code that may raise returns an `Outcome`.
use mathlib.Core.Path.{◌≡◌, refl}

-- The exceptions of Python that the modelled code can raise.
pub data Error : Type 0 where
  attribute_error type_error key_error value_error multiple_results no_result tool_error
        data_error :
      Error

pub data Outcome {ℓ} (A : Type ℓ) : Type ℓ where
  return : A → Outcome A
  raise : Error → Outcome A

infixl 5 ◌>>=◌
abbrev pub ◌>>=◌ {ℓ κ} : {A : Type ℓ} {B : Type κ} → Outcome A → (A → Outcome B) → Outcome B
return a >>= f = f a
raise e >>= f = raise e

pub >>=-eq-return {ℓ κ} :
    {A : Type ℓ} {B : Type κ} (m : Outcome A) (f : A → Outcome B) {b : B}
    → (m >>= f) ≡ return b
    → (a : A) × (m ≡ return a) × (f a ≡ return b)
>>=-eq-return (return a) f h = (a, refl, h)
>>=-eq-return (raise e) f h = cc
