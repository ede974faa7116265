-- ===== src/Common/Reply.antt =====
-- What a route answers: a value, or an error with its HTTP status.
use Prim.Native.Nat.{ℕ}
use mathlib.Core.Path.{◌≡◌, refl}
use mathlib.Core.Bool.{Bool, true, false}
use mathlib.Core.Option.{Option, none, some}
use argus_sbomguard.Common.Result.{Outcome, return, raise}

pub data Reply {ℓ} (A : Type ℓ) : Type ℓ where
  ok : A → Reply A
  refuse : ℕ → Reply A

infixl 5 ◌>>=◌ ◌>>◌
abbrev pub ◌>>=◌ {ℓ κ} : {A : Type ℓ} {B : Type κ} → Reply A → (A → Reply B) → Reply B
refuse status >>= next = refuse status
ok a >>= next = next a

abbrev pub ◌>>◌ {ℓ} : {B : Type ℓ} → Reply (Unit {0}) → Reply B → Reply B
m >> k = m >>= λ _. k

-- `raise HTTPException(status_code=status)` under a condition.
abbrev pub refuse_if : Bool → ℕ → Reply (Unit {0})
refuse_if true status = refuse status
refuse_if false status = ok tt

-- The row, or the status for a missing one.
abbrev pub found_or {ℓ} : {A : Type ℓ} → Option A → ℕ → Reply A
found_or none status = refuse status
found_or (some a) status = ok a

-- An exception that no handler catches is answered with 500.
abbrev pub reply_of {ℓ} : {A : Type ℓ} → Outcome A → Reply A
reply_of (return a) = ok a
reply_of (raise e) = refuse 500

-- A chain that answers with a value had one from its first step.
pub >>=-eq-ok {ℓ κ} :
    {A : Type ℓ} {B : Type κ} (first : Reply A) (next : A → Reply B) {answer : B}
    → (first >>= next) ≡ ok answer
    → (x : A) × (first ≡ ok x) × (next x ≡ ok answer)
>>=-eq-ok (refuse status) next h = cc
>>=-eq-ok (ok x) next h = (x, refl, h)

-- A check in front of a chain that succeeds did not refuse.
pub refuse_if->>-eq-ok {ℓ} :
    {B : Type ℓ} (test : Bool) (status : ℕ) (k : Reply B) {b : B}
    → (refuse_if test status >> k) ≡ ok b
    → (test ≡ false) × (k ≡ ok b)
refuse_if->>-eq-ok true status k h = cc
refuse_if->>-eq-ok false status k h = (refl, h)

pub found_or-eq-ok {ℓ} :
    {A : Type ℓ} (o : Option A) (status : ℕ) {a : A} → found_or o status ≡ ok a → o ≡ some a
found_or-eq-ok none status h = cc
found_or-eq-ok (some a) status h = cc

pub reply_of-eq-ok {ℓ} : {A : Type ℓ} (m : Outcome A) {a : A} → reply_of m ≡ ok a → m ≡ return a
reply_of-eq-ok (return a) h = cc
reply_of-eq-ok (raise e) h = cc
