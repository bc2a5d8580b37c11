-- ===== src/Base/Outcome.antt =====
-- What a C++ call can come to: a value, an uncaught `std::out_of_range`, or a read of a variable
-- that was never written.
use mathlib.Core.Path.{◌≡◌, refl}
use mathlib.Core.Option.{Option, none, some}

pub data Outcome {ℓ} (A : Type ℓ) : Type ℓ where
  ok : A → Outcome A
  out_of_range : Outcome A
  undefined : Outcome A

infixl 5 ◌>>=◌
abbrev pub ◌>>=◌ {ℓ κ} : {A : Type ℓ} {B : Type κ} → Outcome A → (A → Outcome B) → Outcome B
ok a >>= f = f a
out_of_range >>= f = out_of_range
undefined >>= f = undefined

-- The value of a variable; `none` is one that was never written.
abbrev pub value {ℓ} : {A : Type ℓ} → Option A → Outcome A
value (some a) = ok a
value none = undefined

pub >>=-eq-ok {ℓ κ} :
    {A : Type ℓ} {B : Type κ} (call : Outcome A) (rest : A → Outcome B) {result : B}
    → (call >>= rest) ≡ ok result
    → (x : A) × (call ≡ ok x) × (rest x ≡ ok result)
>>=-eq-ok out_of_range rest e = cc
>>=-eq-ok undefined rest e = cc
>>=-eq-ok (ok x) rest e = (x, refl, e)
