-- ===== src/Base/Run.antt =====
-- A computation with fuel: `none` is out of fuel, and a fault ends it as an `Outcome` does.
use mathlib.Core.Path.{◌≡◌, refl}
use mathlib.Core.Option.{Option, none, some}
use evr_card_g.Base.Outcome.{Outcome, ok, out_of_range, undefined}

abbrev pub Run {ℓ} : Type ℓ → Type ℓ
Run A = Option (Outcome A)

abbrev pub done {ℓ} : {A : Type ℓ} → A → Run A
done a = some (ok a)

infixl 5 ◌>>=◌
abbrev pub ◌>>=◌ {ℓ κ} : {A : Type ℓ} {B : Type κ} → Run A → (A → Run B) → Run B
none >>= f = none
some out_of_range >>= f = some out_of_range
some undefined >>= f = some undefined
some (ok a) >>= f = f a

-- The value of a variable; `none` is one that was never written.
abbrev pub value {ℓ} : {A : Type ℓ} → Option A → Run A
value (some a) = done a
value none = some undefined

pub >>=-eq-done {ℓ κ} :
    {A : Type ℓ} {B : Type κ} (m : Run A) (f : A → Run B) {b : B}
    → (m >>= f) ≡ done b
    → (a : A) × (m ≡ done a) × (f a ≡ done b)
>>=-eq-done none f h = cc
>>=-eq-done (some out_of_range) f h = cc
>>=-eq-done (some undefined) f h = cc
>>=-eq-done (some (ok a)) f h = (a, refl, h)
