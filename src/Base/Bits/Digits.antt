-- ===== src/Base/Bits/Digits.antt =====
-- `bit_or` and `bit_and` by their lowest digit.
use Prim.Native.Nat.{
  ℕ, zero, suc, ◌+◌, ◌*◌, ◌/◌, ◌%◌, ◌≤◌, min, max, bit_and, bit_or, digits, bitwise,
  bit_and-bitwise, bit_or-bitwise,
}
use mathlib.Core.Path.{◌≡◌, refl}
use native.Mathlib.Omega.{arith}

-- The definition of the native operations carries fuel, which any bound serves as.
module _ (rest : ℕ → ℕ) (f : ℕ → ℕ → ℕ) where
  fuel_irrelevant : (a b : ℕ) (m n : ℕ) → a ≤ m → a ≤ n → digits rest f m a b ≡ digits rest f n a b
  fuel_irrelevant zero b zero zero p q = refl
  fuel_irrelevant zero b zero (suc n) p q = refl
  fuel_irrelevant zero b (suc m) zero p q = refl
  fuel_irrelevant zero b (suc m) (suc n) p q = refl
  fuel_irrelevant (suc a) b zero n p q = absurd (omega arith)
  fuel_irrelevant (suc a) b (suc m) zero p q = absurd (omega arith)
  fuel_irrelevant (suc a) b (suc m) (suc n) p q =
      rw (fuel_irrelevant (suc a / 2) (b / 2) m n (omega arith) (omega arith))

  lowest_digit :
      (a b : ℕ)
      → bitwise rest f (suc a) b ≡ bitwise rest f (suc a / 2) (b / 2) * 2 + f (suc a % 2) (b % 2)
  lowest_digit a b =
      rw (fuel_irrelevant (suc a / 2) (b / 2) a (suc a / 2) (omega arith) (omega arith))

pub bit_or-digit : (a b : ℕ) → bit_or a b ≡ bit_or (a / 2) (b / 2) * 2 + max (a % 2) (b % 2)
bit_or-digit zero b = omega (arith, bit_or-bitwise 0 b, bit_or-bitwise (0 / 2) (b / 2))
bit_or-digit (suc a) b = omega (
  arith,
  bit_or-bitwise (suc a) b,
  bit_or-bitwise (suc a / 2) (b / 2),
  lowest_digit (λ b. b) max a b,
)

pub bit_and-digit : (a b : ℕ) → bit_and a b ≡ bit_and (a / 2) (b / 2) * 2 + min (a % 2) (b % 2)
bit_and-digit zero b = omega (arith, bit_and-bitwise 0 b, bit_and-bitwise (0 / 2) (b / 2))
bit_and-digit (suc a) b = omega (
  arith,
  bit_and-bitwise (suc a) b,
  bit_and-bitwise (suc a / 2) (b / 2),
  lowest_digit (λ b. 0) min a b,
)
