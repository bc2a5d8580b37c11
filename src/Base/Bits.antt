-- ===== src/Base/Bits.antt =====
-- Facts about `bit_and` and `bit_or` at variables, from the recursion on binary digits.
pub mod Digits
use Digits.{bit_or-digit, bit_and-digit}
use Prim.Native.Nat.{
  ℕ, zero, suc, ◌+◌, ◌-◌, ◌*◌, ◌/◌, ◌%◌, ◌^◌, ◌≤◌, ◌<◌, min, max, bit_and, bit_or,
}
use mathlib.Core.Path.{◌≡◌, refl, ap, ◌∙◌}
use native.Mathlib.Nat.{
  pow-suc, one-le-pow, add-mul-mod_self_right, mod-eq_of_lt, mod-lt, div-add-mod',
}
use native.Mathlib.Omega.{arith}

-- Digit `k` of a word.
abbrev pub bit : ℕ → ℕ → ℕ
bit zero v = v % 2
bit (suc k) v = bit k (v / 2)

pub bit-bit_or : (k a b : ℕ) → bit k (bit_or a b) ≡ max (bit k a) (bit k b)
bit-bit_or zero a b = omega (arith, bit_or-digit a b)
bit-bit_or (suc k) a b = ap (bit k) (omega (arith, bit_or-digit a b)) ∙ bit-bit_or k (a / 2) (b / 2)

pub bit-bit_and : (k a b : ℕ) → bit k (bit_and a b) ≡ min (bit k a) (bit k b)
bit-bit_and zero a b = omega (arith, bit_and-digit a b)
bit-bit_and (suc k) a b =
    ap (bit k) (omega (arith, bit_and-digit a b)) ∙ bit-bit_and k (a / 2) (b / 2)

pub bit-zero : (k : ℕ) → bit k 0 ≡ 0
bit-zero zero = refl
bit-zero (suc k) = bit-zero k

-- Two words that agree in each digit are equal.
bits_ext_fuel : (n a b : ℕ) → a ≤ n → b ≤ n → ((k : ℕ) → bit k a ≡ bit k b) → a ≡ b
bits_ext_fuel zero a b p q h = omega arith
bits_ext_fuel (suc n) a b p q h =
    omega (arith, h 0, bits_ext_fuel n (a / 2) (b / 2) (omega arith) (omega arith) (λ k. h (suc k)))

pub bits_ext : (a b : ℕ) → ((k : ℕ) → bit k a ≡ bit k b) → a ≡ b
bits_ext a b = bits_ext_fuel (a + b) a b (omega arith) (omega arith)

pub bit_or-zero : (a : ℕ) → bit_or a 0 ≡ a
bit_or-zero a = bits_ext (bit_or a 0) a (λ k. omega (arith, bit-bit_or k a 0, bit-zero k))

pub bit_and-zero : (a : ℕ) → bit_and a 0 ≡ 0
bit_and-zero a = bits_ext (bit_and a 0) 0 (λ k. omega (arith, bit-bit_and k a 0, bit-zero k))

-- A sum with no carry: words whose digits do not meet.
pub bit_or_comm : (a b : ℕ) → bit_or a b ≡ bit_or b a
bit_or_comm a b =
    bits_ext (bit_or a b) (bit_or b a) (λ k. omega (arith, bit-bit_or k a b, bit-bit_or k b a))

or_and_sum_fuel : (n a b : ℕ) → a ≤ n → bit_or a b + bit_and a b ≡ a + b
or_and_sum_fuel zero zero b p =
    omega (arith, bit_or-digit 0 b, bit_and-digit 0 b, zero_or b, zero_and b)
  where
    zero_or : (b : ℕ) → bit_or 0 b ≡ b
    zero_or b = bits_ext (bit_or 0 b) b (λ k. omega (arith, bit-bit_or k 0 b, bit-zero k))

    zero_and : (b : ℕ) → bit_and 0 b ≡ 0
    zero_and b = bits_ext (bit_and 0 b) 0 (λ k. omega (arith, bit-bit_and k 0 b, bit-zero k))
or_and_sum_fuel zero (suc a) b p = absurd (omega arith)
or_and_sum_fuel (suc n) a b p =
    omega
      (arith, bit_or-digit a b, bit_and-digit a b, or_and_sum_fuel n (a / 2) (b / 2) (omega arith))

pub bit_or-add-bit_and : (a b : ℕ) → bit_or a b + bit_and a b ≡ a + b
bit_or-add-bit_and a b = or_and_sum_fuel a a b (omega arith)

bit_and_apart : (k q r : ℕ) → r < 2 ^ k → bit_and (q * 2 ^ k) r ≡ 0
bit_and_apart zero q r h = omega (arith, bit_and-zero (q * 2 ^ 0), ap (bit_and (q * 2 ^ 0)) zero_r)
  where
    zero_r : r ≡ 0
    zero_r = omega arith
bit_and_apart (suc k) q r h = omega (
  arith,
  bit_and-digit (q * 2 ^ suc k) r,
  halved,
  bit_and_apart k q (r / 2) (omega (arith, pow-suc 2 k)),
  doubled,
)
  where
    doubled : q * 2 ^ suc k ≡ q * 2 ^ k * 2
    doubled = omega (arith, ap (λ (t : ℕ). q * t) (pow-suc 2 k))

    halved : bit_and (q * 2 ^ suc k / 2) (r / 2) ≡ bit_and (q * 2 ^ k) (r / 2)
    halved = ap (λ (t : ℕ). bit_and t (r / 2)) (omega (arith, doubled))

-- `(q << k) | r` is a sum when `r` fits in `k` bits.
pub bit_or_sum : (k q r : ℕ) → r < 2 ^ k → bit_or (q * 2 ^ k) r ≡ q * 2 ^ k + r
bit_or_sum k q r h = omega (arith, bit_or-add-bit_and (q * 2 ^ k) r, bit_and_apart k q r h)

mod_double : (k a : ℕ) → a % 2 ^ suc k ≡ a / 2 % 2 ^ k * 2 + a % 2
mod_double k a =
    ap (λ (t : ℕ). t % 2 ^ suc k) split
    ∙ add-mul-mod_self_right small (a / 2 / 2 ^ k) (2 ^ suc k)
    ∙ mod-eq_of_lt
        (omega (arith, mod-lt (a / 2) {m = 2 ^ k} (one-le-pow k 2 (omega arith)), pow-suc 2 k))
  where
    small : ℕ
    small = a / 2 % 2 ^ k * 2 + a % 2

    split : a ≡ small + a / 2 / 2 ^ k * 2 ^ suc k
    split =
        omega (arith, div-add-mod' (a / 2) (2 ^ k), ap (λ (t : ℕ). a / 2 / 2 ^ k * t) (pow-suc 2 k))

-- A mask of `k` low ones is the remainder by `2 ^ k`.
pub bit_and_low : (k a : ℕ) → bit_and a (2 ^ k - 1) ≡ a % 2 ^ k
bit_and_low zero a = omega (arith, bit_and-zero a)
bit_and_low (suc k) a = omega (
  arith,
  bit_and-digit a (2 ^ suc k - 1),
  pow-suc 2 k,
  one-le-pow k 2,
  ap (bit_and (a / 2)) half_mask,
  bit_and_low k (a / 2),
  mod_double k a,
)
  where
    half_mask : (2 ^ suc k - 1) / 2 ≡ 2 ^ k - 1
    half_mask = omega (arith, pow-suc 2 k)
