-- ===== src/Regs/Word.antt =====
-- 32-bit words: single bits set, cleared and tested.
use evr_card_g.Base.{
  ℕ, zero, suc, ◌-◌, ◌/◌, ◌^◌, ◌≤◌, ◌<◌, bit_and, bit_or, Bool, true, false, not, ◌==◌,
  if◌then◌else◌, ◌≡◌, ◌≢◌, refl, arith, ap, ◌∙◌, sym,
}
use native.Mathlib.Nat.{pow-suc, one-le-pow, pow-le-pow_right}
use native.Mathlib.Decide.{ℕ_discrete}
use evr_card_g.Base.Bits.{bit, bits_ext, bit-bit_or, bit-bit_and}

-- `v | (1<<k)` and `v & ~(1<<k)`, in 32 bits.
unfoldable pub set_bit : ℕ → ℕ → ℕ
set_bit k v = bit_or v (2 ^ k)

unfoldable pub clear_bit : ℕ → ℕ → ℕ
clear_bit k v = bit_and v (2 ^ 32 - 1 - 2 ^ k)

-- `c ? (v | (1<<k)) : (v & ~(1<<k))`
unfoldable pub put_bit : ℕ → Bool → ℕ → ℕ
put_bit k c v = if c then set_bit k v else clear_bit k v

-- `v & (1<<k)` as a bool.
unfoldable pub test_bit : ℕ → ℕ → Bool
test_bit k v = not (bit_and v (2 ^ k) == 0)

pub bit-le-one : (k v : ℕ) → bit k v ≤ 1
bit-le-one zero v = omega arith
bit-le-one (suc k) v = bit-le-one k (v / 2)

bit_of_zero : (k : ℕ) → bit k 0 ≡ 0
bit_of_zero zero = refl
bit_of_zero (suc k) = bit_of_zero k

bit-pow_self : (k : ℕ) → bit k (2 ^ k) ≡ 1
bit-pow_self zero = refl
bit-pow_self (suc k) = ap (bit k) (omega (arith, pow-suc 2 k)) ∙ bit-pow_self k

bit-pow_ne : (j k : ℕ) → j ≢ k → bit j (2 ^ k) ≡ 0
bit-pow_ne zero zero ne = absurd (ne refl)
bit-pow_ne zero (suc k) ne = omega (arith, pow-suc 2 k)
bit-pow_ne (suc j) zero ne = bit_of_zero j
bit-pow_ne (suc j) (suc k) ne =
    ap (bit j) (omega (arith, pow-suc 2 k)) ∙ bit-pow_ne j k (λ e. ne (ap suc e))

-- The complement in `n` bits turns each digit.
bit_complement : (j n a : ℕ) → j < n → a < 2 ^ n → bit j (2 ^ n - 1 - a) ≡ 1 - bit j a
bit_complement j zero a h l = absurd (omega arith)
bit_complement zero (suc n) a h l = omega (arith, pow-suc 2 n)
bit_complement (suc j) (suc n) a h l =
    ap (bit j) (omega (arith, pow-suc 2 n))
    ∙ bit_complement j n (a / 2) (omega arith) (omega (arith, pow-suc 2 n))

pow-lt-word : (k : ℕ) → k < 32 → 2 ^ k < 2 ^ 32
pow-lt-word k h = omega (
  arith,
  pow-le-pow_right {n = 2} (omega arith) {i = suc k} {j = 32} h,
  pow-suc 2 k,
  one-le-pow k 2,
)

bit-mask_self : (k : ℕ) → k < 32 → bit k (2 ^ 32 - 1 - 2 ^ k) ≡ 0
bit-mask_self k h = omega (arith, bit_complement k 32 (2 ^ k) h (pow-lt-word k h), bit-pow_self k)

bit-mask_ne : (j k : ℕ) → j < 32 → k < 32 → j ≢ k → bit j (2 ^ 32 - 1 - 2 ^ k) ≡ 1
bit-mask_ne j k l h ne =
    omega (arith, bit_complement j 32 (2 ^ k) l (pow-lt-word k h), bit-pow_ne j k ne)

-- The digit that was put has the value that was asked for.
pub bit-put_bit_self : (k v : ℕ) (c : Bool) → k < 32 → bit k (put_bit k c v) ≡ (if c then 1 else 0)
unfolding put_bit set_bit clear_bit
bit-put_bit_self k v true h = omega (arith, bit-bit_or k v (2 ^ k), bit-pow_self k, bit-le-one k v)
bit-put_bit_self k v false h =
    omega (arith, bit-bit_and k v (2 ^ 32 - 1 - 2 ^ k), bit-mask_self k h)

-- Each other digit of the 32 is kept.
pub bit-put_bit_ne :
    (j k v : ℕ) (c : Bool) → j < 32 → k < 32 → j ≢ k → bit j (put_bit k c v) ≡ bit j v
unfolding put_bit set_bit clear_bit
bit-put_bit_ne j k v true l h ne = omega (arith, bit-bit_or j v (2 ^ k), bit-pow_ne j k ne)
bit-put_bit_ne j k v false l h ne =
    omega (arith, bit-bit_and j v (2 ^ 32 - 1 - 2 ^ k), bit-mask_ne j k l h ne, bit-le-one j v)

and_pow_digit : (j k v : ℕ) → bit k v ≡ 0 → bit j (bit_and v (2 ^ k)) ≡ 0
and_pow_digit j k v e = elim (ℕ_discrete j k) [
  | yes same ↦
      omega (arith, bit-bit_and k v (2 ^ k), e, ap (λ (t : ℕ). bit t (bit_and v (2 ^ k))) same)
  | no ne ↦ omega (arith, bit-bit_and j v (2 ^ k), bit-pow_ne j k ne)
]

-- The test reads the digit.
pub test_bit_lem : (k v : ℕ) → test_bit k v ≡ (bit k v == 1)
unfolding test_bit
test_bit_lem k v = elim (ℕ_discrete (bit k v) 1) [
  | yes one ↦ ground (arith, bit-bit_and k v (2 ^ k), bit-pow_self k, bit_of_zero k, nonzero one)
  | no other ↦ ground (
    arith,
    bit-le-one k v,
    bits_ext (bit_and v (2 ^ k)) 0
        (λ j. and_pow_digit j k v (omega (arith, bit-le-one k v)) ∙ sym (bit_of_zero j)),
  )
]
  where
    nonzero : bit k v ≡ 1 → bit_and v (2 ^ k) ≢ 0
    nonzero one e =
        omega (arith, bit-bit_and k v (2 ^ k), bit-pow_self k, bit_of_zero k, ap (bit k) e)
