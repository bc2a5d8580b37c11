-- ===== src/Driver/Minors.antt =====
-- The bit mask of the enabled channels.
use evr_card_g.Base.{
  ℕ, ◌<◌, ◌≡◌, true, false, ◌==◌, if◌then◌else◌, arith, inl, inr, Bool-cases, ==_iff,
}
use evr_card_g.Base.Bits.{bit}
use evr_card_g.Regs.Word.{set_bit, clear_bit, put_bit, bit-put_bit_self, bit-put_bit_ne}

pub bit-set_bit :
    (k m v : ℕ) → k < 14 → m < 14 → bit k (set_bit m v) ≡ (if k == m then 1 else bit k v)
unfolding put_bit
bit-set_bit k m v l h = elim (Bool-cases (k == m)) [
  | inl e ↦ rw (e, (==_iff k m).0 e) (bit-put_bit_self m v true (omega arith))
  | inr ne ↦ rw (ne) (bit-put_bit_ne k m v true (omega arith) (omega arith) (ground (arith, ne)))
]

pub bit-clear_bit :
    (k m v : ℕ) → k < 14 → m < 14 → bit k (clear_bit m v) ≡ (if k == m then 0 else bit k v)
unfolding put_bit
bit-clear_bit k m v l h = elim (Bool-cases (k == m)) [
  | inl e ↦ rw (e, (==_iff k m).0 e) (bit-put_bit_self m v false (omega arith))
  | inr ne ↦ rw (ne) (bit-put_bit_ne k m v false (omega arith) (omega arith) (ground (arith, ne)))
]
