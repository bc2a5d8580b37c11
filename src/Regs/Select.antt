-- ===== src/Regs/Select.antt =====
-- The fields of the words that the setup of a channel and of a trigger put together.
use evr_card_g.Base.{
  ℕ, ◌+◌, ◌*◌, ◌<◌, ◌^◌, ◌%◌, ◌/◌, Bool, ◌≡◌, refl, arith, if◌then◌else◌, bit_and, bit_or, ap, ◌∙◌,
}
use evr_card_g.Base.Bits.{bits_ext, bit-bit_or, bit_or_sum, bit_and_low}
use evr_card_g.Base.Bits.Digits.{bit_and-digit}
use evr_card_g.Regs.Blocks.{daq_select, ac_select, trigger_word}

bit_or_comm : (a b : ℕ) → bit_or a b ≡ bit_or b a
bit_or_comm a b =
    bits_ext (bit_or a b) (bit_or b a) (λ k. omega (arith, bit-bit_or k a b, bit-bit_or k b a))

-- The control word of a trigger: the source's lowest 16 bits, the polarity above, and bit 31.
pub trigger_word_fields :
    (source : ℕ) (polarity : Bool)
    → trigger_word source polarity ≡ 2 ^ 31 + (if polarity then 2 ^ 16 else 0) + source % 2 ^ 16
unfolding trigger_word
trigger_word_fields source polarity =
    let s = source % 2 ^ 16 in
    let p = if polarity then 1 else 0 in
    let bound : p < 2 = ground arith in
    let placed : (if polarity then 2 ^ 16 else 0) ≡ p * 2 ^ 16 = ground arith in
    rw (bit_and_low 16 source, placed)
      (ap (λ (t : ℕ). bit_or t (2 ^ 31))
          (bit_or_comm s (p * 2 ^ 16) ∙ bit_or_sum 16 p s (omega arith))
        ∙ bit_or_comm (p * 2 ^ 16 + s) (2 ^ 31)
        ∙ bit_or_sum 31 1 (p * 2 ^ 16 + s) (omega arith)
        ∙ omega arith)

slot_mask : (slots : ℕ) → bit_and slots 0x7FE ≡ slots / 2 % 2 ^ 10 * 2
slot_mask slots = omega (arith, bit_and-digit slots 0x7FE, bit_and_low 10 (slots / 2))

-- The selection of an AC rate, for a mask of the time slots below 2 ^ 9: bit 30, the kind 1 from
-- bit 11 on, the mask without its lowest bit from bit 3 on, and the lowest 3 bits of the rate.
pub ac_select_fields :
    (rate slots : ℕ)
    → slots < 2 ^ 9
    → ac_select rate slots ≡ 2 ^ 30 + 2 ^ 11 + slots / 2 * 2 ^ 3 + rate % 2 ^ 3
unfolding ac_select
ac_select_fields rate slots h =
    let x = slots / 2 in
    let kind : bit_or (2 ^ 30) (2 ^ 11) ≡ (2 ^ 19 + 1) * 2 ^ 11 = refl in
    let mask : bit_and slots 0x7FE * 4 ≡ x * 2 ^ 3 = omega (arith, slot_mask slots) in
    rw (kind, mask, bit_and_low 3 rate)
      (ap (λ (t : ℕ). bit_or t (rate % 2 ^ 3))
          (bit_or_sum 11 (2 ^ 19 + 1) (x * 2 ^ 3) (omega arith) ∙ omega arith)
        ∙ bit_or_sum 3 ((2 ^ 19 + 1) * 2 ^ 8 + x) (rate % 2 ^ 3) (omega arith)
        ∙ omega arith)

-- The selection for DAQ, for a partition below 2 ^ 11: bits 30, 15 and 14, and the partition; the
-- bits 11 and 12 of the kind are 0.
pub daq_select_fields :
    (partition : ℕ)
    → partition < 2 ^ 11
    → (daq_select partition ≡ 2 ^ 30 + 3 * 2 ^ 14 + partition)
      × (daq_select partition / 2 ^ 11 % 4 ≡ 0)
unfolding daq_select
daq_select_fields partition h =
    let kind : bit_or (2 ^ 30) (3 * 2 ^ 14) ≡ (2 ^ 19 + 24) * 2 ^ 11 = refl in
    let sum = bit_or_sum 11 (2 ^ 19 + 24) partition h in
    (rw kind (sum ∙ omega arith), rw (kind, sum) (omega arith))
