-- ===== src/Apps/Check/Settled.antt =====
-- What the link test of tprtest leaves in the control word of the receiver.
use evr_card_g.Base.{
  ℕ, ◌<◌, ◌*◌, ◌%◌, ◌^◌, Bool, true, false, not, ◌||◌, List, [], ◌∷◌, ◌≡◌, refl, arith, ◌∙◌, ◌==◌,
  if◌then◌else◌,
}
use evr_card_g.Bus.{Bus}
use evr_card_g.Regs.Word.{put_bit, clear_bit, test_bit}
use evr_card_g.Regs.Core.{
  csr, get_csr_bit, put_csr_bit, pulse, set_clk_sel, set_mode_sel, set_mode_sel_en, set_rx_polarity,
  rx_polarity, reset_counts,
}
use evr_card_g.Regs.Settings.{test-put, test-clear}
use evr_card_g.Apps.Dumps.{loads, core_dump, csr_dump, core_regs, csr_regs, tpr_base_of_core}
use evr_card_g.Apps.Reals.{Reals}
use evr_card_g.Apps.Check.Link.{
  core_word, TimingMode, is_lcls1, is_lcls2, select_mode, count_link, acknowledge, link_test,
}

-- What the test relies on: the writable bits of the control word are read back as they were stored,
-- and neither a load nor a sleep changes them. The other bits, and each other register, may be
-- counters, status bits or strobes of the hardware.
pub record KeepsBits {C : Type 0} (bus : Bus C) (writable : ℕ → Bool) : Type 0 where
  pub load-store :
      (j v : ℕ) (c : C)
      → writable j ≡ true
      → test_bit j (bus.load csr (bus.store csr v c)).0 ≡ test_bit j v
  pub load-load :
      (j o : ℕ) (c : C)
      → writable j ≡ true
      → test_bit j (bus.load csr (bus.load o c).1).0 ≡ test_bit j (bus.load csr c).0
  pub load-sleep_us :
      (j n : ℕ) (c : C)
      → writable j ≡ true
      → test_bit j (bus.load csr (bus.sleep_us n c)).0 ≡ test_bit j (bus.load csr c).0

module _ {C : Type 0} (bus : Bus C) {writable : ℕ → Bool} (k : KeepsBits bus writable) (j : ℕ)
    (w : writable j ≡ true) (h : j < 32) where
  abbrev csr_bit : C → Bool
  csr_bit c = test_bit j (bus.load csr c).0

  csr_bit-loads : (os : List ℕ) (c : C) → csr_bit (loads bus os c) ≡ csr_bit c
  unfolding loads
  csr_bit-loads [] c = refl
  csr_bit-loads (o ∷ os) c = csr_bit-loads os (bus.load o c).1 ∙ k.load-load j o c w

  csr_bit-dumps : (c : C) → csr_bit (csr_dump bus (core_dump bus tpr_base_of_core c)) ≡ csr_bit c
  unfolding csr_dump core_dump
  csr_bit-dumps c =
      csr_bit-loads csr_regs (loads bus (core_regs tpr_base_of_core) c)
      ∙ csr_bit-loads (core_regs tpr_base_of_core) c

  csr_bit-count_link : (n : ℕ) (c : C) → csr_bit (count_link bus n c).1 ≡ csr_bit c
  unfolding count_link
  csr_bit-count_link n c =
      k.load-load j (core_word 7) _ w
      ∙ k.load-load j (core_word 6) _ w
      ∙ k.load-load j (core_word 3) _ w
      ∙ k.load-load j (core_word 0) _ w
      ∙ k.load-load j (core_word 10) _ w
      ∙ k.load-load j (core_word 4) _ w
      ∙ k.load-sleep_us j n _ w
      ∙ k.load-load j (core_word 10) _ w
      ∙ k.load-load j (core_word 4) c w

  csr_bit-put_csr_bit :
      (i : ℕ) (b : Bool) (c : C)
      → i < 32
      → csr_bit (put_csr_bit bus i b c) ≡ (if j == i then b else csr_bit c)
  unfolding put_csr_bit
  csr_bit-put_csr_bit i b c l =
      let (v, c') = bus.load csr c in k.load-store j (put_bit i b v) c' w ∙ test-put j i v b h l

  csr_bit-set_rx_polarity :
      (p : Bool) (c : C)
      → csr_bit (set_rx_polarity bus p c)
        ≡ (if j == 3 then false else if j == 2 then p else csr_bit c)
  unfolding set_rx_polarity
  csr_bit-set_rx_polarity p c =
      let v = (bus.load csr c).0 in
      k.load-store j (clear_bit 3 (put_bit 2 p v)) _ w
      ∙ ground
          (arith, test-clear j 3 (put_bit 2 p v) h (omega arith), test-put j 2 v p h (omega arith))

  csr_bit-reset_counts :
      (c : C) → csr_bit (reset_counts bus c) ≡ (if j == 0 then false else csr_bit c)
  unfolding reset_counts pulse
  csr_bit-reset_counts c =
      let v = (bus.load csr c).0 in
      k.load-store j (clear_bit 0 v) _ w ∙ test-clear j 0 v h (omega arith)

  csr_bit-acknowledge :
      (c : C) → csr_bit (acknowledge bus c).1 ≡ (if j == 5 then false else csr_bit c)
  unfolding acknowledge
  csr_bit-acknowledge c =
      let v = (bus.load csr c).0 in
      k.load-store j (clear_bit 5 v) _ w ∙ test-clear j 5 v h (omega arith)

  csr_bit-select_mode :
      (mode : TimingMode) (c : C)
      → csr_bit (select_mode bus mode c) ≡ (
          if j == 2 || j == 3
          then false
          else if j == 10
          then true
          else if j == 9
          then not (is_lcls1 mode)
          else if j == 4
          then is_lcls2 mode
          else csr_bit c)
  unfolding select_mode set_clk_sel set_mode_sel set_mode_sel_en
  csr_bit-select_mode mode c =
      let c₁ = put_csr_bit bus 4 (is_lcls2 mode) c in
      let c₂ = put_csr_bit bus 9 (not (is_lcls1 mode)) c₁ in
      let c₃ = put_csr_bit bus 10 true c₂ in
      ground (
        arith,
        csr_bit-set_rx_polarity false c₃,
        csr_bit-put_csr_bit 10 true c₂ (omega arith),
        csr_bit-put_csr_bit 9 (not (is_lcls1 mode)) c₁ (omega arith),
        csr_bit-put_csr_bit 4 (is_lcls2 mode) c (omega arith),
      )

  -- If the writable bits of the receiver's control word are read back as they were stored, and
  -- loads and sleeps leave them, then the link test without the ring buffers leaves in these bits
  -- the clock and the protocol of the mode, the protocol's enable set, and the polarity, both
  -- resets and the latched loss of the link cleared; each other writable bit is as it was. Nothing
  -- is assumed of the counters, the status bits and the other registers.
  pub link_test_settings :
      (reals : Reals) (settle : reals.Real) (period : ℕ) (mode : TimingMode) (c : C)
      → test_bit j (bus.load csr (link_test bus reals settle period mode false c).1).0 ≡ (
          if j == 0 || j == 2 || j == 3 || j == 5
          then false
          else if j == 10
          then true
          else if j == 9
          then not (is_lcls1 mode)
          else if j == 4
          then is_lcls2 mode
          else test_bit j (bus.load csr c).0)
  unfolding link_test rx_polarity get_csr_bit
  link_test_settings reals settle period mode c =
      let c₁ = select_mode bus mode c in
      let c₂ = (bus.load csr c₁).1 in
      let n = reals.to_unsigned (reals.times settle (reals.literal "1.e6")) in
      let c₃ = bus.sleep_us n c₂ in
      let c₄ = reset_counts bus c₃ in
      let m = period * 1000000 % 2 ^ 32 in
      let c₅ = (count_link bus m c₄).1 in
      ground (
        arith,
        csr_bit-acknowledge (csr_dump bus (core_dump bus tpr_base_of_core c₅)),
        csr_bit-dumps c₅,
        csr_bit-count_link m c₄,
        csr_bit-reset_counts c₃,
        k.load-sleep_us j n c₂ w,
        k.load-load j csr c₁ w,
        csr_bit-select_mode mode c,
      )
