-- ===== src/Regs/Settings.antt =====
-- The setters, getters and resets of TprCore on a control word that holds what is stored.
use evr_card_g.Base.{ℕ, ◌<◌, Bool, true, false, ◌≡◌, arith, ap, ◌∙◌, ◌==◌, if◌then◌else◌}
use native.Mathlib.Decide.{ℕ_discrete}
use evr_card_g.Base.Bits.{bit}
use evr_card_g.Bus.{Bus}
use evr_card_g.Regs.Word.{
  put_bit, set_bit, clear_bit, test_bit, test_bit_lem, bit-put_bit_self, bit-put_bit_ne,
}
use evr_card_g.Regs.Core.{
  csr, get_csr_bit, put_csr_bit, clk_sel, set_clk_sel, mode_sel_en, set_mode_sel_en, mode_sel,
  set_mode_sel, rx_polarity, set_rx_polarity, pulse, reset_rx, reset_rx_pll, reset_counts,
}

-- What the code relies on: the writable bits of a word are read back as they were stored. The
-- others may be status bits or strobes of the hardware.
pub record HoldsBits {C : Type 0} (bus : Bus C) (offset : ℕ) (writable : ℕ → Bool) : Type 0 where
  pub load-store :
      (j v : ℕ) (c : C)
      → writable j ≡ true
      → test_bit j (bus.load offset (bus.store offset v c)).0 ≡ test_bit j v

pub test-put :
    (j k v : ℕ) (b : Bool)
    → j < 32
    → k < 32
    → test_bit j (put_bit k b v) ≡ (if j == k then b else test_bit j v)
test-put j k v b h l = elim (ℕ_discrete j k) [
  | yes same ↦ ground (
    arith,
    test_bit_lem j (put_bit k b v),
    bit-put_bit_self k v b l,
    ap (λ (t : ℕ). bit t (put_bit k b v)) same,
  )
  | no ne ↦
      ground
        (arith, test_bit_lem j (put_bit k b v), test_bit_lem j v, bit-put_bit_ne j k v b h l ne)
]

pub test-clear :
    (j k v : ℕ)
    → j < 32
    → k < 32
    → test_bit j (clear_bit k v) ≡ (if j == k then false else test_bit j v)
test-clear j k v h l = unfold put_bit in test-put j k v false h l

module _ {C : Type 0} (bus : Bus C) {writable : ℕ → Bool} (holds : HoldsBits bus csr writable) where
  -- A bit that was put is read back, and each other writable bit is read as before.
  pub get-put_csr_bit :
      (j k : ℕ) (b : Bool) (c : C)
      → writable j ≡ true
      → j < 32
      → k < 32
      → (get_csr_bit bus j (put_csr_bit bus k b c)).0
        ≡ (if j == k then b else (get_csr_bit bus j c).0)
  unfolding get_csr_bit put_csr_bit
  get-put_csr_bit j k b c w h l =
      let (v, c') = bus.load csr c in holds.load-store j (put_bit k b v) c' w ∙ test-put j k v b h l

  -- A pulse of a bit ends with that bit cleared, if it is writable, and each other writable bit
  -- as it was.
  pub get-pulse :
      (j k : ℕ) (c : C)
      → writable j ≡ true
      → j < 32
      → k < 32
      → (get_csr_bit bus j (pulse bus k c)).0 ≡ (if j == k then false else (get_csr_bit bus j c).0)
  unfolding get_csr_bit pulse
  get-pulse j k c w h l =
      let (v, c') = bus.load csr c in
      holds.load-store j (clear_bit k v) (bus.sleep_us 10 (bus.store csr (set_bit k v) c')) w
      ∙ test-clear j k v h l

  -- A change of the polarity, with the reset behind it: bit 2 is the polarity, the reset bit 3 is
  -- cleared, and each other bit is as it was, as far as these bits are writable.
  pub get-set_rx_polarity :
      (j : ℕ) (p : Bool) (c : C)
      → writable j ≡ true
      → j < 32
      → (get_csr_bit bus j (set_rx_polarity bus p c)).0
        ≡ (if j == 3 then false else if j == 2 then p else (get_csr_bit bus j c).0)
  unfolding get_csr_bit set_rx_polarity
  get-set_rx_polarity j p c w h =
      let v = (bus.load csr c).0 in
      holds.load-store j (clear_bit 3 (put_bit 2 p v)) _ w
      ∙ ground
          (arith, test-clear j 3 (put_bit 2 p v) h (omega arith), test-put j 2 v p h (omega arith))

  -- If the bits of the polarity, the clock selection, the mode selection and its enable are
  -- writable, then each setter is read back by its own getter, and the clock selection, the mode
  -- selection and its enable, and the resets leave the others as they were.
  pub settings_apart :
      (b : Bool) (c : C)
      → writable 2 ≡ true
      → writable 4 ≡ true
      → writable 9 ≡ true
      → writable 10 ≡ true
      → ((clk_sel bus (set_clk_sel bus b c)).0 ≡ b)
        × ((mode_sel bus (set_clk_sel bus b c)).0 ≡ (mode_sel bus c).0)
        × ((mode_sel bus (set_mode_sel bus b c)).0 ≡ b)
        × ((mode_sel_en bus (set_mode_sel bus b c)).0 ≡ (mode_sel_en bus c).0)
        × ((mode_sel_en bus (set_mode_sel_en bus b c)).0 ≡ b)
        × ((clk_sel bus (set_mode_sel_en bus b c)).0 ≡ (clk_sel bus c).0)
        × ((rx_polarity bus (reset_rx bus c)).0 ≡ (rx_polarity bus c).0)
        × ((mode_sel bus (reset_rx_pll bus c)).0 ≡ (mode_sel bus c).0)
        × ((clk_sel bus (reset_counts bus c)).0 ≡ (clk_sel bus c).0)
  unfolding clk_sel set_clk_sel mode_sel set_mode_sel mode_sel_en set_mode_sel_en rx_polarity
      reset_rx reset_rx_pll reset_counts
  settings_apart b c w2 w4 w9 w10 = (
    get-put_csr_bit 4 4 b c w4 (omega arith) (omega arith),
    get-put_csr_bit 9 4 b c w9 (omega arith) (omega arith),
    get-put_csr_bit 9 9 b c w9 (omega arith) (omega arith),
    get-put_csr_bit 10 9 b c w10 (omega arith) (omega arith),
    get-put_csr_bit 10 10 b c w10 (omega arith) (omega arith),
    get-put_csr_bit 4 10 b c w4 (omega arith) (omega arith),
    get-pulse 2 3 c w2 (omega arith) (omega arith),
    get-pulse 9 7 c w9 (omega arith) (omega arith),
    get-pulse 4 0 c w4 (omega arith) (omega arith),
  )
