-- ===== src/Regs/Core.antt =====
-- class TprCore: the control and status word of the receiver core.
use evr_card_g.Base.{ℕ, Bool}
use evr_card_g.Bus.{Bus}
use evr_card_g.Regs.Word.{put_bit, set_bit, clear_bit, test_bit}

-- The offset of CSR: the core stands at 0xC0000, and CSR is its ninth word.
abbrev pub csr : ℕ
csr = 0xC0020

module _ {C : Type 0} (bus : Bus C) where
  open bus use {store, load, sleep_us}

  -- A getter loads the word and tests one bit.
  unfoldable pub get_csr_bit : ℕ → C → Bool × C
  get_csr_bit k c = let (v, c') = load csr c in (test_bit k v, c')

  -- A setter loads the word, and stores it with one bit put.
  unfoldable pub put_csr_bit : ℕ → Bool → C → C
  put_csr_bit k b c = let (v, c') = load csr c in store csr (put_bit k b v) c'

  unfoldable pub clk_sel : C → Bool × C
  unfolding get_csr_bit
  clk_sel = get_csr_bit 4

  unfoldable pub set_clk_sel : Bool → C → C
  unfolding put_csr_bit
  set_clk_sel = put_csr_bit 4

  unfoldable pub mode_sel_en : C → Bool × C
  unfolding get_csr_bit
  mode_sel_en = get_csr_bit 10

  unfoldable pub set_mode_sel_en : Bool → C → C
  unfolding put_csr_bit
  set_mode_sel_en = put_csr_bit 10

  unfoldable pub mode_sel : C → Bool × C
  unfolding get_csr_bit
  mode_sel = get_csr_bit 9

  unfoldable pub set_mode_sel : Bool → C → C
  unfolding put_csr_bit
  set_mode_sel = put_csr_bit 9

  unfoldable pub rx_polarity : C → Bool × C
  unfolding get_csr_bit
  rx_polarity = get_csr_bit 2

  -- The polarity is stored, and then bit 3 is pulsed on the word as it was computed.
  unfoldable pub set_rx_polarity : Bool → C → C
  set_rx_polarity p c =
      let (v, c') = load csr c in
      let w = put_bit 2 p v in
      store csr (clear_bit 3 w)
        (sleep_us 10 (store csr (set_bit 3 w) (sleep_us 10 (store csr w c'))))

  -- One bit set for 10 microseconds and then cleared, on the word that was loaded.
  unfoldable pub pulse : ℕ → C → C
  pulse k c =
      let (v, c') = load csr c in
      store csr (clear_bit k v) (sleep_us 10 (store csr (set_bit k v) c'))

  unfoldable pub reset_rx : C → C
  unfolding pulse
  reset_rx = pulse 3

  unfoldable pub reset_rx_pll : C → C
  unfolding pulse
  reset_rx_pll = pulse 7

  unfoldable pub reset_counts : C → C
  unfolding pulse
  reset_counts = pulse 0

  unfoldable pub vsn_err : C → Bool × C
  unfolding get_csr_bit
  vsn_err = get_csr_bit 8
