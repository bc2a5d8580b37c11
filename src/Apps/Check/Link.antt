-- ===== src/Apps/Check/Link.antt =====
-- software/app/tprtest.cc: `link_test`.
use evr_card_g.Base.{ℕ, ◌+◌, ◌-◌, ◌*◌, ◌%◌, ◌^◌, Bool, true, false, not, ◌&&◌, ◌==◌}
use Prim.Native.String.{String}
use evr_card_g.Bus.{Bus}
use evr_card_g.Regs.Word.{clear_bit, test_bit}
use evr_card_g.Regs.Core.{
  csr, set_clk_sel, set_mode_sel, set_mode_sel_en, set_rx_polarity, rx_polarity, reset_counts,
}
use evr_card_g.Regs.Blocks.{word_at, ring_enable, ring_clear}
use evr_card_g.Apps.Dumps.{core_dump, csr_dump, ring_dump, tpr_base_of_core}
use evr_card_g.Apps.Reals.{Reals}

-- `TimingMode`
pub data TimingMode : Type 0 where
  lcls1 lcls2 ued : TimingMode

abbrev pub is_lcls1 : TimingMode → Bool
is_lcls1 lcls1 = true
is_lcls1 lcls2 = false
is_lcls1 ued = false

abbrev pub is_lcls2 : TimingMode → Bool
is_lcls2 lcls1 = false
is_lcls2 lcls2 = true
is_lcls2 ued = false

-- `ClkMin[ilcls]` and the other three tables.
abbrev pub clk_min : TimingMode → String
clk_min lcls1 = "118"
clk_min lcls2 = "184"
clk_min ued = "118"

abbrev pub clk_max : TimingMode → String
clk_max lcls1 = "120"
clk_max lcls2 = "187"
clk_max ued = "120"

abbrev pub frame_min : TimingMode → String
frame_min lcls1 = "356"
frame_min lcls2 = "928000"
frame_min ued = "356"

abbrev pub frame_max : TimingMode → String
frame_max lcls1 = "362"
frame_max lcls2 = "929000"
frame_max ued = "362"

-- What the test prints: PASS or FAIL for each line, and the bits of the control word.
pub record LinkReport : Type 0 where
  pub rx_clock : Bool
  pub tx_clock : Bool
  pub sof_counts : Bool
  pub crc_errors : Bool
  pub dec_errors : Bool
  pub dsp_errors : Bool
  pub link_up : Bool
  pub rx_pol : Bool
  pub lcls_two : Bool
  pub link_down_latched : Bool

-- The counters that the test loads.
pub record LinkCounts : Type 0 where
  pub rxclks : ℕ
  pub txclks : ℕ
  pub sof_cnts : ℕ
  pub crc_errs : ℕ
  pub dec_errs : ℕ
  pub dsp_errs : ℕ

abbrev pub core_word : ℕ → ℕ
core_word = word_at tpr_base_of_core

-- The difference of two `unsigned`.
abbrev pub since : ℕ → ℕ → ℕ
since later first = (later + 2 ^ 32 - first) % 2 ^ 32

module _ {C : Type 0} (bus : Bus C) where
  open bus use {store, load, sleep_us}

  -- The settings of the receiver for a mode.
  unfoldable pub select_mode : TimingMode → C → C
  select_mode mode c =
      let clock = set_clk_sel bus (is_lcls2 mode) c in
      set_rx_polarity bus false
        (set_mode_sel_en bus true (set_mode_sel bus (not (is_lcls1 mode)) clock))

  -- The counters after `period` microseconds: the clocks as differences.
  unfoldable pub count_link : ℕ → C → LinkCounts × C
  count_link period c =
      let (rx0, c₁) = load (core_word 4) c in
      let (tx0, c₂) = load (core_word 10) c₁ in
      let (rx1, c₃) = load (core_word 4) (sleep_us period c₂) in
      let (tx1, c₄) = load (core_word 10) c₃ in
      let (sof_cnts, c₅) = load (core_word 0) c₄ in
      let (crc_errs, c₆) = load (core_word 3) c₅ in
      let (dec_errs, c₇) = load (core_word 6) c₆ in
      let (dsp_errs, c₈) = load (core_word 7) c₇ in
      (
        record {
          rxclks = since rx1 rx0;
          txclks = since tx1 tx0;
          sof_cnts = sof_cnts;
          crc_errs = crc_errs;
          dec_errs = dec_errs;
          dsp_errs = dsp_errs;
        },
        c₈,
      )

  -- `v = CSR; CSR = v & ~(1<<5)`, which acknowledges the latched bit.
  unfoldable pub acknowledge : C → ℕ × C
  acknowledge c = let (v, c') = load csr c in (v, store csr (clear_bit 5 v) c')

  -- A ring buffer that runs for 10 milliseconds, and its dump.
  unfoldable pub ring_test : ℕ → C → C
  ring_test ring c =
      let started =
        ring_enable bus ring true (ring_clear bus ring (ring_enable bus ring false c)) in
      ring_dump bus ring (ring_enable bus ring false (sleep_us 10000 started))

  unfoldable pub ring_tests : Bool → C → C
  unfolding ring_test
  ring_tests false c = c
  ring_tests true c = ring_test 0xE0000 (ring_test 0xD0000 c)

  module _ (reals : Reals) where
    open reals use {Real, literal, of_unsigned, to_unsigned, times, over, less}

    abbrev pub between : Real → Real → Real → Bool
    between low high x = less low x && less x high

    -- `double(clks)/double(linktest_period)*16.e-6`
    abbrev pub clock_rate : ℕ → ℕ → Real
    clock_rate clks period = times (over (of_unsigned clks) (of_unsigned period)) (literal "16.e-6")

    unfoldable pub judge_link : TimingMode → ℕ → LinkCounts → ℕ → LinkReport
    judge_link mode period n v = record {
      rx_clock =
          between (literal (clk_min mode)) (literal (clk_max mode)) (clock_rate n.rxclks period);
      tx_clock =
          between (literal (clk_min mode)) (literal (clk_max mode)) (clock_rate n.txclks period);
      sof_counts =
          between (times (literal (frame_min mode)) (of_unsigned period))
            (times (literal (frame_max mode)) (of_unsigned period)) (of_unsigned n.sof_cnts);
      crc_errors = n.crc_errs == 0;
      dec_errors = n.dec_errs == 0;
      dsp_errors = n.dsp_errs == 0;
      link_up = test_bit 1 v;
      rx_pol = test_bit 2 v;
      lcls_two = test_bit 4 v;
      link_down_latched = test_bit 5 v;
    }

    unfoldable pub link_test : Real → ℕ → TimingMode → Bool → C → LinkReport × C
    unfolding select_mode count_link acknowledge ring_tests judge_link
    link_test settle period mode lring c =
        let c₁ = (rx_polarity bus (select_mode mode c)).1 in
        let settled = sleep_us (to_unsigned (times settle (literal "1.e6"))) c₁ in
        let (n, c₂) = count_link (period * 1000000 % 2 ^ 32) (reset_counts bus settled) in
        let (v, c₃) = acknowledge (csr_dump bus (core_dump bus tpr_base_of_core c₂)) in
        (judge_link mode period n v, ring_tests lring c₃)
