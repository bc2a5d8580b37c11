-- ===== src/Apps/Loopback.antt =====
-- software/app/tprloopb.cc: the link test with the receiver looped back, in both modes.
use evr_card_g.Base.{ℕ, ℤ, Bool, true, List, ◌==◌, if◌then◌else◌, some}
use evr_card_g.Base.Run.{Run, done, ◌>>=◌}
use evr_card_g.Bus.{Bus}
use evr_card_g.Regs.Word.{test_bit}
use evr_card_g.Regs.Core.{reset_counts}
use evr_card_g.Regs.Version.{build_stamp}
use evr_card_g.Regs.Blocks.{
  loop_in, straight_out, set_evr_in, set_evr_out, set_tpr_in, set_tpr_out, setup_dma,
}
use evr_card_g.Apps.Options.{
  Answer, Parse, go, leave, Options, device_option, misused, with_settings, start_options, parse,
  System, on_device, End, exit_ok,
}
use evr_card_g.Apps.Dumps.{core_dump, csr_dump, tpr_base_of_core}
use evr_card_g.Apps.Reals.{Reals}
use evr_card_g.Apps.Check.Link.{
  TimingMode, lcls1, lcls2, clk_min, clk_max, frame_min, frame_max, LinkReport, LinkCounts,
  select_mode, count_link, acknowledge, ring_tests, between,
}

-- The switch over getopt's answer; the mode that it notes has no use.
unfoldable pub loopback_option : Answer → Options TimingMode → Options TimingMode
loopback_option a o =
    if a.char == b'1'
    then with_settings lcls1 o
    else if a.char == b'2'
    then with_settings lcls2 o
    else if a.char == b'd'
    then device_option a.optarg o
    else misused o

unfoldable pub loopback_answer : Answer → Options TimingMode → Run (Parse (Options TimingMode))
unfolding loopback_option
loopback_answer a o =
    if a.char == b'h' then done (leave (ℤ.pos 0)) else done (go (loopback_option a o))

module _ {C : Type 0} (bus : Bus C) (reals : Reals) where
  open bus use {load, sleep_us}
  open reals use {Real, literal, of_unsigned, times}

  -- `double(clks)*16.e-6`, for a test of one second.
  abbrev pub second_rate : ℕ → Real
  second_rate clks = times (of_unsigned clks) (literal "16.e-6")

  unfoldable pub judge_second : TimingMode → LinkCounts → ℕ → LinkReport
  judge_second mode n v = record {
    rx_clock =
        between bus reals (literal (clk_min mode)) (literal (clk_max mode)) (second_rate n.rxclks);
    tx_clock =
        between bus reals (literal (clk_min mode)) (literal (clk_max mode)) (second_rate n.txclks);
    sof_counts =
        between bus reals (literal (frame_min mode)) (literal (frame_max mode))
          (of_unsigned n.sof_cnts);
    crc_errors = n.crc_errs == 0;
    dec_errors = n.dec_errs == 0;
    dsp_errors = n.dsp_errs == 0;
    link_up = test_bit 1 v;
    rx_pol = test_bit 2 v;
    lcls_two = test_bit 4 v;
    link_down_latched = test_bit 5 v;
  }

  -- `link_test`
  unfoldable pub loopback_test : TimingMode → Bool → C → LinkReport × C
  unfolding judge_second
  loopback_test mode lring c =
      let settled = sleep_us 100000 (select_mode bus mode c) in
      let (n, c₁) = count_link bus 1000000 (reset_counts bus settled) in
      let c₂ = csr_dump bus (core_dump bus tpr_base_of_core c₁) in
      let (v, c₃) = acknowledge bus (csr_dump bus (setup_dma bus 0x2FF c₂)) in
      (judge_second mode n v, ring_tests bus lring c₃)

  unfoldable pub loopback_work : TimingMode → C → Run (End × C)
  unfolding loopback_test
  loopback_work mode c =
      let (stamp, c₁) = build_stamp bus (load 0x10000 c).1 in
      let evr = set_evr_out bus straight_out (set_evr_in bus loop_in c₁) in
      let tpr = set_tpr_out bus straight_out (set_tpr_in bus loop_in evr) in
      let twice = λ (x : C). (loopback_test lcls2 true (loopback_test lcls1 true x).1).1 in
      do text ← some stamp; done (exit_ok, twice (twice tpr))

  unfoldable pub loopback_main : System → List Answer → Bool → C → Run (End × C)
  unfolding loopback_answer loopback_work
  loopback_main sys answers left c =
      parse loopback_answer answers (start_options lcls1) >>= on_device sys left loopback_work c
