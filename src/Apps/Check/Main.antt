-- ===== src/Apps/Check/Main.antt =====
-- software/app/tprtest.cc: `main`.
use evr_card_g.Base.{ℕ, ℤ, Bool, true, false, List, ◌==◌, if◌then◌else◌, none, some}
use evr_card_g.Base.Run.{Run, done, ◌>>=◌}
use evr_card_g.Bus.{Bus}
use evr_card_g.Text.Numbers.{unsigned_of, behind_comma}
use evr_card_g.Regs.Version.{build_stamp}
use evr_card_g.Regs.Blocks.{
  straight_in, straight_out, set_evr_in, set_evr_out, set_tpr_in, set_tpr_out,
}
use evr_card_g.Driver.Device.{Queues}
use evr_card_g.Apps.Options.{
  Answer, Parse, go, leave, Options, device_option, misused, with_settings, start_options, parse,
  System, on_device, End, exit_ok,
}
use evr_card_g.Apps.Reals.{Reals}
use evr_card_g.Apps.Check.Link.{TimingMode, lcls1, lcls2, ued, link_test}
use evr_card_g.Apps.Check.Rates.{frame_rates}
use evr_card_g.Apps.Check.Capture.{Channel, frame_capture}
use evr_card_g.Apps.Check.Triggers.{Pulse, generate_triggers, generate_refclk}

pub record CheckSettings (R : Type 0) : Type 0 where
  pub mode : TimingMode
  pub frame_test : Bool
  pub dump_ringb : Bool
  pub ref_clk_en : Bool
  pub check_bsa : Bool
  pub verbose : Bool
  pub settle_period : R
  pub linktest_period : ℕ
  pub test_pulse : Pulse

-- `if (endptr[0]==',') ... = strtoul(endptr+1,&endptr,0)`, with the value that is there if not.
abbrev pub more_number : ℕ → List ℕ → ℕ × List ℕ
more_number old s = elim (behind_comma s) [ none ↦ (old, s) | some t ↦ unsigned_of t ]

-- `case 'D'`: the width is 1 unless it is given, and the polarity is kept.
unfoldable pub pulse_option : List ℕ → Pulse → Pulse
pulse_option arg p =
    let (delay, s) = unsigned_of arg in
    let (width, s₁) = more_number 1 s in
    let (polarity, s₂) = more_number p.polarity s₁ in
    record { polarity = polarity; delay = delay; width = width }

module _ (reals : Reals) where
  open reals use {Real, literal, strtod}

  abbrev pub check_defaults : CheckSettings Real
  check_defaults = record {
    mode = lcls1;
    frame_test = true;
    dump_ringb = false;
    ref_clk_en = false;
    check_bsa = false;
    verbose = false;
    settle_period = literal "0.1";
    linktest_period = 1;
    test_pulse = record { polarity = 1; delay = 1; width = 0 };
  }

  -- The switch over getopt's answer, for the options that the program goes on after.
  unfoldable pub check_option : Answer → Options (CheckSettings Real) → Options (CheckSettings Real)
  unfolding pulse_option
  check_option a o =
      let s = o.settings in
      if a.char == b'1'
      then with_settings (record s { mode = lcls1 }) o
      else if a.char == b'2'
      then with_settings (record s { mode = lcls2 }) o
      else if a.char == b'U'
      then with_settings (record s { mode = ued }) o
      else if a.char == b'n'
      then with_settings (record s { frame_test = false }) o
      else if a.char == b'r'
      then with_settings (record s { dump_ringb = true }) o
      else if a.char == b'v'
      then with_settings (record s { verbose = true }) o
      else if a.char == b'd'
      then device_option a.optarg o
      else if a.char == b'B'
      then with_settings (record s { check_bsa = true }) o
      else if a.char == b'C'
      then with_settings (record s { ref_clk_en = true }) o
      else if a.char == b'D'
      then with_settings (record s { test_pulse = pulse_option a.optarg s.test_pulse }) o
      else if a.char == b'S'
      then with_settings (record s { settle_period = (strtod a.optarg).0 }) o
      else if a.char == b'T'
      then with_settings (record s { linktest_period = (unsigned_of a.optarg).0 }) o
      else misused o

  unfoldable pub check_answer :
      Answer → Options (CheckSettings Real) → Run (Parse (Options (CheckSettings Real)))
  unfolding check_option
  check_answer a o = if a.char == b'h' then done (leave (ℤ.pos 0)) else done (go (check_option a o))

  module _ {C : Type 0} (bus : Bus C) (ch : Channel) (fuel : ℕ) (q : ℕ → Queues) where
    -- `if (lFrameTest)`
    unfoldable pub test_frames : CheckSettings Real → C → Run C
    test_frames s c =
        let (reversed, lines, c₁) = frame_rates bus s.mode c in
        let captured : Run C = elim (frame_capture bus s.mode reversed s.check_bsa ch fuel q c₁) [
          | none ↦ none
          | some (x, c₂) ↦ done c₂
        ] in
        if s.frame_test then captured else done c

    unfoldable pub check_work : CheckSettings Real → C → Run (End × C)
    unfolding test_frames
    check_work s c =
        let (stamp, c₁) = build_stamp bus (bus.load 0x10000 c).1 in
        let evr = set_evr_out bus straight_out (set_evr_in bus straight_in c₁) in
        let tpr = set_tpr_out bus straight_out (set_tpr_in bus straight_in evr) in
        let (report, c₂) =
          link_test bus reals s.settle_period s.linktest_period s.mode s.dump_ringb tpr in
        do
          text ← some stamp
          c₃ ← test_frames s c₂
          let c₄ =
              if s.test_pulse.width == 0 then c₃ else generate_triggers bus s.test_pulse s.mode c₃
          done (exit_ok, generate_refclk bus s.ref_clk_en s.mode c₄)

    unfoldable pub check_main : System → List Answer → Bool → C → Run (End × C)
    unfolding check_answer check_work
    check_main sys answers left c =
        parse check_answer answers (start_options check_defaults)
        >>= on_device sys left check_work c
