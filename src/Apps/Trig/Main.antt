-- ===== src/Apps/Trig/Main.antt =====
-- software/app/tprtrig.cc: `main` behind its options.
use evr_card_g.Base.{
  ℕ, zero, suc, ◌+◌, Bool, true, false, List, [], ◌∷◌, if◌then◌else◌, Option, none, some, bit_and,
}
use evr_card_g.Base.Run.{Run, done, ◌>>=◌}
use evr_card_g.Bus.{Bus}
use evr_card_g.Regs.Word.{test_bit}
use evr_card_g.Regs.Core.{
  set_clk_sel, set_mode_sel, set_mode_sel_en, set_rx_polarity, rx_polarity, reset_rx, reset_counts,
}
use evr_card_g.Regs.Version.{build_stamp}
use evr_card_g.Regs.Blocks.{
  channel, trigger, straight_in, loop_out, set_evr_in, set_evr_out, set_tpr_in, set_tpr_out,
}
use evr_card_g.Apps.Options.{Answer, start_options, parse, System, on_device, End, watches}
use evr_card_g.Apps.Dumps.{core_dump, csr_dump, tpr_base_of_core}
use evr_card_g.Apps.Reals.{Reals}
use evr_card_g.Apps.Trig.Config.{FixedRateConfig, SeqConfig, BeamConfig, GroupConfig}
use evr_card_g.Apps.Trig.Rate.{select_fixed, select_seq, select_group, select_beam, rate_str}
use evr_card_g.Apps.Trig.Choice.{TrigSettings, trig_defaults, trig_option}
use evr_card_g.Apps.Trig.Trigger.{set_trigger}

module _ (reals : Reals) where
  open reals use {Real}

  module _ {C : Type 0} (bus : Bus C) where
    open bus use {load, sleep_us}

    -- The loops over the triggers of one kind.
    unfoldable pub set_fixed : List (FixedRateConfig Real) → C → Run C
    set_fixed [] c = done c
    set_fixed (x ∷ xs) c = do
      c' ← some (set_trigger reals bus x.the_pulse (select_fixed x.rate) c)
      set_fixed xs c'

    unfoldable pub set_seqs : List (SeqConfig Real) → C → Run C
    set_seqs [] c = done c
    set_seqs (x ∷ xs) c = do
      c' ← some (set_trigger reals bus x.the_pulse (select_seq x.seq x.bit) c)
      set_seqs xs c'

    unfoldable pub set_groups : List (GroupConfig Real) → C → Run C
    set_groups [] c = done c
    set_groups (x ∷ xs) c = do
      c' ← some (set_trigger reals bus x.the_pulse (select_group x.group) c)
      set_groups xs c'

    unfoldable pub set_beams : List (BeamConfig Real) → C → Run C
    set_beams [] c = done c
    set_beams (x ∷ xs) c = do
      c' ← some (set_trigger reals bus x.the_pulse select_beam c)
      set_beams xs c'

    -- The crossbar and the receiver, before the triggers.
    unfoldable pub prepare : TrigSettings Real → C → C
    prepare s c =
        let evr = set_evr_out bus loop_out (set_evr_in bus straight_in c) in
        let tpr = set_tpr_out bus loop_out (set_tpr_in bus straight_in evr) in
        let mode =
          set_mode_sel_en bus true (set_mode_sel bus true (set_clk_sel bus s.clk_sel? tpr)) in
        let c₁ = set_rx_polarity bus false mode in
        let c₂ = if s.reset_rx? then reset_rx bus c₁ else c₁ in
        reset_counts bus (sleep_us 100000 (rx_polarity bus c₂).1)

    abbrev status : C → C
    status c = csr_dump bus (core_dump bus tpr_base_of_core c)

    -- The program up to its last loop, which only watches.
    unfoldable pub set_up : TrigSettings Real → C → Run C
    unfolding set_fixed set_seqs set_groups set_beams prepare
    set_up s c =
        let (stamp, c₁) = build_stamp bus c in
        do
          text ← some stamp
          c₂ ← set_fixed s.fixed (prepare s c₁)
          c₃ ← set_seqs s.seqs c₂
          c₄ ← set_groups s.groups c₃
          c₅ ← set_beams s.beams c₄
          done (status (sleep_us 2000000 (status c₅)))

    -- The line of a channel that is enabled: its number, the name of its selection, the delay, the
    -- tap and the width as they are masked, the polarity and the count.
    pub record Line : Type 0 where
      pub number : ℕ
      pub rate : List ℕ
      pub delay : ℕ
      pub tap : ℕ
      pub width : ℕ
      pub positive? : Bool
      pub count : ℕ

    unfoldable pub watch_channel : ℕ → C → Option Line × C
    watch_channel i c =
        let (control, c₁) = load (channel i 0) c in
        let (select, c₂) = load (channel i 1) c₁ in
        let (delay, c₃) = load (trigger i 1) c₂ in
        let (tap, c₄) = load (trigger i 3) c₃ in
        let (width, c₅) = load (trigger i 2) c₄ in
        let (word, c₆) = load (trigger i 0) c₅ in
        let (count, c₇) = load (channel i 2) c₆ in
        if test_bit 0 control
        then (
          some (record {
            number = i;
            rate = rate_str select;
            delay = bit_and delay 0xFFFFF;
            tap = bit_and tap 0x3F;
            width = bit_and width 0xFFFFF;
            positive? = test_bit 16 word;
            count = count;
          }),
          c₇,
        )
        else (none, c₁)

    -- The lines of `n` channels from `i` on.
    unfoldable pub watch_channels : ℕ → ℕ → C → List Line × C
    unfolding watch_channel
    watch_channels zero i c = ([], c)
    watch_channels (suc n) i c =
        let (line, c₁) = watch_channel i c in
        let (lines, c₂) = watch_channels n (i + 1) c₁ in
        elim line [ none ↦ (lines, c₂) | some l ↦ (l ∷ lines, c₂) ]

    -- The program, up to its last loop.
    unfoldable pub trig_main : System → List Answer → Bool → C → Run (End × C)
    unfolding trig_option set_up
    trig_main sys answers left c =
        parse (trig_option reals) answers (start_options trig_defaults)
        >>= on_device sys left (λ s c'. do c'' ← set_up s c'; done (watches, c'')) c
