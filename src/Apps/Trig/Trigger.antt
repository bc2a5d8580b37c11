-- ===== src/Apps/Trig/Trigger.antt =====
-- software/app/tprtrig.cc: `set_trigger`, which sets up a channel and the trigger of its number.
use evr_card_g.Base.{ℕ, ◌<◌, not, ◌≡◌, arith, ltb, ◌==◌, if◌then◌else◌}
use evr_card_g.Base.Outcome.{Outcome, ok, undefined}
use evr_card_g.Bus.{Bus}
use evr_card_g.Regs.Blocks.{channel, trigger, trigger_word}
use evr_card_g.Regs.Setup.{IsMemory}
use evr_card_g.Apps.Reals.{Reals, clk_freq}
use evr_card_g.Apps.Trig.Config.{PulseConfig}

module _ (reals : Reals) where
  open reals use {Real, literal, of_unsigned, to_unsigned, minus, times}

  -- `t*CLK_FREQ*1.e-9`
  abbrev pub clocks : Real → Real
  clocks t = times (times t (clk_freq reals)) (literal "1.e-9")

  -- `udel` and `uwid`, and `utap`.
  abbrev pub whole_clocks : Real → ℕ
  whole_clocks t = to_unsigned (clocks t)

  abbrev pub tap_of : Real → ℕ
  tap_of t = to_unsigned (times (minus (clocks t) (of_unsigned (whole_clocks t))) (of_unsigned 63))

  module _ {C : Type 0} (bus : Bus C) where
    open bus use {store}

    -- The stores, in their order.
    unfoldable pub write_trigger : PulseConfig Real → ℕ → C → C
    write_trigger p select c =
        let i = p.output in
        let chan = store (channel i 0) 5 (store (channel i 1) select c) in
        let off = store (trigger i 0) 0 chan in
        let timed =
          store (trigger i 2) (whole_clocks p.width) (
            store (trigger i 3) (tap_of p.delay)
              (store (trigger i 1) (whole_clocks p.delay) off)) in
        store (trigger i 0) (trigger_word i (not (p.polarity == 0))) timed

    -- An output past the 12 triggers is past the array `trigger`.
    unfoldable pub set_trigger : PulseConfig Real → ℕ → C → Outcome C
    unfolding write_trigger
    set_trigger p select c = if ltb p.output 12 then ok (write_trigger p select c) else undefined

    module _ (m : IsMemory bus) where
      -- On registers that are read back as they were stored, a pulse on one of the 12 outputs
      -- leaves the selection and the enabling word in its channel, and the delay, the width, the
      -- tap and the control word with the polarity in its trigger; each other register is as it
      -- was.
      pub set_trigger_words :
          (p : PulseConfig Real) (select : ℕ) (c : C)
          → p.output < 12
          → (c' : C) × (set_trigger p select c ≡ ok c')
            × ((o : ℕ)
                → (bus.load o c').0 ≡ (
                    if o == trigger p.output 0
                    then trigger_word p.output (not (p.polarity == 0))
                    else if o == trigger p.output 2
                    then whole_clocks p.width
                    else if o == trigger p.output 3
                    then tap_of p.delay
                    else if o == trigger p.output 1
                    then whole_clocks p.delay
                    else if o == channel p.output 0
                    then 5
                    else if o == channel p.output 1
                    then select
                    else (bus.load o c).0))
      unfolding set_trigger
      set_trigger_words p select c h =
          (write_trigger p select c, ground arith, (λ o. simp (m.load-store) (ground arith)))
