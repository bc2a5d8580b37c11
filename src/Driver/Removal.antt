-- ===== src/Driver/Removal.antt =====
-- What remove leaves in the registers.
use evr_card_g.Base.{ℕ, zero, suc, ◌≡◌, Bool, false, ◌||◌, ◌==◌, if◌then◌else◌, arith, ◌∙◌}
use evr_card_g.Bus.{Bus}
use evr_card_g.Driver.Device.{Device}
use evr_card_g.Driver.Probe.{clear_controls, tpr_remove}
use evr_card_g.Driver.Registers.{irq_control, rx_max_frame, channel_control, trigger_control}
use evr_card_g.Regs.Setup.{IsMemory}

-- Whether an offset is that of one of the first `n` of these registers.
unfoldable pub one_of : (ℕ → ℕ) → ℕ → ℕ → Bool
one_of control zero o = false
one_of control (suc n) o = (o == control n) || one_of control n o

module _ {C : Type 0} (bus : Bus C) (m : IsMemory bus) where
  load-clear_controls :
      (control : ℕ → ℕ) (n o : ℕ) (c : C)
      → (bus.load o (clear_controls bus control n c)).0
        ≡ (if one_of control n o then 0 else (bus.load o c).0)
  unfolding clear_controls one_of
  load-clear_controls control zero o c = λ i. (bus.load o c).0
  load-clear_controls control (suc n) o c =
      m.load-store o (control n) 0 (clear_controls bus control n c)
      ∙ ground (arith, load-clear_controls control n o c)

  -- On registers that are read back as they were stored, remove leaves the interrupt, the receive
  -- buffers, the 14 channels and the 12 triggers disabled, and each other register as it was.
  pub tpr_remove_words :
      (o : ℕ) (d : Device C)
      → (bus.load o (tpr_remove bus d).card).0 ≡ (
          if o == rx_max_frame
          then 0
          else if one_of trigger_control 12 o
          then 0
          else if one_of channel_control 14 o
          then 0
          else if o == irq_control
          then 0
          else (bus.load o d.card).0)
  unfolding tpr_remove
  tpr_remove_words o d =
      m.load-store o rx_max_frame 0 c3
      ∙ ground (
        arith,
        load-clear_controls trigger_control 12 o c2,
        load-clear_controls channel_control 14 o c1,
        m.load-store o irq_control 0 d.card,
      )
    where
      c1 : C
      c1 = bus.store irq_control 0 d.card

      c2 : C
      c2 = clear_controls bus channel_control 14 c1

      c3 : C
      c3 = clear_controls bus trigger_control 12 c2
