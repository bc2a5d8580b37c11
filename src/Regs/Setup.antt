-- ===== src/Regs/Setup.antt =====
-- What the setup of a channel and of a trigger leave in the registers.
use evr_card_g.Base.{ℕ, ◌<◌, Bool, false, ◌≡◌, ◌≢◌, arith, ◌==◌, if◌then◌else◌, ◌∙◌}
use evr_card_g.Bus.{Bus}
use evr_card_g.Regs.Blocks.{
  channel, trigger, setup_channel, bsa_delay_word, setup_trigger, trigger_word,
}

-- What the code relies on: a register block that is read back as it was stored, each register on
-- its own, and neither a load nor a sleep changes it.
pub record IsMemory {C : Type 0} (bus : Bus C) : Type 0 where
  pub load-store :
      (o o' v : ℕ) (c : C)
      → (bus.load o (bus.store o' v c)).0 ≡ (if o == o' then v else (bus.load o c).0)
  pub load-sleep_us : (o n : ℕ) (c : C) → (bus.load o (bus.sleep_us n c)).0 ≡ (bus.load o c).0
  pub load-load : (o o' : ℕ) (c : C) → (bus.load o (bus.load o' c).1).0 ≡ (bus.load o c).0

test_ne : (a b : ℕ) → a ≢ b → (a == b) ≡ false
test_ne a b h = ground arith

module _ {C : Type 0} (bus : Bus C) (m : IsMemory bus) where
  -- On registers that are read back as they were stored, `setupChannel` leaves the selection, the
  -- delay word, the width and the enabling control word in the registers of its channel, and each
  -- other register as it was.
  pub setup_channel_words :
      (i select presample delay width o : ℕ) (c : C)
      → (bus.load o (setup_channel bus i select presample delay width c)).0 ≡ (
          if o == channel i 0
          then (if width == 0 then 5 else 7)
          else if o == channel i 4
          then width
          else if o == channel i 3
          then bsa_delay_word presample delay
          else if o == channel i 1
          then select
          else (bus.load o c).0)
  unfolding setup_channel
  setup_channel_words i select presample delay width o c = simp (m.load-store) (ground arith)

  -- On registers that are read back as they were stored, `setupTrigger` leaves the delay, the
  -- width, the delay tap and the enabling control word in the registers of its trigger, and each
  -- other register as it was.
  pub setup_trigger_words :
      (i source : ℕ) (polarity : Bool) (delay width tap o : ℕ) (c : C)
      → (bus.load o (setup_trigger bus i source polarity delay width tap c)).0 ≡ (
          if o == trigger i 3
          then tap
          else if o == trigger i 0
          then trigger_word source polarity
          else if o == trigger i 2
          then width
          else if o == trigger i 1
          then delay
          else (bus.load o c).0)
  unfolding setup_trigger
  setup_trigger_words i source polarity delay width tap o c =
      simp (m.load-store, m.load-sleep_us) (ground arith)

  -- On registers that are read back as they were stored, the setup of one of the 14 channels
  -- leaves the registers of each other channel, and those of each trigger, as they were.
  pub setup_channel_apart :
      (i j k select presample delay width : ℕ) (c : C)
      → i < 14
      → k < 0x400
      → let c' = setup_channel bus i select presample delay width c in
        (j ≢ i → (bus.load (channel j k) c').0 ≡ (bus.load (channel j k) c).0)
        × ((bus.load (trigger j k) c').0 ≡ (bus.load (trigger j k) c).0)
  setup_channel_apart i j k select presample delay width c h l = (
    (λ ne. setup_channel_words i select presample delay width (channel j k) c ∙ ground arith),
    setup_channel_words i select presample delay width (trigger j k) c ∙ ground arith,
  )

  -- On registers that are read back as they were stored, the setup of a trigger leaves the
  -- registers of each other trigger, and those of each of the 14 channels, as they were.
  pub setup_trigger_apart :
      (i j k source : ℕ) (polarity : Bool) (delay width tap : ℕ) (c : C)
      → k < 0x400
      → let c' = setup_trigger bus i source polarity delay width tap c in
        (j ≢ i → (bus.load (trigger j k) c').0 ≡ (bus.load (trigger j k) c).0)
        × (j < 14 → (bus.load (channel j k) c').0 ≡ (bus.load (channel j k) c).0)
  setup_trigger_apart i j k source polarity delay width tap c l = (
    (λ ne. setup_trigger_words i source polarity delay width tap (trigger j k) c ∙ ground arith),
    (λ h. setup_trigger_words i source polarity delay width tap (channel j k) c ∙ ground arith),
  )
