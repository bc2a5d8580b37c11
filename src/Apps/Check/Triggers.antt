-- ===== src/Apps/Check/Triggers.antt =====
-- software/app/tprtest.cc: `generate_triggers` and `generate_refclk`.
use evr_card_g.Base.{ℕ, zero, suc, ◌+◌, ◌*◌, ◌%◌, ◌^◌, Bool, not, ◌==◌, if◌then◌else◌, bit_or}
use evr_card_g.Bus.{Bus}
use evr_card_g.Regs.Blocks.{channel, setup_trigger, enable_ref_clk}
use evr_card_g.Regs.Clock.{clock_manager_clk_sel}
use evr_card_g.Apps.Dumps.{base_dump, clock_manager_dump}
use evr_card_g.Apps.Check.Link.{TimingMode, is_lcls1}

-- `triggerPolarity`, `triggerDelay` and `triggerWidth`
pub record Pulse : Type 0 where
  pub polarity : ℕ
  pub delay : ℕ
  pub width : ℕ

module _ {C : Type 0} (bus : Bus C) where
  open bus use {store}

  -- The loop over the `n` triggers from `i` on, each one wider than the one before.
  unfoldable pub setup_triggers : Pulse → ℕ → ℕ → C → C
  setup_triggers p zero i c = c
  setup_triggers p (suc n) i c =
      setup_triggers p n (i + 1)
        (setup_trigger bus i 1 (not (p.polarity == 0)) p.delay ((p.width + i) % 2 ^ 32) 0 c)

  unfoldable pub generate_triggers : Pulse → TimingMode → C → C
  unfolding setup_triggers
  generate_triggers p mode c =
      let off = store (channel 0 0) 0 (setup_triggers p 12 0 c) in
      let select = if is_lcls1 mode then bit_or (2 ^ 11) (0x3F * 2 ^ 3) else 0 in
      let selected = store (channel 0 1) (bit_or (2 ^ 17 * 2 ^ 13) select) off in
      base_dump bus (store (channel 0 0) 1 (store (channel 0 4) 1 (store (channel 0 3) 0 selected)))

  unfoldable pub generate_refclk : Bool → TimingMode → C → C
  generate_refclk enable mode c =
      enable_ref_clk bus enable
        (clock_manager_dump bus (clock_manager_clk_sel bus (not (is_lcls1 mode)) c))
