-- ===== src/Apps/Tool.antt =====
-- software/app/tprtool.cc: the loopbacks, the mode and the reset of the receiver; and
-- software/app/setupdma.cc: the threshold of the DMA.
use evr_card_g.Base.{
  ℕ, ℤ, ◌-◌, ◌^◌, Bool, true, false, not, ◌||◌, List, ltb, ◌==◌, if◌then◌else◌, Option, none, some,
}
use evr_card_g.Base.Run.{Run, done, ◌>>=◌}
use evr_card_g.Bus.{Bus}
use evr_card_g.Text.Numbers.{unsigned_of}
use evr_card_g.Regs.Version.{build_stamp}
use evr_card_g.Regs.Core.{set_clk_sel, set_mode_sel, set_mode_sel_en, reset_rx}
use evr_card_g.Regs.Blocks.{straight_out, loop_out, set_evr_out, set_tpr_out, setup_dma}
use evr_card_g.Apps.Options.{
  Answer, Parse, go, leave, Options, device_option, misused, with_settings, start_options, parse,
  System, on_device, End, exit_ok,
}
use evr_card_g.Apps.Dumps.{csr_dump}
use evr_card_g.Apps.Check.Link.{TimingMode, lcls1, lcls2, is_lcls1, is_lcls2}

-- `TimingMode tmode`, with None as `none`; `lEvrLoop` and `lTprLoop`.
pub record ToolSettings : Type 0 where
  pub mode : Option TimingMode
  pub reset_rx? : Bool
  pub evr_loop : ℤ
  pub tpr_loop : ℤ

abbrev pub tool_defaults : ToolSettings
tool_defaults = record {
  mode = none;
  reset_rx? = false;
  evr_loop = ℤ.negsuc 0;
  tpr_loop = ℤ.negsuc 0;
}

-- A value of 32 bits as an `int`.
abbrev pub as_int : ℕ → ℤ
as_int v = if ltb v (2 ^ 31) then ℤ.pos v else ℤ.negsuc (2 ^ 32 - v - 1)

-- The switch over getopt's answer, for the options that the program goes on after.
unfoldable pub tool_option : Answer → Options ToolSettings → Options ToolSettings
tool_option a o =
    let s = o.settings in
    let number = as_int (unsigned_of a.optarg).0 in
    if a.char == b'1'
    then with_settings (record s { mode = some lcls1 }) o
    else if a.char == b'2'
    then with_settings (record s { mode = some lcls2 }) o
    else if a.char == b'R'
    then with_settings (record s { reset_rx? = true }) o
    else if a.char == b'd'
    then device_option a.optarg o
    else if a.char == b'x'
    then with_settings (record s { evr_loop = number }) o
    else if a.char == b'X'
    then with_settings (record s { tpr_loop = number }) o
    else misused o

unfoldable pub tool_answer : Answer → Options ToolSettings → Run (Parse (Options ToolSettings))
unfolding tool_option
tool_answer a o = if a.char == b'h' then done (leave (ℤ.pos 0)) else done (go (tool_option a o))

-- The options of setupdma: the threshold. The timing mode that it notes has no use.
unfoldable pub dma_option : Answer → Options ℕ → Options ℕ
dma_option a o =
    if (a.char == b'1') || (a.char == b'2')
    then o
    else if a.char == b'd'
    then device_option a.optarg o
    else if a.char == b't'
    then with_settings (unsigned_of a.optarg).0 o
    else misused o

unfoldable pub dma_answer : Answer → Options ℕ → Run (Parse (Options ℕ))
unfolding dma_option
dma_answer a o = if a.char == b'h' then done (leave (ℤ.pos 0)) else done (go (dma_option a o))

module _ {C : Type 0} (bus : Bus C) where
  open bus use {load}

  -- `if (lEvrLoop>=0)` and the same for the TPR.
  unfoldable pub evr_loopback : ℤ → C → C
  evr_loopback (ℤ.negsuc n) c = c
  evr_loopback (ℤ.pos n) c = set_evr_out bus (if n == 0 then straight_out else loop_out) c

  unfoldable pub tpr_loopback : ℤ → C → C
  tpr_loopback (ℤ.negsuc n) c = c
  tpr_loopback (ℤ.pos n) c = set_tpr_out bus (if n == 0 then straight_out else loop_out) c

  -- `if (tmode != None)`
  unfoldable pub set_timing : Option TimingMode → C → C
  set_timing none c = c
  set_timing (some mode) c =
      set_mode_sel_en bus true
        (set_mode_sel bus (not (is_lcls1 mode)) (set_clk_sel bus (is_lcls2 mode) c))

  unfoldable pub tool_work : ToolSettings → C → Run (End × C)
  unfolding evr_loopback tpr_loopback set_timing
  tool_work s c =
      let (stamp, c₁) = build_stamp bus (load 0x10000 c).1 in
      let looped = tpr_loopback s.tpr_loop (evr_loopback s.evr_loop c₁) in
      do
        text ← some stamp
        let c₂ = if s.reset_rx? then reset_rx bus looped else looped
        done (exit_ok, set_timing s.mode c₂)

  unfoldable pub tool_main : System → List Answer → Bool → C → Run (End × C)
  unfolding tool_answer tool_work
  tool_main sys answers left c =
      parse tool_answer answers (start_options tool_defaults) >>= on_device sys left tool_work c

  unfoldable pub dma_work : ℕ → C → Run (End × C)
  dma_work threshold c =
      let (stamp, c₁) = build_stamp bus (load 0x10000 c).1 in
      do text ← some stamp; done (exit_ok, csr_dump bus (setup_dma bus threshold (csr_dump bus c₁)))

  unfoldable pub dma_main : System → List Answer → Bool → C → Run (End × C)
  unfolding dma_answer dma_work
  dma_main sys answers left c =
      parse dma_answer answers (start_options 0x300) >>= on_device sys left dma_work c
