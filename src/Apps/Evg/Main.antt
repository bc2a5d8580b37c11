-- ===== src/Apps/Evg/Main.antt =====
-- software/app/evgasync.cc: `main`.
use evr_card_g.Base.{
  ℕ, zero, suc, ◌+◌, ◌*◌, ◌%◌, ◌^◌, ℤ, Bool, true, false, ◌||◌, List, [], ◌∷◌, length, ◌==◌,
  if◌then◌else◌, some,
}
use evr_card_g.Base.Run.{Run, done, ◌>>=◌}
use evr_card_g.Bus.{Bus}
use evr_card_g.Regs.Version.{build_stamp}
use evr_card_g.Regs.Blocks.{
  straight_in, straight_out, set_evr_in, set_evr_out, set_tpr_in, set_tpr_out,
}
use evr_card_g.Apps.Options.{
  Answer, Parse, go, leave, Options, device_option, misused, with_settings, start_options, parse,
  System, on_device, End, exit_ok,
}
use evr_card_g.Apps.Dumps.{each, loads, xbar_dump}
use evr_card_g.Apps.Evg.Registers.{
  control_word, reset_pll, reset_phy, update_time, trigger_evg, last_time, evg_ring_dump,
  evg_ring_clear,
}
use evr_card_g.Apps.Evg.Codes.{arm_codes}

pub record EvgSettings : Type 0 where
  pub pll_reset : Bool
  pub phy_reset : Bool
  pub update_time? : Bool
  pub update_codes : Bool
  pub dump_ring : Bool
  pub trigger? : Bool
  pub codes : ℕ → ℕ

abbrev pub evg_defaults : EvgSettings
evg_defaults = record {
  pll_reset = false;
  phy_reset = false;
  update_time? = false;
  update_codes = false;
  dump_ring = false;
  trigger? = false;
  codes = λ i. 0;
}

abbrev evg_flag : EvgSettings → Options EvgSettings → Run (Parse (Options EvgSettings))
evg_flag s o = done (go (with_settings s o))

-- The switch over getopt's answer. `-h` and `-?` print the usage and exit with 0.
unfoldable pub evg_option : Answer → Options EvgSettings → Run (Parse (Options EvgSettings))
evg_option a o =
    let s = o.settings in
    let armed = (do
      codes ← arm_codes (suc (length a.optarg)) a.optarg s.codes
      done (go (with_settings (record s { codes = codes; update_codes = true }) o))) in
    if a.char == b'r'
    then evg_flag (record s { phy_reset = true }) o
    else if a.char == b'R'
    then evg_flag (record s { pll_reset = true }) o
    else if a.char == b't'
    then evg_flag (record s { update_time? = true }) o
    else if a.char == b'T'
    then evg_flag (record s { trigger? = true }) o
    else if a.char == b'd'
    then done (go (device_option a.optarg o))
    else if a.char == b'D'
    then evg_flag (record s { dump_ring = true }) o
    else if a.char == b'e'
    then armed
    else if (a.char == b'h') || (a.char == b'?')
    then done (leave (ℤ.pos 0))
    else done (go (misused o))

module _ {C : Type 0} (bus : Bus C) where
  open bus use {store, load}

  -- `eventCodes[i] = codes[i]` for the `n` words from `i` on.
  unfoldable pub store_codes : ℕ → ℕ → (ℕ → ℕ) → C → C
  store_codes zero i codes c = c
  store_codes (suc n) i codes c =
      store_codes n (i + 1) codes (store (control_word (8 + i)) (codes i) c)

  -- `if (dumpRing)`
  unfoldable pub dump_and_clear : Bool → C → Run C
  dump_and_clear false c = done c
  dump_and_clear true c = do c' ← some (evg_ring_dump bus c); done (evg_ring_clear bus c')

  -- `if (updateTime)`: `elapsed` are the seconds since the first of January 1990 by the local clock,
  -- and the nanoseconds of the clock, as the C library gives them.
  unfoldable pub set_time : ℕ × ℕ → Bool → C → C
  set_time elapsed false c = c
  set_time (sec, nsec) true c =
      let shown = loads bus (control_word 3 ∷ control_word 2 ∷ []) in
      shown (update_time bus ((sec * 2 ^ 32 + nsec) % 2 ^ 64) (shown c))

  -- `if (updateCodes)`
  unfoldable pub set_codes : Bool → (ℕ → ℕ) → C → C
  unfolding store_codes
  set_codes false codes c = c
  set_codes true codes c = loads bus (each 8 8 control_word) (store_codes 8 0 codes c)

  -- The program's work on the registers.
  unfoldable pub evg_work : ℕ × ℕ → EvgSettings → C → Run (End × C)
  unfolding dump_and_clear set_time set_codes
  evg_work elapsed s c =
      let (stamp, c₁) = build_stamp bus (load 0x10000 c).1 in
      let evr = set_evr_out bus straight_out (set_evr_in bus straight_in c₁) in
      let tpr = set_tpr_out bus straight_out (set_tpr_in bus straight_in evr) in
      do
        text ← some stamp
        c₂ ← dump_and_clear s.dump_ring (last_time bus (xbar_dump bus tpr)).1
        let c₃ = if s.pll_reset then reset_pll bus c₂ else c₂
        let c₄ = if s.phy_reset then reset_phy bus c₃ else c₃
        let c₅ = set_codes s.update_codes s.codes (set_time elapsed s.update_time? c₄)
        let c₆ = (load (control_word 6) c₅).1
        done (exit_ok, (if s.trigger? then trigger_evg bus c₆ else c₆))

  unfoldable pub evg_main : System → ℕ × ℕ → List Answer → Bool → C → Run (End × C)
  unfolding evg_option evg_work
  evg_main sys elapsed answers left c =
      parse evg_option answers (start_options evg_defaults)
      >>= on_device sys left (evg_work elapsed) c
