-- ===== src/Apps/Lock/Main.antt =====
-- software/app/evrlock.cc: `main` up to its last loop.
use evr_card_g.Base.{ℕ, zero, suc, ℤ, ◌-◌, Bool, true, false, List, ◌==◌, if◌then◌else◌, none, some}
use evr_card_g.Base.Run.{Run, done, ◌>>=◌}
use evr_card_g.Bus.{Bus}
use evr_card_g.Text.Codes.{codes}
use evr_card_g.Regs.Version.{build_stamp}
use evr_card_g.Regs.Core.{set_clk_sel, reset_rx, reset_rx_pll}
use evr_card_g.Regs.Blocks.{
  word_at, InMode, OutMode, straight_in, loop_in, straight_out, loop_out, set_evr_in, set_evr_out,
  set_tpr_in, set_tpr_out,
}
use evr_card_g.Apps.Options.{
  Answer, Parse, go, leave, Options, device_option, misused, with_settings, start_options, parse,
  System, on_device, End, watches,
}
use evr_card_g.Apps.Dumps.{each, loads, xbar_dump, core_dump}
use evr_card_g.Apps.Lock.Registers.{app_word, core_nc_base, core_sc_base}
use evr_card_g.Apps.Lock.Monitor.{PhaseScan, no_scan, fast, slow, monitor}

pub record LockSettings : Type 0 where
  pub loopback_xbar_in : Bool
  pub loopback_xbar_out : Bool
  pub loopback_gtx : Bool
  pub scan_mode : PhaseScan
  pub file_name : List ℕ

abbrev pub lock_defaults : LockSettings
lock_defaults = record {
  loopback_xbar_in = false;
  loopback_xbar_out = false;
  loopback_gtx = false;
  scan_mode = no_scan;
  file_name = codes "evrlock.dat";
}

-- The switch over getopt's answer, for the options that the program goes on after.
unfoldable pub lock_option : Answer → Options LockSettings → Options LockSettings
lock_option a o =
    let s = o.settings in
    if a.char == b'd'
    then device_option a.optarg o
    else if a.char == b'f'
    then with_settings (record s { file_name = a.optarg }) o
    else if a.char == b'F'
    then with_settings (record s { scan_mode = fast }) o
    else if a.char == b'S'
    then with_settings (record s { scan_mode = slow }) o
    else if a.char == b'x'
    then with_settings (record s { loopback_xbar_in = true }) o
    else if a.char == b'l'
    then with_settings (record s { loopback_xbar_out = true }) o
    else if a.char == b'L'
    then with_settings (record s { loopback_gtx = true }) o
    else misused o

unfoldable pub lock_answer : Answer → Options LockSettings → Run (Parse (Options LockSettings))
unfolding lock_option
lock_answer a o = if a.char == b'h' then done (leave (ℤ.pos 0)) else done (go (lock_option a o))

-- The registers as the core at `coreNC` is seen, which stands 0x40000 below the one of TprReg.
abbrev pub nc_bus : {C : Type 0} → Bus C → Bus C
nc_bus bus = record {
  store = λ o v. bus.store (o - 0x40000) v;
  load = λ o. bus.load (o - 0x40000);
  sleep_us = bus.sleep_us;
}

module _ {C : Type 0} (bus : Bus C) where
  open bus use {store, load, sleep_us}

  abbrev pub input_mode : LockSettings → InMode
  input_mode s = if s.loopback_xbar_out then loop_in else straight_in

  abbrev pub output_mode : LockSettings → OutMode
  output_mode s = if s.loopback_xbar_in then loop_out else straight_out

  -- A core after its clock was selected and it was reset, through its own registers.
  unfoldable pub reset_core : Bus C → Bool → C → C
  reset_core core lcls2 c =
      reset_rx core (sleep_us 100000 (reset_rx_pll core (set_clk_sel core lcls2 c)))

  -- `n` dumps of a core, a second apart, and the copy of a core, which loads each of its words.
  unfoldable pub dump_times : ℕ → ℕ → C → C
  dump_times zero base c = c
  dump_times (suc n) base c = dump_times n base (core_dump bus base (sleep_us 1000000 c))

  unfoldable pub copy_core : ℕ → C → C
  copy_core base = loads bus (each 13 0 (word_at base))

  -- The crossbar and both cores.
  unfoldable pub lock_set_up : LockSettings → C → C
  unfolding reset_core
  lock_set_up s c =
      let gtx = if s.loopback_gtx then 2 else 0 in
      let evr = set_evr_out bus (output_mode s) (set_evr_in bus (input_mode s) c) in
      let nc = reset_core (nc_bus bus) false (store (app_word 12) gtx evr) in
      let tpr = set_tpr_out bus (output_mode s) (set_tpr_in bus (input_mode s) nc) in
      sleep_us 100000 (reset_core bus true (store (app_word 13) gtx tpr))

  -- The dumps of the crossbar and of both cores.
  unfoldable pub lock_dumps : C → C
  unfolding dump_times copy_core
  lock_dumps c =
      let nc = dump_times 5 core_nc_base (copy_core core_nc_base (xbar_dump bus c)) in
      dump_times 5 core_sc_base (core_dump bus core_sc_base (copy_core core_sc_base nc))

  -- `fopen` is a parameter: whether it opens a file of a name. `dc` is a LockApp that nothing was
  -- written to. The loop has no end but the fuel's, which stands for the rounds that are watched.
  unfoldable pub lock_work : (List ℕ → Bool) → ℕ → LockSettings → C → Run (End × C)
  unfolding lock_set_up lock_dumps
  lock_work fopen rounds s c =
      let (stamp, c₁) = build_stamp bus (load 0x10000 c).1 in
      do
        text ← some stamp
        (dc, c₂) ←
            monitor bus rounds (fopen s.file_name) s.scan_mode (λ k. none)
              (lock_dumps (lock_set_up s c₁))
        done (watches, c₂)

  unfoldable pub lock_main : (List ℕ → Bool) → ℕ → System → List Answer → Bool → C → Run (End × C)
  unfolding lock_answer lock_work
  lock_main fopen rounds sys answers left c =
      parse lock_answer answers (start_options lock_defaults)
      >>= on_device sys left (lock_work fopen rounds) c
