-- ===== src/Prom/Card.antt =====
-- class EvrCardG2Prom: its state, the constructor, the firmware check and the erase.
use evr_card_g.Base.{
  ℕ, zero, suc, ◌+◌, ◌*◌, ◌/◌, ◌%◌, ◌^◌, bit_and, Bool, true, false, not, ltb, leb, ◌==◌,
  if◌then◌else◌, none,
}
use evr_card_g.Base.Run.{Run, done, ◌>>=◌}
use evr_card_g.Bus.{Bus}
use evr_card_g.Prom.Registers.{map_version, map_prom_type, map_build, map_test}
use evr_card_g.Prom.Flash.{write_to_flash, erase_command, reset_prom}

-- The object, with the hardware behind it.
pub record Prom (C : Type 0) : Type 0 where
  pub prom_type : Bool
  pub prom_size : ℕ
  pub card : C

abbrev pub gen2_prom_version : ℕ
gen2_prom_version = 0xCED20000

abbrev pub gen2_mask : ℕ
gen2_mask = gen2_prom_version / 2 ^ 12

abbrev pub prom_block_size : ℕ
prom_block_size = 0x4000

abbrev pub default_prom_size : ℕ
default_prom_size = 0x002DF2FB

abbrev pub config_reg : ℕ
config_reg = 0xFD4F

module _ {C : Type 0} (bus : Bus C) where
  open bus use {store, load, sleep_us}

  unfoldable pub new_prom : C → Prom C
  new_prom c = record {
    prom_type = true;
    prom_size = default_prom_size;
    card = write_to_flash bus config_reg 0x60 0x03 c;
  }

  unfoldable pub set_prom_size : ℕ → Prom C → Prom C
  set_prom_size size p = record p { prom_size = size }

  -- The loads of the build stamp, which is printed only: `n` are left, from word `i`.
  unfoldable pub load_build : ℕ → ℕ → C → C
  load_build zero i c = c
  load_build (suc n) i c = load_build n (i + 1) (load (map_build + 4 * i) c).1

  -- The PROM type in use is noted, and the command interface set to match.
  unfoldable pub select_type : Bool → Prom C → Prom C
  select_type legacy p = record p {
    prom_type = legacy;
    card = if legacy then store map_test 0 p.card else reset_prom bus (store map_test 1 p.card);
  }

  unfoldable pub check_firmware_version : Prom C → Bool × Prom C
  unfolding load_build select_type
  check_firmware_version p =
      let (version, c₁) = load map_version p.card in
      let (kind, c₂) = load map_prom_type c₁ in
      let q = record p { card = load_build 64 0 c₂ } in
      if not (version / 2 ^ 12 == gen2_mask) then (false, q) else (
        true,
        select_type (if ltb version 0xCED20030 then true else not (bit_and kind 1 == 0)) q,
      )

  -- The legacy loop: `blocks` is fuel for its rounds, `fuel` for each poll.
  unfoldable pub erase_blocks : ℕ → ℕ → ℕ → ℕ → C → Run C
  erase_blocks zero fuel size address c = none
  erase_blocks (suc blocks) fuel size address c =
      let rest = do
        c' ← erase_command bus fuel address c
        erase_blocks blocks fuel size ((address + prom_block_size) % 2 ^ 32) c'
      in if leb address size then rest else done c

  -- Twenty sleeps of six seconds.
  unfoldable pub erase_wait : ℕ → C → C
  erase_wait zero c = c
  erase_wait (suc n) c = erase_wait n (sleep_us 6000000 c)

  unfoldable pub erase_chip : C → C
  unfolding erase_wait
  erase_chip c =
      let w = write_to_flash bus in
      let protection = w 0x555 0 0xC0 (w 0x2AA 0 0x55 (w 0x555 0 0xAA c)) in
      let cleared = w 0 0 0x30 (w 0x555 0 0x80 (sleep_us 1 protection)) in
      let left = w 0 0 0 (w 0 0 0x90 (sleep_us 2000000 cleared)) in
      let unlocked = w 0x555 0 0x80 (w 0x2AA 0 0x55 (w 0x555 0 0xAA (sleep_us 1 left))) in
      erase_wait 20 (w 0x555 0 0x10 (w 0x2AA 0 0x55 (w 0x555 0 0xAA unlocked)))

  unfoldable pub erase_boot_prom : ℕ → ℕ → Prom C → Run (Prom C)
  unfolding erase_chip
  erase_boot_prom blocks fuel p =
      let by_block = do
        c ← erase_blocks blocks fuel p.prom_size 0 p.card
        done (record p { card = c })
      in if p.prom_type then by_block else done (record p { card = erase_chip p.card })
