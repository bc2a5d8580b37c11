-- ===== src/Prom/Flash.antt =====
-- class EvrCardG2Prom: the flash cycles, and the commands that poll the status register.
use evr_card_g.Base.{ℕ, zero, suc, ◌-◌, ◌^◌, bit_and, bit_or, not, none, ◌==◌, if◌then◌else◌}
use evr_card_g.Base.Run.{Run, done, ◌>>=◌}
use evr_card_g.Bus.{Bus}
use evr_card_g.Prom.Registers.{map_data, map_address, map_read, read_mask, gen_req_word}

module _ {C : Type 0} (bus : Bus C) where
  open bus use {store, load, sleep_us}

  unfoldable pub write_to_flash : ℕ → ℕ → ℕ → C → C
  write_to_flash address cmd word c =
      store map_address (bit_and (2 ^ 31 - 1) address) (store map_data (gen_req_word cmd word) c)

  unfoldable pub read_flash : ℕ → ℕ → C → ℕ × C
  read_flash address cmd c =
      let (reg, c') =
        load map_read (
          store map_address (bit_or read_mask address)
            (store map_data (gen_req_word cmd 0xFF) c)) in
      (bit_and reg 0xFFFF, c')

  unfoldable pub read_word_command : ℕ → C → ℕ × C
  read_word_command address = read_flash address 0xFF

  -- Unlock the block, clear the status register, and send the command.
  unfoldable pub send : ℕ → ℕ → ℕ → C → C
  send address cmd word c =
      write_to_flash address cmd word
        (write_to_flash address 0x50 0x50 (write_to_flash address 0x60 0xD0 c))

  unfoldable pub lock : ℕ → C → C
  lock address = write_to_flash address 0x60 0x01

  -- The polling loop: a failure, by the bits of `mask`, starts the command again; else bit 7 ends
  -- the loop.
  unfoldable pub poll : ℕ → ℕ → ℕ → (C → Run C) → C → Run C
  poll zero address mask again c = none
  poll (suc fuel) address mask again c =
      let (status, c') = read_flash address 0x70 c in
      let retry = again c' >>= poll fuel address mask again in
      let wait = poll fuel address mask again c' in
      if not (bit_and status mask == 0)
      then retry
      else if not (bit_and status 0x80 == 0)
      then done c'
      else wait

  -- Start a command, poll, and lock the block.
  unfoldable pub polled : ℕ → ℕ → ℕ → (C → Run C) → C → Run C
  polled fuel address mask start c = do
    c' ← start c
    c'' ← poll fuel address mask start c'
    done (lock address c'')

  unfoldable pub erase_command : ℕ → ℕ → C → Run C
  erase_command fuel address = polled fuel address 0x20 (λ c. done (send address 0x20 0xD0 c))

  unfoldable pub program_command : ℕ → ℕ → ℕ → C → Run C
  program_command fuel address word =
      polled fuel address 0x10 (λ c. done (send address 0x40 word c))

  -- The new PROM's reset.
  unfoldable pub reset_prom : C → C
  reset_prom c =
      write_to_flash 0 0 0xF0 (
        write_to_flash 0x2AA 0 0x55 (write_to_flash 0x555 0 0xAA (write_to_flash 0x1A2 0 0xFFFF c)))
