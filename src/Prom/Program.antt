-- ===== src/Prom/Program.antt =====
-- class EvrCardG2Prom: the buffered program command.
use evr_card_g.Base.{ℕ, zero, suc, ◌+◌, ◌-◌, ◌%◌, ◌^◌, Bool, Option, List, if◌then◌else◌}
use evr_card_g.Base.Run.{Run, done, ◌>>=◌, value}
use evr_card_g.Mcs.Reader.{data_at}
use evr_card_g.Bus.{Bus}
use evr_card_g.Prom.Flash.{write_to_flash, read_flash, send, polled}

-- A C array of 16- or 32-bit words, `none` where none was written.
abbrev pub Words : Type 0
Words = List (Option ℕ)

module _ {C : Type 0} (cycle : ℕ → ℕ → C → C) where
  -- A loop over the buffer, `n` rounds left at index `i`, with one flash cycle for each word.
  unfoldable pub load_buffer : ℕ → ℕ → Words → Words → C → Run C
  load_buffer zero i address word c = done c
  load_buffer (suc n) i address word c = do
    a ← value (data_at address i)
    w ← value (data_at word i)
    load_buffer n (i + 1) address word (cycle a w c)

module _ {C : Type 0} (bus : Bus C) where
  open bus use {sleep_us}

  -- Unlock, clear, announce, load and confirm.
  unfoldable pub send_buffer : Words → Words → ℕ → ℕ → C → Run C
  send_buffer address word size first c = do
    c' ←
        load_buffer (λ a w c. (read_flash bus a w c).1) size 0 address word
          (send bus first 0xE8 ((size + 2 ^ 16 - 1) % 2 ^ 16) c)
    done (read_flash bus first 0xD0 c').1

  unfoldable pub buffered_legacy : ℕ → Words → Words → ℕ → ℕ → C → Run C
  buffered_legacy fuel address word size first =
      polled bus fuel first 0x10 (send_buffer address word size first)

  unfoldable pub buffered_new : Words → Words → ℕ → ℕ → C → Run C
  buffered_new address word size first c = do
    let c₁ = write_to_flash bus 0x2AA 0 0x55 (write_to_flash bus 0x555 0 0xAA c)
    let c₂ =
        write_to_flash bus first 0 ((size + 2 ^ 16 - 1) % 2 ^ 16)
          (write_to_flash bus first 0 0x25 c₁)
    c₃ ← load_buffer (λ a w c. write_to_flash bus a 0 w c) size 0 address word (sleep_us 1 c₂)
    done (sleep_us 2048 (write_to_flash bus first 0 0x29 (sleep_us 1 c₃)))

  -- `bufferedProgramCommand`; the flag is `promType_`, and `size - 1` is of 16 bits.
  unfoldable pub buffered_program_command : Bool → ℕ → Words → Words → ℕ → C → Run C
  unfolding buffered_legacy buffered_new
  buffered_program_command legacy fuel address word size c = do
    first ← value (data_at address 0)
    if legacy
        then buffered_legacy fuel address word size first c
        else buffered_new address word size first c
