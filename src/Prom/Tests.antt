-- ===== src/Prom/Tests.antt =====
-- The theorems on small cards.
use evr_card_g.Base.{
  min, ◌⊎◌, ℕ, zero, suc, ◌+◌, ◌-◌, ◌%◌, Bool, true, false, List, [], ◌∷◌, ◌++◌, Option, none, some,
  ◌≡◌, ◌≢◌, ◌↔◌, refl, arith, ◌==◌, if◌then◌else◌,
}
use evr_card_g.Base.Outcome.{undefined}
use evr_card_g.Base.Run.{Run, done}
use evr_card_g.Mcs.Stream.{getline}
use evr_card_g.Mcs.Hex.{scan_hex}
use evr_card_g.Mcs.Reader.{
  fresh, open_path, beg, next, at, header, collect, save, store_data, data_record, end_record,
  dispatch, parse_line,
}
use evr_card_g.Mcs.Read.{
  read, deliver, fill, after_fill, finish, round, addr_size, start_addr, end_addr, skip_to_data,
  skip_to_end, go_on, turn, leave_at_data, leave_at_end,
}
use evr_card_g.Mcs.Encode.{record_line, fields, encode}
use evr_card_g.Mcs.Accept.{total}
use evr_card_g.Bus.{Bus}
use evr_card_g.Prom.Registers.{gen_req_word, map_version, map_prom_type}
use evr_card_g.Prom.Flash.{
  read_word_command, write_to_flash, reset_prom, read_flash, poll, polled, lock, send,
  erase_command,
}
use evr_card_g.Regs.Word.{test_bit}
use evr_card_g.Prom.Cycles.{IsFlash}
use evr_card_g.Prom.Program.{load_buffer, send_buffer, buffered_new, buffered_program_command}
use evr_card_g.Prom.Card.{
  select_type, erase_wait, new_prom, load_build, check_firmware_version, erase_chip,
  erase_boot_prom, erase_blocks,
}
use evr_card_g.Prom.Erase.{Erases, erase_blocks_iff, erase_blocks_endless}
use evr_card_g.Prom.Boot.{
  join, verify_loop, verify_round, verify_next, compare_byte, compare_word, write_loop, write_round,
  take_byte, latch, send_full, no_data, Writer, writer, send_rest, buffered_write_boot_prom,
  verify_boot_prom,
}
use evr_card_g.Prom.Load.{
  main_of, main_prom_load, prom_verify, Fuel, prom_load, get_prom_size, after_check, renew,
  after_write, exit_status,
}
use evr_card_g.Prom.Success.{checked, Renewed}
use evr_card_g.Prom.Exit.{Matches, prom_verify-Matches, main_prom_load-Matches}
use evr_card_g.Prom.Padding.{send_rest_undefined}
use evr_card_g.Prom.Verify.{Reading, Compared, verify_boot_prom-Compared}

-- A card that counts its cycles, and whose registers all read as 0x80: a flash at rest.
abbrev ready : Bus ℕ
ready = record {
  store = λ offset v c. suc c;
  load = λ offset c. (0x80, suc c);
  sleep_us = λ n c. c;
}

abbrev again : ℕ → Run ℕ
again c = done c

-- A flash that notes its stores, and is busy for two status reads after an erase.
abbrev flash : Bus (List (ℕ × ℕ) × ℕ)
flash = record {
  store = λ offset v c. ((offset, v) ∷ c.0, (if v == 0x2000D0 then 2 else min c.1 2));
  load = λ offset c. ((if min c.1 2 == 0 then 0x80 else 0), (c.0, min c.1 2 - 1));
  sleep_us = λ n c. c;
}

flash-IsFlash : IsFlash flash 2
unfolding test_bit
flash-IsFlash = record {
  log = λ c. c.0;
  busy = λ c. min c.1 2;
  log-store = λ o v c. refl;
  log-load = λ o c. refl;
  busy-bound = λ c. omega arith;
  busy-request = λ c. omega arith;
  busy-start = λ address c. ground arith;
  busy-load = λ c. omega arith;
  fails = λ c. ground arith;
  rests = λ c. ground arith;
}

erase_blocks_iff_example :
    (erase_blocks ready 3 3 0x4000 0 5 ≡ done 27) ↔ Erases ready 3 (0 ∷ 0x4000 ∷ []) 5 27
erase_blocks_iff_example = erase_blocks_iff ready 3 0x4000 5 27 (omega arith)

erase_blocks_endless_example : erase_blocks ready 9 3 0xFFFFFFFF 0 5 ≢ done 7
erase_blocks_endless_example =
    erase_blocks_endless ready 3 9 0xFFFFFFFF 0 5 (omega arith) (omega arith) (omega arith) 7

abbrev one_word : Writer ℕ
one_word = record (writer ready true 9 (fresh none) 5) { buf_size = 1 }

send_rest_undefined_example : send_rest ready true 9 one_word ≡ some undefined
send_rest_undefined_example = send_rest_undefined ready true 9 one_word (omega arith) refl

-- A record of 16 bytes that are eight times the word 0x0080.
abbrev sixteen : List ℕ
sixteen = 0x80 ∷ 0 ∷ 0x80 ∷ 0 ∷ 0x80 ∷ 0 ∷ 0x80 ∷ 0 ∷ 0x80 ∷ 0 ∷ 0x80 ∷ 0 ∷ 0x80 ∷ 0 ∷ 0x80 ∷ 0 ∷ []

abbrev data_line : ℕ → List ℕ
data_line addr =
    record_line addr 0 sixteen ((256 - total (fields addr 0 sixteen 0) % 256) % 256) ++ b'\n' ∷ []

-- `n` such records from an address on, and the end record.
abbrev lines_from : ℕ → ℕ → List ℕ
lines_from zero addr = record_line 0 1 [] 0xFF ++ b'\n' ∷ []
lines_from (suc n) addr = data_line addr ++ lines_from n (addr + 16)

-- Two records, which are not one buffer.
abbrev short_file : List ℕ
short_file = lines_from 2 0

-- 512 bytes, which are one full buffer.
abbrev full_file : List ℕ
full_file = lines_from 32 0

abbrev fuel : Fuel
fuel = record { rounds = 2000; blocks = 200; polls = 2000 }

-- A card with this version and a PROM of the new type.
abbrev card_of : ℕ → Bus ℕ
card_of version = record {
  store = λ offset v c. suc c;
  load = λ offset c. (
    if offset == map_version then version else if offset == map_prom_type then 0 else 0x80,
    suc c,
  );
  sleep_us = λ n c. c;
}

compared : verify_boot_prom (card_of 0xCED20040) 2000 2000 (some short_file) 0 ≡ done (true, 48)
unfolding verify_boot_prom verify_loop verify_round verify_next compare_byte compare_word
    read_word_command read_flash open_path read next scan_hex fill after_fill finish round deliver
    go_on turn parse_line at header dispatch data_record store_data end_record collect save getline
    encode join
compared = refl

loaded : prom_load (card_of 0xCED20040) fuel false (some full_file) 0 ≡ done (0, 1393)
unfolding select_type new_prom erase_wait gen_req_word lock prom_load get_prom_size after_check
    renew after_write exit_status check_firmware_version erase_boot_prom erase_chip
    buffered_write_boot_prom write_loop write_round take_byte latch send_full send_rest
    buffered_program_command buffered_new send_buffer load_buffer poll polled send write_to_flash
    verify_boot_prom verify_loop verify_round verify_next compare_byte compare_word
    read_word_command read_flash open_path read next scan_hex fill after_fill finish round deliver
    go_on turn parse_line at header dispatch data_record store_data end_record collect save getline
    encode join addr_size start_addr end_addr skip_to_data skip_to_end leave_at_data leave_at_end
    beg reset_prom load_build
loaded = refl

refused : prom_load (card_of 0) fuel false (some short_file) 0 ≡ done (1, 68)
unfolding prom_load get_prom_size after_check check_firmware_version open_path next scan_hex go_on
    turn parse_line at header dispatch data_record store_data end_record collect save getline encode
    join addr_size start_addr end_addr skip_to_data skip_to_end leave_at_data leave_at_end beg
    write_to_flash load_build new_prom
refused = refl

verify_boot_prom-Compared_example :
    (bs : List (Option ℕ)) × Reading 2000 no_data (fresh (some short_file)) bs
    × Compared (card_of 0xCED20040) false none 0 bs 0 48
verify_boot_prom-Compared_example =
    verify_boot_prom-Compared (card_of 0xCED20040) 2000 2000 short_file 0 48 compared

too_old : (checked (card_of 0) fuel 0).0 ≡ false
unfolding check_firmware_version
too_old = refl

abbrev new_card : Bus ℕ
new_card = card_of 0xCED20040

verified : prom_verify new_card fuel false (some short_file) 0 ≡ done (0, 125)
unfolding prom_verify exit_status check_firmware_version select_type new_prom load_build reset_prom
    write_to_flash verify_boot_prom verify_loop verify_round verify_next compare_byte compare_word
    read_word_command read_flash open_path read next scan_hex fill after_fill finish round deliver
    go_on turn parse_line at header dispatch data_record store_data end_record collect save getline
    encode join gen_req_word
verified = refl

prom_verify-Matches_example :
    ((checked new_card fuel 0).0 ≡ true)
    × Matches new_card fuel short_file (checked new_card fuel 0).1.card 125
prom_verify-Matches_example = prom_verify-Matches new_card fuel short_file 0 125 verified

main_loaded : main_prom_load new_card fuel true true (some full_file) 3 0 ≡ done (0, 1393)
unfolding main_prom_load main_of
main_loaded = loaded

main_prom_load-Matches_example :
    ((◌≢◌ {A = ℕ} 3 3) × (◌≡◌ {A = ℕ} 0 1393))
    ⊎ ((◌≡◌ {A = Bool} true true)
        × (◌≡◌ {A = Bool} true true)
        × (w : Renewed new_card fuel (some full_file) (checked new_card fuel 0).1 1393) × Matches
            new_card fuel full_file w.written 1393)
main_prom_load-Matches_example =
    main_prom_load-Matches new_card fuel true true full_file 3 0 1393 main_loaded

erased : erase_blocks ready 3 3 0x4000 0 0 ≡ done 22
unfolding erase_blocks erase_command polled poll send lock write_to_flash read_flash
erased = refl
