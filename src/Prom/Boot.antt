-- ===== src/Prom/Boot.antt =====
-- class EvrCardG2Prom: writing the .mcs file to the PROM and comparing them. The percentage of
-- progress, which is printed only, is left out.
use evr_card_g.Base.{
  ℕ, zero, suc, ◌+◌, ◌-◌, ◌*◌, ◌%◌, ◌^◌, bit_or, Bool, true, false, ◌==◌, ℤ, pos, negsuc, List,
  if◌then◌else◌, Option, none, some, set, replicate,
}
use evr_card_g.Base.Run.{Run, done, ◌>>=◌, value}
use evr_card_g.Mcs.Reader.{Reader, open_path}
use evr_card_g.Mcs.Read.{ReadData, read}
use evr_card_g.Bus.{Bus}
use evr_card_g.Prom.Flash.{read_word_command}
use evr_card_g.Prom.Program.{Words, buffered_program_command}

-- `status < 0`
abbrev pub negative : ℤ → Bool
negative (pos n) = false
negative (negsuc n) = true

-- The lower byte of a word, and the upper one put on top, in 16 bits.
abbrev pub low_byte : Option ℕ → Option ℕ
low_byte none = none
low_byte (some b) = some (b % 2 ^ 16)

unfoldable pub join : ℕ → ℕ → ℕ
join low high = bit_or low (high % 2 ^ 16 * 2 ^ 8) % 2 ^ 16

abbrev pub no_data : ReadData
no_data = record { address = none; byte = none; end_of_file = false }

-- The local variables of `bufferedWriteBootProm`.
pub record Writer (C : Type 0) : Type 0 where
  pub reader : Reader
  pub mem : ReadData
  pub toggle : Bool
  pub file_data : Option ℕ
  pub address : ℕ
  pub buf_addr : Words
  pub buf_data : Words
  pub buf_size : ℕ
  pub card : C

-- `for(i=bufSize;i<256;i++) bufData[bufSize] = 0xFFFF;` with `n` rounds left. A store past the
-- array would be undefined, and is no store here; `bufSize` is below 256.
unfoldable pub pad : ℕ → ℕ → Words → Words
pad zero size words = words
pad (suc n) size words = pad n size (set words size (some 0xFFFF))

-- The local variables of `verifyBootProm`.
pub record Verifier (C : Type 0) : Type 0 where
  pub reader : Reader
  pub mem : ReadData
  pub toggle : Bool
  pub file_data : Option ℕ
  pub address : ℕ
  pub card : C

module _ {C : Type 0} (bus : Bus C) (legacy : Bool) (fuel : ℕ) where
  -- "Check if we need to send the buffer": with 256 words it is sent and empty again.
  unfoldable pub send_full : Writer C → Run (Writer C)
  send_full w =
      let full = do
        c ← buffered_program_command bus legacy fuel w.buf_addr w.buf_data w.buf_size w.card
        done (record w { buf_size = 0; card = c })
      in if w.buf_size == 256 then full else done w

  -- The upper byte completes a word, which is latched.
  unfoldable pub latch : Writer C → Run (Writer C)
  latch w = do
    low ← value w.file_data
    high ← value w.mem.byte
    w' ← send_full (record w {
      toggle = false;
      file_data = some (join low high);
      buf_addr = set w.buf_addr w.buf_size (some w.address);
      buf_data = set w.buf_data w.buf_size (some (join low high));
      buf_size = w.buf_size + 1;
    })
    done (record w' { address = (w'.address + 1) % 2 ^ 32 })

  -- "Check if this is the upper or lower byte".
  unfoldable pub take_byte : Writer C → Run (Writer C)
  take_byte w =
      if w.toggle
      then latch w
      else done (record w { toggle = true; file_data = low_byte w.mem.byte })

  -- Behind the read of a byte; `again` is the rest of the loop.
  unfoldable pub write_round :
      (Writer C → Run (Bool × Writer C)) → Writer C → ℤ × ReadData × Reader → Run (Bool × Writer C)
  write_round again w (status, mem, reader) =
      let w' = record w { mem = mem; reader = reader } in
      if negative status then done (false, w') else take_byte w' >>= again

  -- The loop over the file, `rounds` at most; `false` is a read error.
  unfoldable pub write_loop : ℕ → Writer C → Run (Bool × Writer C)
  write_loop zero w = none
  write_loop (suc rounds) w =
      let round = read fuel w.mem w.reader >>= write_round (write_loop rounds) w in
      if w.mem.end_of_file then done (true, w) else round

  -- Behind the loop: what is left in the buffer is padded and sent with 256 words.
  unfoldable pub send_rest : Writer C → Run C
  send_rest w =
      if w.buf_size == 0
      then done w.card
      else buffered_program_command bus legacy fuel w.buf_addr
          (pad (256 - w.buf_size) w.buf_size w.buf_data) 256 w.card

  abbrev pub writer : Reader → C → Writer C
  writer r c = record {
    reader = r;
    mem = no_data;
    toggle = false;
    file_data = none;
    address = 0;
    buf_addr = replicate 256 none;
    buf_data = replicate 256 none;
    buf_size = 0;
    card = c;
  }

  -- The file is its bytes, or `none` if it cannot be opened.
  unfoldable pub buffered_write_boot_prom : ℕ → Option (List ℕ) → C → Run (Bool × C)
  buffered_write_boot_prom rounds file c =
      let (opened, reader) = open_path file in
      let write = do
        (complete, w) ← write_loop rounds (writer reader c)
        let sent = send_rest w >>= λ c'. done (true, c')
        if complete then sent else done (false, w.card)
      in if opened then write else done (false, c)

module _ {C : Type 0} (bus : Bus C) where
  -- A word of the file against the one in the PROM: `false` if they differ.
  unfoldable pub compare_word : ℕ → ℕ → Verifier C → Bool × Verifier C
  compare_word low high v =
      let word = join low high in
      let (prom, c) = read_word_command bus v.address v.card in
      let v' = record v { toggle = false; file_data = some word; card = c } in
      if word == prom then (true, record v' { address = (v.address + 1) % 2 ^ 32 }) else (false, v')

  -- One byte of the file: a lower one is kept, and an upper one completes a word.
  unfoldable pub compare_byte : Verifier C → Run (Bool × Verifier C)
  compare_byte v =
      let compare = do
        low ← value v.file_data
        high ← value v.mem.byte
        done (compare_word low high v)
      in if v.toggle
        then compare
        else done (true, record v { toggle = true; file_data = low_byte v.mem.byte })

module _ {C : Type 0} (bus : Bus C) (fuel : ℕ) where
  -- Behind the comparison of a byte, and behind the read of one; `again` is the rest of the loop.
  unfoldable pub verify_next : (Verifier C → Run (Bool × C)) → Bool × Verifier C → Run (Bool × C)
  verify_next again (same, v) = if same then again v else done (false, v.card)

  unfoldable pub verify_round :
      (Verifier C → Run (Bool × C)) → Verifier C → ℤ × ReadData × Reader → Run (Bool × C)
  verify_round again v (status, mem, reader) =
      if negative status
      then done (false, v.card)
      else compare_byte bus (record v { mem = mem; reader = reader }) >>= verify_next again

  -- The loop over the file, `rounds` at most.
  unfoldable pub verify_loop : ℕ → Verifier C → Run (Bool × C)
  verify_loop zero v = none
  verify_loop (suc rounds) v =
      let round = read fuel v.mem v.reader >>= verify_round (verify_loop rounds) v in
      if v.mem.end_of_file then done (true, v.card) else round

  abbrev pub verifier : Reader → C → Verifier C
  verifier r c = record {
    reader = r;
    mem = no_data;
    toggle = false;
    file_data = none;
    address = 0;
    card = c;
  }

  -- A file that cannot be opened is answered by `return(1)`, which is `true`.
  unfoldable pub verify_boot_prom : ℕ → Option (List ℕ) → C → Run (Bool × C)
  verify_boot_prom rounds file c =
      let (opened, reader) = open_path file in
      if opened then verify_loop rounds (verifier reader c) else done (true, c)
