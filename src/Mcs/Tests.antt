-- ===== src/Mcs/Tests.antt =====
-- Runs of the reader on small files, and the theorems at concrete inputs.
use Prim.Native.Char.{code}
use Prim.Native.String.{String}
use evr_card_g.Base.{
  ℕ, Bool, ltb, true, false, List, [], ◌∷◌, ◌++◌, Option, none, some, ◌≡◌, refl, arith,
  if◌then◌else◌, ℤ, pos,
}
use evr_card_g.Base.Outcome.{Outcome, ok}
use evr_card_g.Mcs.Stream.{getline}
use evr_card_g.Mcs.Hex.{scan_hex}
use evr_card_g.Mcs.Reader.{
  Reader, fresh, beg, next, at, header, collect, save, store_data, data_record, end_record,
  store_base, base_of, base_record, dispatch, parse_line,
}
use evr_card_g.Mcs.Read.{
  ReadData, read, deliver, fill, after_fill, finish, round, addr_size, start_addr, end_addr,
  skip_to_data, skip_to_end, go_on, turn, leave_at_data, leave_at_end,
}
use evr_card_g.Mcs.Encode.{AllBytes, encode, fields, record_line}
use evr_card_g.Mcs.Accept.{saved}
use evr_card_g.Mcs.Progress.{read_total, skip_to_data_stuck}
use evr_card_g.Mcs.Invariant.{IsValid, next-IsValid, fresh-IsValid}
use evr_card_g.Mcs.Delivery.{ReadResult, read-ReadResult}
use evr_card_g.Mcs.Queue.{pending}
use evr_card_g.Mcs.Hands.{Hands, Kept, read_record}
use evr_card_g.Mcs.RoundTrip.{past, next-data, next-base}
use evr_card_g.Mcs.Records.{DataRecord, Queues, next-Queues_odd}

abbrev codes : String → List ℕ
codes String.[] = []
codes (String.◌∷◌ c s) = code c ∷ codes s

abbrev small_file : List ℕ
small_file = codes ":020000040001F9\n:10001000000102030405060708090A0B0C0D0E0F68\n:00000001FF\n"

abbrev result {ℓ} : {A B : Type ℓ} → Option (Outcome (A × B)) → Option A
result (some (ok (a, b))) = some a
result _ = none

addr_size-small_file : result (addr_size 5 (fresh (some small_file))) ≡ some 15
unfolding addr_size next scan_hex start_addr end_addr skip_to_data skip_to_end go_on turn
    leave_at_data leave_at_end beg parse_line at header dispatch data_record end_record base_record
    store_data store_base base_of collect save getline
addr_size-small_file = refl

abbrev are_bytes : List ℕ → Bool
are_bytes [] = true
are_bytes (x ∷ xs) = if ltb x 256 then are_bytes xs else false

all_bytes : (xs : List ℕ) → are_bytes xs ≡ true → AllBytes xs
all_bytes [] h = tt
all_bytes (x ∷ xs) h = (ground arith, all_bytes xs (ground arith))

-- A reader that stands at one line.
abbrev at_line : List ℕ → Reader
at_line line = fresh (some (line ++ b'\n' ∷ []))

at_line-IsValid : (line : List ℕ) → IsValid (at_line line)
at_line-IsValid line = fresh-IsValid (some (line ++ b'\n' ∷ []))

-- Two bytes 0x12 and 0x34 at 0x20, with a right check sum.
abbrev two_bytes : Reader
two_bytes = at_line (record_line 0x20 0 (0x12 ∷ 0x34 ∷ []) 0x98)

two_bytes-IsValid : IsValid two_bytes
two_bytes-IsValid = at_line-IsValid (record_line 0x20 0 (0x12 ∷ 0x34 ∷ []) 0x98)

abbrev two_bytes_record : DataRecord two_bytes 0x20 (0x12 ∷ 0x34 ∷ [])
two_bytes_record = record {
  check = 0x98;
  rest = [];
  stands = (refl, refl);
  all_bytes = all_bytes (fields 0x20 0 (0x12 ∷ 0x34 ∷ []) 0x98) refl;
  some_byte = omega arith;
  at_most = omega arith;
  balanced = refl;
}

abbrev after_two_bytes : Reader
after_two_bytes = saved 0 0x20 (0x12 ∷ 0x34 ∷ []) (record (past two_bytes []) { prom_pntr = 14 })

abbrev memory : ReadData
memory = record { address = none; byte = none; end_of_file = false }

next-two_bytes : next two_bytes ≡ ok (pos 0, after_two_bytes)
next-two_bytes =
    next-data two_bytes 0x20 (0x12 ∷ 0x34 ∷ []) 0x98 [] (refl, refl) two_bytes_record.all_bytes
      (omega arith) (omega arith)

read-two_bytes :
    read 2 memory two_bytes
    ≡ some (
        ok (
          pos 0,
          record { address = some 0x20; byte = some 0x12; end_of_file = false },
          record after_two_bytes { prom_pntr = 15 },
        ))
unfolding read next scan_hex fill after_fill finish round deliver go_on turn parse_line at header
    dispatch data_record store_data collect save saved getline encode
read-two_bytes = refl

next-data_example : next two_bytes ≡ ok (pos 0, after_two_bytes)
next-data_example =
    next-data two_bytes 0x20 (0x12 ∷ 0x34 ∷ []) 0x98 [] (refl, refl) two_bytes_record.all_bytes
      (omega arith) (omega arith)

next-base_example :
    next (at_line (record_line 0 4 (0 ∷ 1 ∷ []) 0xF9))
    ≡ ok (
      pos 4,
      record (past (at_line (record_line 0 4 (0 ∷ 1 ∷ []) 0xF9)) []) { prom_base_addr = 65536 },
    )
next-base_example =
    next-base (at_line (record_line 0 4 (0 ∷ 1 ∷ []) 0xF9)) 0 1 0xF9 [] (refl, refl)
      (all_bytes (fields 0 4 (0 ∷ 1 ∷ []) 0xF9) refl)

abbrev odd_bytes : Reader
odd_bytes = at_line (record_line 0x21 0 (0x12 ∷ 0x34 ∷ []) 0x97)

next-Queues_odd_example : Queues odd_bytes ((some 0x21, some 0x12) ∷ (some 0x21, some 0x34) ∷ [])
next-Queues_odd_example =
    next-Queues_odd odd_bytes 0x21 0x12 0x34
      (at_line-IsValid (record_line 0x21 0 (0x12 ∷ 0x34 ∷ []) 0x97))
      (record {
        check = 0x97;
        rest = [];
        stands = (refl, refl);
        all_bytes = all_bytes (fields 0x21 0 (0x12 ∷ 0x34 ∷ []) 0x97) refl;
        some_byte = omega arith;
        at_most = omega arith;
        balanced = refl;
      })
      refl

next-IsValid_example : IsValid after_two_bytes
next-IsValid_example = next-IsValid two_bytes next-two_bytes two_bytes-IsValid

read_total_example : (o : Outcome (ℤ × ReadData × Reader)) × (read 100 memory two_bytes ≡ some o)
unfolding encode
read_total_example = read_total 100 memory two_bytes (omega arith)

read-ReadResult_example :
    ReadResult
      (pos 0)
      (record { address = some 0x20; byte = some 0x12; end_of_file = false })
      (record after_two_bytes { prom_pntr = 15 })
read-ReadResult_example = read-ReadResult 2 memory two_bytes two_bytes-IsValid read-two_bytes

pending-two_bytes : pending after_two_bytes ≡ (some 0x20, some 0x12) ∷ (some 0x21, some 0x34) ∷ []
unfolding saved
pending-two_bytes = refl

read_record_example :
    (r' : Reader) × Hands 1 r' ((some 0x20, some 0x12) ∷ (some 0x21, some 0x34) ∷ []) two_bytes
    × (pending r' ≡ [])
    × Kept (past two_bytes []) r'
read_record_example =
    read_record 0 two_bytes 0x20 (0x12 ∷ 0x34 ∷ []) two_bytes-IsValid refl refl two_bytes_record

skip_to_data_stuck_example : skip_to_data 7 (fresh none) ≡ none
skip_to_data_stuck_example = skip_to_data_stuck 7 (fresh none) refl
