-- ===== src/Mcs/RoundTrip.antt =====
-- `next` on one well-formed record of each kind.
use evr_card_g.Base.{
  ℕ, ◌+◌, ◌-◌, ◌*◌, ◌%◌, ◌^◌, ◌≤◌, ◌<◌, Bool, true, false, List, [], ◌∷◌, ◌++◌, some, ◌≡◌, refl,
  arith, length, ltb, ◌==◌, if◌then◌else◌, ap, ◌∙◌, set, bit_or, pos, negsuc,
}
use native.Mathlib.Nat.{mod-eq_of_lt}
use evr_card_g.Base.Bits.{bit_or_sum}
use evr_card_g.Base.Outcome.{ok}
use evr_card_g.Mcs.Stream.{Stream, getline, take_line}
use evr_card_g.Mcs.Reader.{
  Reader, Header, unset, at, header, store_data, data_record, end_record, base_record, store_base,
  base_of, dispatch, parse_line, next,
}
use evr_card_g.Mcs.Encode.{encode, AllBytes, fields, record_line, take_line-record_line}
use evr_card_g.Mcs.Accept.{
  total, header-fields, header_sum, write_bytes, add_bytes, collect-encode, Segment-fields,
  Reads-write_bytes, saved, save-saved, check_iff,
}

-- The next line of the file is this one, and it ends with a newline.
abbrev pub StandsAt : Reader → List ℕ → List ℕ → Type 0
StandsAt r line rest = (r.file.good ≡ true) × (r.file.rest ≡ line ++ b'\n' ∷ rest)

abbrev pub past : Reader → List ℕ → Reader
past r rest = record r { file = record r.file { rest = rest; good = true } }

abbrev header_of : ℕ → ℕ → List ℕ → ℕ → Header
header_of addr kind bytes check = record {
  byte_cnt = length bytes;
  addr = addr;
  record_type = kind;
  check_sum = (256 - check % 256) % 256;
  summing = header_sum addr kind bytes;
  bytes = set (set unset 0 (some check)) 1 (some (addr % 256));
}

test_gt : (n m : ℕ) → n ≤ m → ltb m n ≡ false
test_gt n m h = ground arith

test_ne_zero : (n : ℕ) → 0 < n → (n == 0) ≡ false
test_ne_zero n h = ground arith

next_of_good :
    (r : Reader)
    → r.file.good ≡ true
    → next r ≡ parse_line (getline r.file).0 (record r { file = (getline r.file).1 })
unfolding next getline
next_of_good r good = ground arith

getline_of_StandsAt :
    (r : Reader) (line rest : List ℕ)
    → StandsAt r line rest
    → take_line (line ++ b'\n' ∷ rest) ≡ (line, rest, true)
    → getline r.file ≡ (line, record r.file { rest = rest; good = true })
unfolding getline
getline_of_StandsAt r line rest (good, here) t =
    ap (λ (p : List ℕ × List ℕ × Bool). (p.0, record r.file { rest = p.1; good = p.2 }))
      (ap take_line here ∙ t)

parse_line-colon :
    (cs : List ℕ) (r : Reader) (h : Header)
    → header (b':' ∷ cs) ≡ ok h
    → parse_line (b':' ∷ cs) r ≡ dispatch (b':' ∷ cs) h r
unfolding parse_line at
parse_line-colon cs r h e = rw e

next-dispatch :
    (r : Reader) (addr kind : ℕ) (bytes : List ℕ) (check : ℕ) (rest : List ℕ)
    → StandsAt r (record_line addr kind bytes check) rest
    → AllBytes (fields addr kind bytes check)
    → length bytes ≤ 16
    → next r
      ≡ dispatch (record_line addr kind bytes check) (header_of addr kind bytes check) (past r rest)
next-dispatch r addr kind bytes check rest here a h =
    let line = record_line addr kind bytes check in
    let got =
      getline_of_StandsAt r line rest here (take_line-record_line addr kind bytes check rest) in
    next_of_good r here.0
    ∙ ap (λ (p : List ℕ × Stream). parse_line p.0 (record r { file = p.1 })) got
    ∙ parse_line-colon (encode (fields addr kind bytes check)) (past r rest)
        (header_of addr kind bytes check) (header-fields addr kind bytes check a h)

store_data-saved :
    (addr : ℕ) (bytes : List ℕ) (check : ℕ) (r : Reader)
    → length bytes ≤ 16
    → store_data (header_of addr 0 bytes check) r (
      write_bytes (header_of addr 0 bytes check).bytes 0 bytes,
      add_bytes (header_sum addr 0 bytes) bytes,
    )
      ≡ ok (
          if total (fields addr 0 bytes check) % 256 == 0
          then (pos 0, saved 0 addr bytes (record r { prom_pntr = 16 - length bytes }))
          else (negsuc 0, r))
unfolding store_data
store_data-saved addr bytes check r k = ground (
  arith,
  check_iff addr 0 bytes check,
  save-saved (write_bytes (header_of addr 0 bytes check).bytes 0 bytes) 0 addr bytes
      (record r { prom_pntr = 16 - length bytes })
      (Reads-write_bytes (header_of addr 0 bytes check).bytes 0 bytes (omega arith)),
)

-- A data record of 1 to 16 bytes is taken exactly when its bytes add up to 0 modulo 256: then the
-- data and their addresses are saved at the end of the arrays. Else the status is -1, and only the
-- position in the file has changed.
pub next-data :
    (r : Reader) (addr : ℕ) (bytes : List ℕ) (check : ℕ) (rest : List ℕ)
    → StandsAt r (record_line addr 0 bytes check) rest
    → AllBytes (fields addr 0 bytes check)
    → 0 < length bytes
    → length bytes ≤ 16
    → next r
      ≡ ok (
          if total (fields addr 0 bytes check) % 256 == 0
          then (pos 0, saved 0 addr bytes (record (past r rest) { prom_pntr = 16 - length bytes }))
          else (negsuc 0, past r rest))
unfolding dispatch data_record
next-data r addr bytes check rest here a h k =
    let xs = fields addr 0 bytes check in
    next-dispatch r addr 0 bytes check rest here a k
    ∙ rw
        (
          test_gt (length bytes) 16 k,
          test_ne_zero (length bytes) h,
          collect-encode xs bytes 4 0 (header_of addr 0 bytes check).bytes (header_sum addr 0 bytes)
              a (Segment-fields addr 0 bytes check) refl,
        )
        (store_data-saved addr bytes check (past r rest) k)

-- An end record with no data is taken exactly when its bytes add up to 0 modulo 256: then the
-- end of the file is noted. Else the status is -1, and only the position in the file has changed.
pub next-end :
    (r : Reader) (addr check : ℕ) (rest : List ℕ)
    → StandsAt r (record_line addr 1 [] check) rest
    → AllBytes (fields addr 1 [] check)
    → next r
      ≡ ok (
          if total (fields addr 1 [] check) % 256 == 0
          then (pos 1, record (past r rest) { end_of_file = true })
          else (negsuc 0, past r rest))
unfolding dispatch end_record add_bytes
next-end r addr check rest here a =
    next-dispatch r addr 1 [] check rest here a (omega arith)
    ∙ ground (arith, check_iff addr 1 [] check)

store_base-base :
    (hi lo check : ℕ) (r : Reader)
    → hi < 256
    → lo < 256
    → store_base (header_of 0 4 (hi ∷ lo ∷ []) check) r (
      write_bytes (header_of 0 4 (hi ∷ lo ∷ []) check).bytes 0 (hi ∷ lo ∷ []),
      add_bytes (header_sum 0 4 (hi ∷ lo ∷ [])) (hi ∷ lo ∷ []),
    )
      ≡ ok (
          if total (fields 0 4 (hi ∷ lo ∷ []) check) % 256 == 0
          then (pos 4, record r { prom_base_addr = (hi * 256 + lo) * 2 ^ 16 })
          else (negsuc 0, r))
unfolding store_base write_bytes base_of
store_base-base hi lo check r h l =
    let base : bit_or (hi * 256 % 2 ^ 32) lo * 2 ^ 16 % 2 ^ 32 ≡ (hi * 256 + lo) * 2 ^ 16 =
      rw (mod-eq_of_lt {n = hi * 256} {m = 2 ^ 32} (omega arith), bit_or_sum 8 hi lo (omega arith))
        (omega arith) in
    ground (arith, check_iff 0 4 (hi ∷ lo ∷ []) check, base)

-- An extended linear address record with address 0 is taken exactly when its bytes add up to 0
-- modulo 256: then its two data bytes are the upper half of the addresses to come. Else the
-- status is -1, and only the position in the file has changed.
pub next-base :
    (r : Reader) (hi lo check : ℕ) (rest : List ℕ)
    → StandsAt r (record_line 0 4 (hi ∷ lo ∷ []) check) rest
    → AllBytes (fields 0 4 (hi ∷ lo ∷ []) check)
    → next r
      ≡ ok (
          if total (fields 0 4 (hi ∷ lo ∷ []) check) % 256 == 0
          then (pos 4, record (past r rest) { prom_base_addr = (hi * 256 + lo) * 2 ^ 16 })
          else (negsuc 0, past r rest))
unfolding dispatch base_record
next-base r hi lo check rest here a =
    let bytes = hi ∷ lo ∷ [] in
    let xs = fields 0 4 bytes check in
    next-dispatch r 0 4 bytes check rest here a (omega arith)
    ∙ rw
        (collect-encode xs bytes 4 0 (header_of 0 4 bytes check).bytes (header_sum 0 4 bytes) a
          (Segment-fields 0 4 bytes check) refl)
        (store_base-base hi lo check (past r rest) a.1.1.1.1.0 a.1.1.1.1.1.0)
