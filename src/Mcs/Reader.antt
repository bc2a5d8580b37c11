-- ===== src/Mcs/Reader.antt =====
-- class McsRead: its state, `open`, `beg`, and `next`, which takes one record of the file.
use evr_card_g.Base.{
  ℕ, zero, suc, ◌+◌, ◌-◌, ◌*◌, ◌%◌, ◌^◌, bit_or, Bool, true, false, not, List, [], Option, none,
  some, ltb, ◌==◌, if◌then◌else◌, get_elem?, set, replicate, ℤ, pos, negsuc,
}
use evr_card_g.Base.Outcome.{Outcome, ok, out_of_range, ◌>>=◌, value}
use evr_card_g.Mcs.Stream.{Stream, getline, rewind}
use evr_card_g.Mcs.Hex.{scan_hex}

-- `none` stands for a variable or an array element that was never written.
pub record Reader : Type 0 where
  pub file : Stream
  pub prom_pntr : ℕ
  pub prom_base_addr : ℕ
  pub prom_last_addr : Option ℕ
  pub prom_data : List (Option ℕ)
  pub prom_addr : List (Option ℕ)
  pub end_of_file : Bool

abbrev pub unset : List (Option ℕ)
unset = replicate 16 none

abbrev pub stream : Option (List ℕ) → Stream
stream none = record { is_open = false; contents = []; rest = []; good = false }
stream (some bytes) = record { is_open = true; contents = bytes; rest = bytes; good = true }

abbrev pub fresh : Option (List ℕ) → Reader
fresh f = record {
  file = stream f;
  prom_pntr = 16;
  prom_base_addr = 0;
  prom_last_addr = none;
  prom_data = unset;
  prom_addr = unset;
  end_of_file = false;
}

-- `open` on a new object; the argument is the file's bytes, or `none` if it cannot be opened.
unfoldable pub open_path : Option (List ℕ) → Bool × Reader
open_path f = ((fresh f).file.is_open, fresh f)

unfoldable pub beg : Reader → Reader
unfolding rewind
beg r = record r { file = rewind r.file; prom_pntr = 16; prom_base_addr = 0; end_of_file = false }

-- `line.at(i)`
unfoldable pub at : List ℕ → ℕ → Outcome ℕ
at line i = elim (get_elem? line i) [ some c ↦ ok c | none ↦ out_of_range ]

-- The two characters at `i` and `i + 1` through `sscanf`, into a variable that holds `old`.
unfoldable pub field : List ℕ → ℕ → Option ℕ → Outcome ℕ
unfolding at
field line i old = do
  c ← at line i
  d ← at line (i + 1)
  elim (scan_hex c d) [ some v ↦ ok v | none ↦ value old ]

-- `summing += (char) v`
abbrev pub add_char : ℕ → ℕ → ℕ
add_char s v = (s + v) % 256

abbrev pub data_at : List (Option ℕ) → ℕ → Option ℕ
data_at d i = elim (get_elem? d i) [ some v ↦ v | none ↦ none ]

-- What the fields before the switch leave in the local variables.
pub record Header : Type 0 where
  pub byte_cnt : ℕ
  pub addr : ℕ
  pub record_type : ℕ
  pub check_sum : ℕ
  pub summing : ℕ
  pub bytes : List (Option ℕ)

-- Byte count, address, record type, and the check sum behind the data; the index of the check
-- sum is computed in 32 bits.
unfoldable pub header : List ℕ → Outcome Header
unfolding field
header line = do
  count ← field line 1 none
  high ← field line 3 none
  low ← field line 5 none
  kind ← field line 7 none
  check ← field line ((9 + 2 * count) % 2 ^ 32) (some high)
  ok (record {
    byte_cnt = count;
    addr = bit_or (high * 256 % 2 ^ 32) low;
    record_type = kind;
    check_sum = (256 - check % 256) % 256;
    summing = add_char (add_char (add_char (add_char 0 count) high) low) kind;
    bytes = set (set unset 0 (some check)) 1 (some low);
  })

-- The loop that collects the data: `n` rounds are left, at index `i`.
unfoldable pub collect : List ℕ → ℕ → ℕ → List (Option ℕ) → ℕ → Outcome (List (Option ℕ) × ℕ)
unfolding field
collect line zero i bytes sum = ok (bytes, sum)
collect line (suc n) i bytes sum = do
  v ← field line (9 + i * 2) (data_at bytes i)
  collect line n (i + 1) (set bytes i (some v)) (add_char sum v)

-- One round of the loop that saves data and addresses.
abbrev pub save_one : ℕ → ℕ → ℕ → Reader → Reader
save_one i addr v r =
    let a = bit_or (bit_or r.prom_base_addr addr) i in
    record r {
      prom_data = set r.prom_data (i + r.prom_pntr) (some v);
      prom_addr = set r.prom_addr (i + r.prom_pntr) (some a);
      prom_last_addr = some a;
    }

-- The loop that saves data and addresses: `n` rounds are left, at index `i`.
unfoldable pub save : ℕ → ℕ → ℕ → List (Option ℕ) → Reader → Outcome Reader
save zero i addr bytes r = ok r
save (suc n) i addr bytes r = do
  v ← value (data_at bytes i)
  save n (i + 1) addr bytes (save_one i addr v r)

abbrev pub failed : Reader → Outcome (ℤ × Reader)
failed r = ok (negsuc 0, r)

-- case 0, behind the collection: the check, and the arrays.
unfoldable pub store_data : Header → Reader → List (Option ℕ) × ℕ → Outcome (ℤ × Reader)
store_data h r (bytes, sum) = if not (sum == h.check_sum) then failed r else do
  r' ← save h.byte_cnt 0 h.addr bytes (record r { prom_pntr = 16 - h.byte_cnt })
  ok (pos 0, r')

-- case 0
unfoldable pub data_record : List ℕ → Header → Reader → Outcome (ℤ × Reader)
data_record line h r =
    if h.byte_cnt == 0
    then failed r
    else do collected ← collect line h.byte_cnt 0 h.bytes h.summing; store_data h r collected

-- case 1
unfoldable pub end_record : Header → Reader → Outcome (ℤ × Reader)
end_record h r =
    if not (h.summing == h.check_sum) then failed r else ok (pos 1, record r { end_of_file = true })

-- The upper half of the addresses to come, from the first two data bytes.
unfoldable pub base_of : List (Option ℕ) → Outcome ℕ
base_of bytes = do
  high ← value (data_at bytes 0)
  low ← value (data_at bytes 1)
  ok (bit_or (high * 256 % 2 ^ 32) low * 2 ^ 16 % 2 ^ 32)

-- case 4, behind the collection: the check, and the new base address.
unfoldable pub store_base : Header → Reader → List (Option ℕ) × ℕ → Outcome (ℤ × Reader)
store_base h r (bytes, sum) =
    if not (sum == h.check_sum)
    then failed r
    else do base ← base_of bytes; ok (pos 4, record r { prom_base_addr = base })

-- case 4
unfoldable pub base_record : List ℕ → Header → Reader → Outcome (ℤ × Reader)
base_record line h r =
    if not (h.byte_cnt == 2)
    then failed r
    else if not (h.addr == 0)
    then failed r
    else do collected ← collect line 2 0 h.bytes h.summing; store_base h r collected

unfoldable pub dispatch : List ℕ → Header → Reader → Outcome (ℤ × Reader)
dispatch line h r =
    if ltb 16 h.byte_cnt
    then failed r
    else if h.record_type == 0
    then data_record line h r
    else if h.record_type == 1
    then end_record h r
    else if h.record_type == 4
    then base_record line h r
    else failed r

unfoldable pub parse_line : List ℕ → Reader → Outcome (ℤ × Reader)
parse_line line r = do
  c ← at line 0
  if not (c == b':') then failed r else do h ← header line; dispatch line h r

unfoldable pub next : Reader → Outcome (ℤ × Reader)
next r =
    if not r.file.good
    then failed r
    else let (line, file) = getline r.file in parse_line line (record r { file = file })
