-- ===== src/Mcs/Read.antt =====
-- class McsRead: `read`, and the scans for the address range.
use evr_card_g.Base.{
  ℕ, zero, suc, ◌+◌, ◌-◌, ◌%◌, ◌^◌, Bool, true, false, Option, none, some, ◌==◌, if◌then◌else◌, ℤ,
  pos, negsuc,
}
use evr_card_g.Base.Outcome.{Outcome, ok, out_of_range, undefined, ◌>>=◌, value}
use evr_card_g.Mcs.Reader.{Reader, next, beg, data_at}

-- struct McsReadData
pub record ReadData : Type 0 where
  pub address : Option ℕ
  pub byte : Option ℕ
  pub end_of_file : Bool

-- How the loop of `read` ends: with a data record, or by a return of a status.
pub data Filled : Type 0 where
  filled : Reader → Filled
  returns : ℤ → Reader → Filled

-- One round of the loop, after `next` if it was called: leave it, or go round again.
unfoldable pub round : ℤ → Reader → Option Filled
round (negsuc n) r = some (returns (negsuc n) r)
round (pos zero) r = some (if r.end_of_file then returns (pos 0) r else filled r)
round (pos (suc n)) r = if r.end_of_file then some (returns (pos (suc n)) r) else none

-- One round of a loop over `next`: a fault ends it, `leave` may, and else `again` goes on.
unfoldable pub go_on :
    {A : Type 0}
    → (ℤ → Reader → Option A)
    → (ℤ → Reader → Option (Outcome A))
    → Outcome (ℤ × Reader)
    → Option (Outcome A)
go_on leave again out_of_range = some out_of_range
go_on leave again undefined = some undefined
go_on leave again (ok (status, r)) = elim (leave status r) [
  | some a ↦ some (ok a)
  | none ↦ again status r
]

-- `next`, if the end of the file was not met.
unfoldable pub turn : ℤ → Reader → Outcome (ℤ × Reader)
turn status r = if r.end_of_file then ok (status, r) else next r

-- The loop of `read`, which keeps `status` from round to round; `none` is out of fuel.
unfoldable pub fill : ℕ → ℤ → Reader → Option (Outcome Filled)
fill zero status r = none
fill (suc fuel) status r = go_on round (fill fuel) (turn status r)

-- Behind the loop: the byte under the pointer. An index past the array is no read of it.
unfoldable pub deliver : Reader → Outcome (ℤ × ReadData × Reader)
deliver r = do
  a ← value (data_at r.prom_addr r.prom_pntr)
  v ← value (data_at r.prom_data r.prom_pntr)
  ok (
    pos 0,
    record { address = some a; byte = some v; end_of_file = false },
    record r { prom_pntr = r.prom_pntr + 1 },
  )

unfoldable pub finish : ReadData → Filled → Outcome (ℤ × ReadData × Reader)
finish mem (filled r) = deliver r
finish mem (returns status r) =
    ok (status, (if r.end_of_file then record mem { end_of_file = true } else mem), r)

unfoldable pub after_fill :
    ReadData → Option (Outcome Filled) → Option (Outcome (ℤ × ReadData × Reader))
after_fill mem none = none
after_fill mem (some o) = some (o >>= finish mem)

unfoldable pub read : ℕ → ReadData → Reader → Option (Outcome (ℤ × ReadData × Reader))
read fuel mem r =
    if r.prom_pntr == 16 then after_fill mem (fill fuel (pos 0) r) else some (deliver r)

is_zero : ℤ → Bool
is_zero (pos zero) = true
is_zero _ = false

unfoldable pub leave_at_data : ℤ → Reader → Option Reader
unfolding is_zero
leave_at_data status r = if is_zero status then some r else none

-- `while ((status = next()) != 0);`
unfoldable pub skip_to_data : ℕ → Reader → Option (Outcome Reader)
skip_to_data zero r = none
skip_to_data (suc fuel) r = go_on leave_at_data (λ _. skip_to_data fuel) (next r)

unfoldable pub start_addr : ℕ → Reader → Option (Outcome (ℕ × Reader))
unfolding beg
start_addr fuel r = elim (skip_to_data fuel (beg r)) [
  | none ↦ none
  | some o ↦ some do r' ← o; a ← value (data_at r'.prom_addr 0); ok (a, beg r')
]

unfoldable pub leave_at_end : ℤ → Reader → Option Reader
leave_at_end status r = if r.end_of_file then some r else none

-- The loop of `endAddr`.
unfoldable pub skip_to_end : ℕ → Reader → Option (Outcome Reader)
skip_to_end zero r = none
skip_to_end (suc fuel) r = go_on leave_at_end (λ _. skip_to_end fuel) (turn (pos 0) r)

unfoldable pub end_addr : ℕ → Reader → Option (Outcome (ℕ × Reader))
end_addr fuel r = elim (skip_to_end fuel r) [
  | none ↦ none
  | some o ↦ some do r' ← o; a ← value r'.prom_last_addr; ok (a, r')
]

-- `endAddr() - startAddr()` in 32 bits, the operands from left to right.
unfoldable pub addr_size : ℕ → Reader → Option (Outcome (ℕ × Reader))
addr_size fuel r = elim (end_addr fuel r) [
  | none ↦ none
  | some out_of_range ↦ some out_of_range
  | some undefined ↦ some undefined
  | some (ok (last, r')) ↦ elim (start_addr fuel r') [
    | none ↦ none
    | some o ↦ some do (first, r'') ← o; ok ((last + 2 ^ 32 - first) % 2 ^ 32, r'')
  ]
]
