-- ===== src/Xvc/Shift.antt =====
-- The loop that shifts the bits of a request through the JTAG registers.
use evr_card_g.Base.{
  ℕ, zero, suc, ◌+◌, ◌-◌, ◌*◌, ◌/◌, ◌%◌, Option, none, some, List, [], ◌∷◌, ◌++◌, take, drop, ◌==◌,
  leb, if◌then◌else◌,
}
use evr_card_g.Bus.{Bus}

-- The registers of `jtag_t`, at `TprReg::debug`.
abbrev pub jtag_base : ℕ
jtag_base = 0x30000

abbrev pub length_offset : ℕ
length_offset = jtag_base

abbrev pub tms_offset : ℕ
tms_offset = jtag_base + 4

abbrev pub tdi_offset : ℕ
tdi_offset = jtag_base + 8

abbrev pub tdo_offset : ℕ
tdo_offset = jtag_base + 12

abbrev pub ctrl_offset : ℕ
ctrl_offset = jtag_base + 16

-- An `int` in memory: its lowest byte first.
abbrev pub int_of : List ℕ → ℕ
int_of [] = 0
int_of (b ∷ bs) = b + 256 * int_of bs

abbrev pub bytes_of_int : ℕ → ℕ → List ℕ
bytes_of_int zero w = []
bytes_of_int (suc n) w = w % 256 ∷ bytes_of_int n (w / 256)

module _ {C : Type 0} (bus : Bus C) where
  -- `while (ptr->ctrl_offset)`, one round of fuel for each poll.
  unfoldable pub wait_ctrl : ℕ → C → Option C
  wait_ctrl zero c = none
  wait_ctrl (suc n) c =
      let (v, c1) = bus.load ctrl_offset c in
      let rest = wait_ctrl n c1 in if v == 0 then some c1 else rest

  -- One shift of `bits` bits: what came out.
  unfoldable pub shift_word : ℕ → ℕ → ℕ → ℕ → C → Option (ℕ × C)
  shift_word polls bits tms tdi c =
      let c1 = bus.store length_offset bits c in
      let c2 = bus.store tdi_offset tdi (bus.store tms_offset tms c1) in
      elim (wait_ctrl polls (bus.store ctrl_offset 1 c2)) [
        | none ↦ none
        | some c3 ↦ some (bus.load tdo_offset c3)
      ]

-- The loop on `bytes_left` bytes, with the shift of a word as `shift`. `bits_left` is read in the
-- last round only, where it is not negative; `result` has the bytes that were stored.
unfoldable pub shift_loop :
    {C : Type 0}
    → (ℕ → ℕ → ℕ → C → Option (ℕ × C))
    → ℕ
    → List ℕ
    → ℕ
    → ℕ
    → ℕ
    → ℕ
    → List ℕ
    → C
    → Option (List ℕ × C)
shift_loop shift nr_bytes buffer zero bytes_left bits_left at result c = none
shift_loop shift nr_bytes buffer (suc n) bytes_left bits_left at result c =
    let k = if leb 4 bytes_left then 4 else bytes_left in
    let tms = int_of (take k (drop at buffer)) in
    let tdi = int_of (take k (drop (at + nr_bytes) buffer)) in
    if bytes_left == 0
    then some (result, c)
    else if leb 4 bytes_left
    then elim (shift 32 tms tdi c) [
      | none ↦ none
      | some (tdo, c1) ↦
          shift_loop shift nr_bytes buffer n (bytes_left - 4) (bits_left - 32) (at + 4)
            (result ++ bytes_of_int 4 tdo) c1
    ]
    else elim (shift bits_left tms tdi c) [
      | none ↦ none
      | some (tdo, c1) ↦ some (result ++ bytes_of_int bytes_left tdo, c1)
    ]
