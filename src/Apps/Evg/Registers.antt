-- ===== src/Apps/Evg/Registers.antt =====
-- software/app/evgasync.hh: the registers of the event generator, its Control and its RingBuffer.
use evr_card_g.Base.{
  ℕ, ◌+◌, ◌-◌, ◌*◌, ◌/◌, ◌%◌, ◌^◌, Bool, true, false, [], ◌∷◌, min, bit_and, leb, if◌then◌else◌,
}
use evr_card_g.Base.Outcome.{Outcome, ok, undefined}
use evr_card_g.Bus.{Bus}
use evr_card_g.Regs.Word.{put_bit}
use evr_card_g.Regs.Layout.{Struct, size, bytes_of, axi_version, xbar}
use evr_card_g.Regs.Blocks.{word_at}
use evr_card_g.Apps.Dumps.{each, loads}

abbrev pub control : Struct
control =
    ("pllReset", 1)
    ∷ ("phyReset", 1)
    ∷ ("timeStampWr", 2)
    ∷ ("timeStampRd", 2)
    ∷ ("triggerCnt", 1)
    ∷ ("reserved", 1)
    ∷ ("eventCodes", 8)
    ∷ []

abbrev pub ring_buffer : Struct
ring_buffer = ("csr", 1) ∷ []

abbrev pub evg_reg : Struct
evg_reg =
    ("reserved_0", 0x10000 / 4)
    ∷ ("version", size axi_version)
    ∷ ("reserved_40000", (0x30000 - bytes_of axi_version) / 4)
    ∷ ("xbar", size xbar)
    ∷ ("reserved_60000", (0x20000 - bytes_of xbar) / 4)
    ∷ ("csr", size control)
    ∷ ("ring", size ring_buffer)
    ∷ []

abbrev pub control_base : ℕ
control_base = 0x60000

-- Where the struct puts `ring`, right behind `csr`.
abbrev pub ring_base : ℕ
ring_base = 0x60040

-- Word `k` of Control: pllReset, phyReset, timeStampWr from 2, timeStampRd from 4, triggerCnt,
-- a reserved word, and eventCodes from 8.
abbrev pub control_word : ℕ → ℕ
control_word = word_at control_base

module _ {C : Type 0} (bus : Bus C) where
  open bus use {store, load, sleep_us}

  unfoldable pub reset_pll : C → C
  reset_pll c = store (control_word 0) 0 (sleep_us 1000 (store (control_word 0) 1 c))

  unfoldable pub reset_phy : C → C
  reset_phy c = store (control_word 1) 0 (sleep_us 1000 (store (control_word 1) 1 c))

  unfoldable pub update_time : ℕ → C → C
  update_time ts c =
      store (control_word 3) (ts / 2 ^ 32 % 2 ^ 32)
        (store (control_word 2) (bit_and ts (2 ^ 32 - 1)) c)

  unfoldable pub trigger_evg : C → C
  trigger_evg = store (control_word 6) 0

  -- `r <<= 32; r += v`
  unfoldable pub last_time : C → ℕ × C
  last_time c =
      let (v, c₁) = load (control_word 4) c in
      let (r, c₂) = load (control_word 5) c₁ in ((r * 2 ^ 32 + v) % 2 ^ 64, c₂)

  -- `RingBuffer::_setbit`
  unfoldable pub set_ring_bit : ℕ → Bool → C → C
  set_ring_bit b v c = let (r, c') = load ring_base c in store ring_base (put_bit b v r) c'

  unfoldable pub evg_ring_enable : Bool → C → C
  unfolding set_ring_bit
  evg_ring_enable = set_ring_bit 31

  unfoldable pub evg_ring_clear : C → C
  unfolding set_ring_bit
  evg_ring_clear c = set_ring_bit 30 false (set_ring_bit 30 true c)

  -- `RingBuffer::dump`: the words that it loads and prints. A width of 31 or more shifts `1`, or
  -- takes one from it, out of the range of an `int`.
  unfoldable pub evg_ring_dump : C → Outcome C
  evg_ring_dump c =
      let (csr, c₁) = load ring_base c in
      let width = csr / 2 ^ 20 % 2 ^ 8 in
      let words = min (bit_and csr (2 ^ width - 1)) 0x3FF in
      if leb 31 width then undefined else ok (loads bus (each words 1 (word_at ring_base)) c₁)

  unfoldable pub clear_and_dump : C → Outcome C
  unfolding evg_ring_enable evg_ring_clear evg_ring_dump
  clear_and_dump c = evg_ring_dump (
      evg_ring_enable false
        (sleep_us 100 (evg_ring_enable true (evg_ring_clear (evg_ring_enable false c)))))
