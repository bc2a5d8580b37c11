-- ===== src/Regs/Blocks.antt =====
-- The other register blocks of tpr.hh: crossbar, control word, clock manager, DMA control,
-- channels and triggers, ring buffers and the small pattern generator.
use evr_card_g.Base.{ℕ, ◌+◌, ◌*◌, ◌%◌, ◌^◌, bit_and, bit_or, Bool, ◌==◌, if◌then◌else◌}
use evr_card_g.Bus.{Bus}
use evr_card_g.Regs.Word.{put_bit, set_bit, clear_bit}

-- The blocks' offsets in `TprReg`.
abbrev pub xbar_base : ℕ
xbar_base = 0x40000

abbrev pub csr_base : ℕ
csr_base = 0x60000

abbrev pub dma_base : ℕ
dma_base = 0x60400

abbrev pub refclk_base : ℕ
refclk_base = 0x78000

abbrev pub base_base : ℕ
base_base = 0x80000

abbrev pub trigger_base : ℕ
trigger_base = 0xA0000

abbrev pub tpg_base : ℕ
tpg_base = 0xF0000

-- XBar's modes.
pub data InMode : Type 0 where
  straight_in loop_in : InMode

pub data OutMode : Type 0 where
  straight_out loop_out : OutMode

-- TprBase's rates and codes, and the numbers that the enumerations give them.
pub data FixedRate : Type 0 where
  rate_1m rate_71k rate_10k rate_1k rate_100h rate_10h rate_1h : FixedRate

pub data AcRate : Type 0 where
  rate_60ha rate_30ha rate_10ha rate_5ha rate_1ha rate_0_5ha : AcRate

pub data EventCode : Type 0 where
  code_0 code_1 : EventCode

abbrev pub fixed_rate : FixedRate → ℕ
fixed_rate rate_1m = 0
fixed_rate rate_71k = 1
fixed_rate rate_10k = 2
fixed_rate rate_1k = 3
fixed_rate rate_100h = 4
fixed_rate rate_10h = 5
fixed_rate rate_1h = 6

abbrev pub ac_rate : AcRate → ℕ
ac_rate rate_60ha = 0
ac_rate rate_30ha = 1
ac_rate rate_10ha = 2
ac_rate rate_5ha = 3
ac_rate rate_1ha = 4
ac_rate rate_0_5ha = 5

abbrev pub event_code : EventCode → ℕ
event_code code_0 = 0
event_code code_1 = 1

-- Word `k` of a block.
abbrev pub word_at : ℕ → ℕ → ℕ
word_at base k = base + 4 * k

-- Word `k` of channel `i`: `control`, `evtSel`, `evtCount`, `bsaDelay`, `bsaWidth`.
abbrev pub channel : ℕ → ℕ → ℕ
channel i k = word_at (base_base + 0x1000 * i) k

-- Word `k` of trigger `i`: `control`, `delay`, `width`, `delayTap`.
abbrev pub trigger : ℕ → ℕ → ℕ
trigger i k = word_at (trigger_base + 0x1000 * i) k

-- What a 32-bit word keeps of a value.
abbrev pub u32 : ℕ → ℕ
u32 v = v % 2 ^ 32

in_source : ℕ → ℕ → InMode → ℕ
in_source a b straight_in = a
in_source a b loop_in = b

out_source : ℕ → ℕ → OutMode → ℕ
out_source a b straight_out = a
out_source a b loop_out = b

-- The bits above the rate in `evtSel`, for each kind of selection.
unfoldable pub fixed_select : ℕ → ℕ
fixed_select rate = bit_or (2 ^ 30) rate

unfoldable pub ac_select : ℕ → ℕ → ℕ
ac_select rate slots =
    bit_or (bit_or (bit_or (2 ^ 30) (2 ^ 11)) (bit_and slots 0x7FE * 4)) (bit_and rate 7)

unfoldable pub code_select : ℕ → ℕ
code_select code = bit_or (bit_or (2 ^ 30) (2 * 2 ^ 11)) (bit_and code 0xFF)

unfoldable pub daq_select : ℕ → ℕ
daq_select partition = bit_or (bit_or (2 ^ 30) (3 * 2 ^ 14)) partition

-- `(bsaPresample<<20) | bsaDelay`
unfoldable pub bsa_delay_word : ℕ → ℕ → ℕ
bsa_delay_word presample delay = bit_or (u32 (presample * 2 ^ 20)) delay

-- `(source&0xffff) | (polarity ? (1<<16):0) | (1<<31)`
unfoldable pub trigger_word : ℕ → Bool → ℕ
trigger_word source polarity =
    bit_or (bit_or (bit_and source 0xFFFF) (if polarity then 2 ^ 16 else 0)) (2 ^ 31)

-- `((v&0x3ff)<<16) | (v1&0x3ff)`
unfoldable pub fifo_word : ℕ → ℕ → ℕ
fifo_word v old = bit_or (bit_and v 0x3FF * 2 ^ 16) (bit_and old 0x3FF)

module _ {C : Type 0} (bus : Bus C) where
  open bus use {store, load, sleep_us}

  unfoldable pub set_evr_in : InMode → C → C
  unfolding in_source
  set_evr_in m = store (word_at xbar_base 2) (in_source 0 2 m)

  unfoldable pub set_evr_out : OutMode → C → C
  unfolding out_source
  set_evr_out m = store (word_at xbar_base 0) (out_source 2 0 m)

  unfoldable pub set_tpr_in : InMode → C → C
  unfolding in_source
  set_tpr_in m = store (word_at xbar_base 3) (in_source 1 3 m)

  unfoldable pub set_tpr_out : OutMode → C → C
  unfolding out_source
  set_tpr_out m = store (word_at xbar_base 1) (out_source 3 1 m)

  unfoldable pub enable_ref_clk : Bool → C → C
  enable_ref_clk enable c =
      let (v, c') = load (word_at csr_base 4) c in
      store (word_at csr_base 4) (put_bit 1 enable v) c'

  unfoldable pub setup_dma : ℕ → C → C
  setup_dma full_thr = store (word_at csr_base 6) full_thr

  unfoldable pub set_empty_thr : ℕ → C → C
  set_empty_thr v c =
      let (old, c') = load (word_at dma_base 65) c in
      store (word_at dma_base 65) (fifo_word v old) c'

  -- `DmaControl::test`: what it loads is printed only.
  unfoldable pub dma_test : C → C
  dma_test c =
      let c₁ = (load (word_at dma_base 64) c).1 in
      let c₂ = (load (word_at dma_base 64) (store (word_at dma_base 64) 0x80001000 c₁)).1 in
      let c₃ = store (word_at dma_base 0) 0xDEADBEEF (load (word_at dma_base 16) c₂).1 in
      (load (word_at dma_base 67) (load (word_at dma_base 16) c₃).1).1

  unfoldable pub setup_daq : ℕ → ℕ → C → C
  setup_daq i partition c = store (channel i 0) 5 (store (channel i 1) (daq_select partition) c)

  -- The three forms of `setupChannel`, which differ in the selection.
  unfoldable pub setup_channel : ℕ → ℕ → ℕ → ℕ → ℕ → C → C
  setup_channel i select presample delay width c =
      store (channel i 0) (if width == 0 then 5 else 7) (
        store (channel i 4) width (
          store (channel i 3) (bsa_delay_word presample delay)
            (store (channel i 1) select (store (channel i 0) 0 c))))

  unfoldable pub setup_channel_fixed : ℕ → FixedRate → ℕ → ℕ → ℕ → C → C
  unfolding setup_channel
  setup_channel_fixed i rate = setup_channel i (fixed_select (fixed_rate rate))

  unfoldable pub setup_channel_ac : ℕ → AcRate → ℕ → ℕ → ℕ → ℕ → C → C
  unfolding setup_channel
  setup_channel_ac i rate slots = setup_channel i (ac_select (ac_rate rate) slots)

  unfoldable pub setup_channel_code : ℕ → EventCode → ℕ → ℕ → ℕ → C → C
  unfolding setup_channel
  setup_channel_code i code = setup_channel i (code_select (event_code code))

  unfoldable pub setup_trigger : ℕ → ℕ → Bool → ℕ → ℕ → ℕ → C → C
  setup_trigger i source polarity delay width delay_tap c =
      let off = sleep_us 1 (store (trigger i 0) (if polarity then 2 ^ 16 else 0) c) in
      store (trigger i 3) delay_tap (
        store (trigger i 0) (trigger_word source polarity)
          (store (trigger i 2) width (store (trigger i 1) delay off)))

  -- A ring buffer, by its offset.
  unfoldable pub ring_enable : ℕ → Bool → C → C
  ring_enable ring l c = let (v, c') = load ring c in store ring (put_bit 31 l v) c'

  unfoldable pub ring_clear : ℕ → C → C
  ring_clear ring c =
      let (v, c') = load ring c in
      store ring (clear_bit 30 v) (sleep_us 10 (store ring (set_bit 30 v) c'))

  unfoldable pub set_bsa : ℕ → ℕ → ℕ → C → C
  set_bsa rate ntoavg navg c =
      store (word_at tpg_base 129) (bit_or (u32 (navg * 2 ^ 16)) (bit_and ntoavg 0xFFFF))
        (store (word_at tpg_base 128) (bit_or (2 ^ 31) (bit_and rate 0xFFFF)) c)
