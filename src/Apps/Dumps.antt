-- ===== src/Apps/Dumps.antt =====
-- software/app/tpr.cc: the dump functions, which load registers and print what they loaded. Here
-- they are their loads, in order; what is printed is left out.
use evr_card_g.Base.{ℕ, zero, suc, ◌+◌, ◌*◌, List, [], ◌∷◌, ◌++◌}
use evr_card_g.Bus.{Bus}
use evr_card_g.Regs.Blocks.{
  word_at, xbar_base, csr_base, dma_base, refclk_base, tpg_base, channel, trigger,
}

-- `n` numbers from `i` on, put through a function.
abbrev pub each : ℕ → ℕ → (ℕ → ℕ) → List ℕ
each zero i f = []
each (suc n) i f = f i ∷ each n (i + 1) f

abbrev pub tpr_base_of_core : ℕ
tpr_base_of_core = 0xC0000

abbrev pub trgmon_base : ℕ
trgmon_base = 0x7E000

-- The registers that a dump loads.
abbrev pub xbar_regs : List ℕ
xbar_regs = each 4 0 (word_at xbar_base)

abbrev pub csr_regs : List ℕ
csr_regs =
    word_at csr_base 0
    ∷ word_at csr_base 1
    ∷ word_at csr_base 2
    ∷ word_at csr_base 3
    ∷ word_at csr_base 5
    ∷ word_at csr_base 6
    ∷ word_at csr_base 7
    ∷ []

abbrev pub clock_manager_regs : List ℕ
clock_manager_regs = each 80 0 (word_at refclk_base)

-- `periodMin` and `periodMax` once each, and then both again for their sum.
abbrev pub trgmon_regs : ℕ → ℕ → List ℕ
trgmon_regs zero i = []
trgmon_regs (suc n) i =
    let low = word_at trgmon_base (2 + 2 * i) in
    let high = word_at trgmon_base (3 + 2 * i) in low ∷ high ∷ low ∷ high ∷ trgmon_regs n (i + 1)

-- `CHAN_REG` and `TRIG_REG` of word `k`.
abbrev pub chan_regs : ℕ → List ℕ
chan_regs k = each 14 0 (λ i. channel i k)

abbrev pub trig_regs : ℕ → List ℕ
trig_regs k = each 12 0 (λ i. trigger i k)

abbrev pub base_regs : List ℕ
base_regs =
    chan_regs 0
    ++ (chan_regs 2
        ++ (chan_regs 5
            ++ (chan_regs 1
                ++ (chan_regs 3
                    ++ (chan_regs 4
                        ++ (trig_regs 0 ++ (trig_regs 1 ++ (trig_regs 2 ++ trig_regs 3))))))))

abbrev pub dma_regs : List ℕ
dma_regs =
    word_at dma_base 16
    ∷ word_at dma_base 64
    ∷ word_at dma_base 65
    ∷ word_at dma_base 65
    ∷ word_at dma_base 66
    ∷ word_at dma_base 67
    ∷ []

abbrev pub core_regs : ℕ → List ℕ
core_regs base =
    each 9 0 (word_at base) ++ (word_at base 10 ∷ word_at base 11 ∷ word_at base 11 ∷ [])

-- `RingB::dump`: 0x1ff words of the data behind the control word.
abbrev pub ring_regs : ℕ → List ℕ
ring_regs ring = each 0x1FF 1 (word_at ring)

abbrev pub tpg_regs : List ℕ
tpg_regs =
    each 6 0 (word_at tpg_base)
    ++ (each 10 6 (word_at tpg_base)
        ++ (each 5 17 (word_at tpg_base)
            ++ (each 2 128 (word_at tpg_base)
                ++ (word_at tpg_base 320
                    ∷ word_at tpg_base 321
                    ∷ word_at tpg_base 323
                    ∷ word_at tpg_base 324
                    ∷ []))))

module _ {C : Type 0} (bus : Bus C) where
  open bus use {load}

  -- The loads of the registers at some offsets.
  unfoldable pub loads : List ℕ → C → C
  loads [] c = c
  loads (o ∷ os) c = loads os (load o c).1

  unfoldable pub xbar_dump : C → C
  unfolding loads
  xbar_dump = loads xbar_regs

  unfoldable pub csr_dump : C → C
  unfolding loads
  csr_dump = loads csr_regs

  unfoldable pub clock_manager_dump : C → C
  unfolding loads
  clock_manager_dump = loads clock_manager_regs

  unfoldable pub trgmon_dump : C → C
  unfolding loads
  trgmon_dump = loads (trgmon_regs 12 0)

  unfoldable pub base_dump : C → C
  unfolding loads
  base_dump = loads base_regs

  unfoldable pub dma_dump : C → C
  unfolding loads
  dma_dump = loads dma_regs

  -- The core's base is an argument, since evrlock has two cores.
  unfoldable pub core_dump : ℕ → C → C
  unfolding loads
  core_dump base = loads (core_regs base)

  unfoldable pub ring_dump : ℕ → C → C
  unfolding loads
  ring_dump ring = loads (ring_regs ring)

  unfoldable pub tpg_dump : C → C
  unfolding loads
  tpg_dump = loads tpg_regs
