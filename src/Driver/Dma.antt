-- ===== src/Driver/Dma.antt =====
-- software/kernel/tpr.c: tpr_handle_dma, the bottom half of the interrupt.
use evr_card_g.Base.{
  ℕ, zero, suc, ◌+◌, ◌%◌, Bool, true, false, Option, none, some, List, [], ◌∷◌, ◌==◌, if◌then◌else◌,
  update,
}
use evr_card_g.Base.Run.{Run, done, ◌>>=◌}
use evr_card_g.Bus.{Bus}
use evr_card_g.Regs.Word.{test_bit, clear_bit}
use evr_card_g.Driver.Device.{Share, RxBuffer, Device, mod_shared, bump}
use evr_card_g.Driver.Messages.{Scan, tag, end_tag, word_at, handle_message}
use evr_card_g.Driver.Registers.{irq_control, rx_free}

-- One round of fuel for each message, and one for the end.
unfoldable pub scan : (ℕ → ℕ) → ℕ → Scan → Run Scan
scan rdtsc zero s = none
scan rdtsc (suc n) s = do
  w ← some (word_at 0 s)
  if tag w == end_tag then done s else (do s1 ← some (handle_message rdtsc w s); scan rdtsc n s1)

-- The list of shares from `h` on, each with its bit set and its readers woken; one round of fuel
-- for each share and one for the end.
unfoldable pub wake_list : ℕ → Option ℕ → (ℕ → Share) → Option (ℕ → Share)
wake_list zero h sh = none
wake_list (suc n) none sh = some sh
wake_list (suc n) (some x) sh =
    let sh1 = update sh x (record (sh x) { pendingirq = true }) in wake_list n (sh1 x).next sh1

-- The channels from `ich` on whose bit is in the mask.
unfoldable pub wake_channels : ℕ → ℕ → ℕ → ℕ → (ℕ → Option ℕ) → (ℕ → Share) → Option (ℕ → Share)
wake_channels fuel zero ich wmask shared sh = some sh
wake_channels fuel (suc n) ich wmask shared sh =
    let woken = if test_bit ich wmask then wake_list fuel (shared ich) sh else some sh in
    elim woken [ none ↦ none | some sh1 ↦ wake_channels fuel n (ich + 1) wmask shared sh1 ]

-- Bit 31 of the first word of a buffer, before it is cleared.
abbrev pub is_done : RxBuffer → Bool
is_done b = elim b.buffer [ [] ↦ false | w ∷ ws ↦ test_bit 31 w ]

abbrev pub clear_first : List ℕ → List ℕ
clear_first [] = []
clear_first (w ∷ ws) = clear_bit 31 w ∷ ws

module _ {C : Type 0} where
  -- A buffer at the start of its scan.
  abbrev pub start_scan : ℕ → ℕ → Device C → Scan
  start_scan wmask ticks d = record {
    words = clear_first (d.rx_buffer d.rx_pend).buffer;
    at = 0;
    queues = d.queues;
    counters = d.counters;
    wmask = wmask;
    ticks = ticks;
  }

  -- `fuel` bounds the lists of shares.
  unfoldable pub wake_apps : ℕ → ℕ → Device C → Option (Device C)
  wake_apps fuel wmask d = elim (wake_channels fuel mod_shared 0 wmask d.shared d.all_shares) [
    | none ↦ none
    | some sh ↦
        let woken = if test_bit (mod_shared + 1) wmask then wake_list fuel d.bsa sh else some sh in
        elim woken [ none ↦ none | some sh1 ↦ some (record d { all_shares = sh1 }) ]
  ]

module _ {C : Type 0} (bus : Bus C) where
  -- After the scan: the buffer goes back to the hardware, and the next one is pending.
  abbrev pub finish_buffer : Scan → Device C → Device C
  finish_buffer s d =
      let b = record (d.rx_buffer d.rx_pend) { buffer = s.words } in
      record d {
        rx_buffer = update d.rx_buffer d.rx_pend b;
        rx_pend = (d.rx_pend + 1) % d.rx_count;
        queues = s.queues;
        counters = s.counters;
        card = bus.store rx_free b.dma d.card;
      }

  unfoldable pub enable_irq : Device C → Device C
  enable_irq d = if d.minors == 0 then d else record d {
    card = bus.store irq_control 1 d.card;
    counters = record d.counters { irq_enable = bump d.counters.irq_enable };
  }

module _ {C : Type 0} (bus : Bus C) (rdtsc : ℕ → ℕ) where
  -- The loop over the buffers whose DMA is done, one round of fuel for each, and `inner` rounds for
  -- the messages of each.
  unfoldable pub drain : ℕ → ℕ → ℕ → ℕ → Device C → Run (ℕ × Device C)
  drain inner zero wmask ticks d = none
  drain inner (suc n) wmask ticks d =
      if is_done (d.rx_buffer d.rx_pend)
      then (do
        s ← scan rdtsc inner (start_scan wmask ticks d)
        drain inner n s.wmask s.ticks (finish_buffer bus s d))
      else done (wmask, d)

  unfoldable pub tpr_handle_dma : ℕ → ℕ → ℕ → ℕ → Device C → Run (Device C)
  tpr_handle_dma inner outer fuel ticks d = do
    (wmask, d1) ← drain inner outer 0 ticks d
    elim (wake_apps fuel wmask d1) [ none ↦ none | some d2 ↦ done (enable_irq bus d2) ]
