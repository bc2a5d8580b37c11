-- ===== src/Driver/Probe.antt =====
-- software/kernel/tpr.c: probe and remove.
use evr_card_g.Base.{
  ℕ, zero, suc, ◌+◌, ◌-◌, ◌^◌, ℤ, pos, negsuc, Bool, false, Option, none, some, [], ◌∷◌, ◌==◌,
  if◌then◌else◌, not, update, bit_or,
}
use evr_card_g.Bus.{Bus}
use evr_card_g.Regs.Word.{clear_bit}
use evr_card_g.Driver.Device.{
  Share, Queues, RxBuffer, Counters, Device, mod_shared, open_shares, success, error,
}
use evr_card_g.Driver.Registers.{
  xbar_out, irq_control, rx_free, rx_max_frame, rx_fifo_size, channel_control, trigger_control,
}

abbrev pub max_pci_devices : ℕ
max_pci_devices = 8

abbrev pub buf_size : ℕ
buf_size = 4096

abbrev pub number_of_rx_buffers : ℕ
number_of_rx_buffers = 1023

abbrev pub ro_channels : ℕ
ro_channels = 14

abbrev pub tr_channels : ℕ
tr_channels = 12

-- What the kernel answers to the calls of probe: the memory for the queues, the device numbers (a
-- negative error or not), whether the device was enabled and its registers mapped, with which
-- length, the receive buffers with their bus addresses and what they hold, and the interrupt.
pub record Kernel : Type 0 where
  pub queue_memory : Bool
  pub chrdev : ℤ
  pub enabled : Bool
  pub mapped : Bool
  pub bar_len : ℕ
  pub coherent : ℕ → Option RxBuffer
  pub irq_granted : Bool

-- The first of the devices from `i` on whose base address is 0.
abbrev pub find_slot : (ℕ → ℕ) → ℕ → ℕ → Option ℕ
find_slot base_hdwr zero i = none
find_slot base_hdwr (suc n) i =
    let rest = find_slot base_hdwr n (i + 1) in if base_hdwr i == 0 then some i else rest

abbrev pub init_share : ℕ → Share → Share
init_share i sh = record sh {
  next = if i == 0 then none else some (i - 1);
  prev = none;
  opened = false;
  idx = pos i;
}

-- The first `n` rounds of the loop over `all_shares`, and of the one over `shared`.
unfoldable pub init_shares : ℕ → (ℕ → Share) → ℕ → Share
init_shares zero sh = sh
init_shares (suc n) sh = let before = init_shares n sh in update before n (init_share n (before n))

unfoldable pub init_shared : ℕ → (ℕ → Option ℕ) → ℕ → Option ℕ
init_shared zero sh = sh
init_shared (suc n) sh = update (init_shared n sh) n none

abbrev pub no_counts : Counters
no_counts = record {
  irq_enable = 0;
  irq_disable = 0;
  irq_count = 0;
  irq_no_req = 0;
  dma_count = 0;
  dma_event = 0;
  dma_errors = 0;
  dma_bsa_chan = 0;
  dma_bsa_ctrl = 0;
}

-- Bit 31 of the first word of a buffer, which tells that its DMA is done, cleared.
abbrev pub clear_done : RxBuffer → RxBuffer
clear_done b = elim b.buffer [ [] ↦ b | w ∷ ws ↦ record b { buffer = clear_bit 31 w ∷ ws } ]

module _ {C : Type 0} where
  unfoldable pub init_lists : Device C → Device C
  init_lists d = record d {
    all_shares = init_shares open_shares d.all_shares;
    shared = init_shared mod_shared d.shared;
    bsa = none;
    freelist = some (open_shares - 1);
    master = record d.master { opened = false; idx = negsuc 0 };
  }

  -- The fields that are set before the device is enabled.
  unfoldable pub init_device : Queues → Device C → Device C
  init_device queues d = record d {
    queues = record queues { fifofull = 0xabadcafe };
    minors = 0;
    counters = no_counts;
    base_len = 0;
  }

module _ {C : Type 0} (bus : Bus C) where
  -- `channel[i].control = 0`, or that of the triggers, for the first `n`.
  unfoldable pub clear_controls : (ℕ → ℕ) → ℕ → C → C
  clear_controls control zero c = c
  clear_controls control (suc n) c = bus.store (control n) 0 (clear_controls control n c)

  unfoldable pub init_registers : C → C
  init_registers c =
      let c1 = bus.store irq_control 0 (bus.store (xbar_out 2) 1 c) in
      let c2 = clear_controls trigger_control tr_channels c1 in
      let c3 = bus.store rx_fifo_size (number_of_rx_buffers - 1) c2 in
      bus.store rx_max_frame (bit_or buf_size (2 ^ 31)) c3

  -- One round for each of `n` buffers, until one is refused.
  unfoldable pub init_buffers : (ℕ → Option RxBuffer) → ℕ → ℕ → Device C → Device C
  init_buffers coherent zero idx d = d
  init_buffers coherent (suc n) idx d = elim (coherent idx) [
    | none ↦ d
    | some b ↦ init_buffers coherent n (idx + 1) (record d {
      rx_buffer = update d.rx_buffer idx (clear_done b);
      rx_count = idx + 1;
      card = bus.store rx_free b.dma d.card;
    })
  ]

  -- From the place where the registers are mapped.
  unfoldable pub start_device : Kernel → Device C → ℤ × Device C
  start_device k d =
      let d1 = init_lists (record d { base_len = k.bar_len }) in
      let d2 = record d1 { card = init_registers d1.card; rx_count = 0 } in
      let d3 = init_buffers k.coherent number_of_rx_buffers 0 d2 in
      let d4 = record d3 { rx_pend = 0 } in (if k.irq_granted then success else error, d4)

  -- `queues` is the memory that was allocated and cleared.
  unfoldable pub tpr_probe : Kernel → Queues → Device C → ℤ × Device C
  tpr_probe k queues d = if not k.queue_memory then (negsuc 11, d) else elim k.chrdev [
    | negsuc n ↦ (negsuc n, record d { queues = record queues { fifofull = 0xabadcafe } })
    | pos n ↦
        let d1 = init_device queues d in
        if not k.enabled
        then (error, d1)
        else if not k.mapped
        then (error, record d1 { base_len = k.bar_len })
        else start_device k d1
  ]

  -- Into the first free slot of the driver's devices.
  unfoldable pub probe_device : Kernel → Queues → (ℕ → ℕ) → (ℕ → Device C) → ℤ × (ℕ → Device C)
  probe_device k queues base_hdwr devices = elim (find_slot base_hdwr max_pci_devices 0) [
    | none ↦ (negsuc 23, devices)
    | some i ↦ let (status, d) = tpr_probe k queues (devices i) in (status, update devices i d)
  ]

  -- What remove stores, after the interrupt and the tasklet are gone.
  unfoldable pub tpr_remove : Device C → Device C
  tpr_remove d =
      let c1 = bus.store irq_control 0 d.card in
      let c2 = clear_controls channel_control ro_channels c1 in
      let c3 = clear_controls trigger_control tr_channels c2 in
      record d { card = bus.store rx_max_frame 0 c3 }
