-- ===== src/Driver/Calls.antt =====
-- software/kernel/tpr.c: read, poll, mmap and the other calls on an open file, and the interrupt.
use evr_card_g.Base.{
  ℕ, zero, suc, ◌+◌, ◌*◌, ◌/◌, ◌%◌, ℤ, pos, negsuc, Bool, true, false, Option, none, some, ltb,
  ◌==◌, if◌then◌else◌, not,
}
use evr_card_g.Bus.{Bus}
use evr_card_g.Driver.Device.{Client, the_master, nth, Device, error, bump, with_share, share_of}
use evr_card_g.Driver.Registers.{irq_control, irq_status}

-- What a read answers: its value, the word that it gave the caller, and how far `f_pos` moved.
pub record ReadAnswer : Type 0 where
  pub retval : ℤ
  pub word : Option ℕ
  pub moved : ℕ

abbrev pub failed : ℤ → ReadAnswer
failed e = record { retval = e; word = none; moved = 0 }

-- An `errno` as the kernel returns it.
abbrev pub eagain : ℤ
eagain = negsuc 10

abbrev pub efault : ℤ
efault = negsuc 13

abbrev pub einval : ℤ
einval = negsuc 21

abbrev pub erestartsys : ℤ
erestartsys = negsuc 511

unfoldable pub tpr_write : ℕ → ℕ
tpr_write count = 0

unfoldable pub tpr_ioctl : ℕ → ℕ → ℤ
tpr_ioctl cmd arg = error

abbrev pub page_size : ℕ
page_size = 4096

-- `sizeof(struct TprQueues)`
abbrev pub queues_size : ℕ
queues_size = 32768 * 136 + 1024 * 136 + 14 * (32768 * 8) + 14 * 8 + 8 + 8 + 8

-- `TPR_SH_MEM_WINDOW`
abbrev pub window : ℕ
window = (queues_size + page_size) / page_size * page_size

-- The place in the memory of the queues that a fault at a page maps.
unfoldable pub tpr_vmfault : ℕ → ℕ
tpr_vmfault pgoff = pgoff * page_size

-- `vmas++` and `vmas--` of an `int`.
abbrev pub inc : ℤ → ℤ
inc (pos n) = pos (n + 1)
inc (negsuc zero) = pos 0
inc (negsuc (suc n)) = negsuc n

abbrev pub dec : ℤ → ℤ
dec (pos zero) = negsuc 0
dec (pos (suc n)) = pos n
dec (negsuc n) = negsuc (n + 1)

module _ {C : Type 0} where
  abbrev pub clear_pending : Client → Device C → Device C
  clear_pending the_master d = record d { master = record d.master { pendingirq = false } }
  clear_pending (nth s) d = with_share s (λ sh. record sh { pendingirq = false }) d

  -- `test_and_clear_bit` and the copy to the caller, which `copied` tells of.
  unfoldable pub take_pending : Bool → Client → Device C → ReadAnswer × Device C
  take_pending copied f d =
      let v = if (share_of f d).pendingirq then 1 else 0 in
      let d1 = clear_pending f d in
      if copied
      then (record { retval = pos 4; word = some v; moved = 4 }, d1)
      else (failed efault, d1)

  -- The loop that waits, one round of fuel for each sleep. `wait` tells whether a signal ended a
  -- sleep, and what the others did to the device meanwhile.
  unfoldable pub wait_pending :
      (Device C → Bool × Device C)
      → Bool
      → Bool
      → ℕ
      → Client
      → Device C
      → Option (ReadAnswer × Device C)
  wait_pending wait nonblock copied zero f d = none
  wait_pending wait nonblock copied (suc n) f d =
      let (signal, d1) = wait d in
      let again = wait_pending wait nonblock copied n f d1 in
      if (share_of f d).pendingirq
      then some (take_pending copied f d)
      else if nonblock
      then some (failed eagain, d)
      else if signal
      then some (failed erestartsys, d1)
      else again

  unfoldable pub tpr_read :
      (Device C → Bool × Device C)
      → Bool
      → Bool
      → ℕ
      → ℕ
      → Client
      → Device C
      → Option (ReadAnswer × Device C)
  tpr_read wait nonblock copied fuel count f d =
      let waited = wait_pending wait nonblock copied fuel f d in
      if ltb count 4 then some (failed (pos 0), d) else waited

  -- `POLLIN | POLLRDNORM`
  unfoldable pub tpr_poll : Client → Device C → ℕ
  tpr_poll f d = if (share_of f d).pendingirq then 65 else 0

  unfoldable pub tpr_vmopen : Device C → Device C
  tpr_vmopen d = record d { vmas = inc d.vmas }

  unfoldable pub tpr_vmclose : Device C → Device C
  tpr_vmclose d = record d { vmas = dec d.vmas }

  -- `remapped` tells whether the registers could be mapped at the caller.
  unfoldable pub tpr_mmap : Bool → ℕ → Client → Device C → ℤ × Device C
  tpr_mmap remapped vsize f d = elim (share_of f d).idx [
    | negsuc n ↦
        if ltb d.base_len vsize
        then (einval, d)
        else if not remapped
        then (eagain, d)
        else (pos 0, tpr_vmopen d)
    | pos n ↦ if ltb window vsize then (einval, d) else (pos 0, tpr_vmopen d)
  ]

module _ {C : Type 0} (bus : Bus C) where
  -- The interrupt, and whether it was the device's.
  unfoldable pub tpr_intr : Device C → Bool × Device C
  tpr_intr d =
      let (stat, c1) = bus.load irq_status d.card in
      if stat % 2 == 0
      then (false, record d { card = c1 })
      else (let (control, c2) = bus.load irq_control c1 in
          let n = d.counters in
          (
            true,
            record d {
              card = bus.store irq_control 0 c2;
              scheduled = true;
              counters = record n {
                irq_count = bump n.irq_count;
                irq_disable = bump n.irq_disable;
                irq_no_req = if control == 0 then bump n.irq_no_req else n.irq_no_req;
              };
            },
          ))
