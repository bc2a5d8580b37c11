-- ===== src/Driver/Device.antt =====
-- software/kernel/tpr.h: the shares, the queues, the receive buffers and the device. A pointer to a
-- share is its index in `all_shares`, `none` is NULL.
use evr_card_g.Base.{ℕ, ◌+◌, ◌%◌, ◌^◌, ℤ, Bool, Option, List, update}

-- `opened` tells whether `parent` is set, and `pendingirq` is bit 0 of that word, the only one used.
pub record Share : Type 0 where
  pub opened : Bool
  pub idx : ℤ
  pub minor : ℤ
  pub pendingirq : Bool
  pub next : Option ℕ
  pub prev : Option ℕ

-- The private data of an open file.
pub data Client : Type 0 where
  the_master : Client
  nth : ℕ → Client

pub record Entry : Type 0 where
  pub word : List ℕ
  pub fifo_tsc : ℕ

pub record Queues : Type 0 where
  pub allq : ℕ → Entry
  pub bsaq : ℕ → Entry
  pub allrp : ℕ → ℕ → ℕ
  pub allwp : ℕ → ℕ
  pub bsawp : ℕ
  pub gwp : ℕ
  pub fifofull : ℕ

pub record RxBuffer : Type 0 where
  pub dma : ℕ
  pub buffer : List ℕ

pub record Counters : Type 0 where
  pub irq_enable : ℕ
  pub irq_disable : ℕ
  pub irq_count : ℕ
  pub irq_no_req : ℕ
  pub dma_count : ℕ
  pub dma_event : ℕ
  pub dma_errors : ℕ
  pub dma_bsa_chan : ℕ
  pub dma_bsa_ctrl : ℕ

-- The device with its registers. The receive buffers are in a ring of `rx_count`, and `scheduled`
-- tells whether the tasklet was scheduled.
pub record Device (C : Type 0) : Type 0 where
  pub master : Share
  pub all_shares : ℕ → Share
  pub shared : ℕ → Option ℕ
  pub bsa : Option ℕ
  pub freelist : Option ℕ
  pub minors : ℕ
  pub counters : Counters
  pub queues : Queues
  pub rx_buffer : ℕ → RxBuffer
  pub rx_count : ℕ
  pub rx_pend : ℕ
  pub scheduled : Bool
  pub vmas : ℤ
  pub base_len : ℕ
  pub card : C

abbrev pub mod_shared : ℕ
mod_shared = 14

abbrev pub open_shares : ℕ
open_shares = 256

abbrev pub success : ℤ
success = ℤ.pos 0

abbrev pub error : ℤ
error = ℤ.negsuc 0

-- An unsigned counter of 32 bits.
abbrev pub bump : ℕ → ℕ
bump n = (n + 1) % 2 ^ 32

module _ {C : Type 0} where
  -- An assignment to fields of one share.
  abbrev pub with_share : ℕ → (Share → Share) → Device C → Device C
  with_share s f d = record d { all_shares = update d.all_shares s (f (d.all_shares s)) }

  abbrev pub share_of : Client → Device C → Share
  share_of the_master d = d.master
  share_of (nth s) d = d.all_shares s
