-- ===== src/Driver/Queues.antt =====
-- software/kernel/tpr.c: what one message does to the queues.
use evr_card_g.Base.{
  ℕ, zero, suc, ◌+◌, ◌-◌, ◌*◌, ◌/◌, List, ◌++◌, take, drop, ◌==◌, if◌then◌else◌, update, bit_and,
}
use evr_card_g.Regs.Word.{test_bit, clear_bit}
use evr_card_g.Driver.Device.{Entry, Queues}

abbrev pub max_tpr_allq : ℕ
max_tpr_allq = 32 * 1024

abbrev pub max_tpr_bsaq : ℕ
max_tpr_bsaq = 1024

-- The words of the messages: EVENT_MSGSZ, BSACNTL_MSGSZ and BSAEVNT_MSGSZ in words of 4 bytes.
abbrev pub event_words : ℕ
event_words = 92 / 4

abbrev pub bsa_words : ℕ
bsa_words = 44 / 4

-- `memcpy(pEntry, dptr, ...)` of the first words of an entry, and its time stamp.
abbrev pub fill_entry : List ℕ → ℕ → ℕ → Entry → Entry
fill_entry msg n tsc e = record { word = take n msg ++ drop n e.word; fifo_tsc = tsc }

-- The number of the event that is queued, for a reader of one channel.
abbrev pub index_channel : ℕ → Queues → Queues
index_channel ich q = record q {
  allrp =
      update q.allrp ich (update (q.allrp ich) (bit_and (q.allwp ich) (max_tpr_allq - 1)) q.gwp);
  allwp = update q.allwp ich (q.allwp ich + 1);
}

-- The loop over the channels of `mch`, from `ich` on.
unfoldable pub index_channels : ℕ → ℕ → ℕ → Queues → Queues
index_channels zero ich mch q = q
index_channels (suc n) ich mch q =
    let after_hit = index_channels n (ich + 1) (clear_bit ich mch) (index_channel ich q) in
    let after_miss = index_channels n (ich + 1) mch q in
    if mch == 0 then q else if test_bit ich mch then after_hit else after_miss

-- An event for the channels of `mch`, which is below 2^14, so that 14 rounds are enough.
unfoldable pub queue_event : List ℕ → ℕ → ℕ → Queues → Queues
queue_event msg tsc mch q =
    let i = bit_and q.gwp (max_tpr_allq - 1) in
    let q1 = record q { allq = update q.allq i (fill_entry msg event_words tsc (q.allq i)) } in
    let q2 = index_channels 14 0 mch q1 in record q2 { gwp = q2.gwp + 1 }

-- A BSA message of either kind.
unfoldable pub queue_bsa : List ℕ → ℕ → Queues → Queues
queue_bsa msg tsc q =
    let i = bit_and q.bsawp (max_tpr_bsaq - 1) in
    record q {
      bsaq = update q.bsaq i (fill_entry msg bsa_words tsc (q.bsaq i));
      bsawp = q.bsawp + 1;
    }
