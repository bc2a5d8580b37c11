-- ===== src/Driver/Messages.antt =====
-- software/kernel/tpr.c: the loop of tpr_handle_dma over the messages of one receive buffer.
use evr_card_g.Base.{
  ℕ, ◌+◌, ◌-◌, ◌*◌, ◌/◌, ◌%◌, ◌^◌, List, take, drop, length, get_elem?, set, ◌==◌, leb,
  if◌then◌else◌, bit_and, bit_or,
}
use evr_card_g.Base.Outcome.{Outcome, ok, undefined, value, ◌>>=◌}
use evr_card_g.Regs.Word.{set_bit}
use evr_card_g.Driver.Device.{Queues, Counters, mod_shared, bump}
use evr_card_g.Driver.Queues.{event_words, bsa_words, queue_event, queue_bsa}

abbrev pub event_tag : ℕ
event_tag = 0

abbrev pub bsacntl_tag : ℕ
bsacntl_tag = 1

abbrev pub bsaevnt_tag : ℕ
bsaevnt_tag = 2

abbrev pub end_tag : ℕ
end_tag = 15

abbrev pub event_msgsz : ℕ
event_msgsz = 92

-- `(dptr[0]>>16)&0xf`
abbrev pub tag : ℕ → ℕ
tag w = w / 2 ^ 16 % 16

abbrev pub end_word : ℕ
end_word = end_tag * 2 ^ 16

-- What the loop works on: the words of the buffer and the place of `dptr` in them, the queues, the
-- counters, the mask of those to wake, and how often the clock was read.
pub record Scan : Type 0 where
  pub words : List ℕ
  pub at : ℕ
  pub queues : Queues
  pub counters : Counters
  pub wmask : ℕ
  pub ticks : ℕ

-- The `n` words from `dptr` on; words past the buffer are not the driver's.
abbrev pub message : ℕ → Scan → Outcome (List ℕ)
message n s = if leb (s.at + n) (length s.words) then ok (take n (drop s.at s.words)) else undefined

abbrev pub word_at : ℕ → Scan → Outcome ℕ
word_at k s = value (get_elem? s.words (s.at + k))

-- `dptr[0] = END_TAG << 16`
abbrev pub terminate : Scan → Scan
terminate s = record s { words = set s.words s.at end_word }

-- The count, the clock, and the sign of a drop.
abbrev pub note_message : ℕ → Scan → Scan
note_message w s =
    let full = if bit_and w (0x808 * 2 ^ 20) == 0 then s.queues.fifofull else 1 in
    record s {
      queues = record s.queues { fifofull = full };
      counters = record s.counters { dma_count = bump s.counters.dma_count };
      ticks = s.ticks + 1;
    }

abbrev pub count_bsa : ℕ → Counters → Counters
count_bsa t c =
    if t == bsacntl_tag
    then record c { dma_bsa_ctrl = bump c.dma_bsa_ctrl }
    else record c { dma_bsa_chan = bump c.dma_bsa_chan }

-- The two cases for BSA, which differ in their counter.
unfoldable pub bsa_message : ℕ → ℕ → Scan → Outcome Scan
bsa_message tsc t s = do
  msg ← message bsa_words s
  ok (record s {
    at = s.at + bsa_words;
    queues = queue_bsa msg tsc s.queues;
    counters = count_bsa t s.counters;
    wmask = set_bit (mod_shared + 1) s.wmask;
  })

abbrev pub take_event : ℕ → ℕ → List ℕ → Scan → Scan
take_event tsc mch msg s = record s {
  at = s.at + event_words;
  queues = queue_event msg tsc mch s.queues;
  wmask = bit_or s.wmask mch;
}

abbrev pub count_event : Scan → Scan
count_event s = record s { counters = record s.counters { dma_event = bump s.counters.dma_event } }

abbrev pub count_error : Scan → Scan
count_error s = record s {
  counters = record s.counters { dma_errors = bump s.counters.dma_errors };
}

unfoldable pub event_message : ℕ → ℕ → Scan → Outcome Scan
event_message tsc w s0 = do
  let s = count_event s0
  size ← word_at 1 s
  if (size * 4 + 8) % 2 ^ 32 == event_msgsz
      then (do
        msg ← message event_words s
        ok (take_event tsc (bit_and w (2 ^ mod_shared - 1)) msg s))
      else ok (terminate (count_error s))

-- One round of the loop, on a message whose first word is `w`.
unfoldable pub handle_message : (ℕ → ℕ) → ℕ → Scan → Outcome Scan
handle_message rdtsc w s =
    let s1 = note_message w s in
    let tsc = rdtsc s.ticks in
    let t = tag w in
    if t == bsacntl_tag
    then bsa_message tsc t s1
    else if t == bsaevnt_tag
    then bsa_message tsc t s1
    else if t == event_tag
    then event_message tsc w s1
    else ok (terminate s1)
