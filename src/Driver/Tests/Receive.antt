-- ===== src/Driver/Tests/Receive.antt =====
-- The receive side of the driver, on events for a client of channel 3.
use evr_card_g.Base.{
  ℕ, ◌*◌, ◌%◌, ◌<◌, ◌≡◌, refl, pos, true, false, ◌||◌, some, [], ◌∷◌, ◌++◌, ◌==◌, if◌then◌else◌,
  arith, length, replicate,
}
use evr_card_g.Base.Bits.{bit}
use evr_card_g.Base.Outcome.{Outcome}
use evr_card_g.Base.Run.{done}
use evr_card_g.Driver.Device.{Queues, Device, nth}
use evr_card_g.Driver.Lists.{Lists, Place, free, channel, bsa, place}
use evr_card_g.Driver.Probe.{no_counts}
use evr_card_g.Driver.Fresh.{countdown}
use evr_card_g.Driver.Queues.{max_tpr_allq, queue_event}
use evr_card_g.Driver.Rings.{Event, event_at, Holds, Rings}
use evr_card_g.Driver.Reader.{IsCleared, reader-Holds}
use evr_card_g.Driver.Messages.{Scan}
use evr_card_g.Driver.Dma.{scan, wake_apps, is_done, clear_first, tpr_handle_dma}
use evr_card_g.Driver.Handling.{tpr_handle_dma-Rings}
use evr_card_g.Regs.Word.{test_bit, clear_bit}
use evr_card_g.Driver.Delivery.{all_words, Sent, scan-Rings}
use evr_card_g.Driver.Scanning.{scan_total}
use evr_card_g.Driver.Waking.{for_place, wake_apps-Woken}
use evr_card_g.Driver.Calls.{failed, eagain, tpr_read, tpr_poll}
use evr_card_g.Driver.Reading.{tpr_read_once}
use evr_card_g.Driver.Tests.{
  registers, no_queues, no_buffer, with_client, one_client, with_client-Represents,
}

no_queues-Rings : Rings no_queues []
no_queues-Rings = record {
  gwp_eq = refl;
  allwp_eq = λ c h. refl;
  kept = λ k e n. cc;
  indexed = λ c j i h n. cc;
}

-- An event for channels 0 and 3.
abbrev sent : Sent
sent = record { first = 9; body = replicate 21 7 }

abbrev one_event : Event
one_event = record { channels = 9; words = 9 ∷ 21 ∷ replicate 21 7; tsc = 100 }

abbrev after_event : Queues
after_event = queue_event (9 ∷ 21 ∷ replicate 21 7) 100 9 no_queues

no_queues-IsCleared : IsCleared no_queues
no_queues-IsCleared = record { no_events = refl; no_indices = λ c h. refl }

reader-Holds_example :
    (e : Event) × (event_at (one_event ∷ []) 0 ≡ some e)
    × (bit 3 e.channels ≡ 1)
    × Holds (after_event.allq (after_event.allrp 3 (0 % max_tpr_allq) % max_tpr_allq)) e
reader-Holds_example =
    reader-Holds 3 0 0 no_queues (one_event ∷ []) no_queues-IsCleared (refl, tt) (omega arith) refl
      (omega arith)

-- A buffer of one event.
abbrev one_buffer : Scan
one_buffer = record {
  words = (9 ∷ 21 ∷ replicate 21 7) ++ (0xF0000 ∷ 5 ∷ []);
  at = 0;
  queues = no_queues;
  counters = no_counts;
  wmask = 0;
  ticks = 2;
}

scan-Rings_example :
    (s' : Scan) × (scan (λ k. 50 * k) 2 one_buffer ≡ done s')
    × Rings s'.queues (one_event ∷ [])
    × (s'.words ≡ one_buffer.words)
    × (s'.wmask ≡ 9)
    × (s'.ticks ≡ 3)
scan-Rings_example =
    scan-Rings (λ k. 50 * k) (sent ∷ []) 2 0xF0000 [] (5 ∷ []) one_buffer [] ((refl, refl), tt) refl
      (omega arith) refl refl no_queues-Rings

scan_total_example : (o : Outcome Scan) × (scan (λ k. k) 27 one_buffer ≡ some o)
scan_total_example = scan_total (λ k. k) 27 one_buffer (omega arith) (omega arith)

short_lists : (q : Place) → length (one_client q) < 300
unfolding countdown
short_lists free = omega arith
short_lists (channel m) = ground arith
short_lists bsa = omega arith

wake_apps-Woken_example :
    (d' : Device (ℕ → ℕ)) × (wake_apps 300 9 with_client ≡ some d')
    × ((d'.all_shares 255).pendingirq ≡ (
        (with_client.all_shares 255).pendingirq
        || for_place 9 (place (with_client.all_shares 255))))
    × (d'.queues ≡ with_client.queues)
wake_apps-Woken_example =
    wake_apps-Woken with_client-Represents.lists 300 9 short_lists 255 (omega arith)

-- A buffer of one event whose DMA is done, and one that is pending.
abbrev filled : Device (ℕ → ℕ)
filled = record with_client {
  rx_buffer = λ k.
      (if k == 0
        then record { dma = 5; buffer = (0x80000009 ∷ 21 ∷ replicate 21 7) ++ (0xF0000 ∷ 5 ∷ []) }
        else no_buffer);
  rx_count = 2;
  rx_pend = 0;
  queues = no_queues;
}

filled-Lists : Lists filled one_client
filled-Lists = record {
  linked = with_client-Represents.lists.linked;
  backed = with_client-Represents.lists.backed;
  member = with_client-Represents.lists.member;
  present = with_client-Represents.lists.present;
  bounded = with_client-Represents.lists.bounded;
  indexed = with_client-Represents.lists.indexed;
}

filled_done : is_done (filled.rx_buffer 0) ≡ true
unfolding test_bit
filled_done = refl

filled_words : clear_first (filled.rx_buffer 0).buffer ≡ all_words (sent ∷ []) ++ (0xF0000 ∷ 5 ∷ [])
unfolding clear_bit
filled_words = refl

next_pending : is_done (filled.rx_buffer 1) ≡ false
unfolding test_bit
next_pending = refl

tpr_handle_dma-Rings_example :
    (d' : Device (ℕ → ℕ)) × (tpr_handle_dma registers (λ k. 50 * k) 2 2 300 2 filled ≡ done d')
    × Rings d'.queues (one_event ∷ [])
    × ((d'.all_shares 255).pendingirq
        ≡ ((filled.all_shares 255).pendingirq || for_place 9 (place (filled.all_shares 255))))
tpr_handle_dma-Rings_example =
    tpr_handle_dma-Rings registers (λ k. 50 * k) (sent ∷ []) 0xF0000 2 0 300 2 255 (5 ∷ []) filled
      one_client [] filled-Lists short_lists ((refl, refl), tt) refl (omega arith) filled_done
      filled_words refl next_pending no_queues-Rings (omega arith)

-- A client that has a wake-up.
abbrev woken : Device (ℕ → ℕ)
woken = record with_client {
  all_shares = λ s. record (with_client.all_shares s) { pendingirq = s == 255 };
}

tpr_read_once_example :
    (r : Device (ℕ → ℕ)) × (tpr_read (λ d. (true, d)) true true 1 4 (nth 255) woken
      ≡ some (record { retval = pos 4; word = some 1; moved = 4 }, r))
    × (tpr_read (λ d. (true, d)) true true 1 4 (nth 255) r ≡ some (failed eagain, r))
    × (tpr_poll (nth 255) woken ≡ 65)
    × (tpr_poll (nth 255) r ≡ 0)
    × ((r.all_shares 7).pendingirq ≡ (woken.all_shares 7).pendingirq)
tpr_read_once_example =
    tpr_read_once (λ d. (true, d)) 0 4 255 7 woken (omega arith) (omega arith) refl
