-- ===== src/Driver/Tests.antt =====
-- The driver on a card whose registers are a function of the offset, and its theorems there.
mod Receive
use evr_card_g.Base.{
  ℕ, ◌*◌, ◌%◌, ◌<◌, ◌≡◌, ◌↔◌, refl, pos, true, false, ◌||◌, none, some, [], ◌∷◌, ◌++◌, ◌==◌,
  if◌then◌else◌, arith, length, replicate,
}
use evr_card_g.Base.Bits.{bit}
use evr_card_g.Base.Outcome.{Outcome}
use evr_card_g.Base.Run.{done}
use evr_card_g.Bus.{Bus}
use evr_card_g.Regs.Setup.{IsMemory}
use evr_card_g.Driver.Device.{Share, Entry, Queues, RxBuffer, Device, open_shares, success, nth}
use evr_card_g.Driver.Files.{link_channel, tpr_open, tpr_release}
use evr_card_g.Driver.Lists.{Place, free, channel, bsa, move, place, Represents}
use evr_card_g.Driver.Probe.{Kernel, no_counts, start_device, tpr_probe, tpr_remove}
use evr_card_g.Driver.Fresh.{countdown, all_free, tpr_probe-Represents}
use evr_card_g.Driver.Sessions.{Clients, Answers, client_open, tpr_open-Answers}
use evr_card_g.Driver.Releases.{tpr_release-Represents}
use evr_card_g.Driver.Reach.{probed, opened, Reach-enabled}
use evr_card_g.Driver.Race.{before_link, overtaken, overtaken-disabled}
use evr_card_g.Driver.Removal.{one_of, tpr_remove_words}
use evr_card_g.Driver.Queues.{max_tpr_allq, queue_event}
use evr_card_g.Driver.Rings.{Event, event_at, Holds, Rings}
use evr_card_g.Driver.Events.{queue_event-Rings}
use evr_card_g.Driver.Reader.{IsCleared, reader-Holds}
use evr_card_g.Driver.Messages.{Scan}
use evr_card_g.Driver.Dma.{scan, wake_apps, is_done, clear_first, tpr_handle_dma}
use evr_card_g.Driver.Handling.{tpr_handle_dma-Rings}
use evr_card_g.Regs.Word.{test_bit, clear_bit}
use evr_card_g.Driver.Delivery.{Sent, scan-Rings}
use evr_card_g.Driver.Scanning.{scan_total}
use evr_card_g.Driver.Waking.{for_place, wake_apps-Woken}

abbrev registers : Bus (ℕ → ℕ)
registers = record {
  store = λ offset v c o. if o == offset then v else c o;
  load = λ offset c. (c offset, c);
  sleep_us = λ n c. c;
}

registers-IsMemory : IsMemory registers
registers-IsMemory = record {
  load-store = λ o o' v c. refl;
  load-sleep_us = λ o n c. refl;
  load-load = λ o o' c. refl;
}

abbrev no_entry : Entry
no_entry = record { word = replicate 32 0; fifo_tsc = 0 }

abbrev no_queues : Queues
no_queues = record {
  allq = λ k. no_entry;
  bsaq = λ k. no_entry;
  allrp = λ c k. 0;
  allwp = λ c. 0;
  bsawp = 0;
  gwp = 0;
  fifofull = 0;
}

abbrev no_share : Share
no_share = record {
  opened = false;
  idx = pos 0;
  minor = pos 0;
  pendingirq = false;
  next = none;
  prev = none;
}

abbrev no_buffer : RxBuffer
no_buffer = record { dma = 0; buffer = replicate 1024 0 }

abbrev blank : Device (ℕ → ℕ)
blank = record {
  master = no_share;
  all_shares = λ s. no_share;
  shared = λ m. none;
  bsa = none;
  freelist = none;
  minors = 0;
  counters = no_counts;
  queues = no_queues;
  rx_buffer = λ k. no_buffer;
  rx_count = 0;
  rx_pend = 0;
  scheduled = false;
  vmas = pos 0;
  base_len = 0;
  card = λ o. 0;
}

-- A kernel that grants all but has memory for one buffer.
abbrev kernel : Kernel
kernel = record {
  queue_memory = true;
  chrdev = pos 0;
  enabled = true;
  mapped = true;
  bar_len = 0x100000;
  coherent = λ k. if k == 0 then some no_buffer else none;
  irq_granted = true;
}

abbrev started : Device (ℕ → ℕ)
started = (tpr_probe registers kernel no_queues blank).1

started_success : (tpr_probe registers kernel no_queues blank).0 ≡ success
unfolding tpr_probe start_device
started_success = refl

started-Represents : Represents started all_free
started-Represents =
    tpr_probe-Represents registers kernel no_queues blank (λ m h. refl) started_success

tpr_open-Answers_example : Answers started (client_open 3 all_free) (tpr_open registers 3 started)
tpr_open-Answers_example =
    tpr_open-Answers registers 3 started all_free started-Represents (omega arith)

-- One client of channel 3.
abbrev with_client : Device (ℕ → ℕ)
with_client = (tpr_open registers 3 started).dev

abbrev one_client : Clients
one_client = move 255 free (channel 3) all_free

with_client-Represents : Represents with_client one_client
unfolding countdown
with_client-Represents =
    (tpr_open-Answers registers 3 started all_free started-Represents (omega arith)).2

tpr_release-Represents_example :
    ((tpr_release registers (nth 255) with_client).0 ≡ success)
    × Represents
        (tpr_release registers (nth 255) with_client).1
        (move 255 (channel 3) free one_client)
tpr_release-Represents_example =
    tpr_release-Represents registers 255 with_client one_client with_client-Represents (channel 3)
      refl refl

Reach-enabled_example : (bit 3 with_client.minors ≡ 1) ↔ (
    (s : ℕ) × (s < open_shares)
    × ((with_client.all_shares s).opened ≡ true)
    × ((with_client.all_shares s).minor ≡ pos 3))
Reach-enabled_example =
    Reach-enabled registers 3
      (opened 3 (omega arith) (probed kernel no_queues blank (λ m h. refl) started_success))
      (omega arith)

overtaken-disabled_example :
    (tpr_open registers 3 with_client ≡ record {
      status = success;
      file = some (nth 254);
      dev = link_channel 3 254 (before_link registers 3 255 254 with_client);
    })
    × ((overtaken registers 3 255 254 with_client).shared 3 ≡ some 254)
    × (bit 3 (overtaken registers 3 255 254 with_client).minors ≡ 0)
unfolding countdown
overtaken-disabled_example =
    overtaken-disabled registers 3 255 254 (countdown 254) with_client one_client
      with_client-Represents refl refl (omega arith)

tpr_remove_words_example : (registers.load 0x83000 (tpr_remove registers with_client).card).0 ≡ 0
unfolding one_of
tpr_remove_words_example = tpr_remove_words registers registers-IsMemory 0x83000 with_client
