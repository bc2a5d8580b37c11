-- ===== src/Apps/Tests/Receive.antt =====
-- The capture of the test program on a log of eleven events.
use evr_card_g.Base.{
  ℕ, zero, suc, ◌+◌, ◌<◌, ◌≡◌, ◌↔◌, refl, arith, ap, ◌∙◌, List, [], ◌∷◌, length, replicate, some,
  Bool, true,
}
use evr_card_g.Driver.Device.{Queues}
use evr_card_g.Driver.Queues.{queue_event, index_channels}
use evr_card_g.Regs.Word.{test_bit, clear_bit}
use evr_card_g.Driver.Rings.{Event, event_at, number_of, count}
use evr_card_g.Driver.Reader.{queue_all, AllWhole, IsCleared}
use evr_card_g.Apps.Check.Link.{lcls2}
use evr_card_g.Apps.Check.Frames.{Frame, parse_frame}
use evr_card_g.Apps.Check.Capture.{FrameReader, capture, take_frame}
use evr_card_g.Apps.Check.Pulses.{start_at, Full, Succeeds, take_frame-Succeeds}
use evr_card_g.Apps.Check.Pipeline.{Follows, capture_of_log}

-- The event of number `k`, on channel 0, with the pulse `k + 5`.
abbrev pulse_event : ℕ → Event
pulse_event k = record { channels = 1; words = 1 ∷ 21 ∷ (5 + k) ∷ 0 ∷ k ∷ replicate 18 0; tsc = k }

abbrev pulses : ℕ → List Event
pulses zero = []
pulses (suc n) = pulse_event n ∷ pulses n

abbrev blank : Queues
blank = record {
  allq = λ i. record { word = replicate 32 0; fifo_tsc = 0 };
  bsaq = λ i. record { word = replicate 32 0; fifo_tsc = 0 };
  allrp = λ c i. 0;
  allwp = λ c. 0;
  bsawp = 0;
  gwp = 0;
  fifofull = 0;
}

blank-IsCleared : IsCleared blank
blank-IsCleared = record { no_events = refl; no_indices = λ c h. refl }

length-pulses : (n : ℕ) → length (pulses n) ≡ n
length-pulses zero = refl
length-pulses (suc n) = omega (arith, length-pulses n)

event_at-pulses : (n k : ℕ) → k < n → event_at (pulses n) k ≡ some (pulse_event k)
event_at-pulses zero k h = elim h [ ]
event_at-pulses (suc n) k h = ground (arith, length-pulses n, event_at-pulses n k)

count-pulses : (n : ℕ) → count 0 (pulses n) ≡ n
count-pulses zero = refl
count-pulses (suc n) = omega (arith, count-pulses n)

number_of-pulses : (n k : ℕ) → k < n → number_of 0 (pulses n) k ≡ some k
number_of-pulses zero k h = elim h [ ]
number_of-pulses (suc n) k h = ground (arith, length-pulses n, count-pulses n, number_of-pulses n k)

AllWhole-pulses : (n : ℕ) → AllWhole (pulses n)
AllWhole-pulses zero = tt
AllWhole-pulses (suc n) = (refl, AllWhole-pulses n)

pulse_event_words :
    (k : ℕ) → parse_frame (pulse_event k).words ≡ some (record { pulse_id = 5 + k; time_stamp = k })
unfolding parse_frame
pulse_event_words k = ground arith

pulses-Follows : Follows 0 0 5 (pulses 11)
pulses-Follows = record {
  first_pulse = omega arith;
  last_pulse = omega arith;
  index = λ k. k;
  stamps = λ k. k;
  numbered = λ k h.
      let same : 0 + k ≡ k = omega arith in
      ap (number_of 0 (pulses 11)) same ∙ number_of-pulses 11 k h;
  recent = λ k h. omega arith;
  parsed = λ k e h at.
      let same : e ≡ pulse_event k = cc (event_at-pulses 11 k h) in
      ap (λ (x : Event). parse_frame x.words) same ∙ pulse_event_words k;
}

capture_of_log_example : Full (capture lcls2 0 (λ t. queue_all (pulses 11) blank) 12 1 (start_at 0))
capture_of_log_example =
    capture_of_log lcls2 0 0 5 blank (pulses 11) blank-IsCleared (AllWhole-pulses 11) (omega arith)
      pulses-Follows

-- A reader that has taken pulse 7, and a frame of pulse 8.
abbrev reading : FrameReader
reading = record { allrp = 3; nframes = 2; pulse_prev = 7; lines = [] }

take_frame-Succeeds_example :
    let f : Frame = record { pulse_id = 8; time_stamp = 3 } in
    (passes : Bool) × (take_frame lcls2 0 (queue_all (pulses 4) blank) reading ≡ record {
      allrp = 4;
      nframes = 3;
      pulse_prev = 8;
      lines = record { frame = f; pass = passes } ∷ [];
    })
    × ((passes ≡ true) ↔ Succeeds lcls2 7 8)
unfolding parse_frame queue_event index_channels test_bit clear_bit
take_frame-Succeeds_example =
    take_frame-Succeeds lcls2 0 (queue_all (pulses 4) blank) reading
      (record { pulse_id = 8; time_stamp = 3 }) refl (omega arith)
