-- ===== src/Apps/Check/Pipeline.antt =====
-- From the events that the driver queues to the verdicts of the test program.
use evr_card_g.Base.{ℕ, ◌+◌, ◌^◌, ◌≤◌, ◌<◌, ◌≡◌, ◌∙◌, arith, List, [], ◌∷◌, length, some}
use evr_card_g.Driver.Device.{Queues}
use evr_card_g.Driver.Queues.{max_tpr_allq}
use evr_card_g.Driver.Rings.{Event, event_at, number_of, count}
use evr_card_g.Driver.Reader.{queue_all, queue_all-Rings, AllWhole, IsCleared}
use evr_card_g.Apps.Check.Link.{TimingMode}
use evr_card_g.Apps.Check.Frames.{parse_frame}
use evr_card_g.Apps.Check.Capture.{capture}
use evr_card_g.Apps.Check.Client.{frame-Reader}
use evr_card_g.Apps.Check.Pulses.{Consecutive, Full, start_at, capture_passes}

lt-count : (c : ℕ) (log : List Event) (j i : ℕ) → number_of c log j ≡ some i → j < count c log
lt-count c [] j i e = cc
lt-count c (e ∷ es) j i n = ground (arith, lt-count c es j i)

-- Eleven events of a channel in a log, from number `rp` on: they are among the last 32768 of the
-- log, and their pulses follow one another.
pub record Follows (c rp pulse : ℕ) (log : List Event) : Type 0 where
  pub first_pulse : 0 < pulse
  pub last_pulse : pulse + 11 ≤ 2 ^ 64
  pub index : ℕ → ℕ
  pub stamps : ℕ → ℕ
  pub numbered : (k : ℕ) → k < 11 → number_of c log (rp + k) ≡ some (index k)
  pub recent : (k : ℕ) → k < 11 → length log ≤ index k + max_tpr_allq
  pub parsed :
      (k : ℕ) (e : Event)
      → k < 11
      → event_at log (index k) ≡ some e
      → parse_frame e.words ≡ some (record { pulse_id = pulse + k; time_stamp = stamps k })

log-Consecutive :
    (c rp pulse : ℕ) (q : Queues) (log : List Event)
    → IsCleared q
    → AllWhole log
    → c < 14
    → Follows c rp pulse log
    → Consecutive c rp pulse (λ t. queue_all log q)
log-Consecutive c rp pulse q log clear whole l f = record {
  first_pulse = f.first_pulse;
  last_pulse = f.last_pulse;
  written = λ t. omega (
    arith,
    (queue_all-Rings log q clear whole).allwp_eq c l,
    lt-count c log (rp + 10) (f.index 10) (f.numbered 10 (omega arith)),
  );
  stamps = f.stamps;
  frame = λ t k h.
      let (e, at, on, same) =
        frame-Reader c (rp + k) (f.index k) q log clear whole l (f.numbered k h) (f.recent k h) in
      same ∙ f.parsed k e h at;
}

-- If the driver put the events of a log into cleared queues, and 11 of them on a channel, from the
-- number of the read pointer on, are recent and have pulses that follow one another, then the
-- capture of the test program on this channel ends after 12 tests with ten lines, and all of them
-- pass, in each mode.
pub capture_of_log :
    (mode : TimingMode) (c rp pulse : ℕ) (q : Queues) (log : List Event)
    → IsCleared q
    → AllWhole log
    → c < 14
    → Follows c rp pulse log
    → Full (capture mode c (λ t. queue_all log q) 12 1 (start_at rp))
capture_of_log mode c rp pulse q log clear whole l f =
    capture_passes mode c rp pulse (λ t. queue_all log q)
      (log-Consecutive c rp pulse q log clear whole l f)
