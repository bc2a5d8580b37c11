-- ===== src/Driver/Handling.antt =====
-- The bottom half as a whole: from a buffer of events to the clients.
use evr_card_g.Base.{
  ℕ, suc, ◌+◌, ◌%◌, ◌<◌, ◌≡◌, refl, true, false, ◌||◌, some, List, [], ◌∷◌, ◌++◌, length, ◌==◌,
  Bool-cases, inl, inr,
}
use evr_card_g.Base.Run.{done, ◌>>=◌}
use evr_card_g.Bus.{Bus}
use evr_card_g.Driver.Device.{Device, open_shares}
use evr_card_g.Driver.Delivery.{Sent, AreEvents, all_words, all_channels, logged, scan-Rings}
use evr_card_g.Driver.Dma.{
  scan, is_done, clear_first, start_scan, finish_buffer, drain, wake_apps, enable_irq,
  tpr_handle_dma,
}
use evr_card_g.Driver.Messages.{Scan, tag}
use evr_card_g.Driver.Lists.{Place, place, Lists}
use evr_card_g.Driver.Rings.{Event, Rings}
use evr_card_g.Driver.Sessions.{Clients}
use evr_card_g.Driver.Waking.{for_place, wake_apps-Woken}

module _ {C : Type 0} (bus : Bus C) (rdtsc : ℕ → ℕ) where
  -- The receive buffers have no part in the lists of the clients.
  Lists-finish_buffer :
      (s : Scan) (d : Device C) (a : Clients) → Lists d a → Lists (finish_buffer bus s d) a
  Lists-finish_buffer s d a l = record {
    linked = l.linked;
    backed = l.backed;
    member = l.member;
    present = l.present;
    bounded = l.bounded;
    indexed = l.indexed;
  }

  next-not_done :
      (s : Scan) (d : Device C)
      → ((d.rx_pend + 1) % d.rx_count == d.rx_pend) ≡ false
      → is_done (d.rx_buffer ((d.rx_pend + 1) % d.rx_count)) ≡ false
      → is_done ((finish_buffer bus s d).rx_buffer (finish_buffer bus s d).rx_pend) ≡ false
  next-not_done s d other e = rw (other) e

  drain-one :
      (inner n ticks : ℕ) (s : Scan) (d : Device C)
      → is_done (d.rx_buffer d.rx_pend) ≡ true
      → scan rdtsc inner (start_scan 0 ticks d) ≡ done s
      → is_done ((finish_buffer bus s d).rx_buffer (finish_buffer bus s d).rx_pend) ≡ false
      → drain bus rdtsc inner (suc (suc n)) 0 ticks d ≡ done (s.wmask, finish_buffer bus s d)
  unfolding drain
  drain-one inner n ticks s d full scanned empty = rw (full, scanned, empty) refl

  kept-enable_irq :
      (d : Device C)
      → ((enable_irq bus d).queues ≡ d.queues) × ((enable_irq bus d).all_shares ≡ d.all_shares)
  unfolding enable_irq
  kept-enable_irq d = elim (Bool-cases (d.minors == 0)) [
    | inl e ↦ (rw (e) refl, rw (e) refl)
    | inr e ↦ (rw (e) refl, rw (e) refl)
  ]

  handled :
      (inner outer fuel ticks w : ℕ) (d d1 d2 : Device C)
      → drain bus rdtsc inner outer 0 ticks d ≡ done (w, d1)
      → wake_apps fuel w d1 ≡ some d2
      → tpr_handle_dma bus rdtsc inner outer fuel ticks d ≡ done (enable_irq bus d2)
  unfolding tpr_handle_dma
  handled inner outer fuel ticks w d d1 d2 e f = rw (e, ◌>>=◌, f) refl

  -- A pending buffer of events, with the next one not done yet, is handled to the end: each event
  -- is queued, in order, and a share is marked for its client just if one of the events is for the
  -- channel that the share is open on. The fuel exceeds the events, and each list of shares.
  pub tpr_handle_dma-Rings :
      (ms : List Sent) (end inner n fuel ticks x : ℕ) (rest : List ℕ) (d : Device C) (a : Clients)
      (log : List Event)
      → Lists d a
      → ((q : Place) → length (a q) < fuel)
      → AreEvents ms
      → tag end ≡ 15
      → length ms < inner
      → is_done (d.rx_buffer d.rx_pend) ≡ true
      → clear_first (d.rx_buffer d.rx_pend).buffer ≡ all_words ms ++ (end ∷ rest)
      → ((d.rx_pend + 1) % d.rx_count == d.rx_pend) ≡ false
      → is_done (d.rx_buffer ((d.rx_pend + 1) % d.rx_count)) ≡ false
      → Rings d.queues log
      → x < open_shares
      → (d' : Device C) × (tpr_handle_dma bus rdtsc inner (suc (suc n)) fuel ticks d ≡ done d')
        × Rings d'.queues (logged rdtsc ticks ms log)
        × ((d'.all_shares x).pendingirq ≡ (
            (d.all_shares x).pendingirq || for_place (all_channels 0 ms) (place (d.all_shares x))))
  tpr_handle_dma-Rings ms end inner n fuel ticks x rest d a log l enough ev t few full words other
        empty r h =
      let (s, scanned, rings, same_words, mask, ticked) =
        scan-Rings rdtsc ms inner end [] rest (start_scan 0 ticks d) log ev t few words refl r in
      let drained = drain-one inner n ticks s d full scanned (next-not_done s d other empty) in
      let (d2, woken, marked, same_queues) =
        wake_apps-Woken (Lists-finish_buffer s d a l) fuel s.wmask enough x h in
      let (q, sh) = kept-enable_irq d2 in
      (
        enable_irq bus d2,
        handled inner (suc (suc n)) fuel ticks s.wmask d (finish_buffer bus s d) d2 drained woken,
        rw (q, same_queues) rings,
        rw (sh, ← mask) marked,
      )
