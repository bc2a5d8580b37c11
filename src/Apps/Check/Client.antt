-- ===== src/Apps/Check/Client.antt =====
-- The frames of the test program are the events that the driver queued.
use evr_card_g.Base.{
  ℕ, zero, suc, ◌+◌, ◌-◌, ◌%◌, ◌≤◌, ◌<◌, ◌≡◌, refl, sym, ap, ◌∙◌, arith, List, [], ◌∷◌, length,
  take, get_or, some, bit_and,
}
use evr_card_g.Base.Bits.{bit}
use evr_card_g.Driver.Device.{Queues}
use evr_card_g.Driver.Queues.{max_tpr_allq, event_words}
use evr_card_g.Driver.Rings.{Event, event_at, number_of, low_bits}
use evr_card_g.Driver.Reader.{queue_all, AllWhole, IsCleared, reader-Holds}
use evr_card_g.Apps.Check.Frames.{parse_frame}
use evr_card_g.Apps.Check.Capture.{frame_words}

get_or-take : (n i : ℕ) (xs : List ℕ) → i < n → get_or (take n xs) i 0 ≡ get_or xs i 0
get_or-take zero i xs h = elim h [ ]
get_or-take (suc n) i [] h = refl
get_or-take (suc n) zero (x ∷ xs) h = refl
get_or-take (suc n) (suc i) (x ∷ xs) h = get_or-take n i xs (omega arith)

parse_frame-take : (xs : List ℕ) → parse_frame (take event_words xs) ≡ parse_frame xs
unfolding parse_frame
parse_frame-take xs =
    let at = λ (i : ℕ) (h : i < event_words). get_or-take event_words i xs h in
    rw (
      at 0 (omega arith),
      at 2 (omega arith),
      at 3 (omega arith),
      at 4 (omega arith),
      at 5 (omega arith),
    )

pub frame_words_lem :
    (c j : ℕ) (q : Queues)
    → frame_words c j q ≡ (q.allq (q.allrp c (j % max_tpr_allq) % max_tpr_allq)).word
frame_words_lem c j q =
    ap (λ x. (q.allq (bit_and (q.allrp c x) (max_tpr_allq - 1))).word) (low_bits j)
    ∙ ap (λ x. (q.allq x).word) (low_bits (q.allrp c (j % max_tpr_allq)))

-- In queues that were cleared and took the events of a log, the test program's frame at the read
-- pointer `j` of a channel is the event of the log that has this number on this channel: its
-- pulse and its time, if at most 32768 events were queued from it on.
pub frame-Reader :
    (c j i : ℕ) (q : Queues) (log : List Event)
    → IsCleared q
    → AllWhole log
    → c < 14
    → number_of c log j ≡ some i
    → length log ≤ i + max_tpr_allq
    → (e : Event) × (event_at log i ≡ some e)
      × (bit c e.channels ≡ 1)
      × (parse_frame (frame_words c j (queue_all log q)) ≡ parse_frame e.words)
frame-Reader c j i q log clear whole l n near =
    let (e, at, on, holds) = reader-Holds c j i q log clear whole l n near in
    let q' = queue_all log q in
    (
      e,
      at,
      on,
      ap parse_frame (frame_words_lem c j q')
          ∙ sym (parse_frame-take _)
          ∙ ap parse_frame holds.same_words,
    )
