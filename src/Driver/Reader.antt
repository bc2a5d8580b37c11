-- ===== src/Driver/Reader.antt =====
-- What a reader of a channel finds in the queues.
use evr_card_g.Base.{ℕ, ◌+◌, ◌%◌, ◌≤◌, ◌<◌, ◌≡◌, some, List, [], ◌∷◌, length, arith}
use evr_card_g.Base.Bits.{bit}
use evr_card_g.Driver.Device.{Queues}
use evr_card_g.Driver.Queues.{max_tpr_allq, event_words, queue_event}
use evr_card_g.Driver.Rings.{Event, event_at, number_of, Holds, Rings}
use evr_card_g.Driver.Events.{queue_event-Rings, count-le, event-number_of}

-- The queues after the events of a log, the oldest one first.
abbrev pub queue_all : List Event → Queues → Queues
queue_all [] q = q
queue_all (e ∷ es) q = queue_event e.words e.tsc e.channels (queue_all es q)

abbrev pub AllWhole : List Event → Type 0
AllWhole [] = Unit {0}
AllWhole (e ∷ es) = (length e.words ≡ event_words) × AllWhole es

-- The write pointers of queues that were cleared.
pub record IsCleared (q : Queues) : Type 0 where
  pub no_events : q.gwp ≡ 0
  pub no_indices : (c : ℕ) → c < 14 → q.allwp c ≡ 0

pub queue_all-Rings :
    (log : List Event) (q : Queues) → IsCleared q → AllWhole log → Rings (queue_all log q) log
queue_all-Rings [] q clear whole = record {
  gwp_eq = clear.no_events;
  allwp_eq = clear.no_indices;
  kept = λ k e n. cc;
  indexed = λ c j i h n. cc;
}
queue_all-Rings (e ∷ es) q clear (w, whole) =
    queue_event-Rings e.words e.tsc e.channels (queue_all es q) es w
      (queue_all-Rings es q clear whole)

-- In queues that were cleared and took the events of a log, the index of number `j` of a channel
-- leads to the event of the log that has this number on this channel, with its words and its time
-- stamp, if at most 32768 events were queued from it on.
pub reader-Holds :
    (c j i : ℕ) (q : Queues) (log : List Event)
    → IsCleared q
    → AllWhole log
    → c < 14
    → number_of c log j ≡ some i
    → length log ≤ i + max_tpr_allq
    → let q' = queue_all log q in
      (e : Event) × (event_at log i ≡ some e)
      × (bit c e.channels ≡ 1)
      × Holds (q'.allq (q'.allrp c (j % max_tpr_allq) % max_tpr_allq)) e
reader-Holds c j i q log clear whole l n near =
    let r = queue_all-Rings log q clear whole in
    let (e, at, on) = event-number_of c log j i n in
    (e, at, on, rw (r.indexed c j i l n (omega (arith, count-le c log j i n))) (r.kept i e at near))
