-- ===== src/Driver/Delivery.antt =====
-- A buffer of events, from its words to the queues.
use evr_card_g.Base.{
  ℕ, zero, suc, ◌+◌, ◌-◌, ◌^◌, ◌<◌, ◌≡◌, refl, sym, ◌∙◌, ap, true, List, [], ◌∷◌, ◌++◌, length,
  get_elem?, leb, arith, bit_and, bit_or, append_assoc, length-append, drop-append,
  get_elem?-append, take-append_exact,
}
use evr_card_g.Base.Outcome.{ok, value}
use evr_card_g.Base.Run.{done}
use evr_card_g.Driver.Device.{mod_shared}
use evr_card_g.Driver.Queues.{event_words}
use evr_card_g.Driver.Messages.{
  Scan, tag, message, word_at, note_message, count_event, take_event, event_message, handle_message,
}
use evr_card_g.Driver.Dma.{scan}
use evr_card_g.Driver.Rings.{Event, Rings}
use evr_card_g.Driver.Events.{queue_event-Rings}

-- An event as the card sends it: its first word, the size, and 21 words more.
pub record Sent : Type 0 where
  pub first : ℕ
  pub body : List ℕ

abbrev pub sent_words : Sent → List ℕ
sent_words m = m.first ∷ 21 ∷ m.body

abbrev pub IsEvent : Sent → Type 0
IsEvent m = (tag m.first ≡ 0) × (length m.body ≡ 21)

abbrev pub AreEvents : List Sent → Type 0
AreEvents [] = Unit {0}
AreEvents (m ∷ ms) = IsEvent m × AreEvents ms

abbrev pub all_words : List Sent → List ℕ
all_words [] = []
all_words (m ∷ ms) = sent_words m ++ all_words ms

abbrev pub channels_of : Sent → ℕ
channels_of m = bit_and m.first (2 ^ mod_shared - 1)

-- The log after these events, whose time stamps are the clock's from number `ticks` on.
abbrev pub logged : (ℕ → ℕ) → ℕ → List Sent → List Event → List Event
logged rdtsc ticks [] log = log
logged rdtsc ticks (m ∷ ms) log =
    logged rdtsc (ticks + 1) ms
      (record { channels = channels_of m; words = sent_words m; tsc = rdtsc ticks } ∷ log)

-- The channels of all of these.
abbrev pub all_channels : ℕ → List Sent → ℕ
all_channels mask [] = mask
all_channels mask (m ∷ ms) = all_channels (bit_or mask (channels_of m)) ms

word-first :
    (k : ℕ) (pre rest : List ℕ) (s : Scan)
    → s.words ≡ pre ++ rest
    → s.at ≡ length pre
    → word_at k s ≡ value (get_elem? rest k)
word-first k pre rest s e a = ap value (rw (e, a) (get_elem?-append pre rest k))

message-whole :
    (pre msg rest : List ℕ) (s : Scan)
    → s.words ≡ pre ++ (msg ++ rest)
    → s.at ≡ length pre
    → length msg ≡ event_words
    → message event_words s ≡ ok msg
message-whole pre msg rest s e a l =
    rw (e, a, fits, drop-append pre (msg ++ rest))
      (ap ok (take-append_exact event_words msg rest l))
  where
    fits : leb (length pre + event_words) (length (pre ++ (msg ++ rest))) ≡ true
    fits = ground (arith, length-append pre (msg ++ rest), length-append msg rest)

event_message-ok :
    (tsc w : ℕ) (msg : List ℕ) (s : Scan)
    → word_at 1 s ≡ ok 21
    → message event_words s ≡ ok msg
    → event_message tsc w s
      ≡ ok (take_event tsc (bit_and w (2 ^ mod_shared - 1)) msg (count_event s))
unfolding event_message
event_message-ok tsc w msg s e f = rw (e, f) refl

handle-event :
    (rdtsc : ℕ → ℕ) (m : Sent) (pre rest : List ℕ) (s : Scan)
    → s.words ≡ pre ++ (sent_words m ++ rest)
    → s.at ≡ length pre
    → IsEvent m
    → handle_message rdtsc m.first s
      ≡ ok (
          take_event
            (rdtsc s.ticks)
            (channels_of m)
            (sent_words m)
            (count_event (note_message m.first s)))
unfolding handle_message
handle-event rdtsc m pre rest s e a (t, l) =
    let s1 = note_message m.first s in
    let size = word-first 1 pre (sent_words m ++ rest) s1 e a in
    let whole = message-whole pre (sent_words m) rest s1 e a (omega arith) in
    rw (t) (event_message-ok (rdtsc s.ticks) m.first (sent_words m) s1 size whole)

Rings-note_message :
    (w : ℕ) (s : Scan) (log : List Event) → Rings s.queues log → Rings (note_message w s).queues log
Rings-note_message w s log r = record {
  gwp_eq = r.gwp_eq;
  allwp_eq = r.allwp_eq;
  kept = r.kept;
  indexed = r.indexed;
}

-- A buffer of events, up to a word with the tag of an end, is scanned to this end: each event is
-- queued, in order and with its channels and its time stamp, and the channels of all of them are
-- to be woken.
pub scan-Rings :
    (rdtsc : ℕ → ℕ) (ms : List Sent) (fuel end : ℕ) (pre rest : List ℕ) (s : Scan)
    (log : List Event)
    → AreEvents ms
    → tag end ≡ 15
    → length ms < fuel
    → s.words ≡ pre ++ (all_words ms ++ (end ∷ rest))
    → s.at ≡ length pre
    → Rings s.queues log
    → (s' : Scan) × (scan rdtsc fuel s ≡ done s')
      × Rings s'.queues (logged rdtsc s.ticks ms log)
      × (s'.words ≡ s.words)
      × (s'.wmask ≡ all_channels s.wmask ms)
      × (s'.ticks ≡ s.ticks + length ms)
unfolding scan
scan-Rings rdtsc ms zero end pre rest s log ev t f e a r = absurd (omega arith)
scan-Rings rdtsc [] (suc n) end pre rest s log ev t f e a r =
    (s, rw (word-first 0 pre (end ∷ rest) s e a, t) refl, r, refl, refl, omega arith)
scan-Rings rdtsc (m ∷ ms) (suc n) end pre rest s log (ev, evs) t f e a r =
    let words_eq : s.words ≡ pre ++ (sent_words m ++ (all_words ms ++ (end ∷ rest))) =
      e ∙ ap (λ t. pre ++ t) (append_assoc (sent_words m) (all_words ms) (end ∷ rest)) in
    let log1 =
      record { channels = channels_of m; words = sent_words m; tsc = rdtsc s.ticks } ∷ log in
    let s0 = count_event (note_message m.first s) in
    let s1 = take_event (rdtsc s.ticks) (channels_of m) (sent_words m) s0 in
    let r1 =
      queue_event-Rings (sent_words m) (rdtsc s.ticks) (channels_of m) s0.queues log (omega arith)
        (Rings-note_message m.first s log r) in
    let e1 = words_eq ∙ sym (append_assoc pre (sent_words m) (all_words ms ++ (end ∷ rest))) in
    let (s', ok', r', w', k', t') =
      scan-Rings rdtsc ms n end (pre ++ sent_words m) rest s1 log1 evs t (omega arith) e1
        (omega (arith, length-append pre (sent_words m), a)) r1 in
    (
      s',
      rw
          (
            word-first 0 pre (sent_words m ++ (all_words ms ++ (end ∷ rest))) s words_eq a,
            ev.0,
            handle-event rdtsc m pre (all_words ms ++ (end ∷ rest)) s words_eq a ev,
          )
          ok',
      r',
      w',
      k',
      omega arith,
    )
