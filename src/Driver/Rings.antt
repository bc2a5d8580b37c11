-- ===== src/Driver/Rings.antt =====
-- The queues of the events against the events themselves.
use evr_card_g.Base.{
  ℕ, zero, suc, ◌+◌, ◌-◌, ◌%◌, ◌≤◌, ◌<◌, ◌≡◌, refl, Option, none, some, List, [], ◌∷◌, length, take,
  ◌==◌, ◌&&◌, leb, if◌then◌else◌, arith, bit_and, ==_iff,
}
use evr_card_g.Base.Bits.{bit, bit_and_low, bit-zero}
use evr_card_g.Regs.Word.{clear_bit, test_bit_lem, bit-le-one}
use evr_card_g.Driver.Device.{Entry, Queues}
use evr_card_g.Driver.Minors.{bit-clear_bit}
use evr_card_g.Driver.Queues.{max_tpr_allq, event_words, index_channel, index_channels}

-- An event that was received: the channels it is for, its words and its time stamp.
pub record Event : Type 0 where
  pub channels : ℕ
  pub words : List ℕ
  pub tsc : ℕ

-- A log has the newest event first; its oldest one is number 0.
abbrev pub event_at : List Event → ℕ → Option Event
event_at [] k = none
event_at (e ∷ es) k = let rest = event_at es k in if k == length es then some e else rest

-- How many of the events are for a channel, and which one is number `j` among those.
abbrev pub count : ℕ → List Event → ℕ
count c [] = 0
count c (e ∷ es) = count c es + bit c e.channels

abbrev pub number_of : ℕ → List Event → ℕ → Option ℕ
number_of c [] j = none
number_of c (e ∷ es) j =
    let rest = number_of c es j in
    if (bit c e.channels == 1) && (j == count c es) then some (length es) else rest

pub record Holds (entry : Entry) (e : Event) : Type 0 where
  pub same_words : take event_words entry.word ≡ e.words
  pub same_tsc : entry.fifo_tsc ≡ e.tsc

-- The queues have the last `max_tpr_allq` events, and of each channel the numbers of its last ones.
pub record Rings (q : Queues) (log : List Event) : Type 0 where
  pub gwp_eq : q.gwp ≡ length log
  pub allwp_eq : (c : ℕ) → c < 14 → q.allwp c ≡ count c log
  pub kept :
      (k : ℕ) (e : Event)
      → event_at log k ≡ some e
      → length log ≤ k + max_tpr_allq
      → Holds (q.allq (k % max_tpr_allq)) e
  pub indexed :
      (c j i : ℕ)
      → c < 14
      → number_of c log j ≡ some i
      → count c log ≤ j + max_tpr_allq
      → q.allrp c (j % max_tpr_allq) ≡ i

pub low_bits : (x : ℕ) → bit_and x (max_tpr_allq - 1) ≡ x % max_tpr_allq
low_bits x = bit_and_low 15 x

-- The loop over the channels leaves the events, and counts and indexes the channels of the mask.
pub same-index_channels :
    (n ich mch : ℕ) (q : Queues)
    → ((index_channels n ich mch q).allq ≡ q.allq) × ((index_channels n ich mch q).gwp ≡ q.gwp)
unfolding index_channels
same-index_channels zero ich mch q = (refl, refl)
same-index_channels (suc n) ich mch q =
    let hit = same-index_channels n (ich + 1) (clear_bit ich mch) (index_channel ich q) in
    let miss = same-index_channels n (ich + 1) mch q in
    (ground (arith, hit.0, miss.0), ground (arith, hit.1, miss.1))

pub allwp-index_channels :
    (n ich mch c : ℕ) (q : Queues)
    → ich + n ≤ 14
    → c < ich + n
    → (index_channels n ich mch q).allwp c ≡ q.allwp c + (if leb ich c then bit c mch else 0)
unfolding index_channels
allwp-index_channels zero ich mch c q h l = ground arith
allwp-index_channels (suc n) ich mch c q h l = ground (
  arith,
  allwp-index_channels n (ich + 1) (clear_bit ich mch) c (index_channel ich q) (omega arith)
      (omega arith),
  allwp-index_channels n (ich + 1) mch c q (omega arith) (omega arith),
  bit-clear_bit c ich mch (omega arith) (omega arith),
  test_bit_lem ich mch,
  bit-le-one ich mch,
  bit-zero c,
  ==_iff c ich,
)

pub allrp-index_channels :
    (n ich mch c j : ℕ) (q : Queues)
    → ich + n ≤ 14
    → c < ich + n
    → (index_channels n ich mch q).allrp c j ≡ (
        if leb ich c && ((bit c mch == 1) && (j == q.allwp c % max_tpr_allq))
        then q.gwp
        else q.allrp c j)
unfolding index_channels
allrp-index_channels zero ich mch c j q h l = ground arith
allrp-index_channels (suc n) ich mch c j q h l = ground (
  arith,
  allrp-index_channels n (ich + 1) (clear_bit ich mch) c j (index_channel ich q) (omega arith)
      (omega arith),
  allrp-index_channels n (ich + 1) mch c j q (omega arith) (omega arith),
  bit-clear_bit c ich mch (omega arith) (omega arith),
  test_bit_lem ich mch,
  bit-le-one ich mch,
  bit-zero c,
  ==_iff c ich,
  low_bits (q.allwp ich),
)
