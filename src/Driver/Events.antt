-- ===== src/Driver/Events.antt =====
-- The invariant of the event queues, and what a reader finds in them.
use evr_card_g.Base.{
  ℕ, zero, suc, ◌+◌, ◌-◌, ◌%◌, ◌≤◌, ◌<◌, ◌≡◌, refl, ◌∙◌, ap, false, some, List, [], ◌∷◌, length,
  take, drop, update, ◌==◌, ◌&&◌, arith, bit_and, Bool-cases, inl, inr, ==_iff, ◌++◌,
}
use mathlib.Core.Path.{subst}
use evr_card_g.Base.Bits.{bit}
use evr_card_g.Regs.Word.{bit-le-one}
use evr_card_g.Driver.Device.{Entry, Queues}
use evr_card_g.Driver.Queues.{max_tpr_allq, event_words, fill_entry, index_channels, queue_event}
use evr_card_g.Driver.Rings.{
  Event, event_at, count, number_of, Holds, Rings, low_bits, same-index_channels,
  allwp-index_channels, allrp-index_channels,
}

-- Places in a ring that differ by less than its size.
mod_ne : (k l : ℕ) → k < l → l < k + max_tpr_allq → (k % max_tpr_allq == l % max_tpr_allq) ≡ false
mod_ne k l h g = ground arith

event_at-lt : (log : List Event) (k : ℕ) (e : Event) → event_at log k ≡ some e → k < length log
event_at-lt [] k e h = cc
event_at-lt (x ∷ xs) k e h = ground (arith, event_at-lt xs k e)

number_of-lt : (c : ℕ) (log : List Event) (j i : ℕ) → number_of c log j ≡ some i → j < count c log
number_of-lt c [] j i h = cc
number_of-lt c (x ∷ xs) j i h = ground (arith, number_of-lt c xs j i)

take-take_append :
    {A : Type 0} (n : ℕ) (xs ys : List A) → length xs ≡ n → take n (take n xs ++ ys) ≡ xs
take-take_append zero [] ys h = refl
take-take_append zero (x ∷ xs) ys h = absurd (omega arith)
take-take_append (suc n) [] ys h = absurd (omega arith)
take-take_append (suc n) (x ∷ xs) ys h = ap (λ t. x ∷ t) (take-take_append n xs ys (omega arith))

Holds-fill_entry :
    (words : List ℕ) (tsc mask : ℕ) (e : Entry)
    → length words ≡ event_words
    → Holds
        (fill_entry words event_words tsc e)
        (record { channels = mask; words = words; tsc = tsc })
Holds-fill_entry words tsc mask e h = record {
  same_words = take-take_append event_words words (drop event_words e.word) h;
  same_tsc = refl;
}

-- An event that is queued is added to what the queues have.
pub queue_event-Rings :
    (words : List ℕ) (tsc mask : ℕ) (q : Queues) (log : List Event)
    → length words ≡ event_words
    → Rings q log
    → Rings
        (queue_event words tsc mask q)
        (record { channels = mask; words = words; tsc = tsc } ∷ log)
unfolding queue_event
queue_event-Rings words tsc mask q log h r = record {
  gwp_eq = ground (arith, r.gwp_eq, (same 14 q1).1);
  allwp_eq =
      λ c l. ground (arith, r.allwp_eq c l, allwp-index_channels 14 0 mask c q1 (omega arith) l);
  kept = λ k e at near. rw ((same 14 q1).0) (kept_q1 k e at near);
  indexed = indexed_q1;
}
  where
    i0 : ℕ
    i0 = bit_and q.gwp (max_tpr_allq - 1)

    e1 : Entry
    e1 = fill_entry words event_words tsc (q.allq i0)

    q1 : Queues
    q1 = record q { allq = update q.allq i0 e1 }

    e0 : Event
    e0 = record { channels = mask; words = words; tsc = tsc }

    kept_q1 :
        (k : ℕ) (e : Event)
        → event_at (e0 ∷ log) k ≡ some e
        → suc (length log) ≤ k + max_tpr_allq
        → Holds (q1.allq (k % max_tpr_allq)) e
    kept_q1 k e at near = elim (Bool-cases (k == length log)) [
      | inl new ↦
          let slot : q1.allq (k % max_tpr_allq) ≡ e1 =
            ground (arith, low_bits q.gwp, r.gwp_eq, ==_iff k (length log)) in
          let same_event : e0 ≡ e = ground arith in
          rw (slot)
            (subst (λ x. Holds e1 x) same_event (Holds-fill_entry words tsc mask (q.allq i0) h))
      | inr old ↦
          let before : event_at log k ≡ some e = ground arith in
          let apart = mod_ne k (length log) (event_at-lt log k e before) (omega arith) in
          let slot : q1.allq (k % max_tpr_allq) ≡ q.allq (k % max_tpr_allq) =
            ground (arith, low_bits q.gwp, r.gwp_eq) in
          rw (slot) (r.kept k e before (omega arith))
    ]

    indexed_q1 :
        (c j i : ℕ)
        → c < 14
        → number_of c (e0 ∷ log) j ≡ some i
        → count c (e0 ∷ log) ≤ j + max_tpr_allq
        → (index_channels 14 0 mask q1).allrp c (j % max_tpr_allq) ≡ i
    indexed_q1 c j i l n near =
        let loop = allrp-index_channels 14 0 mask c (j % max_tpr_allq) q1 (omega arith) l in
        elim (Bool-cases ((bit c mask == 1) && (j == count c log))) [
          | inl hit ↦ loop ∙ ground (arith, r.gwp_eq, r.allwp_eq c l, ==_iff j (count c log))
          | inr miss ↦
              let before : number_of c log j ≡ some i = ground arith in
              let below = number_of-lt c log j i before in
              loop
              ∙ ground (
                arith,
                r.gwp_eq,
                r.allwp_eq c l,
                r.indexed c j i l before,
                mod_ne j (count c log) below,
                bit-le-one c mask,
              )
        ]

    same :
        (n : ℕ) (q : Queues)
        → ((index_channels n 0 mask q).allq ≡ q.allq) × ((index_channels n 0 mask q).gwp ≡ q.gwp)
    same n q = same-index_channels n 0 mask q

-- In the log, each event after number `i` counts once at most for a channel.
pub count-le :
    (c : ℕ) (log : List Event) (j i : ℕ)
    → number_of c log j ≡ some i
    → count c log + i ≤ length log + j
count-le c [] j i h = cc
count-le c (x ∷ xs) j i h = ground (arith, count-le c xs j i, bit-le-one c x.channels)

pub event-number_of :
    (c : ℕ) (log : List Event) (j i : ℕ)
    → number_of c log j ≡ some i
    → (e : Event) × (event_at log i ≡ some e) × (bit c e.channels ≡ 1)
event-number_of c [] j i h = cc
event-number_of c (x ∷ xs) j i h =
    elim (Bool-cases ((bit c x.channels == 1) && (j == count c xs))) [
      | inl hit ↦ (x, ground arith, ground arith)
      | inr miss ↦
          let (e, at, on) = event-number_of c xs j i (ground arith) in
          (e, ground (arith, event_at-lt xs i e), on)
    ]

pub number_of-some :
    (c : ℕ) (log : List Event) (j : ℕ) → j < count c log → (i : ℕ) × (number_of c log j ≡ some i)
number_of-some c [] j h = absurd (omega arith)
number_of-some c (x ∷ xs) j h = elim (Bool-cases ((bit c x.channels == 1) && (j == count c xs))) [
  | inl hit ↦ (length xs, rw (hit) refl)
  | inr miss ↦
      let (i, e) = number_of-some c xs j (ground (arith, bit-le-one c x.channels)) in
      (i, rw (miss) e)
]
