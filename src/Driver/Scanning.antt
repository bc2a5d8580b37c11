-- ===== src/Driver/Scanning.antt =====
-- The end of the loop over the messages of a buffer, whatever the buffer holds.
use evr_card_g.Base.{
  ℕ, zero, suc, ◌+◌, ◌-◌, ◌*◌, ◌%◌, ◌^◌, ◌≤◌, ◌<◌, ◌≡◌, ◌⊎◌, inl, inr, refl, ap, Bool, true, false,
  some, List, [], ◌∷◌, length, bit_and, get_elem?, set, get_elem?-set_self, ◌==◌, if◌then◌else◌,
  arith, Bool-cases, Option-cases,
}
use evr_card_g.Base.Outcome.{Outcome, ok, out_of_range, undefined, value, ◌>>=◌, >>=-eq-ok}
use mathlib.Core.Path.{subst}
use evr_card_g.Base.Run.{done}
use evr_card_g.Driver.Messages.{
  Scan, tag, end_word, message, word_at, bsa_message, event_message, handle_message, note_message,
  count_event, count_error, take_event, terminate, event_msgsz, bsacntl_tag, bsaevnt_tag, event_tag,
}
use evr_card_g.Driver.Queues.{bsa_words, event_words}
use evr_card_g.Driver.Device.{mod_shared}
use evr_card_g.Driver.Dma.{scan}

-- A round either goes on by 11 words or more, within the buffer, or ends the buffer where it stands.
pub data Advanced (s s' : Scan) : Type 0 where
  went_on : s'.words ≡ s.words → s.at + 11 ≤ s'.at → s'.at ≤ length s.words → Advanced s s'
  ended : s'.words ≡ set s.words s.at end_word → s'.at ≡ s.at → Advanced s s'

of_ok : {A : Type 0} → A → Outcome A → A
of_ok d (ok a) = a
of_ok d out_of_range = d
of_ok d undefined = d

ok_inj : {A : Type 0} {a b : A} → ok a ≡ ok b → a ≡ b
unfolding of_ok
ok_inj {a} e = ap (of_ok a) e

message_fits : (n : ℕ) (s : Scan) (msg : List ℕ) → message n s ≡ ok msg → s.at + n ≤ length s.words
message_fits n s msg e = ground (arith, e)

went_on_eq :
    {s t s' : Scan}
    → t ≡ s'
    → t.words ≡ s.words
    → s.at + 11 ≤ t.at
    → t.at ≤ length s.words
    → Advanced s s'
went_on_eq {s} e w g l = subst (λ x. Advanced s x) e (went_on w g l)

bsa_message-Advanced : (tsc t : ℕ) (s s' : Scan) → bsa_message tsc t s ≡ ok s' → Advanced s s'
unfolding bsa_message
bsa_message-Advanced tsc t s s' e =
    let (msg, whole, last) = >>=-eq-ok (message bsa_words s) _ e in
    went_on_eq (ok_inj last) refl (omega arith) (message_fits bsa_words s msg whole)

event_body-Advanced :
    (tsc mch : ℕ) (size_fits : Bool) (s s' : Scan)
    → (if size_fits
        then (message event_words s >>= (λ msg. ok (take_event tsc mch msg s)))
        else ok (terminate (count_error s)))
      ≡ ok s'
    → Advanced s s'
event_body-Advanced tsc mch true s s' e =
    let (msg, whole, last) = >>=-eq-ok (message event_words s) _ e in
    went_on_eq (ok_inj last) refl (omega arith) (message_fits event_words s msg whole)
event_body-Advanced tsc mch false s s' e = subst (λ x. Advanced s x) (ok_inj e) (ended refl refl)

event_message-Advanced : (tsc w : ℕ) (s s' : Scan) → event_message tsc w s ≡ ok s' → Advanced s s'
unfolding event_message
event_message-Advanced tsc w s s' e =
    let (size, there, body) = >>=-eq-ok (word_at 1 (count_event s)) _ e in
    kept (
      event_body-Advanced tsc (bit_and w (2 ^ mod_shared - 1))
        ((size * 4 + 8) % 2 ^ 32 == event_msgsz) (count_event s) s' body)
  where
    kept : Advanced (count_event s) s' → Advanced s s'
    kept (went_on w g l) = went_on w g l
    kept (ended w g) = ended w g

handle_body-Advanced :
    (rdtsc : ℕ → ℕ) (w : ℕ) (is_ctl is_bsa is_event : Bool) (s s' : Scan)
    → (if is_ctl
        then bsa_message (rdtsc s.ticks) (tag w) (note_message w s)
        else if is_bsa
        then bsa_message (rdtsc s.ticks) (tag w) (note_message w s)
        else if is_event
        then event_message (rdtsc s.ticks) w (note_message w s)
        else ok (terminate (note_message w s)))
      ≡ ok s'
    → Advanced (note_message w s) s'
handle_body-Advanced rdtsc w true b c s s' e =
    bsa_message-Advanced (rdtsc s.ticks) (tag w) (note_message w s) s' e
handle_body-Advanced rdtsc w false true c s s' e =
    bsa_message-Advanced (rdtsc s.ticks) (tag w) (note_message w s) s' e
handle_body-Advanced rdtsc w false false true s s' e =
    event_message-Advanced (rdtsc s.ticks) w (note_message w s) s' e
handle_body-Advanced rdtsc w false false false s s' e =
    subst (λ x. Advanced (note_message w s) x) (ok_inj e) (ended refl refl)

pub handle_message-Advanced :
    (rdtsc : ℕ → ℕ) (w : ℕ) (s s' : Scan) → handle_message rdtsc w s ≡ ok s' → Advanced s s'
unfolding handle_message
handle_message-Advanced rdtsc w s s' e = kept (
    handle_body-Advanced rdtsc w (tag w == bsacntl_tag) (tag w == bsaevnt_tag) (tag w == event_tag)
      s s' e)
  where
    kept : Advanced (note_message w s) s' → Advanced s s'
    kept (went_on w g l) = went_on w g l
    kept (ended w g) = ended w g

Outcome-cases :
    {A : Type 0} (o : Outcome A) → ((a : A) × (o ≡ ok a)) ⊎ ((o ≡ out_of_range) ⊎ (o ≡ undefined))
Outcome-cases (ok a) = inl (a, refl)
Outcome-cases out_of_range = inr (inl refl)
Outcome-cases undefined = inr (inr refl)

get_elem?-lt : (xs : List ℕ) (k w : ℕ) → get_elem? xs k ≡ some w → k < length xs
get_elem?-lt [] k w e = cc
get_elem?-lt (x ∷ xs) zero w e = omega arith
get_elem?-lt (x ∷ xs) (suc k) w e = omega (arith, get_elem?-lt xs k w e)

-- The round after an end.
scan-ended :
    (rdtsc : ℕ → ℕ) (n : ℕ) (s s1 : Scan)
    → 1 ≤ n
    → s.at < length s.words
    → s1.words ≡ set s.words s.at end_word
    → s1.at ≡ s.at
    → scan rdtsc n s1 ≡ done s1
unfolding scan
scan-ended rdtsc zero s s1 h l w a = absurd (omega arith)
scan-ended rdtsc (suc n) s s1 h l w a = rw (stored) refl
  where
    same_place : s.at + 0 ≡ s.at
    same_place = omega arith

    looked : get_elem? s1.words (s1.at + 0) ≡ some end_word
    looked = rw (w, a, same_place) (get_elem?-set_self s.words s.at end_word l)

    stored : word_at 0 s1 ≡ ok end_word
    stored = ap value looked

-- Enough fuel for the words that are left is enough for the loop: it comes to an end, or to words
-- past the buffer.
pub scan_total :
    (rdtsc : ℕ → ℕ) (fuel : ℕ) (s : Scan)
    → s.at ≤ length s.words
    → length s.words + 2 ≤ fuel + s.at
    → (o : Outcome Scan) × (scan rdtsc fuel s ≡ some o)
unfolding scan
scan_total rdtsc zero s l h = absurd (omega arith)
scan_total rdtsc (suc n) s l h = elim (Option-cases (get_elem? s.words (s.at + 0))) [
  | inl e ↦ (undefined, rw (e) refl)
  | inr (w, e) ↦ elim (Bool-cases (tag w == 15)) [
    | inl t ↦ (ok s, rw (e, t) refl)
    | inr go ↦ elim (Outcome-cases (handle_message rdtsc w s)) [
      | inl (s1, m) ↦
          let (o, f) =
            after s1 (get_elem?-lt s.words (s.at + 0) w e) (handle_message-Advanced rdtsc w s s1 m)
              (scan_total rdtsc n s1) in
          (o, rw (e, go, m) f)
      | inr (inl m) ↦ (out_of_range, rw (e, go, m) refl)
      | inr (inr m) ↦ (undefined, rw (e, go, m) refl)
    ]
  ]
]
  where
    after :
        (s1 : Scan)
        → s.at + 0 < length s.words
        → Advanced s s1
        → (s1.at ≤ length s1.words
            → length s1.words + 2 ≤ n + s1.at
            → (o : Outcome Scan) × (scan rdtsc n s1 ≡ some o))
        → (o : Outcome Scan) × (scan rdtsc n s1 ≡ some o)
    after s1 b (went_on w g k) ih = ih (rw (w) k) (rw (w) (omega arith))
    after s1 b (ended w g) ih = (ok s1, scan-ended rdtsc n s s1 (omega arith) (omega arith) w g)
