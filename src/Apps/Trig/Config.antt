-- ===== src/Apps/Trig/Config.antt =====
-- software/app/tprtrig.cc: the arguments of the options, as the classes of triggers read them.
use evr_card_g.Base.{ℕ, ◌%◌, ◌^◌, ◌<◌, ◌≡◌, arith, List, [], ◌∷◌, none, some}
use evr_card_g.Base.Outcome.{Outcome, ok, undefined, ◌>>=◌}
use evr_card_g.Text.Numbers.{unsigned_of, behind_comma}
use evr_card_g.Text.Decimal.{decimal, strtoul-decimal}
use evr_card_g.Apps.Reals.{Reals, IsSpelled}

pub record PulseConfig (R : Type 0) : Type 0 where
  pub output : ℕ
  pub delay : R
  pub width : R
  pub polarity : ℕ

pub record FixedRateConfig (R : Type 0) : Type 0 where
  pub the_pulse : PulseConfig R
  pub rate : ℕ

pub record AcRateConfig (R : Type 0) : Type 0 where
  pub the_pulse : PulseConfig R
  pub rate : ℕ
  pub tsmask : ℕ

pub record SeqConfig (R : Type 0) : Type 0 where
  pub the_pulse : PulseConfig R
  pub seq : ℕ
  pub bit : ℕ

pub record BeamConfig (R : Type 0) : Type 0 where
  pub the_pulse : PulseConfig R

pub record GroupConfig (R : Type 0) : Type 0 where
  pub the_pulse : PulseConfig R
  pub group : ℕ

-- `endPtr+1`, to be read: at the end of the text that is behind the zero.
abbrev pub behind : List ℕ → Outcome (List ℕ)
behind [] = undefined
behind (c ∷ s) = ok s

-- `strtoul(endPtr+1,&endPtr,0)`
abbrev pub number_behind : List ℕ → Outcome (ℕ × List ℕ)
number_behind s = do t ← behind s; ok (unsigned_of t)

-- `(*endPtr==',') ? strtoul(endPtr+1,&endPtr,0) : 0`
abbrev pub polarity_of : List ℕ → ℕ
polarity_of s = elim (behind_comma s) [ none ↦ 0 | some t ↦ (unsigned_of t).0 ]

module _ (reals : Reals) where
  open reals use {Real, strtod, narrowed}

  -- `strtod(endPtr+1,&endPtr)`, as a float.
  abbrev pub real_behind : List ℕ → Outcome (Real × List ℕ)
  real_behind s = do t ← behind s; let (x, rest) = strtod t; ok (narrowed x, rest)

  unfoldable pub pulse_config : List ℕ → Outcome (PulseConfig Real × List ℕ)
  pulse_config arg = do
    let (output, s) = unsigned_of arg
    (delay, s₁) ← real_behind s
    (width, s₂) ← real_behind s₁
    ok (record { output = output; delay = delay; width = width; polarity = 0 }, s₂)

  unfoldable pub fixed_rate_config : List ℕ → Outcome (FixedRateConfig Real)
  unfolding pulse_config
  fixed_rate_config arg = do
    (pulse, s) ← pulse_config arg
    (rate, s₁) ← number_behind s
    ok (record { the_pulse = record pulse { polarity = polarity_of s₁ }; rate = rate })

  unfoldable pub ac_rate_config : List ℕ → Outcome (AcRateConfig Real)
  unfolding pulse_config
  ac_rate_config arg = do
    (pulse, s) ← pulse_config arg
    (rate, s₁) ← number_behind s
    (tsmask, s₂) ← number_behind s₁
    ok (record {
      the_pulse = record pulse { polarity = polarity_of s₂ };
      rate = rate;
      tsmask = tsmask;
    })

  unfoldable pub seq_config : List ℕ → Outcome (SeqConfig Real)
  unfolding pulse_config
  seq_config arg = do
    (pulse, s) ← pulse_config arg
    (seq, s₁) ← number_behind s
    (bit, s₂) ← number_behind s₁
    ok (record { the_pulse = record pulse { polarity = polarity_of s₂ }; seq = seq; bit = bit })

  unfoldable pub beam_config : List ℕ → Outcome (BeamConfig Real)
  unfolding pulse_config
  beam_config arg = do
    (pulse, s) ← pulse_config arg
    ok (record { the_pulse = record pulse { polarity = polarity_of s } })

  unfoldable pub group_config : List ℕ → Outcome (GroupConfig Real)
  unfolding pulse_config
  group_config arg = do
    (pulse, s) ← pulse_config arg
    (group, s₁) ← number_behind s
    ok (record { the_pulse = record pulse { polarity = polarity_of s₁ }; group = group })

-- The text of an option: numbers and reals with commas between them.
module _ (reals : Reals) (spell : reals.Real → List ℕ → List ℕ) where
  open reals use {Real}

  abbrev pub pulse_text : ℕ → Real → Real → List ℕ → List ℕ
  pulse_text output delay width s =
      decimal output (b',' ∷ spell delay (b',' ∷ spell width (b',' ∷ s)))

  module _ (spelled : IsSpelled reals spell) where
    -- The argument of `-s`, written with all its parts, gives these parts: the sequence and its
    -- bit, and the pulse with its polarity.
    pub seq_config-text :
        (output seq bit polarity : ℕ) (delay width : Real)
        → output < 2 ^ 32
        → seq < 2 ^ 32
        → bit < 2 ^ 32
        → polarity < 2 ^ 32
        → seq_config reals (
            pulse_text output delay width
              (decimal seq (b',' ∷ decimal bit (b',' ∷ decimal polarity []))))
          ≡ ok (record {
            the_pulse = record {
              output = output;
              delay = reals.narrowed delay;
              width = reals.narrowed width;
              polarity = polarity;
            };
            seq = seq;
            bit = bit;
          })
    unfolding seq_config
    seq_config-text output seq bit polarity delay width ho hs hb hp =
        let last = decimal polarity [] in
        let bit_on = decimal bit (b',' ∷ last) in
        let seq_on = decimal seq (b',' ∷ bit_on) in
        let read_output : output % 2 ^ 32 ≡ output = omega arith in
        let read_seq : seq % 2 ^ 32 ≡ seq = omega arith in
        let read_bit : bit % 2 ^ 32 ≡ bit = omega arith in
        let read_polarity : polarity % 2 ^ 32 ≡ polarity = omega arith in
        rw (
          strtoul-decimal output (b',' ∷ spell delay (b',' ∷ spell width (b',' ∷ seq_on)))
              (omega arith) (omega arith),
          spelled.strtod_spell delay (spell width (b',' ∷ seq_on)),
          spelled.strtod_spell width seq_on,
          strtoul-decimal seq (b',' ∷ bit_on) (omega arith) (omega arith),
          strtoul-decimal bit (b',' ∷ last) (omega arith) (omega arith),
          strtoul-decimal polarity [] (omega arith) tt,
          read_output,
          read_seq,
          read_bit,
          read_polarity,
        )

  -- An argument that is the number of the output alone is read behind its end, whatever the option.
  pub config_output_only :
      (output : ℕ)
      → output < 2 ^ 32
      → let text = decimal output [] in
        (fixed_rate_config reals text ≡ undefined)
        × (ac_rate_config reals text ≡ undefined)
        × (seq_config reals text ≡ undefined)
        × (beam_config reals text ≡ undefined)
        × (group_config reals text ≡ undefined)
  unfolding fixed_rate_config ac_rate_config seq_config beam_config group_config
  config_output_only output h =
      let read = strtoul-decimal output [] (omega arith) tt in
      (rw read, rw read, rw read, rw read, rw read)
