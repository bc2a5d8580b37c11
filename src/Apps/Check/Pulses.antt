-- ===== src/Apps/Check/Pulses.antt =====
-- What the capture of the test program says of the pulses of its frames.
use evr_card_g.Base.{
  ℕ, zero, suc, ◌+◌, ◌-◌, ◌*◌, ◌/◌, ◌%◌, ◌^◌, ◌≤◌, ◌<◌, ◌≡◌, ◌↔◌, refl, sym, ap, ◌∙◌, arith, Bool,
  true, ◌==◌, ==_iff, if◌then◌else◌, Bool-cases, inl, inr, List, [], ◌∷◌, length, ltb, Option, some,
  bit_and,
}
use evr_card_g.Base.Bits.{bit_or_sum, bit_and_low}
use evr_card_g.Base.Bits.Digits.{bit_and-digit}
use native.Mathlib.Nat.{pow-suc, div-div-eq-div-mul}
use evr_card_g.Driver.Device.{Queues}
use evr_card_g.Apps.Check.Link.{TimingMode, lcls1, lcls2, ued}
use evr_card_g.Apps.Check.Frames.{Frame, parse_frame}
use evr_card_g.Apps.Check.Capture.{
  next_pulse, Verdict, FrameReader, frame_words, take_frame, judge_frame, capture,
}

bit_and_shift : (k a m : ℕ) → bit_and a (m * 2 ^ k) ≡ bit_and (a / 2 ^ k) m * 2 ^ k
bit_and_shift zero a m =
    let one : m * 2 ^ 0 ≡ m = omega arith in
    let whole : a / 2 ^ 0 ≡ a = omega arith in
    omega (arith, ap (bit_and a) one, ap (λ (t : ℕ). bit_and t m) whole)
bit_and_shift (suc k) a m =
    let double : m * 2 ^ suc k ≡ m * 2 ^ k * 2 =
      omega (arith, ap (λ (t : ℕ). m * t) (pow-suc 2 k)) in
    let half : m * 2 ^ suc k / 2 ≡ m * 2 ^ k = omega (arith, double) in
    let quotient : a / 2 / 2 ^ k ≡ a / 2 ^ suc k =
      div-div-eq-div-mul a 2 (2 ^ k) ∙ ap (λ (t : ℕ). a / t) (omega (arith, pow-suc 2 k)) in
    let x = bit_and (a / 2 ^ suc k) m in
    omega (
      arith,
      bit_and-digit a (m * 2 ^ suc k),
      double,
      ap (bit_and (a / 2)) half,
      bit_and_shift k (a / 2) m,
      ap (λ (t : ℕ). bit_and t m * 2 ^ k) quotient,
      ap (λ (t : ℕ). x * t) (pow-suc 2 k),
    )

-- The pulse that LCLS-I compares with: the upper bits of the pulse itself, and the lowest 17 bits of
-- the one that is to follow.
next_pulse_sum :
    (prev pulse : ℕ)
    → pulse < 2 ^ 64
    → next_pulse lcls1 prev pulse ≡ pulse / 2 ^ 17 * 2 ^ 17 + (prev + 1) % 2 ^ 17
unfolding next_pulse
next_pulse_sum prev pulse h =
    let following = (prev + 1) % 2 ^ 64 in
    let high : bit_and pulse (2 ^ 64 - 2 ^ 17) ≡ pulse / 2 ^ 17 * 2 ^ 17 =
      bit_and_shift 17 pulse (2 ^ 47 - 1)
      ∙ ap (λ (t : ℕ). t * 2 ^ 17) (bit_and_low 47 (pulse / 2 ^ 17) ∙ omega arith) in
    let low : bit_and following (2 ^ 17 - 1) ≡ (prev + 1) % 2 ^ 17 =
      bit_and_low 17 following ∙ omega arith in
    rw (high, low) (bit_or_sum 17 (pulse / 2 ^ 17) ((prev + 1) % 2 ^ 17) (omega arith))

-- Whether a pulse follows the one before it: modulo 2 ^ 64, or for LCLS-I modulo 2 ^ 17.
abbrev pub Succeeds : TimingMode → ℕ → ℕ → Type 0
Succeeds lcls1 prev pulse = pulse % 2 ^ 17 ≡ (prev + 1) % 2 ^ 17
Succeeds lcls2 prev pulse = pulse ≡ (prev + 1) % 2 ^ 64
Succeeds ued prev pulse = pulse ≡ (prev + 1) % 2 ^ 64

next_pulse-Succeeds :
    (mode : TimingMode) (prev pulse : ℕ)
    → pulse < 2 ^ 64
    → (pulse ≡ next_pulse mode prev pulse) ↔ Succeeds mode prev pulse
unfolding next_pulse
next_pulse-Succeeds lcls1 prev pulse h =
    let sum = next_pulse_sum prev pulse h in
    ((λ e. omega (arith, sum, e)), (λ e. omega (arith, sum, e)))
next_pulse-Succeeds lcls2 prev pulse h = ((λ e. e), (λ e. e))
next_pulse-Succeeds ued prev pulse h = ((λ e. e), (λ e. e))

-- A frame that is taken from the queues, with a pulse below 2 ^ 64, moves the read pointer on by
-- one, and its pulse is kept. If there was a pulse before it, it adds one line, with the frame,
-- and the line passes exactly if the pulse follows the one before, modulo 2 ^ 64, or for LCLS-I
-- modulo 2 ^ 17. The first frame, with no pulse before it, adds no line.
pub take_frame-Succeeds :
    (mode : TimingMode) (idx : ℕ) (q : Queues) (r : FrameReader) (f : Frame)
    → parse_frame (frame_words idx r.allrp q) ≡ some f
    → f.pulse_id < 2 ^ 64
    → (passes : Bool) × (take_frame mode idx q r ≡ record {
      allrp = r.allrp + 1;
      nframes = if r.pulse_prev == 0 then r.nframes else r.nframes + 1;
      pulse_prev = f.pulse_id;
      lines = if r.pulse_prev == 0 then r.lines else record { frame = f; pass = passes } ∷ r.lines;
    })
      × ((passes ≡ true) ↔ Succeeds mode r.pulse_prev f.pulse_id)
unfolding take_frame judge_frame
take_frame-Succeeds mode idx q r f e h =
    let next = next_pulse mode r.pulse_prev f.pulse_id in
    let (to, from) = next_pulse-Succeeds mode r.pulse_prev f.pulse_id h in
    (
      f.pulse_id == next,
      rw e (elim (Bool-cases (r.pulse_prev == 0)) [ inl z ↦ rw z refl | inr z ↦ rw z refl ]),
      ((λ p. to ((==_iff f.pulse_id next).0 p)), (λ s. (==_iff f.pulse_id next).1 (from s))),
    )

next_pulse_hit : (mode : TimingMode) (n : ℕ) → n + 1 < 2 ^ 64 → next_pulse mode n (n + 1) ≡ n + 1
unfolding next_pulse
next_pulse_hit lcls1 n h = next_pulse_sum n (n + 1) h ∙ omega arith
next_pulse_hit lcls2 n h = omega arith
next_pulse_hit ued n h = omega arith

abbrev pub AllPass : List Verdict → Type 0
AllPass [] = Unit {0}
AllPass (v ∷ vs) = (v.pass ≡ true) × AllPass vs

-- The variables of the capture at its start, for the read pointer `rp`.
abbrev pub start_at : ℕ → FrameReader
start_at rp = record { allrp = rp; nframes = 0; pulse_prev = 0; lines = [] }

-- The capture came to its end with ten lines, and all of them pass.
abbrev pub Full : Option (FrameReader × ℕ) → Type 0
Full result =
    (r : FrameReader) × (t : ℕ) × (result ≡ some (r, t))
    × (r.nframes ≡ 10)
    × (length r.lines ≡ 10)
    × AllPass r.lines

-- The entries of a channel, from the read pointer `rp` on, are 11 frames of pulses that follow one
-- another, at all times.
pub record Consecutive (idx rp pulse : ℕ) (q : ℕ → Queues) : Type 0 where
  pub first_pulse : 0 < pulse
  pub last_pulse : pulse + 11 ≤ 2 ^ 64
  pub written : (t : ℕ) → rp + 11 ≤ (q t).allwp idx
  pub stamps : ℕ → ℕ
  pub frame :
      (t k : ℕ)
      → k < 11
      → parse_frame (frame_words idx (rp + k) (q t))
        ≡ some (record { pulse_id = pulse + k; time_stamp = stamps k })

module _ (mode : TimingMode) (idx rp pulse : ℕ) (q : ℕ → Queues)
    (s : Consecutive idx rp pulse q) where
  -- The reader behind `k` frames.
  abbrev after : ℕ → List Verdict → FrameReader
  after k lines = record {
    allrp = rp + k;
    nframes = k - 1;
    pulse_prev = pulse + k - 1;
    lines = lines;
  }

  abbrev verdict : ℕ → Verdict
  verdict k = record {
    frame = record { pulse_id = pulse + k; time_stamp = s.stamps k };
    pass = true;
  }

  take_next :
      (t k : ℕ) (lines : List Verdict)
      → 0 < k
      → k < 11
      → take_frame mode idx (q t) (after k lines) ≡ after (k + 1) (verdict k ∷ lines)
  unfolding take_frame
  take_next t k lines p h =
      let one : pulse + k - 1 + 1 ≡ pulse + k = omega (arith, s.first_pulse) in
      let hit : next_pulse mode (pulse + k - 1) (pulse + k) ≡ pulse + k =
        ap (next_pulse mode (pulse + k - 1)) (sym one)
        ∙ next_pulse_hit mode (pulse + k - 1) (omega (arith, s.last_pulse))
        ∙ one in
      ground (arith, s.frame t k h, hit, s.first_pulse)

  take_first : (t : ℕ) → take_frame mode idx (q t) (start_at rp) ≡ after 1 []
  unfolding take_frame
  take_first t =
      let there : parse_frame (frame_words idx rp (q t))
          ≡ some (record { pulse_id = pulse + 0; time_stamp = s.stamps 0 }) =
        ap (λ (x : ℕ). parse_frame (frame_words idx x (q t))) (omega arith)
        ∙ s.frame t 0 (omega arith) in
      ground (arith, there)

  capture_step :
      (n t : ℕ) (r : FrameReader)
      → r.allrp < (q t).allwp idx
      → r.nframes < 10
      → capture mode idx q (suc n) t r ≡ capture mode idx q n (t + 1) (take_frame mode idx (q t) r)
  unfolding capture
  capture_step n t r h l =
      let there : ltb r.allrp ((q t).allwp idx) ≡ true = ground arith in
      let few : ltb r.nframes 10 ≡ true = ground arith in rw (there, few)

  capture_rest :
      (m k t : ℕ) (lines : List Verdict)
      → k + m ≡ 11
      → 0 < k
      → length lines ≡ k - 1
      → AllPass lines
      → Full (capture mode idx q (suc m) t (after k lines))
  unfolding capture
  capture_rest zero k t lines e p l pass =
      let ten : k - 1 ≡ 10 = omega arith in (after k lines, t, ground arith, ten, omega arith, pass)
  capture_rest (suc m) k t lines e p l pass =
      let (r, t', run, n, len, good) =
        capture_rest m (k + 1) (t + 1) (verdict k ∷ lines) (omega arith) (omega arith) (omega arith)
          (refl, pass) in
      (
        r,
        t',
        capture_step (suc m) t (after k lines) (omega (arith, s.written t)) (omega arith)
            ∙ ap (capture mode idx q (suc m) (t + 1)) (take_next t k lines p (omega arith))
            ∙ run,
        n,
        len,
        good,
      )

  -- On a channel with 11 frames of pulses that follow one another, from the read pointer on, the
  -- capture ends after 12 tests with ten lines, and all of them pass, in each mode.
  pub capture_passes : Full (capture mode idx q 12 1 (start_at rp))
  capture_passes =
      let (r, t, run, n, len, good) =
        capture_rest 10 1 2 [] (omega arith) (omega arith) (omega arith) tt in
      let first =
        capture_step 11 1 (start_at rp) (omega (arith, s.written 1)) (omega arith)
        ∙ ap (capture mode idx q 11 2) (take_first 1) in
      (r, t, first ∙ run, n, len, good)
