-- ===== src/Apps/Frames.antt =====
-- software/app/tpr.cc: RingB::dumpFrames, which finds the frames in a ring buffer.
use evr_card_g.Base.{
  ℕ, zero, suc, ◌+◌, ◌*◌, ◌/◌, ◌%◌, ◌^◌, ◌<◌, ◌≤◌, ◌≡◌, refl, arith, List, [], ◌∷◌, Option, none,
  some, false, ltb, leb, ◌==◌, if◌then◌else◌, bit_or, not, ◌∙◌, Bool-cases, inl, inr,
}
use evr_card_g.Base.Bits.{bit_or_sum, bit_or_comm}
use evr_card_g.Bus.{Bus}
use evr_card_g.Regs.Blocks.{word_at}

-- `v = (v>>16) | (uint64_t(data[j++])<<48)`
unfoldable pub shift_in : ℕ → ℕ → ℕ
shift_in v w = bit_or (v / 2 ^ 16) (w * 2 ^ 48 % 2 ^ 64)

-- The values that `print_u16`, `print_u32` and `print_u64` print.
unfoldable pub u16_of : ℕ → ℕ
u16_of a = a * 2 ^ 16 % 2 ^ 32

unfoldable pub u32_of : ℕ → ℕ → ℕ
u32_of a b = bit_or (a * 2 ^ 16 % 2 ^ 32 / 2 ^ 16) (b * 2 ^ 16 % 2 ^ 32)

unfoldable pub u64_of : ℕ → ℕ → ℕ → ℕ → ℕ
unfolding shift_in
u64_of a b c d = shift_in (shift_in (shift_in (a * 2 ^ 48 % 2 ^ 64) b) c) d

-- A line of the dump.
pub record RingFrame : Type 0 where
  pub version : ℕ
  pub pulse_id : ℕ
  pub time_stamp : ℕ
  pub markers : ℕ
  pub beam_req : ℕ
  pub bsa_init : ℕ
  pub bsa_active : ℕ
  pub bsa_avg_done : ℕ
  pub bsa_done : ℕ

module _ {C : Type 0} (bus : Bus C) (ring : ℕ) where
  -- `data[j]`
  abbrev pub ring_data : ℕ → C → ℕ × C
  ring_data j c = bus.load (word_at ring (j + 1)) c

  unfoldable pub load_u32 : ℕ → C → ℕ × C
  unfolding u32_of
  load_u32 j c =
      let (a, c₁) = ring_data j c in let (b, c₂) = ring_data (j + 1) c₁ in (u32_of a b, c₂)

  unfoldable pub load_u64 : ℕ → C → ℕ × C
  unfolding u64_of
  load_u64 j c =
      let (w₀, c₁) = ring_data j c in
      let (w₁, c₂) = ring_data (j + 1) c₁ in
      let (w₂, c₃) = ring_data (j + 2) c₂ in
      let (w₃, c₄) = ring_data (j + 3) c₃ in (u64_of w₀ w₁ w₂ w₃, c₄)

  -- The frame whose start is at `i`.
  unfoldable pub load_frame : ℕ → C → RingFrame × C
  unfolding u16_of load_u32 load_u64
  load_frame i c =
      let (v, c₁) = ring_data (i + 2) c in
      let (pulse, c₂) = load_u64 (i + 3) c₁ in
      let (stamp, c₃) = load_u64 (i + 7) c₂ in
      let (markers, c₄) = load_u32 (i + 11) c₃ in
      let (beam, c₅) = load_u32 (i + 13) c₄ in
      let (init, c₆) = load_u64 (i + 27) c₅ in
      let (active, c₇) = load_u64 (i + 31) c₆ in
      let (avg, c₈) = load_u64 (i + 35) c₇ in
      let (over, c₉) = load_u64 (i + 39) c₈ in
      (
        record {
          version = u16_of v;
          pulse_id = pulse;
          time_stamp = stamp;
          markers = markers;
          beam_req = beam;
          bsa_init = init;
          bsa_active = active;
          bsa_avg_done = avg;
          bsa_done = over;
        },
        c₉,
      )

  -- `while (i<0x1fff)`, one round of fuel for each word that is looked at.
  unfoldable pub dump_frames : ℕ → ℕ → C → Option (List RingFrame × C)
  unfolding load_frame
  dump_frames zero i c = none
  dump_frames (suc n) i c =
      let (w, c₁) = ring_data i c in
      let (f, c₂) = load_frame i c₁ in
      let skipped = dump_frames n (i + 1) c₁ in
      let framed : Option (List RingFrame × C) = elim (dump_frames n (i + 80) c₂) [
        | none ↦ none
        | some (fs, c') ↦ some (f ∷ fs, c')
      ] in
      if not (ltb i 0x1FFF)
      then some ([], c)
      else if w == 0x1B5F7
      then (if leb 0x1FFF (i + 80) then some ([], c₁) else framed)
      else skipped

-- With a round for each word that is left and one more, the dump returns.
pub dump_frames_total :
    {C : Type 0} (bus : Bus C) (ring n i : ℕ) (c : C)
    → 0x1FFF ≤ i + n
    → (r : List RingFrame × C) × (dump_frames bus ring (suc n) i c ≡ some r)
unfolding dump_frames
dump_frames_total bus ring zero i c h =
    let over : ltb i 0x1FFF ≡ false = ground arith in (([], c), rw over refl)
dump_frames_total bus ring (suc n) i c h =
    let (w, c₁) = bus.load (word_at ring (i + 1)) c in
    let (f, c₂) = load_frame bus ring i c₁ in
    let (skipped, e) = dump_frames_total bus ring n (i + 1) c₁ (omega arith) in
    let (framed, e') = dump_frames_total bus ring n (i + 80) c₂ (omega arith) in
    elim (Bool-cases (ltb i 0x1FFF)) [
      | inr over ↦ (([], c), rw over refl)
      | inl inside ↦ elim (Bool-cases (w == 0x1B5F7)) [
        | inr other ↦ (skipped, rw (inside, other) e)
        | inl start ↦ elim (Bool-cases (leb 0x1FFF (i + 80))) [
          | inl last ↦ (([], c₁), rw (inside, start, last) refl)
          | inr room ↦ ((f ∷ framed.0, framed.1), rw (inside, start, room, e') refl)
        ]
      ]
    ]

shift_in_sum : (v w : ℕ) → v < 2 ^ 64 → shift_in v w ≡ v / 2 ^ 16 + w % 2 ^ 16 * 2 ^ 48
unfolding shift_in
shift_in_sum v w h =
    let low : w * 2 ^ 48 % 2 ^ 64 ≡ w % 2 ^ 16 * 2 ^ 48 = omega arith in
    rw low (
      bit_or_comm (v / 2 ^ 16) (w % 2 ^ 16 * 2 ^ 48)
      ∙ bit_or_sum 48 (w % 2 ^ 16) (v / 2 ^ 16) (omega arith)
      ∙ omega arith)

-- Four words of a ring are one number of 64 bits: their lowest 16 bits, the first word's first.
pub u64_of_sum :
    (a b c d : ℕ)
    → u64_of a b c d ≡ a % 2 ^ 16 + b % 2 ^ 16 * 2 ^ 16 + c % 2 ^ 16 * 2 ^ 32 + d % 2 ^ 16 * 2 ^ 48
unfolding u64_of
u64_of_sum a b c d =
    let v₀ = a * 2 ^ 48 % 2 ^ 64 in
    let s₁ = shift_in_sum v₀ b (omega arith) in
    let s₂ = shift_in_sum (shift_in v₀ b) c (omega (arith, s₁)) in
    let s₃ = shift_in_sum (shift_in (shift_in v₀ b) c) d (omega (arith, s₂, s₁)) in
    omega (arith, s₁, s₂, s₃)
