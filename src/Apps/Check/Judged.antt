-- ===== src/Apps/Check/Judged.antt =====
-- What the rate test of tprtest prints for the rates of the machine, and the channels it leaves.
use evr_card_g.Base.{
  ℕ, zero, suc, ◌+◌, ◌-◌, ◌%◌, ◌^◌, ◌≤◌, Bool, true, false, ◌&&◌, List, [], ◌∷◌, get_or, leb, ◌==◌,
  if◌then◌else◌, ◌≡◌, refl, arith, ◌∙◌, ap,
}
use evr_card_g.Bus.{Bus}
use evr_card_g.Regs.Blocks.{channel}
use evr_card_g.Apps.Check.Link.{TimingMode, lcls1, lcls2, ued}
use evr_card_g.Apps.Check.Rates.{
  nrates, rate_select, judge_rate, start_rates, load_rates, judge_rates, frame_rates,
}

-- What the test relies on: the channels of the card. A channel has a control word and a selection,
-- which stores set. Its count is a register of its own: once the channel was enabled for two
-- seconds, it is the number of events of the selection in a second, `hz`. Loads change nothing.
pub record IsCounting {C : Type 0} (bus : Bus C) (hz : ℕ → ℕ) : Type 0 where
  pub control : ℕ → C → ℕ
  pub select : ℕ → C → ℕ
  pub count : ℕ → C → ℕ
  pub control-store :
      (i o v : ℕ) (c : C)
      → control i (bus.store o v c) ≡ (if o == channel i 0 then v else control i c)
  pub select-store :
      (i o v : ℕ) (c : C)
      → select i (bus.store o v c) ≡ (if o == channel i 1 then v else select i c)
  pub control-load : (i o : ℕ) (c : C) → control i (bus.load o c).1 ≡ control i c
  pub select-load : (i o : ℕ) (c : C) → select i (bus.load o c).1 ≡ select i c
  pub count-load : (i o : ℕ) (c : C) → count i (bus.load o c).1 ≡ count i c
  pub control-sleep_us : (i n : ℕ) (c : C) → control i (bus.sleep_us n c) ≡ control i c
  pub select-sleep_us : (i n : ℕ) (c : C) → select i (bus.sleep_us n c) ≡ select i c
  pub load-count : (i : ℕ) (c : C) → (bus.load (channel i 2) c).0 ≡ count i c
  pub count-sleep_us :
      (i n : ℕ) (c : C)
      → 2000000 ≤ n
      → control i c % 2 ≡ 1
      → count i (bus.sleep_us n c) ≡ hz (select i c)

-- The rates in Hz, from the fastest one down, and how far a count may be off. For LCLS-I these are
-- rates of the power line.
abbrev pub nominal : TimingMode → List ℕ
nominal lcls1 = 360 ∷ 120 ∷ 60 ∷ 30 ∷ 10 ∷ 5 ∷ 1 ∷ []
nominal lcls2 = 910000 ∷ 70000 ∷ 10000 ∷ 1000 ∷ 100 ∷ 10 ∷ 1 ∷ []
nominal ued = 500000 ∷ 71428 ∷ 10000 ∷ 1000 ∷ 100 ∷ 10 ∷ 1 ∷ []

abbrev pub tolerance : TimingMode → List ℕ
tolerance lcls1 = 3 ∷ 3 ∷ 3 ∷ 2 ∷ 1 ∷ 1 ∷ 0 ∷ []
tolerance lcls2 = []
tolerance ued = []

abbrev pub within : TimingMode → ℕ → ℕ → Bool
within mode i x =
    let rate = get_or (nominal mode) i 0 in
    let off = get_or (tolerance mode) i 0 in leb rate (x + off) && leb x (rate + off)

-- The selections of the rates: AC rates with a mask of time slots, or fixed rates.
abbrev pub selected : TimingMode → ℕ → ℕ
selected lcls1 i = 2 ^ 30 + 2 ^ 11 + get_or (504 ∷ 136 ∷ 8 ∷ 9 ∷ 10 ∷ 11 ∷ 12 ∷ []) i 0
selected lcls2 i = 2 ^ 30 + i
selected ued i = 2 ^ 30 + i

-- The lines of `n` rates from `i` on.
abbrev pub lines_of : TimingMode → (ℕ → ℕ) → ℕ → ℕ → List (ℕ × Bool)
lines_of mode count zero i = []
lines_of mode count (suc n) i = (count i, within mode i (count i)) ∷ lines_of mode count n (i + 1)

-- A property of each of the seven channels.
abbrev pub Seven : (ℕ → Type 0) → Type 0
Seven P = P 0 × P 1 × P 2 × P 3 × P 4 × P 5 × P 6

rate_select-selected : (mode : TimingMode) → Seven (λ i. rate_select mode i ≡ selected mode i)
unfolding rate_select
rate_select-selected lcls1 = (refl, refl, refl, refl, refl, refl, refl)
rate_select-selected lcls2 = (refl, refl, refl, refl, refl, refl, refl)
rate_select-selected ued = (refl, refl, refl, refl, refl, refl, refl)

judge_rate-within :
    (mode : TimingMode) (x : ℕ) → Seven (λ i. judge_rate mode i x ≡ (x, within mode i x))
judge_rate-within lcls1 x = (
  ground arith,
  ground arith,
  ground arith,
  ground arith,
  ground arith,
  ground arith,
  ground arith,
)
judge_rate-within lcls2 x = (
  ground arith,
  ground arith,
  ground arith,
  ground arith,
  ground arith,
  ground arith,
  ground arith,
)
judge_rate-within ued x = (
  ground arith,
  ground arith,
  ground arith,
  ground arith,
  ground arith,
  ground arith,
  ground arith,
)

seven_lines :
    {x0 x1 x2 x3 x4 x5 x6 y0 y1 y2 y3 y4 y5 y6 : ℕ × Bool}
    → x0 ≡ y0
    → x1 ≡ y1
    → x2 ≡ y2
    → x3 ≡ y3
    → x4 ≡ y4
    → x5 ≡ y5
    → x6 ≡ y6
    → x0 ∷ x1 ∷ x2 ∷ x3 ∷ x4 ∷ x5 ∷ x6 ∷ [] ≡ y0 ∷ y1 ∷ y2 ∷ y3 ∷ y4 ∷ y5 ∷ y6 ∷ []
seven_lines a b c d e f g = cc

module _ {C : Type 0} (bus : Bus C) (hz : ℕ → ℕ) (k : IsCounting bus hz) where
  started :
      (mode : TimingMode) (c : C)
      → let c' = start_rates bus mode nrates 0 c in
        Seven (λ i. (k.control i c' ≡ 1) × (k.select i c' ≡ rate_select mode i))
  unfolding start_rates
  started mode c =
      simp (k.control-store, k.select-store)
        (
          (refl, refl),
          (refl, refl),
          (refl, refl),
          (refl, refl),
          (refl, refl),
          (refl, refl),
          (refl, refl),
        )

  abbrev rates_of : TimingMode → List ℕ
  rates_of mode =
      hz (selected mode 0)
      ∷ hz (selected mode 1)
      ∷ hz (selected mode 2)
      ∷ hz (selected mode 3)
      ∷ hz (selected mode 4)
      ∷ hz (selected mode 5)
      ∷ hz (selected mode 6)
      ∷ []

  -- The card when the counts are loaded.
  abbrev waited : TimingMode → C → C
  waited mode c = bus.sleep_us 2000000 (start_rates bus mode nrates 0 c)

  counted :
      (mode : TimingMode) (i : ℕ) (c : C)
      → (k.control i (start_rates bus mode nrates 0 c) ≡ 1)
        × (k.select i (start_rates bus mode nrates 0 c) ≡ rate_select mode i)
      → rate_select mode i ≡ selected mode i
      → k.count i (waited mode c) ≡ hz (selected mode i)
  counted mode i c (on, sel) same =
      k.count-sleep_us i 2000000 (start_rates bus mode nrates 0 c) (omega arith) (omega (arith, on))
      ∙ ap hz (sel ∙ same)

  loaded : (mode : TimingMode) (c : C) → (load_rates bus nrates 0 (waited mode c)).0 ≡ rates_of mode
  unfolding load_rates
  loaded mode c =
      let (s0, s1, s2, s3, s4, s5, s6) = started mode c in
      let (e0, e1, e2, e3, e4, e5, e6) = rate_select-selected mode in
      simp (
        k.load-count,
        k.count-load,
        counted mode 0 c s0 e0,
        counted mode 1 c s1 e1,
        counted mode 2 c s2 e2,
        counted mode 3 c s3 e3,
        counted mode 4 c s4 e4,
        counted mode 5 c s5 e5,
        counted mode 6 c s6 e6,
      )

  judged :
      (mode : TimingMode) (reversed : Bool) (c : C)
      → (judge_rates bus mode reversed (rates_of mode) nrates 0 c).0
        ≡ lines_of mode (λ i. hz (selected mode (if reversed then 6 - i else i))) 7 0
  unfolding judge_rates
  judged mode true c =
      seven_lines ((judge_rate-within mode (hz (selected mode 6))).0)
        ((judge_rate-within mode (hz (selected mode 5))).1)
        ((judge_rate-within mode (hz (selected mode 4))).2)
        ((judge_rate-within mode (hz (selected mode 3))).3)
        ((judge_rate-within mode (hz (selected mode 2))).4)
        ((judge_rate-within mode (hz (selected mode 1))).5)
        ((judge_rate-within mode (hz (selected mode 0))).6)
  judged mode false c =
      seven_lines ((judge_rate-within mode (hz (selected mode 0))).0)
        ((judge_rate-within mode (hz (selected mode 1))).1)
        ((judge_rate-within mode (hz (selected mode 2))).2)
        ((judge_rate-within mode (hz (selected mode 3))).3)
        ((judge_rate-within mode (hz (selected mode 4))).4)
        ((judge_rate-within mode (hz (selected mode 5))).5)
        ((judge_rate-within mode (hz (selected mode 6))).6)

  settled :
      (mode : TimingMode) (c : C)
      → let c' = (frame_rates bus mode c).2 in
        Seven (λ i. (k.control i c' ≡ 0) × (k.select i c' ≡ selected mode i))
  unfolding frame_rates judge_rates load_rates
  settled mode c =
      let (s0, s1, s2, s3, s4, s5, s6) = started mode c in
      let (e0, e1, e2, e3, e4, e5, e6) = rate_select-selected mode in
      simp
        (
          k.control-store, k.select-store, k.control-load, k.select-load, k.select-sleep_us, s0.1,
          s1.1, s2.1, s3.1, s4.1, s5.1, s6.1,
        )
        ((refl, e0), (refl, e1), (refl, e2), (refl, e3), (refl, e4), (refl, e5), (refl, e6))

  -- On a card that counts, the rate test prints for each of the seven rates the number of events
  -- in a second of the selection that it put in the channel, and PASS exactly if the number is the
  -- nominal rate, up to the tolerance, which is 0 but for LCLS-I. If the first selection has one
  -- event in a second, the seven numbers are taken in the opposite order. The channels are left
  -- disabled, with the selections.
  pub frame_rates_lines :
      (mode : TimingMode) (c : C)
      → let (reversed, lines, c') = frame_rates bus mode c in
        let opposite = hz (selected mode 0) == 1 in
        (reversed ≡ opposite)
        × (lines ≡ lines_of mode (λ i. hz (selected mode (if opposite then 6 - i else i))) 7 0)
        × Seven (λ i. (k.control i c' ≡ 0) × (k.select i c' ≡ selected mode i))
  unfolding frame_rates
  frame_rates_lines mode c =
      let c' = (load_rates bus nrates 0 (waited mode c)).1 in
      let rates = loaded mode c in
      (
        ap (λ r. get_or r 0 0 == 1) rates,
        ap (λ r. (judge_rates bus mode (get_or r 0 0 == 1) r nrates 0 c').0) rates
            ∙ judged mode (hz (selected mode 0) == 1) c',
        settled mode c,
      )
