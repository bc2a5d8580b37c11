-- ===== src/Apps/Check/Rates.antt =====
-- software/app/tprtest.cc: `frame_rates`, which counts the events of seven rates for two seconds.
use evr_card_g.Base.{
  ℕ, zero, suc, ◌+◌, ◌-◌, ◌*◌, ◌^◌, Bool, ◌&&◌, List, [], ◌∷◌, get_or, ltb, ◌==◌, if◌then◌else◌,
  bit_or,
}
use evr_card_g.Bus.{Bus}
use evr_card_g.Regs.Blocks.{channel}
use evr_card_g.Apps.Check.Link.{TimingMode, lcls1, lcls2, ued, is_lcls1}

abbrev pub nrates : ℕ
nrates = 7

abbrev pub rate_min : TimingMode → List ℕ
rate_min lcls1 = 356 ∷ 116 ∷ 56 ∷ 27 ∷ 8 ∷ 3 ∷ 0 ∷ []
rate_min lcls2 = 909999 ∷ 69999 ∷ 9999 ∷ 999 ∷ 99 ∷ 9 ∷ 0 ∷ []
rate_min ued = 499999 ∷ 71427 ∷ 9999 ∷ 999 ∷ 99 ∷ 9 ∷ 0 ∷ []

abbrev pub rate_max : TimingMode → List ℕ
rate_max lcls1 = 364 ∷ 124 ∷ 64 ∷ 33 ∷ 12 ∷ 7 ∷ 2 ∷ []
rate_max lcls2 = 910001 ∷ 70001 ∷ 10001 ∷ 1001 ∷ 101 ∷ 11 ∷ 2 ∷ []
rate_max ued = 500001 ∷ 71429 ∷ 10001 ∷ 1001 ∷ 101 ∷ 11 ∷ 2 ∷ []

-- The selection of rate `i`: an AC rate for LCLS-I, a fixed one for the others.
unfoldable pub rate_select : TimingMode → ℕ → ℕ
rate_select mode i =
    let ac = bit_or (2 ^ 30) (2 ^ 11) in
    if is_lcls1 mode
    then (if i == 0
        then bit_or ac (0x3F * 2 ^ 3)
        else if i == 1
        then bit_or ac (0x11 * 2 ^ 3)
        else bit_or (bit_or ac (i - 2)) (2 ^ 3))
    else bit_or (2 ^ 30) i

-- A line of the table: the count, and PASS or FAIL.
abbrev pub judge_rate : TimingMode → ℕ → ℕ → ℕ × Bool
judge_rate mode i rate =
    (rate, ltb (get_or (rate_min mode) i 0) rate && ltb rate (get_or (rate_max mode) i 0))

module _ {C : Type 0} (bus : Bus C) where
  open bus use {store, load, sleep_us}

  -- The three loops, each over the `n` channels from `i` on.
  unfoldable pub start_rates : TimingMode → ℕ → ℕ → C → C
  start_rates mode zero i c = c
  start_rates mode (suc n) i c =
      start_rates mode n (i + 1)
        (store (channel i 0) 1 (store (channel i 1) (rate_select mode i) c))

  unfoldable pub load_rates : ℕ → ℕ → C → List ℕ × C
  load_rates zero i c = ([], c)
  load_rates (suc n) i c =
      let (rate, c₁) = load (channel i 2) c in
      let (rates, c₂) = load_rates n (i + 1) c₁ in (rate ∷ rates, c₂)

  -- With `reversed` the channels are taken from the last one down.
  unfoldable pub judge_rates : TimingMode → Bool → List ℕ → ℕ → ℕ → C → List (ℕ × Bool) × C
  judge_rates mode reversed rates zero i c = ([], c)
  judge_rates mode reversed rates (suc n) i c =
      let rate = get_or rates (if reversed then 6 - i else i) 0 in
      let (rest, c') = judge_rates mode reversed rates n (i + 1) (store (channel i 0) 0 c) in
      (judge_rate mode i rate ∷ rest, c')

  -- `markerRev`, the lines, and the card.
  unfoldable pub frame_rates : TimingMode → C → Bool × List (ℕ × Bool) × C
  unfolding start_rates load_rates judge_rates
  frame_rates mode c =
      let (rates, c') = load_rates nrates 0 (sleep_us 2000000 (start_rates mode nrates 0 c)) in
      let reversed = get_or rates 0 0 == 1 in
      let (lines, c'') = judge_rates mode reversed rates nrates 0 c' in (reversed, lines, c'')
