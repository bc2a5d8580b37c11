-- ===== src/Apps/Trig/Rate.antt =====
-- software/app/tprtrig.cc: the selections that `main` puts together, and `rateStr`, which names
-- them.
use evr_card_g.Base.{
  get_or, ℕ, zero, suc, ◌+◌, ◌*◌, ◌/◌, ◌%◌, ◌^◌, ◌<◌, ◌≡◌, refl, arith, List, [], ◌∷◌, ltb, ◌==◌,
  if◌then◌else◌, bit_and, bit_or, ap, ◌∙◌,
}
use evr_card_g.Base.Bits.{bit_or_sum, bit_and_low}
use evr_card_g.Text.Codes.{codes}
use evr_card_g.Text.Decimal.{decimal}
use evr_card_g.Regs.Blocks.{FixedRate, fixed_rate, fixed_select}

-- `(2<<29) | (0<<11) | rate` and the like.
unfoldable pub select_fixed : ℕ → ℕ
select_fixed rate = bit_or (2 * 2 ^ 29) rate

unfoldable pub select_seq : ℕ → ℕ → ℕ
select_seq seq bit =
    bit_or (bit_or (bit_or (2 * 2 ^ 29) (2 * 2 ^ 11)) (bit_and seq 0x1F * 2 ^ 4)) (bit_and bit 0xF)

unfoldable pub select_group : ℕ → ℕ
select_group group = bit_or (bit_or (2 * 2 ^ 29) (3 * 2 ^ 11)) group

abbrev pub select_beam : ℕ
select_beam = 2 ^ 13

-- `_fixed`
abbrev pub fixed_names : ℕ → List ℕ
fixed_names k =
    if k == 0
    then codes "1H"
    else if k == 1
    then codes "10H"
    else if k == 2
    then codes "100H"
    else if k == 3
    then codes "1kH"
    else if k == 4
    then codes "10kH"
    else if k == 5
    then codes "70kH"
    else codes "910kH"

-- The inner switch, on `(v>>11)&3`, for the kinds of markers.
unfoldable pub marker_str : ℕ → List ℕ
marker_str v =
    let kind = bit_and (v / 2 ^ 11) 3 in
    let low = bit_and v 0xF in
    if kind == 0
    then (if ltb low 7 then fixed_names low else codes "Unk")
    else if kind == 1
    then codes "Unk"
    else if kind == 2
    then b'S' ∷ decimal (bit_and (v / 2 ^ 4) 0x1F) (b'.' ∷ decimal low [])
    else b'G' ∷ decimal low []

unfoldable pub rate_str : ℕ → List ℕ
unfolding marker_str
rate_str v =
    let dest = bit_and (v / 2 ^ 29) 3 in
    if dest == 0
    then codes "Beam"
    else if dest == 1
    then codes "NoBeam"
    else if dest == 2
    then marker_str v
    else codes "Unk"

low_digits :
    (v : ℕ)
    → (bit_and (v / 2 ^ 29) 3 ≡ v / 2 ^ 29 % 4)
      × (bit_and (v / 2 ^ 11) 3 ≡ v / 2 ^ 11 % 4)
      × (bit_and (v / 2 ^ 4) 0x1F ≡ v / 2 ^ 4 % 32)
      × (bit_and v 0xF ≡ v % 16)
low_digits v = (
  bit_and_low 2 (v / 2 ^ 29),
  bit_and_low 2 (v / 2 ^ 11),
  bit_and_low 5 (v / 2 ^ 4),
  bit_and_low 4 v,
)

select_seq_sum : (seq bit : ℕ) → select_seq seq bit ≡ 2 ^ 30 + 2 ^ 12 + seq % 32 * 2 ^ 4 + bit % 16
unfolding select_seq
select_seq_sum seq bit =
    let kind : bit_or (2 * 2 ^ 29) (2 * 2 ^ 11) ≡ (2 ^ 19 + 2) * 2 ^ 11 = refl in
    rw (kind, bit_and_low 5 seq, bit_and_low 4 bit)
      (ap (λ (t : ℕ). bit_or t (bit % 16))
          (bit_or_sum 11 (2 ^ 19 + 2) (seq % 32 * 2 ^ 4) (omega arith) ∙ omega arith)
        ∙ bit_or_sum 4 ((2 ^ 19 + 2) * 2 ^ 7 + seq % 32) (bit % 16) (omega arith)
        ∙ omega arith)

select_group_sum : (group : ℕ) → group < 2 ^ 11 → select_group group ≡ 2 ^ 30 + 3 * 2 ^ 11 + group
unfolding select_group
select_group_sum group h =
    let kind : bit_or (2 * 2 ^ 29) (3 * 2 ^ 11) ≡ (2 ^ 19 + 3) * 2 ^ 11 = refl in
    rw kind (bit_or_sum 11 (2 ^ 19 + 3) group h ∙ omega arith)

select_fixed_sum : (rate : ℕ) → rate < 2 ^ 11 → select_fixed rate ≡ 2 ^ 30 + rate
unfolding select_fixed
select_fixed_sum rate h = bit_or_sum 30 1 rate (omega arith)

rate_str-of :
    (v : ℕ)
    → v / 2 ^ 29 ≡ 2
    → rate_str v ≡ (
        if v / 2 ^ 11 % 4 == 0
        then (if ltb (v % 16) 7 then fixed_names (v % 16) else codes "Unk")
        else if v / 2 ^ 11 % 4 == 1
        then codes "Unk"
        else if v / 2 ^ 11 % 4 == 2
        then b'S' ∷ decimal (v / 2 ^ 4 % 32) (b'.' ∷ decimal (v % 16) [])
        else b'G' ∷ decimal (v % 16) [])
unfolding rate_str
rate_str-of v h =
    let (a, b, c, d) = low_digits v in
    let two : bit_and (v / 2 ^ 29) 3 ≡ 2 = omega arith in rw (two, b, c, d)

-- The table, as a list.
table_names :
    (k : ℕ)
    → (if ltb k 7 then fixed_names k else codes "Unk")
      ≡ get_or
          (codes "1H"
            ∷ codes "10H"
            ∷ codes "100H"
            ∷ codes "1kH"
            ∷ codes "10kH"
            ∷ codes "70kH"
            ∷ codes "910kH"
            ∷ [])
          k
          (codes "Unk")
table_names zero = refl
table_names (suc zero) = refl
table_names (suc (suc zero)) = refl
table_names (suc (suc (suc zero))) = refl
table_names (suc (suc (suc (suc zero)))) = refl
table_names (suc (suc (suc (suc (suc zero))))) = refl
table_names (suc (suc (suc (suc (suc (suc zero)))))) = refl
table_names (suc (suc (suc (suc (suc (suc (suc k))))))) = ground arith

-- The table of the names stands in the other order than the rates of tpr.hh: number 0 is there the
-- fastest rate, and here the slowest.
pub rate_str_reversed :
    (r : FixedRate) → rate_str (fixed_select (fixed_rate r)) ≡ fixed_names (fixed_rate r)
unfolding rate_str fixed_select
rate_str_reversed FixedRate.rate_1m = refl
rate_str_reversed FixedRate.rate_71k = refl
rate_str_reversed FixedRate.rate_10k = refl
rate_str_reversed FixedRate.rate_1k = refl
rate_str_reversed FixedRate.rate_100h = refl
rate_str_reversed FixedRate.rate_10h = refl
rate_str_reversed FixedRate.rate_1h = refl

-- The status of a selection by its number modulo 16: "1H", "10H", "100H", "1kH", "10kH", "70kH",
-- "910kH" for the fixed rates of the numbers 0 to 6, and "Unk" for the others. This is the order
-- opposite to that of the rates of tpr.hh, where number 0 is the fastest. A sequence is printed by
-- its number modulo 32 and its bit modulo 16, a group by its number modulo 16, and the beam as
-- "Beam". Rates and groups are below 2 ^ 11.
pub rate_str_selected :
    (seq bit group rate : ℕ)
    → group < 2 ^ 11
    → rate < 2 ^ 11
    → (rate_str (select_seq seq bit) ≡ b'S' ∷ decimal (seq % 32) (b'.' ∷ decimal (bit % 16) []))
      × (rate_str (select_group group) ≡ b'G' ∷ decimal (group % 16) [])
      × (rate_str (select_fixed rate)
          ≡ get_or
              (codes "1H"
                ∷ codes "10H"
                ∷ codes "100H"
                ∷ codes "1kH"
                ∷ codes "10kH"
                ∷ codes "70kH"
                ∷ codes "910kH"
                ∷ [])
              (rate % 16)
              (codes "Unk"))
      × (rate_str select_beam ≡ codes "Beam")
unfolding rate_str
rate_str_selected seq bit group rate hg hr =
    let s = select_seq_sum seq bit in
    let g = select_group_sum group hg in
    let f = select_fixed_sum rate hr in
    let seq_low : select_seq seq bit % 16 ≡ bit % 16 = omega arith in
    let seq_high : select_seq seq bit / 2 ^ 4 % 32 ≡ seq % 32 = omega arith in
    let seq_kind : select_seq seq bit / 2 ^ 11 % 4 ≡ 2 = omega arith in
    let group_low : select_group group % 16 ≡ group % 16 = omega arith in
    let group_kind : select_group group / 2 ^ 11 % 4 ≡ 3 = omega arith in
    let fixed_low : select_fixed rate % 16 ≡ rate % 16 = omega arith in
    let fixed_kind : select_fixed rate / 2 ^ 11 % 4 ≡ 0 = omega arith in
    (
      rate_str-of (select_seq seq bit) (omega arith) ∙ rw (seq_kind, seq_low, seq_high),
      rate_str-of (select_group group) (omega arith) ∙ rw (group_kind, group_low),
      rate_str-of (select_fixed rate) (omega arith)
          ∙ rw (fixed_kind, fixed_low) (table_names (rate % 16)),
      refl,
    )
