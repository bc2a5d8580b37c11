-- ===== src/Apps/Evg/Codes.antt =====
-- software/app/evgasync.cc: the event codes of the option `-e`, as bits of eight words.
use evr_card_g.Base.{
  ℕ, zero, suc, ◌/◌, ◌%◌, ◌^◌, ◌≤◌, ◌<◌, ◌≡◌, refl, arith, none, some, List, [], ◌∷◌, length, Bool,
  true, false, ltb, leb, ◌==◌, if◌then◌else◌, update, has, ◌∙◌, ap, ◌&&◌, ==_iff,
}
use evr_card_g.Base.Outcome.{undefined}
use evr_card_g.Base.Run.{Run, done}
use evr_card_g.Base.Bits.{bit}
use evr_card_g.Regs.Word.{set_bit, put_bit, bit-put_bit_self, bit-put_bit_ne}
use native.Mathlib.Decide.{ℕ_discrete}
use evr_card_g.Text.Numbers.{unsigned_of, behind_comma}
use evr_card_g.Text.Decimal.{decimal, strtoul-decimal, length-decimal, Ends}

-- `codes[e>>5] |= (1U<<(e&0x1f))`, for a code below 256.
unfoldable pub arm_code : ℕ → (ℕ → ℕ) → ℕ → ℕ
arm_code e codes = update codes (e / 32) (set_bit (e % 32) (codes (e / 32)))

-- One code and what follows it. `codes` has eight words: a code past these is written past it.
unfoldable pub arm_next : (List ℕ → (ℕ → ℕ) → Run (ℕ → ℕ)) → ℕ × List ℕ → (ℕ → ℕ) → Run (ℕ → ℕ)
arm_next loop (e, rest) codes =
    if leb 8 (e / 32) then some undefined else elim (behind_comma rest) [
      | none ↦ done (arm_code e codes)
      | some s ↦ loop s (arm_code e codes)
    ]

-- The loop over the text of the option, one round of fuel for each code.
unfoldable pub arm_codes : ℕ → List ℕ → (ℕ → ℕ) → Run (ℕ → ℕ)
unfolding arm_next
arm_codes zero text codes = none
arm_codes (suc n) text codes = arm_next (arm_codes n) (unsigned_of text) codes

-- The text of a list of codes, with commas between them.
abbrev pub print_codes : ℕ → List ℕ → List ℕ
print_codes e [] = decimal e []
print_codes e (f ∷ es) = decimal e (b',' ∷ print_codes f es)

abbrev pub AllBelow : ℕ → List ℕ → Type 0
AllBelow n [] = Unit {0}
AllBelow n (e ∷ es) = (e < n) × AllBelow n es

unsigned_of-decimal :
    (e : ℕ) (s : List ℕ) → e < 2 ^ 32 → Ends s → unsigned_of (decimal e s) ≡ (e, s)
unsigned_of-decimal e s h ends =
    let same : e % 2 ^ 32 ≡ e = omega arith in rw (strtoul-decimal e s (omega arith) ends, same)

bit-set_bit : (j k v : ℕ) → j < 32 → k < 32 → bit j (set_bit k v) ≡ (if j == k then 1 else bit j v)
unfolding put_bit
bit-set_bit j k v h l = elim (ℕ_discrete j k) [
  | yes same ↦ rw same (bit-put_bit_self k v true l ∙ ground arith)
  | no ne ↦ bit-put_bit_ne j k v true h l ne ∙ ground arith
]

bit-arm_code :
    (e f : ℕ) (codes : ℕ → ℕ)
    → bit (f % 32) (arm_code e codes (f / 32))
      ≡ (if f == e then 1 else bit (f % 32) (codes (f / 32)))
unfolding arm_code
bit-arm_code e f codes = elim (ℕ_discrete (f / 32) (e / 32)) [
  | yes same ↦ ground (
    arith,
    bit-set_bit (f % 32) (e % 32) (codes (f / 32)) (omega arith) (omega arith),
    ap codes same,
  )
  | no ne ↦ ground arith
]

abbrev arm_all : List ℕ → (ℕ → ℕ) → ℕ → ℕ
arm_all [] codes = codes
arm_all (e ∷ es) codes = arm_all es (arm_code e codes)

bit-arm_all :
    (es : List ℕ) (f : ℕ) (codes : ℕ → ℕ)
    → bit (f % 32) (arm_all es codes (f / 32))
      ≡ (if has f es then 1 else bit (f % 32) (codes (f / 32)))
bit-arm_all [] f codes = refl
bit-arm_all (e ∷ es) f codes =
    ground (arith, bit-arm_all es f (arm_code e codes), bit-arm_code e f codes)

abbrev in_table : List ℕ → Bool
in_table [] = true
in_table (e ∷ es) = ltb e 256 && in_table es

-- A text of codes is taken code by code, up to the first one that is past the table.
arm_codes-print :
    (n e : ℕ) (es : List ℕ) (codes : ℕ → ℕ)
    → AllBelow (2 ^ 32) (e ∷ es)
    → length es < n
    → arm_codes n (print_codes e es) codes
      ≡ (if in_table (e ∷ es) then done (arm_all (e ∷ es) codes) else some undefined)
unfolding arm_codes
arm_codes-print zero e es codes h l = elim l [ ]
arm_codes-print (suc n) e [] codes (h, _) l =
    ap (λ r. arm_next (arm_codes n) r codes) (unsigned_of-decimal e [] h tt) ∙ ground arith
arm_codes-print (suc n) e (f ∷ es) codes (h, hs) l =
    ap (λ r. arm_next (arm_codes n) r codes)
      (unsigned_of-decimal e (b',' ∷ print_codes f es) h (omega arith))
    ∙ ground (arith, arm_codes-print n f es (arm_code e codes) hs (omega arith))

length-print_codes : (e : ℕ) (es : List ℕ) → length es < length (print_codes e es)
length-print_codes e [] = omega (arith, length-decimal e [])
length-print_codes e (f ∷ es) =
    omega (arith, length-decimal e (b',' ∷ print_codes f es), length-print_codes f es)

in_table-AllBelow : (es : List ℕ) → AllBelow 256 es → (in_table es ≡ true) × AllBelow (2 ^ 32) es
in_table-AllBelow [] h = (refl, tt)
in_table-AllBelow (e ∷ es) (h, hs) =
    let (rest, wide) = in_table-AllBelow es hs in (ground arith, (omega arith, wide))

past_table : (es : List ℕ) (f : ℕ) → has f es ≡ true → 256 ≤ f → in_table es ≡ false
past_table [] f h l = cc
past_table (e ∷ es) f h l = ground (arith, past_table es f, ==_iff f e)

-- A text of codes below 256, with commas between them, sets exactly the bits of these codes, bit
-- `e % 32` of word `e / 32` for the code `e`, and leaves each other bit of the eight words.
pub arm_codes-Armed :
    (e : ℕ) (es : List ℕ) (codes : ℕ → ℕ)
    → AllBelow 256 (e ∷ es)
    → let text = print_codes e es in
      (codes' : ℕ → ℕ) × (arm_codes (suc (length text)) text codes ≡ done codes')
      × ((f : ℕ)
          → bit (f % 32) (codes' (f / 32))
            ≡ (if has f (e ∷ es) then 1 else bit (f % 32) (codes (f / 32))))
arm_codes-Armed e es codes h =
    let (fits, wide) = in_table-AllBelow (e ∷ es) h in
    (
      arm_all (e ∷ es) codes,
      arm_codes-print (suc (length (print_codes e es))) e es codes wide
            (omega (arith, length-print_codes e es))
          ∙ rw fits,
      (λ f. bit-arm_all (e ∷ es) f codes),
    )

-- A text of codes of 32 bits of which one is 256 or more overruns the eight words of the table.
pub arm_codes_overrun :
    (e f : ℕ) (es : List ℕ) (codes : ℕ → ℕ)
    → AllBelow (2 ^ 32) (e ∷ es)
    → has f (e ∷ es) ≡ true
    → 256 ≤ f
    → let text = print_codes e es in arm_codes (suc (length text)) text codes ≡ some undefined
arm_codes_overrun e f es codes h found large =
    arm_codes-print (suc (length (print_codes e es))) e es codes h
      (omega (arith, length-print_codes e es))
    ∙ rw (past_table (e ∷ es) f found large)
