-- ===== src/Text/Decimal.antt =====
-- "%u", in front of a text, and its way back through `strtoul`.
use evr_card_g.Base.{
  ℕ, zero, suc, ◌+◌, ◌*◌, ◌/◌, ◌%◌, ◌≤◌, ◌<◌, ◌≡◌, refl, arith, some, if◌then◌else◌, List, [], ◌∷◌,
  ◌==◌, Bool-cases, inl, inr, ◌∙◌, ap, length,
}
use evr_card_g.Text.Numbers.{digit, digits, starts_digit, strtoul, ulong_max}

-- The digits of `n`, with a round of fuel for each.
unfoldable pub put_digits : ℕ → ℕ → List ℕ → List ℕ
put_digits zero n out = out
put_digits (suc f) n out =
    let s = (b'0' + n % 10) ∷ out in
    let front = put_digits f (n / 10) s in if n / 10 == 0 then s else front

unfoldable pub decimal : ℕ → List ℕ → List ℕ
unfolding put_digits
decimal n out = put_digits (suc n) n out

-- A text that does not go on with a digit or a letter.
abbrev pub Ends : List ℕ → Type 0
Ends [] = Unit {0}
Ends (c ∷ s) = c < b'0'

digit-of : (d : ℕ) → d < 10 → digit 10 (b'0' + d) ≡ some d
unfolding digit
digit-of d h = ground arith

digits_take :
    (acc d : ℕ) (s : List ℕ) → d < 10 → digits 10 acc ((b'0' + d) ∷ s) ≡ digits 10 (acc * 10 + d) s
unfolding digits
digits_take acc d s h = rw (digit-of d h, digits)

digits-put_digits :
    (f n : ℕ) (out : List ℕ) → n < f → digits 10 0 (put_digits f n out) ≡ digits 10 n out
unfolding put_digits
digits-put_digits zero n out h = elim h [ ]
digits-put_digits (suc f) n out h = elim (Bool-cases (n / 10 == 0)) [
  | inl last ↦
      let small : n % 10 ≡ n = ground arith in
      rw (last, small)
        (digits_take 0 n out (ground arith) ∙ ap (λ (t : ℕ). digits 10 t out) (omega arith))
  | inr more ↦
      let whole : n / 10 * 10 + n % 10 ≡ n = omega arith in
      rw more (
        digits-put_digits f (n / 10) ((b'0' + n % 10) ∷ out) (ground arith)
        ∙ digits_take (n / 10) (n % 10) out (omega arith)
        ∙ rw whole)
]

digits_end : (acc : ℕ) (s : List ℕ) → Ends s → digits 10 acc s ≡ (acc, s)
unfolding digits digit
digits_end acc [] h = refl
digits_end acc (c ∷ s) h = ground arith

-- The first digit of a number that is not 0 is not '0'.
first-put_digits :
    (f n : ℕ) (out : List ℕ)
    → n < f
    → 0 < n
    → (c : ℕ) × (s : List ℕ) × (put_digits f n out ≡ c ∷ s) × (b'1' ≤ c) × (c ≤ b'9')
unfolding put_digits
first-put_digits zero n out h p = elim h [ ]
first-put_digits (suc f) n out h p = elim (Bool-cases (n / 10 == 0)) [
  | inl last ↦ (b'0' + n % 10, out, rw last, ground arith, omega arith)
  | inr more ↦
      let (c, s, e, l, u) =
        first-put_digits f (n / 10) ((b'0' + n % 10) ∷ out) (ground arith) (ground arith) in
      (c, s, rw more e, l, u)
]

plain_number :
    (c v : ℕ) (s rest : List ℕ)
    → b'1' ≤ c
    → c ≤ b'9'
    → digits 10 0 (c ∷ s) ≡ (v, rest)
    → v ≤ ulong_max
    → strtoul (c ∷ s) ≡ (v, rest)
unfolding strtoul starts_digit digit
plain_number c v [] rest l u e h = ground arith
plain_number c v (x ∷ s) rest l u e h = ground arith

zero_number : (s : List ℕ) → Ends s → strtoul (b'0' ∷ s) ≡ (0, s)
unfolding strtoul digits digit starts_digit
zero_number [] h = refl
zero_number (c ∷ s) h = ground arith

-- A number that is printed, in front of a text that does not go on with a digit or a letter, is
-- read back, and the text is what is left.
pub strtoul-decimal : (n : ℕ) (s : List ℕ) → n ≤ ulong_max → Ends s → strtoul (decimal n s) ≡ (n, s)
unfolding decimal
strtoul-decimal zero s h e = zero_number s e
strtoul-decimal (suc n) s h e =
    let (c, t, spelled, l, u) =
      first-put_digits (suc (suc n)) (suc n) s (omega arith) (omega arith) in
    let whole = digits-put_digits (suc (suc n)) (suc n) s (omega arith) ∙ digits_end (suc n) s e in
    rw spelled (plain_number c (suc n) t s l u (rw spelled at whole) h)

length-put_digits : (f n : ℕ) (s : List ℕ) → length s < length (put_digits (suc f) n s)
unfolding put_digits
length-put_digits zero n s = ground arith
length-put_digits (suc f) n s = elim (Bool-cases (n / 10 == 0)) [
  | inl last ↦ rw last (omega arith)
  | inr more ↦ rw more (omega (arith, length-put_digits f (n / 10) ((b'0' + n % 10) ∷ s)))
]

pub length-decimal : (n : ℕ) (s : List ℕ) → length s < length (decimal n s)
unfolding decimal
length-decimal n s = length-put_digits n n s

-- The digits alone, of any number.
pub digits-decimal : (n : ℕ) (s : List ℕ) → Ends s → digits 10 0 (decimal n s) ≡ (n, s)
unfolding decimal
digits-decimal n s e = digits-put_digits (suc n) n s (omega arith) ∙ digits_end n s e
