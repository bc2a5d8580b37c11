-- ===== src/Mcs/Encode.antt =====
-- An independent description of a record as text, and how `field` and `take_line` read it.
use evr_card_g.Base.{
  ℕ, zero, suc, ◌+◌, ◌*◌, ◌/◌, ◌%◌, ◌<◌, true, List, [], ◌∷◌, ◌++◌, Option, some, ◌≡◌, ◌≢◌, refl,
  arith, length, ltb, if◌then◌else◌, get_elem?, ap, ◌∙◌,
}
use native.Mathlib.Nat.{div-add-mod'}
use evr_card_g.Base.Outcome.{ok}
use evr_card_g.Mcs.Stream.{take_line}
use evr_card_g.Mcs.Hex.{hex_digit, scan_hex, scan_first}
use evr_card_g.Mcs.Reader.{at, field}

unfoldable pub hex_char : ℕ → ℕ
hex_char v = if ltb v 10 then 48 + v else 55 + v

-- Two characters for each byte.
unfoldable pub encode : List ℕ → List ℕ
unfolding hex_char
encode [] = []
encode (b ∷ bs) = hex_char (b / 16) ∷ hex_char (b % 16) ∷ encode bs

abbrev pub AllBytes : List ℕ → Type 0
AllBytes [] = Unit {0}
AllBytes (b ∷ bs) = (b < 256) × AllBytes bs

hex_digit-hex_char : (v : ℕ) → v < 16 → hex_digit (hex_char v) ≡ some v
unfolding hex_digit hex_char
hex_digit-hex_char v h = ground arith

scan_hex-hex_char : (b : ℕ) → b < 256 → scan_hex (hex_char (b / 16)) (hex_char (b % 16)) ≡ some b
unfolding scan_hex scan_first
scan_hex-hex_char b h = ground (
  arith,
  hex_digit-hex_char (b / 16) (omega arith),
  hex_digit-hex_char (b % 16) (omega arith),
  div-add-mod' b 16,
)

-- The character pair of byte `i`.
encode_pair :
    (xs : List ℕ) (i k : ℕ) {b : ℕ}
    → k ≡ i * 2
    → get_elem? xs i ≡ some b
    → (get_elem? (encode xs) k ≡ some (hex_char (b / 16)))
      × (get_elem? (encode xs) (suc k) ≡ some (hex_char (b % 16)))
unfolding encode
encode_pair [] i k e h = cc
encode_pair (x ∷ xs) zero zero e h = (ground arith, ground arith)
encode_pair (x ∷ xs) zero (suc k) e h = absurd (omega arith)
encode_pair (x ∷ xs) (suc i) zero e h = absurd (omega arith)
encode_pair (x ∷ xs) (suc i) (suc zero) e h = absurd (omega arith)
encode_pair (x ∷ xs) (suc i) (suc (suc k)) e h = encode_pair xs i k (omega arith) h

get_elem?-AllBytes : (xs : List ℕ) (i : ℕ) {b : ℕ} → AllBytes xs → get_elem? xs i ≡ some b → b < 256
get_elem?-AllBytes [] i a h = cc
get_elem?-AllBytes (x ∷ xs) zero a h = ground arith
get_elem?-AllBytes (x ∷ xs) (suc i) a h = get_elem?-AllBytes xs i a.1 h

at-get_elem? : (line : List ℕ) (i : ℕ) {c : ℕ} → get_elem? line i ≡ some c → at line i ≡ ok c
unfolding at
at-get_elem? line i h = ground arith

-- `field` reads byte `i` of an encoded line.
pub field-encode :
    (c : ℕ) (xs : List ℕ) (i k : ℕ) (old : Option ℕ) {b : ℕ}
    → k ≡ i * 2 + 1
    → AllBytes xs
    → get_elem? xs i ≡ some b
    → field (c ∷ encode xs) k old ≡ ok b
unfolding field
field-encode c xs i zero old e a h = absurd (omega arith)
field-encode c xs i (suc k) old {b} e a h =
    let (first, second) = encode_pair xs i k (omega arith) h in
    let second' : get_elem? (c ∷ encode xs) (suc k + 1) ≡ some (hex_char (b % 16)) =
      let up : suc k + 1 ≡ suc (suc k) = omega arith in
      ap (get_elem? (c ∷ encode xs)) up ∙ second in
    ground (
      arith,
      at-get_elem? (c ∷ encode xs) (suc k) first,
      at-get_elem? (c ∷ encode xs) (suc k + 1) second',
      scan_hex-hex_char b (get_elem?-AllBytes xs i a h),
    )

-- No newline in a line.
abbrev HasNoNewline : List ℕ → Type 0
HasNoNewline [] = Unit {0}
HasNoNewline (c ∷ cs) = (c ≢ 10) × HasNoNewline cs

encode-HasNoNewline : (xs : List ℕ) → HasNoNewline (encode xs)
unfolding encode
encode-HasNoNewline [] = tt
encode-HasNoNewline (x ∷ xs) = (ground arith, (ground arith, encode-HasNoNewline xs))

take_line-append :
    (line rest : List ℕ) → HasNoNewline line → take_line (line ++ b'\n' ∷ rest) ≡ (line, rest, true)
unfolding take_line
take_line-append [] rest h = refl
take_line-append (c ∷ line) rest h = ground (arith, take_line-append line rest h.1)

-- A record: its bytes behind the colon are the count, the address, the kind, the data and the
-- check sum.
abbrev pub fields : ℕ → ℕ → List ℕ → ℕ → List ℕ
fields addr kind bytes check = length bytes ∷ addr / 256 ∷ addr % 256 ∷ kind ∷ (bytes ++ check ∷ [])

abbrev pub record_line : ℕ → ℕ → List ℕ → ℕ → List ℕ
record_line addr kind bytes check = b':' ∷ encode (fields addr kind bytes check)

pub take_line-record_line :
    (addr kind : ℕ) (bytes : List ℕ) (check : ℕ) (rest : List ℕ)
    → take_line (record_line addr kind bytes check ++ b'\n' ∷ rest)
      ≡ (record_line addr kind bytes check, rest, true)
take_line-record_line addr kind bytes check rest =
    take_line-append (record_line addr kind bytes check) rest
      ((λ e. omega arith), encode-HasNoNewline _)

pub AllBytes-append : (xs ys : List ℕ) → AllBytes xs → AllBytes ys → AllBytes (xs ++ ys)
AllBytes-append [] ys a b = b
AllBytes-append (x ∷ xs) ys a b = (a.0, AllBytes-append xs ys a.1 b)

pub get_elem?-append_right : (xs ys : List ℕ) → get_elem? (xs ++ ys) (length xs) ≡ get_elem? ys 0
get_elem?-append_right [] ys = refl
get_elem?-append_right (x ∷ xs) ys = get_elem?-append_right xs ys
