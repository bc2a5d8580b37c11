-- ===== src/Text/Numbers.antt =====
-- `strtoul(text, &end, 0)` on a text without its zero at the end: the value and the text from `end`.
use evr_card_g.Base.{
  ℕ, ◌+◌, ◌-◌, ◌*◌, ◌%◌, ◌^◌, min, Bool, true, false, ◌&&◌, ◌||◌, Option, none, some, List, [], ◌∷◌,
  ltb, leb, ◌==◌, if◌then◌else◌,
}

-- The value of a digit or a letter in a base.
unfoldable pub digit : ℕ → ℕ → Option ℕ
digit base c =
    let v =
      if leb b'0' c && leb c b'9'
      then c - b'0'
      else if leb b'a' c && leb c b'z'
      then c - b'a' + 10
      else if leb b'A' c && leb c b'Z'
      then c - b'A' + 10
      else base in
    if ltb v base then some v else none

-- The number that the digits in front spell behind `acc`, and what follows them.
unfoldable pub digits : ℕ → ℕ → List ℕ → ℕ × List ℕ
digits base acc [] = (acc, [])
digits base acc (c ∷ s) = elim (digit base c) [
  | none ↦ (acc, c ∷ s)
  | some d ↦ digits base (acc * base + d) s
]

unfoldable pub starts_digit : ℕ → List ℕ → Bool
starts_digit base [] = false
starts_digit base (c ∷ s) = elim (digit base c) [ none ↦ false | some d ↦ true ]

-- The text behind "0x", if a digit follows.
unfoldable pub hex_prefix : List ℕ → Option (List ℕ)
hex_prefix [] = none
hex_prefix (c ∷ []) = none
hex_prefix (c ∷ x ∷ s) =
    if (c == b'0') && ((x == b'x') || (x == b'X')) && starts_digit 16 s then some s else none

unfoldable pub radix_of : List ℕ → ℕ
radix_of [] = 10
radix_of (c ∷ s) = if c == b'0' then 8 else 10

abbrev pub ulong_max : ℕ
ulong_max = 2 ^ 64 - 1

-- An unsigned number, with `start` the text to return where there is none.
unfoldable pub magnitude : List ℕ → List ℕ → Option ℕ × List ℕ
unfolding digit digits starts_digit hex_prefix radix_of
magnitude start s = elim (hex_prefix s) [
  | some h ↦ let (v, rest) = digits 16 0 h in (some v, rest)
  | none ↦
      let base = radix_of s in
      let (v, rest) = digits base 0 s in
      if starts_digit base s then (some v, rest) else (none, start)
]

unfoldable pub is_space : ℕ → Bool
is_space c = (c == 32) || (leb 9 c && leb c 13)

unfoldable pub skip_space : List ℕ → List ℕ
skip_space [] = []
skip_space (c ∷ s) = let rest = skip_space s in if is_space c then rest else c ∷ s

-- Out of range the answer is ULONG_MAX; a minus sign negates modulo 2 ^ 64.
unfoldable pub positive : Option ℕ × List ℕ → ℕ × List ℕ
positive (none, rest) = (0, rest)
positive (some v, rest) = (min v ulong_max, rest)

unfoldable pub negative : Option ℕ × List ℕ → ℕ × List ℕ
negative (none, rest) = (0, rest)
negative (some v, rest) = ((if ltb ulong_max v then ulong_max else (2 ^ 64 - v) % 2 ^ 64), rest)

unfoldable pub signed_number : List ℕ → List ℕ → ℕ × List ℕ
unfolding positive negative magnitude
signed_number start [] = (0, start)
signed_number start (c ∷ s) =
    if c == b'-'
    then negative (magnitude start s)
    else if c == b'+'
    then positive (magnitude start s)
    else positive (magnitude start (c ∷ s))

unfoldable pub strtoul : List ℕ → ℕ × List ℕ
unfolding signed_number skip_space is_space
strtoul text = signed_number text (skip_space text)

-- `unsigned` takes the lowest 32 bits of it.
abbrev pub unsigned_of : List ℕ → ℕ × List ℕ
unsigned_of text = let (v, rest) = strtoul text in (v % 2 ^ 32, rest)

-- The text behind a comma.
abbrev pub behind_comma : List ℕ → Option (List ℕ)
behind_comma [] = none
behind_comma (c ∷ s) = if c == b',' then some s else none
