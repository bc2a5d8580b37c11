-- ===== src/Mcs/Hex.antt =====
-- `sscanf(dataChar, "%x", &v)` on two characters.
use evr_card_g.Base.{
  ℕ, ◌+◌, ◌-◌, ◌*◌, ◌%◌, ◌^◌, Bool, ◌&&◌, ◌||◌, Option, none, some, leb, ◌==◌, if◌then◌else◌,
}

-- The value of a hexadecimal digit.
unfoldable pub hex_digit : ℕ → Option ℕ
hex_digit c =
    if leb b'0' c && leb c b'9'
    then some (c - b'0')
    else if leb b'A' c && leb c b'F'
    then some (c - b'A' + 10)
    else if leb b'a' c && leb c b'f'
    then some (c - b'a' + 10)
    else none

is_space : ℕ → Bool
is_space c = c == b' ' || (leb 9 c && leb c 13)

-- A first character that is no digit: white space and a sign are skipped.
scan_second : ℕ → ℕ → Option ℕ
unfolding hex_digit is_space
scan_second c d = elim (hex_digit d) [
  | none ↦ none
  | some v ↦
      if is_space c || c == b'+'
      then some v
      else if c == b'-'
      then some ((2 ^ 32 - v) % 2 ^ 32)
      else none
]

-- A second character that is no digit ends the number; "0x" with nothing behind it is no number.
unfoldable pub scan_first : ℕ → ℕ → ℕ → Option ℕ
unfolding hex_digit
scan_first c d hi = elim (hex_digit d) [
  | some lo ↦ some (hi * 16 + lo)
  | none ↦ if c == b'0' && (d == b'x' || d == b'X') then none else some hi
]

-- `none` if there is no conversion, and the variable keeps its value.
unfoldable pub scan_hex : ℕ → ℕ → Option ℕ
unfolding scan_first scan_second
scan_hex c d = elim (hex_digit c) [ some hi ↦ scan_first c d hi | none ↦ scan_second c d ]
