-- ===== src/Text/Tests.antt =====
-- Numbers on small texts.
use evr_card_g.Base.{◌≡◌, refl, [], ◌∷◌, ◌^◌, ◌-◌}
use evr_card_g.Text.Numbers.{strtoul}
use evr_card_g.Text.Decimal.{decimal}

hex_number : strtoul (32 ∷ b'0' ∷ b'x' ∷ b'1' ∷ b'F' ∷ b',' ∷ []) ≡ (31, b',' ∷ [])
unfolding strtoul
hex_number = refl

octal_number : strtoul (b'0' ∷ b'1' ∷ b'7' ∷ b'8' ∷ []) ≡ (15, b'8' ∷ [])
unfolding strtoul
octal_number = refl

no_number : strtoul (32 ∷ b'z' ∷ []) ≡ (0, 32 ∷ b'z' ∷ [])
unfolding strtoul
no_number = refl

minus_number : strtoul (b'-' ∷ b'1' ∷ []) ≡ (2 ^ 64 - 1, [])
unfolding strtoul
minus_number = refl

spelled : decimal 207 (b',' ∷ []) ≡ b'2' ∷ b'0' ∷ b'7' ∷ b',' ∷ []
unfolding decimal
spelled = refl
