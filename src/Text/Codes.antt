-- ===== src/Text/Codes.antt =====
-- The code points of a text literal.
use Prim.Native.Char.{code}
use Prim.Native.String.{String}
use evr_card_g.Base.{ℕ, List, [], ◌∷◌}

abbrev pub codes : String → List ℕ
codes String.[] = []
codes (String.◌∷◌ c s) = code c ∷ codes s
