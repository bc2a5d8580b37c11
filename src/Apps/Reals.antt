-- ===== src/Apps/Reals.antt =====
-- The floating point numbers of the programs: the type, the conversions and the operations that
-- they use, as a parameter.
use evr_card_g.Base.{ℕ, Bool, List, ◌≡◌, ◌∷◌}
use Prim.Native.String.{String}

pub record Reals : Type 1 where
  pub Real : Type 0
  -- A literal of the source.
  pub literal : String → Real
  pub strtod : List ℕ → Real × List ℕ
  -- What a variable of type `float` keeps.
  pub narrowed : Real → Real
  pub of_unsigned : ℕ → Real
  pub to_unsigned : Real → ℕ
  pub plus : Real → Real → Real
  pub minus : Real → Real → Real
  pub times : Real → Real → Real
  pub over : Real → Real → Real
  pub less : Real → Real → Bool

-- `CLK_FREQ`
abbrev pub clk_freq : (r : Reals) → r.Real
clk_freq r = r.over (r.literal "1300e6") (r.literal "7.")

-- What `strtod` promises: a number that is spelled in front of a comma is read up to it.
pub record IsSpelled (r : Reals) (spell : r.Real → List ℕ → List ℕ) : Type 0 where
  pub strtod_spell : (x : r.Real) (s : List ℕ) → r.strtod (spell x (b',' ∷ s)) ≡ (x, b',' ∷ s)
