-- ===== src/Bus.antt =====
-- The registers of the card, behind `mmap`: hardware, so a parameter of the model.
use evr_card_g.Base.{ℕ}

-- A store and a load of the 32-bit register at an offset, and the time that passes in a sleep.
pub record Bus (C : Type 0) : Type 0 where
  pub store : ℕ → ℕ → C → C
  pub load : ℕ → C → ℕ × C
  pub sleep_us : ℕ → C → C
