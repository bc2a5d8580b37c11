-- ===== src/Prom/Cycles.antt =====
-- What an erase command writes to the flash, for a flash that comes to rest.
use evr_card_g.Base.{ℕ, zero, suc, ◌+◌, ◌-◌, ◌*◌, ◌^◌, ◌≤◌, ◌<◌, ◌≡◌, false, ◌==◌, List, ◌∷◌}
use evr_card_g.Base.Run.{Run}
use evr_card_g.Bus.{Bus}
use evr_card_g.Regs.Word.{test_bit}
use evr_card_g.Prom.Flash.{read_flash}

-- What the erase relies on: a flash that is busy for a number of status reads, and then shows bit 7,
-- with no failure, which is bit 5. A command may set this number, up to a bound; a request of the
-- status does not. The stores to the card are noted, the last one first.
pub record IsFlash {C : Type 0} (bus : Bus C) (bound : ℕ) : Type 0 where
  pub log : C → List (ℕ × ℕ)
  pub busy : C → ℕ
  pub log-store : (o v : ℕ) (c : C) → log (bus.store o v c) ≡ (o, v) ∷ log c
  pub log-load : (o : ℕ) (c : C) → log (bus.load o c).1 ≡ log c
  pub busy-bound : (c : C) → busy c ≤ bound
  pub busy-request : (c : C) → busy (bus.store 0x20000 0x7000FF c) ≡ busy c
  pub busy-start : (address : ℕ) (c : C) → busy (bus.store 0x20004 (2 ^ 31 + address) c) ≡ busy c
  pub busy-load : (c : C) → busy (bus.load 0x20008 c).1 ≡ busy c - 1
  pub fails : (c : C) → test_bit 5 (bus.load 0x20008 c).0 ≡ false
  pub rests : (c : C) → test_bit 7 (bus.load 0x20008 c).0 ≡ (busy c == 0)

-- The stores of a command with its data, the last one first, before `l`.
abbrev pub wrote : ℕ → ℕ → ℕ → List (ℕ × ℕ) → List (ℕ × ℕ)
wrote address cmd word l = (0x20004, address) ∷ (0x20000, cmd * 65536 + word) ∷ l

-- The stores of `n` requests of the status.
abbrev pub requested : ℕ → ℕ → List (ℕ × ℕ) → List (ℕ × ℕ)
requested zero address l = l
requested (suc n) address l = requested n address (wrote (2 ^ 31 + address) 0x70 0xFF l)

module _ {C : Type 0} (bus : Bus C) {bound : ℕ} (f : IsFlash bus bound) (address : ℕ)
    (h : address < 2 ^ 31) where
  -- A read of the status.
  abbrev status : C → ℕ × C
  status = read_flash bus address 0x70
