-- ===== src/Driver/Reading.antt =====
-- What a client reads after a wake-up.
use evr_card_g.Base.{
  ℕ, suc, ◌≤◌, ◌≡◌, ◌≢◌, refl, pos, Bool, true, false, some, ltb, ◌==◌, arith, ==_iff,
}
use evr_card_g.Driver.Device.{Device, nth}
use evr_card_g.Driver.Calls.{
  failed, eagain, clear_pending, wait_pending, take_pending, tpr_read, tpr_poll,
}

-- A wake-up of a client is delivered once: a read that does not block gives the word 1 and its four
-- bytes, the next one is told to try again, a poll says so before and after, and the wake-ups of the
-- other clients stay.
pub tpr_read_once :
    {C : Type 0} (wait : Device C → Bool × Device C) (n count s other : ℕ) (d : Device C)
    → 4 ≤ count
    → other ≢ s
    → (d.all_shares s).pendingirq ≡ true
    → (r : Device C) × (tpr_read wait true true (suc n) count (nth s) d
        ≡ some (record { retval = pos 4; word = some 1; moved = 4 }, r))
      × (tpr_read wait true true (suc n) count (nth s) r ≡ some (failed eagain, r))
      × (tpr_poll (nth s) d ≡ 65)
      × (tpr_poll (nth s) r ≡ 0)
      × ((r.all_shares other).pendingirq ≡ (d.all_shares other).pendingirq)
unfolding tpr_read wait_pending take_pending tpr_poll
tpr_read_once wait n count s other d enough ne set = (
  clear_pending (nth s) d,
  rw (large, set) refl,
  rw (large, self) refl,
  rw (set) refl,
  rw (self) refl,
  rw (away) refl,
)
  where
    large : ltb count 4 ≡ false
    large = ground arith

    self : (s == s) ≡ true
    self = (==_iff s s).1 refl

    away : (other == s) ≡ false
    away = ground arith
