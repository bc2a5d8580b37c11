-- ===== src/Apps/Lock/Monitor.antt =====
-- software/app/evrlock.cc: the last loop of `main`.
use evr_card_g.Base.{ℕ, zero, suc, Bool, true, false, none, some, if◌then◌else◌, ◌≡◌, refl}
use evr_card_g.Base.Outcome.{undefined}
use evr_card_g.Base.Run.{Run, done, ◌>>=◌}
use evr_card_g.Bus.{Bus}
use evr_card_g.Apps.Lock.Registers.{AppCopy, app_word, app_dump}

-- `-F` and `-S`.
pub data PhaseScan : Type 0 where
  no_scan fast slow : PhaseScan

module _ {C : Type 0} (bus : Bus C) where
  open bus use {store, sleep_us}

  -- `n` steps of the phase, a millisecond apart.
  unfoldable pub fast_steps : ℕ → C → C
  fast_steps zero c = c
  fast_steps (suc n) c = fast_steps n (sleep_us 1000 (store (app_word 11) 1 c))

  unfoldable pub step_phase : PhaseScan → C → C
  unfolding fast_steps
  step_phase no_scan c = sleep_us 1000000 c
  step_phase fast c = fast_steps 1000 c
  step_phase slow c = store (app_word 11) 1 (sleep_us 1000000 c)

  -- One round: the dump into `dc`, the steps, and a line to the output file. A write to a file that
  -- was not opened is a fault.
  unfoldable pub monitor_round : Bool → PhaseScan → AppCopy → C → Run (AppCopy × C)
  unfolding step_phase
  monitor_round opened scan dc c =
      let (dc', c') = app_dump bus dc c in
      if opened then done (dc', step_phase scan c') else some undefined

  -- `while(1)`, with a round of fuel for each iteration.
  unfoldable pub monitor : ℕ → Bool → PhaseScan → AppCopy → C → Run (AppCopy × C)
  unfolding monitor_round
  monitor zero opened scan dc c = none
  monitor (suc n) opened scan dc c = do
    (dc', c') ← monitor_round opened scan dc c
    monitor n opened scan dc' c'

  -- With an output file the loop never ends, whatever the fuel; with none, it is a fault in its
  -- first round.
  pub monitor_endless :
      (n : ℕ) (scan : PhaseScan) (dc : AppCopy) (c : C)
      → (monitor n true scan dc c ≡ none) × (monitor (suc n) false scan dc c ≡ some undefined)
  unfolding monitor
  monitor_endless zero scan dc c = (refl, refl)
  monitor_endless (suc n) scan dc c =
      let (dc', c') = app_dump bus dc c in
      ((monitor_endless n scan dc' (step_phase scan c')).0, refl)
