-- ===== src/Prom/Load.antt =====
-- `PromLoad`, `PromVerify` and `PromVersion`, and their `main`.
use evr_card_g.Base.{ℕ, ◌==◌, Bool, false, not, List, Option, if◌then◌else◌}
use evr_card_g.Base.Run.{Run, done, ◌>>=◌}
use evr_card_g.Mcs.Reader.{open_path}
use evr_card_g.Mcs.Read.{addr_size}
use evr_card_g.Bus.{Bus}
use evr_card_g.Prom.Card.{Prom, new_prom, check_firmware_version, erase_boot_prom}
use evr_card_g.Prom.Boot.{buffered_write_boot_prom, verify_boot_prom}

-- The fuel of the loops: rounds of the loops over the file, blocks of the erase, and polls.
pub record Fuel : Type 0 where
  pub rounds : ℕ
  pub blocks : ℕ
  pub polls : ℕ

-- The answer of `fileExist`.
abbrev pub file_exist : Option (List ℕ) → Bool
file_exist file = (open_path file).0

-- `getPromSize`, whose result is printed only; that the file was opened is not checked there.
unfoldable pub get_prom_size : ℕ → Option (List ℕ) → Run ℕ
get_prom_size rounds file = do (size, r) ← addr_size rounds (open_path file).1; done size

module _ {C : Type 0} (bus : Bus C) (f : Fuel) where
  -- The exit status for a comparison.
  unfoldable pub exit_status : Bool × C → Run (ℕ × C)
  exit_status (same, c) = done ((if same then 0 else 1), c)

  -- Behind the write: compare, unless the write failed.
  unfoldable pub after_write : Option (List ℕ) → Bool × C → Run (ℕ × C)
  after_write file (written, c) =
      if not written
      then done (1, c)
      else verify_boot_prom bus f.polls f.rounds file c >>= exit_status

  -- Erase, write and compare.
  unfoldable pub renew : Option (List ℕ) → Prom C → Run (ℕ × C)
  renew file p = do
    erased ← erase_boot_prom bus f.blocks f.polls p
    buffered_write_boot_prom bus p.prom_type f.polls f.rounds file erased.card >>= after_write file

  -- Behind the check of the version.
  unfoldable pub after_check : Option (List ℕ) → Bool × Prom C → Run (ℕ × C)
  after_check file (gen2, q) = if not gen2 then done (1, q.card) else renew file q

  -- The first argument is whether the mapping failed. The result is the exit status.
  unfoldable pub prom_load : Bool → Option (List ℕ) → C → Run (ℕ × C)
  prom_load map_failed file c =
      let p = new_prom bus c in
      let load = do
        size ← get_prom_size f.rounds file
        after_check file (check_firmware_version bus p)
      in if map_failed
        then done (1, c)
        else if not (file_exist file)
        then done (1, p.card)
        else load

  unfoldable pub prom_verify : Bool → Option (List ℕ) → C → Run (ℕ × C)
  prom_verify map_failed file c =
      let p = new_prom bus c in
      let (gen2, q) = check_firmware_version bus p in
      let verify = verify_boot_prom bus f.polls f.rounds file q.card >>= exit_status in
      if map_failed
      then done (1, c)
      else if not (file_exist file)
      then done (1, p.card)
      else if not gen2
      then done (1, q.card)
      else verify

module _ {C : Type 0} (bus : Bus C) where
  -- `PromVersion`, which checks the version and does nothing else.
  unfoldable pub prom_version : Bool → C → Run (ℕ × C)
  prom_version map_failed c =
      let (gen2, q) = check_firmware_version bus (new_prom bus c) in
      if map_failed then done (1, c) else done ((if gen2 then 0 else 1), q.card)

-- `main` of the three programs: the number of arguments that is expected, whether the device was
-- opened, whether it was mapped, the program behind, and the number of arguments given.
unfoldable pub main_of : {C : Type 0} → ℕ → Bool → Bool → (C → Run (ℕ × C)) → ℕ → C → Run (ℕ × C)
main_of expected opened mapped program argc c =
    if not (argc == expected)
    then done (0, c)
    else if not opened
    then done (1, c)
    else if not mapped
    then done (1, c)
    else program c

module _ {C : Type 0} (bus : Bus C) (opened mapped : Bool) where
  unfoldable pub main_prom_version : ℕ → C → Run (ℕ × C)
  unfolding main_of
  main_prom_version = main_of 2 opened mapped (prom_version bus false)

module _ {C : Type 0} (bus : Bus C) (f : Fuel) (opened mapped : Bool) where
  unfoldable pub main_prom_load : Option (List ℕ) → ℕ → C → Run (ℕ × C)
  unfolding main_of
  main_prom_load file = main_of 3 opened mapped (prom_load bus f false file)

  unfoldable pub main_prom_verify : Option (List ℕ) → ℕ → C → Run (ℕ × C)
  unfolding main_of
  main_prom_verify file = main_of 3 opened mapped (prom_verify bus f false file)
