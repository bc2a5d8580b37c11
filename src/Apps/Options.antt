-- ===== src/Apps/Options.antt =====
-- What the programs of software/app share: the loop over getopt's answers, the option `-d`, the
-- tests behind the loop, and the opening of the device.
use evr_card_g.Base.{ℕ, ℤ, Bool, true, false, not, ◌||◌, List, [], ◌∷◌, length, ◌==◌, if◌then◌else◌}
use evr_card_g.Base.Run.{Run, done, ◌>>=◌}

-- An answer of getopt: the option's character, and its argument without the zero at the end.
pub record Answer : Type 0 where
  pub char : ℕ
  pub optarg : List ℕ

-- After an answer the loop goes on, or the program exits, as it does for `-h`.
pub data Parse (O : Type 0) : Type 0 where
  go : O → Parse O
  leave : ℤ → Parse O

-- The variables of `main` that each program has: `tprid`, `lUsage`, and the program's own.
pub record Options (S : Type 0) : Type 0 where
  pub tprid : ℕ
  pub usage : Bool
  pub settings : S

abbrev pub first_char : List ℕ → ℕ
first_char [] = 0
first_char (c ∷ s) = c

module _ {S : Type 0} where
  -- `case 'd'`
  abbrev pub device_option : List ℕ → Options S → Options S
  device_option arg o = record o {
    tprid = first_char arg;
    usage = if length arg == 1 then o.usage else true;
  }

  -- `lUsage = true`
  abbrev pub misused : Options S → Options S
  misused o = record o { usage = true }

  abbrev pub with_settings : S → Options S → Options S
  with_settings s o = record o { settings = s }

  abbrev pub start_options : S → Options S
  start_options s = record { tprid = b'a'; usage = false; settings = s }

  abbrev pub next_answer :
      (Options S → Run (Parse (Options S))) → Parse (Options S) → Run (Parse (Options S))
  next_answer loop (go o) = loop o
  next_answer loop (leave status) = done (leave status)

  -- `while ((c = getopt(...)) != EOF)`
  unfoldable pub parse :
      (Answer → Options S → Run (Parse (Options S)))
      → List Answer
      → Options S
      → Run (Parse (Options S))
  parse handle [] o = done (go o)
  parse handle (a ∷ answers) o = do p ← handle a o; next_answer (parse handle answers) p

-- Whether `open` of the device with a letter and the `mmap` behind it succeed.
pub record System : Type 0 where
  pub opened : ℕ → Bool
  pub mapped : ℕ → Bool

-- A program exits with a status, or goes on for ever in a last loop that only watches.
pub data End : Type 0 where
  exits : ℤ → End
  watches : End

abbrev pub exit_usage : End
exit_usage = exits (ℤ.pos 1)

abbrev pub not_opened : End
not_opened = exits (ℤ.negsuc 0)

abbrev pub not_mapped : End
not_mapped = exits (ℤ.negsuc 1)

abbrev pub exit_ok : End
exit_ok = exits (ℤ.pos 0)

module _ {S C : Type 0} where
  -- Behind the loop: arguments that are left, the usage, the device, and the program's own part.
  unfoldable pub on_device :
      System → Bool → (S → C → Run (End × C)) → C → Parse (Options S) → Run (End × C)
  on_device sys left body c (leave status) = done (exits status, c)
  on_device sys left body c (go o) =
      if o.usage || left
      then done (exit_usage, c)
      else if not (sys.opened o.tprid)
      then done (not_opened, c)
      else if not (sys.mapped o.tprid)
      then done (not_mapped, c)
      else body o.settings c
