-- ===== src/Apps/Trig/Refusal.antt =====
-- software/app/tprtrig.cc: the documented options `-1` and `-2` are refused.
use evr_card_g.Base.{
  ℕ, ℤ, Bool, true, false, ◌||◌, List, [], ◌∷◌, ◌==◌, ◌≡◌, arith, ◌⊎◌, inl, inr, Bool-cases,
}
use evr_card_g.Base.Outcome.{Outcome, ok, undefined, out_of_range}
use evr_card_g.Base.Run.{Run, done, >>=-eq-done}
use evr_card_g.Bus.{Bus}
use evr_card_g.Apps.Options.{
  Answer, Parse, go, leave, Options, parse, next_answer, start_options, System, on_device, End,
  exit_usage, exit_ok,
}
use evr_card_g.Apps.Reals.{Reals}
use evr_card_g.Apps.Trig.Choice.{
  TrigSettings, trig_defaults, trig_keep, trig_option, Kind, trig_case, kind_of, number_one,
  number_two, device, fixed_rate, ac_rate, sequence, readout_group, on_beam, be_verbose,
  reset_receiver, help, unknown,
}
use evr_card_g.Apps.Trig.Main.{trig_main}

module _ (reals : Reals) where
  open reals use {Real}

  -- The parse ends in a usage, or in the exit of `-h`.
  abbrev Refused : Parse (Options (TrigSettings Real)) → Type 0
  Refused (go o) = o.usage ≡ true
  Refused (leave status) = status ≡ ℤ.pos 0

  trig_keep-Refused :
      {A : Type 0} (read : Outcome A) (keep : A → TrigSettings Real)
      (o : Options (TrigSettings Real)) (p : Parse (Options (TrigSettings Real)))
      → trig_keep reals read keep o ≡ done p
      → o.usage ≡ true
      → Refused p
  trig_keep-Refused (ok x) keep o (go o') e u = ground arith
  trig_keep-Refused (ok x) keep o (leave status) e u = cc
  trig_keep-Refused out_of_range keep o p e u = cc
  trig_keep-Refused undefined keep o p e u = cc

  trig_case-Refused :
      (k : Kind) (arg : List ℕ) (o : Options (TrigSettings Real))
      (p : Parse (Options (TrigSettings Real)))
      → trig_case reals k arg o ≡ done p
      → (o.usage ≡ true) ⊎ (k ≡ unknown)
      → Refused p
  unfolding trig_case
  trig_case-Refused unknown arg o (go o') e h = ground arith
  trig_case-Refused unknown arg o (leave status) e h = cc
  trig_case-Refused k arg o p e (inr other) = cc
  trig_case-Refused number_one arg o (go o') e (inl u) = ground arith
  trig_case-Refused number_one arg o (leave status) e (inl u) = cc
  trig_case-Refused number_two arg o (go o') e (inl u) = ground arith
  trig_case-Refused number_two arg o (leave status) e (inl u) = cc
  trig_case-Refused device arg o (go o') e (inl u) = ground arith
  trig_case-Refused device arg o (leave status) e (inl u) = cc
  trig_case-Refused fixed_rate arg o p e (inl u) = trig_keep-Refused _ _ o p e u
  trig_case-Refused ac_rate arg o p e (inl u) = trig_keep-Refused _ _ o p e u
  trig_case-Refused sequence arg o p e (inl u) = trig_keep-Refused _ _ o p e u
  trig_case-Refused readout_group arg o p e (inl u) = trig_keep-Refused _ _ o p e u
  trig_case-Refused on_beam arg o p e (inl u) = trig_keep-Refused _ _ o p e u
  trig_case-Refused be_verbose arg o (go o') e (inl u) = ground arith
  trig_case-Refused be_verbose arg o (leave status) e (inl u) = cc
  trig_case-Refused reset_receiver arg o (go o') e (inl u) = ground arith
  trig_case-Refused reset_receiver arg o (leave status) e (inl u) = cc
  trig_case-Refused help arg o (go o') e (inl u) = cc
  trig_case-Refused help arg o (leave status) e (inl u) = ground arith

  trig_keep_leaves :
      {A : Type 0} (read : Outcome A) (keep : A → TrigSettings Real)
      (o : Options (TrigSettings Real)) (s : ℤ)
      → trig_keep reals read keep o ≡ done (leave s)
      → s ≡ ℤ.pos 0
  trig_keep_leaves (ok x) keep o s e = cc
  trig_keep_leaves out_of_range keep o s e = cc
  trig_keep_leaves undefined keep o s e = cc

  trig_case_leaves :
      (k : Kind) (arg : List ℕ) (o : Options (TrigSettings Real)) (s : ℤ)
      → trig_case reals k arg o ≡ done (leave s)
      → s ≡ ℤ.pos 0
  unfolding trig_case
  trig_case_leaves number_one arg o s e = cc
  trig_case_leaves number_two arg o s e = cc
  trig_case_leaves device arg o s e = cc
  trig_case_leaves fixed_rate arg o s e = trig_keep_leaves _ _ o s e
  trig_case_leaves ac_rate arg o s e = trig_keep_leaves _ _ o s e
  trig_case_leaves sequence arg o s e = trig_keep_leaves _ _ o s e
  trig_case_leaves readout_group arg o s e = trig_keep_leaves _ _ o s e
  trig_case_leaves on_beam arg o s e = trig_keep_leaves _ _ o s e
  trig_case_leaves be_verbose arg o s e = cc
  trig_case_leaves reset_receiver arg o s e = cc
  trig_case_leaves help arg o s e = ground arith
  trig_case_leaves unknown arg o s e = cc

  -- Whether one of the answers is the option `-1` or `-2`.
  abbrev pub asks_timing : List Answer → Bool
  asks_timing [] = false
  asks_timing (a ∷ answers) = (a.char == b'1' || a.char == b'2') || asks_timing answers

  digit_unknown : (c : ℕ) → (c == b'1' || c == b'2') ≡ true → kind_of c ≡ unknown
  unfolding kind_of
  digit_unknown c h = ground arith

  trig_option-Refused :
      (a : Answer) (o : Options (TrigSettings Real)) (p : Parse (Options (TrigSettings Real)))
      → trig_option reals a o ≡ done p
      → (o.usage ≡ true) ⊎ ((a.char == b'1' || a.char == b'2') ≡ true)
      → Refused p
  unfolding trig_option
  trig_option-Refused a o p e (inl u) = trig_case-Refused (kind_of a.char) a.optarg o p e (inl u)
  trig_option-Refused a o p e (inr digit) =
      trig_case-Refused (kind_of a.char) a.optarg o p e (inr (digit_unknown a.char digit))

  first_leaves :
      (a : Answer) (o : Options (TrigSettings Real)) (s : ℤ)
      → trig_option reals a o ≡ done (leave s)
      → s ≡ ℤ.pos 0
  unfolding trig_option
  first_leaves a o s e = trig_case_leaves (kind_of a.char) a.optarg o s e

  abbrev Asked : List Answer → Parse (Options (TrigSettings Real)) → Type 0
  Asked answers (go o) = (o.usage ≡ true) ⊎ (asks_timing answers ≡ true)
  Asked answers (leave s) = s ≡ ℤ.pos 0

  trig_option-Asked :
      (a : Answer) (answers : List Answer) (o : Options (TrigSettings Real))
      (p : Parse (Options (TrigSettings Real)))
      → trig_option reals a o ≡ done p
      → (o.usage ≡ true) ⊎ (asks_timing (a ∷ answers) ≡ true)
      → Asked answers p
  trig_option-Asked a answers o (leave s) e h = first_leaves a o s e
  trig_option-Asked a answers o (go o') e (inl u) = inl (trig_option-Refused a o (go o') e (inl u))
  trig_option-Asked a answers o (go o') e (inr h) =
      elim (Bool-cases (a.char == b'1' || a.char == b'2')) [
        | inl digit ↦ inl (trig_option-Refused a o (go o') e (inr digit))
        | inr other ↦ inr (rw other at h)
      ]

  abbrev Refusing : List Answer → Type 0
  Refusing answers =
      (o : Options (TrigSettings Real)) (p : Parse (Options (TrigSettings Real)))
      → parse (trig_option reals) answers o ≡ done p
      → (o.usage ≡ true) ⊎ (asks_timing answers ≡ true)
      → Refused p

  after-Refused :
      (answers : List Answer) (p₁ p : Parse (Options (TrigSettings Real)))
      → Refusing answers
      → next_answer (parse (trig_option reals) answers) p₁ ≡ done p
      → Asked answers p₁
      → Refused p
  after-Refused answers (go o) p later e h = later o p e h
  after-Refused answers (leave s) (go o) later e h = cc
  after-Refused answers (leave s) (leave s') later e h = ground arith

  -- A parse that comes to an end after one of these options ends in the usage or in `-h`.
  parse-Refused : (answers : List Answer) → Refusing answers
  unfolding parse
  parse-Refused [] o (go o') e (inl u) = ground arith
  parse-Refused [] o (leave s) e h = cc
  parse-Refused [] o p e (inr h) = cc
  parse-Refused (a ∷ answers) o p e h =
      let (p₁, first, rest) = >>=-eq-done (trig_option reals a o) _ e in
      after-Refused answers p₁ p (parse-Refused answers) rest
        (trig_option-Asked a answers o p₁ first h)

  on_device-Refused :
      {C : Type 0} (sys : System) (left : Bool) (work : TrigSettings Real → C → Run (End × C))
      (c c' : C) (p : Parse (Options (TrigSettings Real))) (end : End)
      → on_device sys left work c p ≡ done (end, c')
      → Refused p
      → (c' ≡ c) × ((end ≡ exit_usage) ⊎ (end ≡ exit_ok))
  unfolding on_device
  on_device-Refused sys left work c c' (go o) end e h = (ground arith, inl (ground arith))
  on_device-Refused sys left work c c' (leave s) end e h = (ground arith, inr (ground arith))

  -- With the option `-1` or `-2`, which the usage documents, the program leaves the card alone: it
  -- exits with the usage and 1, or by `-h`, if it comes to an end.
  pub timing_refused :
      {C : Type 0} (bus : Bus C) (sys : System) (answers : List Answer) (left : Bool) (c c' : C)
      (end : End)
      → trig_main reals bus sys answers left c ≡ done (end, c')
      → asks_timing answers ≡ true
      → (c' ≡ c) × ((end ≡ exit_usage) ⊎ (end ≡ exit_ok))
  unfolding trig_main
  timing_refused bus sys answers left c c' end e h =
      let (p, parsed, rest) =
        >>=-eq-done (parse (trig_option reals) answers (start_options trig_defaults)) _ e in
      on_device-Refused sys left _ c c' p end rest (parse-Refused answers _ p parsed (inr h))
