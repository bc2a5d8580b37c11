-- ===== src/Prom/Exit.antt =====
-- What an exit status of 0 says of the card's PROM.
use evr_card_g.Base.{
  ℕ, Bool, true, false, List, Option, none, some, ◌≡◌, ◌≢◌, ◌⊎◌, inl, inr, arith, Bool-cases, ◌==◌,
  ◌∙◌,
}
use mathlib.Core.Path.{ap₂}
use evr_card_g.Base.Run.{done, >>=-eq-done}
use evr_card_g.Mcs.Reader.{fresh, open_path}
use evr_card_g.Bus.{Bus}
use evr_card_g.Prom.Boot.{no_data, verify_boot_prom}
use evr_card_g.Prom.Load.{Fuel, exit_status, prom_verify, main_of, main_prom_load}
use evr_card_g.Prom.Success.{checked, Renewed, exit_status_zero, prom_load-Renewed}
use evr_card_g.Prom.Verify.{Reading, Compared, verify_boot_prom-Compared}

module _ {C : Type 0} (bus : Bus C) (f : Fuel) where
  -- The whole file was read, and each two of its bytes were the word that the PROM gave at the
  -- word's place.
  abbrev pub Matches : List ℕ → C → C → Type 0
  Matches file c c' =
      (bs : List (Option ℕ)) × Reading f.polls no_data (fresh (some file)) bs
      × Compared bus false none 0 bs c c'

  -- The exit status of PromVerify is 0 only if the card is of generation 2, and the whole file
  -- was read and agreed with what the PROM gave behind the check of the version.
  pub prom_verify-Matches :
      (file : List ℕ) (c c' : C)
      → prom_verify bus f false (some file) c ≡ done (0, c')
      → ((checked bus f c).0 ≡ true) × Matches file (checked bus f c).1.card c'
  unfolding prom_verify open_path
  prom_verify-Matches file c c' e = elim (Bool-cases (checked bus f c).0) [
    | inr old ↦ cc (rw old at e)
    | inl gen2 ↦
        let card = (checked bus f c).1.card in
        let ((same, c₁), compared, e₁) =
          >>=-eq-done (verify_boot_prom bus f.polls f.rounds (some file) card) (exit_status bus f)
            (ground arith) in
        let (yes_same, end) = exit_status_zero bus f same c₁ c' e₁ in
        let whole = compared ∙ ap₂ (λ (s : Bool) (x : C). done (s, x)) yes_same end in
        (gen2, verify_boot_prom-Compared bus f.polls f.rounds file card c' whole)
  ]

  -- The exit status of the program PromLoad is 0 only if it was called with another number of
  -- arguments than two, and did nothing; or the device was opened and mapped, and, after the erase
  -- and the write, the whole file was read and agreed with what the PROM gave.
  pub main_prom_load-Matches :
      (opened mapped : Bool) (file : List ℕ) (argc : ℕ) (c c' : C)
      → main_prom_load bus f opened mapped (some file) argc c ≡ done (0, c')
      → ((argc ≢ 3) × (c ≡ c'))
        ⊎ ((opened ≡ true)
            × (mapped ≡ true)
            × (w : Renewed bus f (some file) (checked bus f c).1 c') × Matches file w.written c')
  unfolding main_prom_load main_of
  main_prom_load-Matches opened mapped file argc c c' e = elim (Bool-cases (argc == 3)) [
    | inr usage ↦ inl ((λ h. ground arith), ground arith)
    | inl right ↦ elim (Bool-cases opened) [
      | inr closed ↦ cc (rw (right, closed) at e)
      | inl is_opened ↦ elim (Bool-cases mapped) [
        | inr unmapped ↦ cc (rw (right, is_opened, unmapped) at e)
        | inl is_mapped ↦
            let (_, _, _, w) = prom_load-Renewed bus f false (some file) c c' (ground arith) in
            inr (
              is_opened,
              is_mapped,
              w,
              verify_boot_prom-Compared bus f.polls f.rounds file w.written c' w.compare,
            )
      ]
    ]
  ]
