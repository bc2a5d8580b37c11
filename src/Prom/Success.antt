-- ===== src/Prom/Success.antt =====
-- The whole programs: what an exit status of 0 means, and what is left alone when it is not 0.
use evr_card_g.Base.{
  ℕ, Bool, true, false, List, Option, some, ◌≡◌, refl, arith, Bool-cases, inl, inr, ap, ◌∙◌,
}
use mathlib.Core.Path.{ap₂}
use evr_card_g.Base.Run.{done, ◌>>=◌, >>=-eq-done}
use evr_card_g.Mcs.Reader.{open_path}
use evr_card_g.Bus.{Bus}
use evr_card_g.Prom.Card.{Prom, new_prom, check_firmware_version, erase_boot_prom}
use evr_card_g.Prom.Boot.{buffered_write_boot_prom, verify_boot_prom}
use evr_card_g.Prom.Load.{
  Fuel, get_prom_size, file_exist, exit_status, after_write, renew, after_check, prom_load,
}

module _ {C : Type 0} (bus : Bus C) (f : Fuel) where
  abbrev pub checked : C → Bool × Prom C
  checked c = check_firmware_version bus (new_prom bus c)

  -- The erase, the write and the comparison have all been made, one behind the other.
  pub record Renewed (file : Option (List ℕ)) (p : Prom C) (c' : C) : Type 0 where
    pub erased : Prom C
    pub written : C
    pub erase : erase_boot_prom bus f.blocks f.polls p ≡ done erased
    pub write :
        buffered_write_boot_prom bus p.prom_type f.polls f.rounds file erased.card
        ≡ done (true, written)
    pub compare : verify_boot_prom bus f.polls f.rounds file written ≡ done (true, c')

  pub exit_status_zero :
      (same : Bool) (c c' : C)
      → exit_status bus f (same, c) ≡ done (0, c')
      → (same ≡ true) × (c ≡ c')
  unfolding exit_status
  exit_status_zero true c c' e = (refl, cc)
  exit_status_zero false c c' e = cc

  after_write_zero :
      (file : Option (List ℕ)) (written : Bool) (c c' : C)
      → after_write bus f file (written, c) ≡ done (0, c')
      → (written ≡ true) × (verify_boot_prom bus f.polls f.rounds file c ≡ done (true, c'))
  unfolding after_write
  after_write_zero file false c c' e = cc
  after_write_zero file true c c' e =
      let ((same, c₁), compared, e₁) =
        >>=-eq-done (verify_boot_prom bus f.polls f.rounds file c) (exit_status bus f) e in
      let (yes_same, end) = exit_status_zero same c₁ c' e₁ in
      (refl, compared ∙ ap₂ (λ (s : Bool) (x : C). done (s, x)) yes_same end)

  renew-Renewed :
      (file : Option (List ℕ)) (p : Prom C) (c' : C)
      → renew bus f file p ≡ done (0, c')
      → Renewed file p c'
  unfolding renew
  renew-Renewed file p c' e =
      let write =
        λ (q : Prom C). buffered_write_boot_prom bus p.prom_type f.polls f.rounds file q.card in
      let (erased, erase, e₁) =
        >>=-eq-done (erase_boot_prom bus f.blocks f.polls p)
          (λ q. write q >>= after_write bus f file) e in
      let ((ok_write, c₁), wrote, e₂) = >>=-eq-done (write erased) (after_write bus f file) e₁ in
      let (yes_write, compared) = after_write_zero file ok_write c₁ c' e₂ in
      record {
        erased = erased;
        written = c₁;
        erase = erase;
        write = wrote ∙ ap (λ (b : Bool). done (b, c₁)) yes_write;
        compare = compared;
      }

  after_check_zero :
      (file : Option (List ℕ)) (gen2 : Bool) (q : Prom C) (c' : C)
      → after_check bus f file (gen2, q) ≡ done (0, c')
      → (gen2 ≡ true) × Renewed file q c'
  unfolding after_check
  after_check_zero file false q c' e = cc
  after_check_zero file true q c' e = (refl, renew-Renewed file q c' e)

  -- The exit status of PromLoad is 0 only if the device was mapped, the file could be opened, the
  -- card is of generation 2, and the PROM was erased, written and compared with no difference.
  pub prom_load-Renewed :
      (map_failed : Bool) (file : Option (List ℕ)) (c c' : C)
      → prom_load bus f map_failed file c ≡ done (0, c')
      → (map_failed ≡ false)
        × (file_exist file ≡ true)
        × ((checked c).0 ≡ true)
        × Renewed file (checked c).1 c'
  unfolding prom_load
  prom_load-Renewed true file c c' e = cc
  prom_load-Renewed false file c c' e = elim (Bool-cases (file_exist file)) [
    | inr missing ↦ cc (rw missing at e)
    | inl exists ↦
        let loads : (get_prom_size f.rounds file >>= λ _. after_check bus f file (checked c))
            ≡ done (0, c') =
          ground arith in
        let (size, _, e₁) =
          >>=-eq-done (get_prom_size f.rounds file) (λ _. after_check bus f file (checked c))
            loads in
        let (gen2, renewed) = after_check_zero file (checked c).0 (checked c).1 c' e₁ in
        (refl, exists, gen2, renewed)
  ]

  -- On a mapped card that is not of generation 2, with a file that can be opened, PromLoad ends
  -- with status 1 if it ends at all, and leaves the card as the check of the version did.
  pub prom_load_refused :
      (file : List ℕ) (c : C) {s : ℕ} {c' : C}
      → (checked c).0 ≡ false
      → prom_load bus f false (some file) c ≡ done (s, c')
      → (s ≡ 1) × (c' ≡ (checked c).1.card)
  unfolding prom_load open_path after_check
  prom_load_refused file c {s} {c'} old e =
      let (size, _, e₁) =
        >>=-eq-done (get_prom_size f.rounds (some file))
          (λ _. after_check bus f (some file) (checked c)) e in
      ground arith
