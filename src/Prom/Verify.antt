-- ===== src/Prom/Verify.antt =====
-- What a successful comparison of the file with the PROM has seen.
use evr_card_g.Base.{
  ℕ, zero, suc, ◌+◌, ◌%◌, ◌^◌, Bool, true, false, List, [], ◌∷◌, Option, none, some, ◌≡◌, refl,
  arith, sym, ◌==◌, ==_iff, Bool-cases, inl, inr, ℤ,
}
use mathlib.Core.Path.{subst, subst₂}
use evr_card_g.Base.Run.{done, ◌>>=◌, >>=-eq-done, value}
use evr_card_g.Mcs.Reader.{Reader, fresh, open_path}
use evr_card_g.Mcs.Read.{ReadData, read}
use evr_card_g.Bus.{Bus}
use evr_card_g.Prom.Flash.{read_word_command}
use evr_card_g.Prom.Boot.{
  negative, low_byte, join, no_data, Verifier, verifier, compare_word, compare_byte, verify_next,
  verify_round, verify_loop, verify_boot_prom, buffered_write_boot_prom,
}

value_eq : (o : Option ℕ) {x : ℕ} → value o ≡ done x → o ≡ some x
value_eq none e = cc
value_eq (some x) e = cc

-- The reader hands out these bytes, one for each call of `read`, until one notes the end of the
-- file, and no call fails. That last call has its byte in the list too.
pub data Reading (fuel : ℕ) : ReadData → Reader → List (Option ℕ) → Type 0 where
  at_end : {mem : ReadData} {r : Reader} → mem.end_of_file ≡ true → Reading fuel mem r []
  one_more :
      {mem mem' : ReadData} {r r' : Reader} {s : ℤ} {bs : List (Option ℕ)}
      → mem.end_of_file ≡ false
      → read fuel mem r ≡ done (s, mem', r')
      → negative s ≡ false
      → Reading fuel mem' r' bs
      → Reading fuel mem r (mem'.byte ∷ bs)

module _ {C : Type 0} (bus : Bus C) where
  -- The bytes against the PROM, two to a word, from address `a` on. The flag and the first
  -- option are a lower byte that waits for its upper one.
  pub data Compared : Bool → Option ℕ → ℕ → List (Option ℕ) → C → C → Type 0 where
    none_left : {t : Bool} {fd : Option ℕ} {a : ℕ} {c : C} → Compared t fd a [] c c
    lower :
        {fd b : Option ℕ} {a : ℕ} {bs : List (Option ℕ)} {c c' : C}
        → Compared true (low_byte b) a bs c c'
        → Compared false fd a (b ∷ bs) c c'
    upper :
        {fd b : Option ℕ} {a : ℕ} {bs : List (Option ℕ)} {c c' : C} (low high : ℕ)
        → fd ≡ some low
        → b ≡ some high
        → join low high ≡ (read_word_command bus a c).0
        → Compared false
            (some (join low high))
            ((a + 1) % 2 ^ 32)
            bs
            (read_word_command bus a c).1
            c'
        → Compared true fd a (b ∷ bs) c c'

  abbrev From : Verifier C → List (Option ℕ) → C → Type 0
  From v bs c' = Compared v.toggle v.file_data v.address bs v.card c'

  compare_word-Compared :
      (low high : ℕ) (v v' : Verifier C) (bs : List (Option ℕ)) (c' : C)
      → v.file_data ≡ some low
      → v.mem.byte ≡ some high
      → compare_word bus low high v ≡ (true, v')
      → From v' bs c'
      → Compared true v.file_data v.address (v.mem.byte ∷ bs) v.card c'
  unfolding compare_word
  compare_word-Compared low high v v' bs c' el eh e k =
      let word = join low high in
      let (prom, c) = read_word_command bus v.address v.card in
      elim (Bool-cases (word == prom)) [
        | inr differ ↦ cc (rw differ at e)
        | inl same ↦
            let next : Verifier C = record v {
              toggle = false;
              file_data = some word;
              card = c;
              address = (v.address + 1) % 2 ^ 32;
            } in
            let goes : next ≡ v' = cc (rw same at e) in
            upper low high el eh ((==_iff word prom).0 same)
              (subst (λ x. From x bs c') (sym goes) k)
      ]

  compare_byte_keeps :
      (v v' : Verifier C)
      → compare_byte bus v ≡ done (true, v')
      → (v'.mem ≡ v.mem) × (v'.reader ≡ v.reader)
  unfolding compare_byte compare_word
  compare_byte_keeps v v' e = ground arith

  -- A successful comparison of one byte.
  compare_byte-Compared :
      (v v' : Verifier C) (bs : List (Option ℕ)) (c' : C)
      → compare_byte bus v ≡ done (true, v')
      → From v' bs c'
      → From v (v.mem.byte ∷ bs) c'
  unfolding compare_byte
  compare_byte-Compared v v' bs c' e k = elim (Bool-cases v.toggle) [
    | inr low ↦
        let kept : Verifier C = record v { toggle = true; file_data = low_byte v.mem.byte } in
        let goes : kept ≡ v' = ground arith in
        subst (λ t. Compared t v.file_data v.address (v.mem.byte ∷ bs) v.card c') (sym low)
          (lower (subst (λ x. From x bs c') (sym goes) k))
    | inl high ↦
        let whole : (value v.file_data >>= λ l.
        value v.mem.byte >>= λ h. done (compare_word bus l h v))
            ≡ done (true, v') =
          ground arith in
        let (l, el, e₁) =
          >>=-eq-done (value v.file_data)
            (λ l. value v.mem.byte >>= λ h. done (compare_word bus l h v)) whole in
        let (h, eh, e₂) = >>=-eq-done (value v.mem.byte) (λ h. done (compare_word bus l h v)) e₁ in
        subst (λ t. Compared t v.file_data v.address (v.mem.byte ∷ bs) v.card c') (sym high)
          (compare_word-Compared l h v v' bs c' (value_eq v.file_data el) (value_eq v.mem.byte eh)
            (cc) k)
  ]

module _ {C : Type 0} (bus : Bus C) (fuel : ℕ) where
  after_read :
      (rounds : ℕ) (s : ℤ) (mem : ReadData) (r : Reader) (v : Verifier C) (c' : C)
      → verify_round bus fuel (verify_loop bus fuel rounds) v (s, mem, r) ≡ done (true, c')
      → (negative s ≡ false)
        × ((compare_byte bus (record v { mem = mem; reader = r })
              >>= verify_next bus fuel (verify_loop bus fuel rounds))
            ≡ done (true, c'))
  unfolding verify_round
  after_read rounds s mem r v c' e = (ground arith, ground arith)

  after_compare :
      (rounds : ℕ) (same : Bool) (v' : Verifier C) (c' : C)
      → verify_next bus fuel (verify_loop bus fuel rounds) (same, v') ≡ done (true, c')
      → (same ≡ true) × (verify_loop bus fuel rounds v' ≡ done (true, c'))
  unfolding verify_next
  after_compare rounds same v' c' e = (ground arith, ground arith)

  step-Reading :
      (rounds : ℕ) (s : ℤ) (mem : ReadData) (r : Reader) (v : Verifier C) (c' : C)
      → ((v' : Verifier C)
          → verify_loop bus fuel rounds v' ≡ done (true, c')
          → (bs : List (Option ℕ)) × Reading fuel v'.mem v'.reader bs × From bus v' bs c')
      → v.mem.end_of_file ≡ false
      → read fuel v.mem v.reader ≡ done (s, mem, r)
      → verify_round bus fuel (verify_loop bus fuel rounds) v (s, mem, r) ≡ done (true, c')
      → (bs : List (Option ℕ)) × Reading fuel v.mem v.reader bs × From bus v bs c'
  step-Reading rounds s mem r v c' rest more got e =
      let (fine, e₂) = after_read rounds s mem r v c' e in
      let v₁ : Verifier C = record v { mem = mem; reader = r } in
      let ((same, v'), compared, e₃) =
        >>=-eq-done (compare_byte bus v₁) (verify_next bus fuel (verify_loop bus fuel rounds)) e₂ in
      let (is_same, e₄) = after_compare rounds same v' c' e₃ in
      let compared' : compare_byte bus v₁ ≡ done (true, v') = rw (← is_same) compared in
      let (keeps_mem, keeps_reader) = compare_byte_keeps bus v₁ v' compared' in
      let (bs, reading, from) = rest v' e₄ in
      (
        mem.byte ∷ bs,
        one_more more got fine (subst₂ (λ m q. Reading fuel m q bs) keeps_mem keeps_reader reading),
        compare_byte-Compared bus v₁ v' bs c' compared' from,
      )

  verify_loop-Reading :
      (rounds : ℕ) (v : Verifier C) (c' : C)
      → verify_loop bus fuel rounds v ≡ done (true, c')
      → (bs : List (Option ℕ)) × Reading fuel v.mem v.reader bs × From bus v bs c'
  unfolding verify_loop
  verify_loop-Reading zero v c' e = cc
  verify_loop-Reading (suc rounds) v c' e = elim (Bool-cases v.mem.end_of_file) [
    | inl ended ↦
        let same : v.card ≡ c' = ground arith in
        (
          [],
          at_end ended,
          subst (λ x. Compared bus v.toggle v.file_data v.address [] v.card x) same none_left,
        )
    | inr more ↦
        let looped : (read fuel v.mem v.reader
              >>= verify_round bus fuel (verify_loop bus fuel rounds) v)
            ≡ done (true, c') =
          ground arith in
        let ((s, mem, r), got, e₁) =
          >>=-eq-done (read fuel v.mem v.reader)
            (verify_round bus fuel (verify_loop bus fuel rounds) v) looped in
        step-Reading rounds s mem r v c' (λ v'. verify_loop-Reading rounds v' c') more got e₁
  ]

  -- A comparison that answers `true` on a file that was opened has read the whole file with no
  -- failure, up to the note of its end, and each two bytes of what was read were the word that the
  -- PROM gave at the word's place in the file.
  pub verify_boot_prom-Compared :
      (rounds : ℕ) (file : List ℕ) (c c' : C)
      → verify_boot_prom bus fuel rounds (some file) c ≡ done (true, c')
      → (bs : List (Option ℕ)) × Reading fuel no_data (fresh (some file)) bs
        × Compared bus false none 0 bs c c'
  unfolding verify_boot_prom open_path
  verify_boot_prom-Compared rounds file c c' e =
      verify_loop-Reading rounds (verifier bus fuel (fresh (some file)) c) c' e

  -- With a path that cannot be opened, the write answers `false` and the comparison `true`, and
  -- both leave the card as it was.
  pub unopened_answers :
      (legacy : Bool) (rounds : ℕ) (c : C)
      → (buffered_write_boot_prom bus legacy fuel rounds none c ≡ done (false, c))
        × (verify_boot_prom bus fuel rounds none c ≡ done (true, c))
  unfolding buffered_write_boot_prom verify_boot_prom open_path
  unopened_answers legacy rounds c = (refl, refl)
