-- ===== src/Mcs/Loaded.antt =====
-- What the loop of `read` leaves of a valid reader.
use evr_card_g.Base.{
  ℕ, zero, suc, ◌-◌, ◌<◌, true, false, List, Option, some, ◌≡◌, ◌≢◌, ◌⊎◌, inl, inr, refl, arith,
  Bool-cases, Option-cases, ◌==◌, ℤ, pos, negsuc, ap, ◌∙◌, sym,
}
use mathlib.Core.Path.{subst}
use evr_card_g.Base.Outcome.{Outcome, ok, out_of_range, undefined}
use evr_card_g.Mcs.Stream.{getline}
use evr_card_g.Mcs.Took.{Took, refused, took_data, took_end, took_base, parse_line-Took}
use evr_card_g.Mcs.Reader.{Reader, Header, next, parse_line}
use evr_card_g.Mcs.Read.{Filled, filled, returns, round, go_on, turn, fill}
use evr_card_g.Mcs.Progress.{turn_cases}
use evr_card_g.Mcs.Invariant.{IsValid, next-IsValid, save-prom_pntr}

pub ne_of_test : {a b : ℕ} → (a == b) ≡ false → a ≢ b
ne_of_test h = ground arith

abbrev Kind : ℤ → Reader → Type 0
Kind (pos zero) r = r.prom_pntr < 16
Kind _ r = Unit {0}

Took-Kind : {line : List ℕ} {h : Header} {r r' : Reader} {s : ℤ} → Took line h r s r' → Kind s r'
Took-Kind refused = tt
Took-Kind {h = h} {r = r} (took_data bytes r' ne le c saved) = omega (
  arith,
  save-prom_pntr h.byte_cnt 0 h.addr bytes (record r { prom_pntr = 16 - h.byte_cnt }) saved,
)
Took-Kind (took_end e) = tt
Took-Kind (took_base bytes base two zero_addr c e) = tt

parse_line-Kind :
    (line : List ℕ) (r : Reader) {s : ℤ} {r' : Reader} → parse_line line r ≡ ok (s, r') → Kind s r'
parse_line-Kind line r {r' = r'} e = elim (parse_line-Took line r e) [
  | inl (es, _, _) ↦ subst (λ t. Kind t r') (sym es) tt
  | inr (h, _, _, took) ↦ Took-Kind took
]

-- After a data record the pointer is within the arrays.
next-Kind : (r : Reader) {s : ℤ} {r' : Reader} → next r ≡ ok (s, r') → Kind s r'
unfolding next getline
next-Kind r {s} {r'} e = elim (Bool-cases r.file.good) [
  | inr bad ↦ let es : negsuc 0 ≡ s = ground arith in subst (λ t. Kind t r') es tt
  | inl good ↦
      let (line, file) = getline r.file in
      parse_line-Kind line (record r { file = file }) (rw good at e)
]

-- What the loop of `read` ends in.
abbrev pub Loaded : Filled → Type 0
Loaded (filled r) = IsValid r × (r.prom_pntr < 16) × (r.end_of_file ≡ false)
Loaded (returns s r) = IsValid r × ((s ≢ pos 0) ⊎ (r.end_of_file ≡ true))

turn-IsValid :
    (s : ℤ) (r : Reader) {s' : ℤ} {r' : Reader}
    → turn s r ≡ ok (s', r')
    → IsValid r
    → IsValid r' × ((r'.end_of_file ≡ true) ⊎ Kind s' r')
turn-IsValid s r {r' = r'} e v = elim (turn_cases s r e) [
  | inl (_, same, done) ↦
      (subst IsValid (sym same) v, inl (ap (λ (q : Reader). q.end_of_file) same ∙ done))
  | inr e' ↦ (next-IsValid r e' v, inr (next-Kind r e'))
]

round-Loaded :
    (s : ℤ) (r : Reader) (f : Filled)
    → IsValid r
    → (r.end_of_file ≡ true) ⊎ Kind s r
    → round s r ≡ some f
    → Loaded f
unfolding round
round-Loaded (negsuc n) r f v k e =
    let same : returns (negsuc n) r ≡ f = cc in subst Loaded same (v, inl (λ n. cc))
round-Loaded (pos (suc n)) r f v k e = elim (Bool-cases r.end_of_file) [
  | inl done ↦
      let same : returns (pos (suc n)) r ≡ f = ground arith in subst Loaded same (v, inr done)
  | inr more ↦ absurd (ground arith)
]
round-Loaded (pos zero) r f v k e = elim (Bool-cases r.end_of_file) [
  | inl done ↦ let same : returns (pos 0) r ≡ f = ground arith in subst Loaded same (v, inr done)
  | inr more ↦
      let same : filled r ≡ f = ground arith in
      subst Loaded same
        (v, elim k [ inl done ↦ absurd (ground arith) | inr in_range ↦ in_range ], more)
]

go_on_cases :
    {A : Type 0} (leave : ℤ → Reader → Option A) (again : ℤ → Reader → Option (Outcome A))
    (o : Outcome (ℤ × Reader)) {a : A}
    → go_on leave again o ≡ some (ok a)
    → (s : ℤ) × (r : Reader) × (o ≡ ok (s, r)) × ((leave s r ≡ some a) ⊎ (again s r ≡ some (ok a)))
unfolding go_on
go_on_cases leave again out_of_range e = cc
go_on_cases leave again undefined e = cc
go_on_cases leave again (ok (s, r)) e = elim (Option-cases (leave s r)) [
  | inl more ↦ (s, r, refl, inr (ground arith))
  | inr (a, left) ↦ (s, r, refl, inl (ground arith))
]

pub fill-Loaded :
    (fuel : ℕ) (s : ℤ) (r : Reader) (f : Filled)
    → IsValid r
    → fill fuel s r ≡ some (ok f)
    → Loaded f
unfolding fill
fill-Loaded zero s r f v e = cc
fill-Loaded (suc fuel) s r f v e =
    let (s', r', turned, end) = go_on_cases round (fill fuel) (turn s r) e in
    let (v', k) = turn-IsValid s r turned v in
    elim end [
      | inl left ↦ round-Loaded s' r' f v' k left
      | inr again ↦ fill-Loaded fuel s' r' f v' again
    ]
