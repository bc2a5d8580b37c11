-- ===== src/Mcs/Progress.antt =====
-- `next` takes bytes off the file, so that the loops over it end.
use evr_card_g.Base.{
  ℕ, zero, suc, ◌+◌, ◌-◌, ap, ◌≤◌, ◌<◌, true, false, List, [], ◌∷◌, Option, none, some, ◌≡◌, ◌≢◌,
  ◌⊎◌, inl, inr, refl, arith, length, Bool-cases, Option-cases, ◌==◌, ℤ, pos, negsuc,
}
use evr_card_g.Base.Outcome.{Outcome, ok, out_of_range, undefined, ◌>>=◌, >>=-eq-ok, value}
use evr_card_g.Mcs.Stream.{Stream, take_line, getline}
use evr_card_g.Mcs.Reader.{Reader, Header, save, parse_line, next, data_at}
use evr_card_g.Mcs.Took.{Took, refused, took_data, took_end, took_base, parse_line-Took}
use evr_card_g.Mcs.Read.{
  fill, Filled, round, turn, go_on, read, after_fill, finish, deliver, ReadData, skip_to_data,
  skip_to_end, leave_at_data, leave_at_end,
}

length-take_line :
    (cs : List ℕ) → let (line, rest, found) = take_line cs in length line + length rest ≤ length cs
unfolding take_line
length-take_line [] = omega arith
length-take_line (c ∷ cs) = ground (arith, length-take_line cs)

save-file :
    (n i addr : ℕ) (bytes : List (Option ℕ)) (r : Reader) {r' : Reader}
    → save n i addr bytes r ≡ ok r'
    → r'.file ≡ r.file
unfolding save
save-file zero i addr bytes r h = cc
save-file (suc n) i addr bytes r h =
    let (v, e, later) = >>=-eq-ok (value (data_at bytes i)) _ h in
    save-file n (i + 1) addr bytes _ later

Took-file :
    {line : List ℕ} {h : Header} {r r' : Reader} {s : ℤ} → Took line h r s r' → r'.file ≡ r.file
Took-file refused = refl
Took-file {h = h} {r = r} (took_data bytes r' ne le c saved) =
    save-file h.byte_cnt 0 h.addr bytes (record r { prom_pntr = 16 - h.byte_cnt }) saved
Took-file (took_end e) = refl
Took-file (took_base bytes base two zero_addr c e) = refl

-- What a return of `next` leaves of the file: the same bytes, and fewer of them unread unless
-- the status is -1.
abbrev pub Consumed : Reader → ℤ → Reader → Type 0
Consumed r s r' =
    (r'.file.contents ≡ r.file.contents)
    × (r'.file.is_open ≡ r.file.is_open)
    × (length r'.file.rest ≤ length r.file.rest)
    × ((s ≡ negsuc 0) ⊎ (length r'.file.rest < length r.file.rest))

length_pos : (xs : List ℕ) → xs ≢ [] → 0 < length xs
length_pos [] ne = absurd (ne refl)
length_pos (x ∷ xs) ne = omega arith

parse_line_cases :
    (line : List ℕ) (r : Reader) {s : ℤ} {r' : Reader}
    → parse_line line r ≡ ok (s, r')
    → (r'.file ≡ r.file) × (line ≢ [])
parse_line_cases line r e = elim (parse_line-Took line r e) [
  | inl (_, er, ne) ↦ (ap (λ (q : Reader). q.file) er, ne)
  | inr (h, _, ne, took) ↦ (Took-file took, ne)
]

-- Every return of `next` leaves the file's bytes as they are and never puts one back; with any
-- status but -1 it has taken at least one.
pub next-Consumed : (r : Reader) {s : ℤ} {r' : Reader} → next r ≡ ok (s, r') → Consumed r s r'
unfolding next getline
next-Consumed r {s} {r'} e = elim (Bool-cases r.file.good) [
  | inr bad ↦ ground arith
  | inl good ↦
      let t = take_line r.file.rest in
      let rest = record r.file { rest = t.1; good = t.2 } in
      let (same, ne) = parse_line_cases t.0 (record r { file = rest }) (rw good at e) in
      let fewer : length r'.file.rest < length r.file.rest = omega (
        arith,
        ap (λ (f : Stream). length f.rest) same,
        length-take_line r.file.rest,
        length_pos t.0 ne,
      ) in
      (
        ap (λ (f : Stream). f.contents) same,
        ap (λ (f : Stream). f.is_open) same,
        omega arith,
        inr fewer,
      )
]

pub turn_cases :
    (status : ℤ) (r : Reader) {s : ℤ} {r' : Reader}
    → turn status r ≡ ok (s, r')
    → ((s ≡ status) × (r' ≡ r) × (r.end_of_file ≡ true)) ⊎ (next r ≡ ok (s, r'))
unfolding turn
turn_cases status r e = ground arith

go_on_total :
    {A : Type 0} (leave : ℤ → Reader → Option A) (again : ℤ → Reader → Option (Outcome A))
    (o : Outcome (ℤ × Reader))
    → ((s : ℤ) (r : Reader)
        → o ≡ ok (s, r)
        → leave s r ≡ none
        → (a : Outcome A) × (again s r ≡ some a))
    → (a : Outcome A) × (go_on leave again o ≡ some a)
unfolding go_on
go_on_total leave again out_of_range h = (out_of_range, refl)
go_on_total leave again undefined h = (undefined, refl)
go_on_total leave again (ok (s, r)) h = elim (Option-cases (leave s r)) [
  | inl more ↦ let (a, e) = h s r refl more in (a, rw (more, go_on) e)
  | inr (a, e) ↦ (ok a, rw (e, go_on))
]

-- A round that does not leave the loop took bytes off the file.
round-none :
    (status : ℤ) (r : Reader) {s : ℤ} {r' : Reader}
    → turn status r ≡ ok (s, r')
    → round s r' ≡ none
    → length r'.file.rest < length r.file.rest
unfolding round
round-none status r {s = negsuc n} t h = cc
round-none status r {s = pos zero} t h = cc
round-none status r {s = pos (suc n)} {r'} t h = elim (turn_cases status r t) [
  | inl (es, er, done) ↦ ground arith
  | inr t' ↦ ground (arith, next-Consumed r t')
]

-- The loop of `read` ends, by a value or a fault, if the fuel exceeds the bytes not read yet.
pub fill_total :
    (fuel : ℕ) (status : ℤ) (r : Reader)
    → length r.file.rest < fuel
    → (o : Outcome Filled) × (fill fuel status r ≡ some o)
unfolding fill
fill_total zero status r h = elim h [ ]
fill_total (suc fuel) status r h =
    go_on_total round (fill fuel) (turn status r)
      λ s r' t l. fill_total fuel s r' (omega (arith, round-none status r t l))

-- `read` ends, by a value or a fault, if the fuel exceeds the bytes not read yet.
pub read_total :
    (fuel : ℕ) (mem : ReadData) (r : Reader)
    → length r.file.rest < fuel
    → (o : Outcome (ℤ × ReadData × Reader)) × (read fuel mem r ≡ some o)
unfolding read after_fill
read_total fuel mem r h =
    let (o, e) = fill_total fuel (pos 0) r h in
    elim (Bool-cases (r.prom_pntr == 16)) [
      | inr ready ↦ (deliver r, rw ready)
      | inl empty ↦ (o >>= finish mem, rw (empty, e))
    ]

-- On a file that is no longer good `next` answers -1 and leaves the reader as it is.
next_of_bad : (r : Reader) → r.file.good ≡ false → next r ≡ ok (negsuc 0, r)
unfolding next
next_of_bad r h = rw h

-- The loop of `startAddr` never ends on a file that is no longer good, whatever the fuel.
pub skip_to_data_stuck : (fuel : ℕ) (r : Reader) → r.file.good ≡ false → skip_to_data fuel r ≡ none
unfolding skip_to_data go_on leave_at_data
skip_to_data_stuck zero r h = refl
skip_to_data_stuck (suc fuel) r h = rw (next_of_bad r h, go_on) (skip_to_data_stuck fuel r h)

turn_of_bad :
    (s : ℤ) (r : Reader) → r.file.good ≡ false → r.end_of_file ≡ false → turn s r ≡ ok (negsuc 0, r)
unfolding turn
turn_of_bad s r h k = ground (arith, next_of_bad r h)

-- The loop of `endAddr` never ends on a file that is no longer good if the end record was not
-- met, whatever the fuel.
pub skip_to_end_stuck :
    (fuel : ℕ) (r : Reader)
    → r.file.good ≡ false
    → r.end_of_file ≡ false
    → skip_to_end fuel r ≡ none
unfolding skip_to_end leave_at_end go_on
skip_to_end_stuck zero r h k = refl
skip_to_end_stuck (suc fuel) r h k =
    rw (turn_of_bad (pos 0) r h k) (ground (arith, skip_to_end_stuck fuel r h k))
