-- ===== src/Mcs/Delivery.antt =====
-- `read` on a valid reader: what it hands out.
use evr_card_g.Base.{
  ℕ, ◌+◌, ◌-◌, ◌<◌, true, false, Option, none, some, ◌≡◌, ◌≢◌, ◌⊎◌, inl, inr, refl, arith,
  Bool-cases, ◌==◌, ℤ, pos, ap, ◌∙◌,
}
use mathlib.Core.Path.{subst}
use native.Mathlib.Nat.{le_refl}
use evr_card_g.Base.Outcome.{Outcome, ok, out_of_range, undefined}
use evr_card_g.Mcs.Reader.{Reader, data_at}
use evr_card_g.Mcs.Read.{ReadData, Filled, filled, returns, fill, deliver, finish, after_fill, read}
use evr_card_g.Mcs.Invariant.{IsValid}
use evr_card_g.Mcs.Loaded.{Loaded, ne_of_test, fill-Loaded}

-- A byte was handed out: the one under the old pointer, which is one less than the new.
pub record Delivered (s : ℤ) (mem : ReadData) (r : Reader) : Type 0 where
  pub status : s ≡ pos 0
  pub pntr_pos : 0 < r.prom_pntr
  pub address_is : data_at r.prom_addr (r.prom_pntr - 1) ≡ mem.address
  pub byte_is : data_at r.prom_data (r.prom_pntr - 1) ≡ mem.byte
  pub address_set : mem.address ≢ none
  pub byte_set : mem.byte ≢ none
  pub not_end : mem.end_of_file ≡ false

abbrev delivered_data : ℕ → ℕ → ReadData
delivered_data a b = record { address = some a; byte = some b; end_of_file = false }

abbrev advanced : Reader → Reader
advanced r = record r { prom_pntr = r.prom_pntr + 1 }

deliver_defined :
    (r : Reader)
    → IsValid r
    → r.prom_pntr < 16
    → (a : ℕ) × (b : ℕ) × (deliver r ≡ ok (pos 0, delivered_data a b, advanced r))
      × Delivered (pos 0) (delivered_data a b) (advanced r)
unfolding deliver
deliver_defined r v h =
    let (a, ea) = v.addr_written r.prom_pntr (le_refl _) h in
    let (b, eb) = v.data_written r.prom_pntr (le_refl _) h in
    let back : r.prom_pntr + 1 - 1 ≡ r.prom_pntr = omega arith in
    (
      a,
      b,
      rw (ea, eb),
      record {
        status = refl;
        pntr_pos = omega arith;
        address_is = ap (data_at r.prom_addr) back ∙ ea;
        byte_is = ap (data_at r.prom_data) back ∙ eb;
        address_set = λ n. cc;
        byte_set = λ n. cc;
        not_end = refl;
      },
    )

advanced-IsValid : (r : Reader) → r.prom_pntr < 16 → IsValid r → IsValid (advanced r)
advanced-IsValid r h v = record {
  data_length = v.data_length;
  addr_length = v.addr_length;
  pntr_le = omega arith;
  data_written = λ j l u. v.data_written j (omega arith) u;
  addr_written = λ j l u. v.addr_written j (omega arith) u;
}

-- What a return of `read` leaves: a valid reader, and a byte handed out unless the status is not
-- 0 or the end of the file was met.
abbrev pub ReadResult : ℤ → ReadData → Reader → Type 0
ReadResult s mem r = IsValid r × (Delivered s mem r ⊎ (s ≢ pos 0) ⊎ (mem.end_of_file ≡ true))

deliver-ReadResult :
    (r : Reader) {s : ℤ} {mem : ReadData} {r' : Reader}
    → IsValid r
    → r.prom_pntr < 16
    → deliver r ≡ ok (s, mem, r')
    → ReadResult s mem r'
deliver-ReadResult r {s} {mem} {r'} v h e =
    let (a, b, e', d) = deliver_defined r v h in
    let same : ◌≡◌ {A = ℤ × ReadData × Reader} (pos 0, delivered_data a b, advanced r)
        (s, mem, r') =
      cc in
    subst (λ t. ReadResult t.0 t.1 t.2) same (advanced-IsValid r h v, inl d)

finish-ReadResult :
    (mem : ReadData) (f : Filled) {s : ℤ} {mem' : ReadData} {r' : Reader}
    → Loaded f
    → finish mem f ≡ ok (s, mem', r')
    → ReadResult s mem' r'
unfolding finish
finish-ReadResult mem (filled r) l e = deliver-ReadResult r l.0 l.1 e
finish-ReadResult mem (returns s r) {s = t} {mem'} {r'} l e = elim (Bool-cases r.end_of_file) [
  | inl done ↦
      let same : ◌≡◌ {A = ℤ × ReadData × Reader} (s, record mem { end_of_file = true }, r)
          (t, mem', r') =
        ground arith in
      subst (λ p. ReadResult p.0 p.1 p.2) same (l.0, inr (inr refl))
  | inr more ↦
      let same : ◌≡◌ {A = ℤ × ReadData × Reader} (s, mem, r) (t, mem', r') = ground arith in
      subst (λ p. ReadResult p.0 p.1 p.2) same
        (l.0, inr (inl (elim l.1 [ inl ne ↦ ne | inr done ↦ absurd (ground arith) ])))
]

after_fill_cases :
    (mem : ReadData) (o : Option (Outcome Filled)) {x : ℤ × ReadData × Reader}
    → after_fill mem o ≡ some (ok x)
    → (f : Filled) × (o ≡ some (ok f)) × (finish mem f ≡ ok x)
unfolding after_fill
after_fill_cases mem none e = cc
after_fill_cases mem (some out_of_range) e = cc
after_fill_cases mem (some undefined) e = cc
after_fill_cases mem (some (ok f)) e = (f, refl, cc)

-- A return of `read` on a valid reader leaves a valid reader; and it hands out an address and a
-- byte that the reader holds, with status 0, unless its status is not 0 or it says that the
-- end of the file was met.
pub read-ReadResult :
    (fuel : ℕ) (mem : ReadData) (r : Reader) {s : ℤ} {mem' : ReadData} {r' : Reader}
    → IsValid r
    → read fuel mem r ≡ some (ok (s, mem', r'))
    → ReadResult s mem' r'
unfolding read
read-ReadResult fuel mem r v e = elim (Bool-cases (r.prom_pntr == 16)) [
  | inr ready ↦ deliver-ReadResult r v (omega (arith, v.pntr_le, ne_of_test ready)) (ground arith)
  | inl empty ↦
      let (f, filled_by, finished) = after_fill_cases mem (fill fuel (pos 0) r) (ground arith) in
      finish-ReadResult mem f (fill-Loaded fuel (pos 0) r f v filled_by) finished
]
