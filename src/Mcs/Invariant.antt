-- ===== src/Mcs/Invariant.antt =====
-- The arrays of the reader: their length, and what of them has been written.
use evr_card_g.Base.{
  ℕ, zero, suc, ◌+◌, ◌-◌, ◌≤◌, ◌<◌, List, Option, some, ◌≡◌, ◌≢◌, inl, inr, refl, arith, length,
  Bool-cases, ℤ, set, sym, length-set, get_elem?-set_self, get_elem?-set_ne, ◌∙◌,
}
use mathlib.Core.Path.{subst}
use native.Mathlib.Decide.{ℕ_discrete}
use evr_card_g.Base.Outcome.{ok, >>=-eq-ok, value}
use evr_card_g.Mcs.Stream.{getline}
use evr_card_g.Mcs.Took.{Took, refused, took_data, took_end, took_base, parse_line-Took}
use evr_card_g.Mcs.Reader.{Reader, Header, save, save_one, data_at, next, fresh, beg, parse_line}

abbrev IsWritten : List (Option ℕ) → ℕ → Type 0
IsWritten xs j = (v : ℕ) × (data_at xs j ≡ some v)

-- Both arrays have 16 elements, the pointer is within them or just past them, and what stands at
-- the pointer and behind it has been written.
pub record IsValid (r : Reader) : Type 0 where
  pub data_length : length r.prom_data ≡ 16
  pub addr_length : length r.prom_addr ≡ 16
  pub pntr_le : r.prom_pntr ≤ 16
  pub data_written : (j : ℕ) → r.prom_pntr ≤ j → j < 16 → IsWritten r.prom_data j
  pub addr_written : (j : ℕ) → r.prom_pntr ≤ j → j < 16 → IsWritten r.prom_addr j

pub data_at-set_self :
    (xs : List (Option ℕ)) (i v : ℕ) → i < length xs → data_at (set xs i (some v)) i ≡ some v
data_at-set_self xs i v h = ground (arith, get_elem?-set_self xs i (some v) h)

pub data_at-set_ne :
    (xs : List (Option ℕ)) (i j v : ℕ) → i ≢ j → data_at (set xs i (some v)) j ≡ data_at xs j
data_at-set_ne xs i j v ne = ground (arith, get_elem?-set_ne xs (some v) ne)

IsWritten-set :
    (xs : List (Option ℕ)) (i j v : ℕ)
    → i < length xs
    → (j ≢ i → IsWritten xs j)
    → IsWritten (set xs i (some v)) j
IsWritten-set xs i j v h old = elim (ℕ_discrete j i) [
  | yes e ↦ (v, rw e (data_at-set_self xs i v h))
  | no ne ↦ let (w, e) = old ne in (w, data_at-set_ne xs i j v (λ k. ne (sym k)) ∙ e)
]

-- Halfway through `save`, with `n` rounds left at index `i`, the elements from the pointer up to
-- the index have been written.
record Saving (p n i : ℕ) (r : Reader) : Type 0 where
  whole : i + n + p ≡ 16
  pntr : r.prom_pntr ≡ p
  data_length : length r.prom_data ≡ 16
  addr_length : length r.prom_addr ≡ 16
  data_written : (j : ℕ) → p ≤ j → j < i + p → IsWritten r.prom_data j
  addr_written : (j : ℕ) → p ≤ j → j < i + p → IsWritten r.prom_addr j

save_one-Saving :
    (p n i addr v : ℕ) (r : Reader)
    → Saving p (suc n) i r
    → Saving p n (i + 1) (save_one i addr v r)
save_one-Saving p n i addr v r s = record {
  whole = omega arith;
  pntr = s.pntr;
  data_length = length-set r.prom_data _ _ ∙ s.data_length;
  addr_length = length-set r.prom_addr _ _ ∙ s.addr_length;
  data_written = λ j l u.
      IsWritten-set r.prom_data (i + r.prom_pntr) j v (omega arith)
        (λ ne. s.data_written j l (omega arith));
  addr_written = λ j l u.
      IsWritten-set r.prom_addr (i + r.prom_pntr) j _ (omega arith)
        (λ ne. s.addr_written j l (omega arith));
}

save-IsValid :
    (p n i addr : ℕ) (bytes : List (Option ℕ)) (r : Reader) {r' : Reader}
    → Saving p n i r
    → save n i addr bytes r ≡ ok r'
    → IsValid r'
unfolding save
save-IsValid p zero i addr bytes r {r'} s h = subst IsValid same (record {
  data_length = s.data_length;
  addr_length = s.addr_length;
  pntr_le = omega arith;
  data_written = λ j l u. s.data_written j (omega arith) (omega arith);
  addr_written = λ j l u. s.addr_written j (omega arith) (omega arith);
})
  where
    same : r ≡ r'
    same = cc
save-IsValid p (suc n) i addr bytes r s h =
    let (v, e, later) =
      >>=-eq-ok (value (data_at bytes i)) (λ v. save n (i + 1) addr bytes (save_one i addr v r))
        h in
    save-IsValid p n (i + 1) addr bytes (save_one i addr v r) (save_one-Saving p n i addr v r s)
      later

-- A new value of the other fields keeps the invariant.
IsValid-of_same :
    {r q : Reader}
    → q.prom_pntr ≡ r.prom_pntr
    → q.prom_data ≡ r.prom_data
    → q.prom_addr ≡ r.prom_addr
    → IsValid r
    → IsValid q
IsValid-of_same p d a v = record {
  data_length = rw d v.data_length;
  addr_length = rw a v.addr_length;
  pntr_le = omega arith;
  data_written = λ j l u. rw d (v.data_written j (omega arith) u);
  addr_written = λ j l u. rw a (v.addr_written j (omega arith) u);
}

pub Took-IsValid :
    {line : List ℕ} {h : Header} {r r' : Reader} {s : ℤ}
    → Took line h r s r'
    → IsValid r
    → IsValid r'
Took-IsValid refused v = v
Took-IsValid {h = h} {r = r} (took_data bytes r' ne le c saved) v =
    save-IsValid (16 - h.byte_cnt) h.byte_cnt 0 h.addr bytes
      (record r { prom_pntr = 16 - h.byte_cnt })
      (record {
        whole = omega arith;
        pntr = refl;
        data_length = v.data_length;
        addr_length = v.addr_length;
        data_written = λ j l u. absurd (omega arith);
        addr_written = λ j l u. absurd (omega arith);
      })
      saved
Took-IsValid (took_end e) v = IsValid-of_same refl refl refl v
Took-IsValid (took_base bytes base two zero_addr c e) v = IsValid-of_same refl refl refl v

parse_line-IsValid :
    (line : List ℕ) (r : Reader) {s : ℤ} {r' : Reader}
    → parse_line line r ≡ ok (s, r')
    → IsValid r
    → IsValid r'
parse_line-IsValid line r e v = elim (parse_line-Took line r e) [
  | inl (_, er, _) ↦ rw er v
  | inr (h, _, _, took) ↦ Took-IsValid took v
]

-- Every return of `next` on a valid reader leaves a valid one: both arrays have 16 elements, the
-- pointer is 16 at most, and from the pointer on each element was written.
pub next-IsValid : (r : Reader) {s : ℤ} {r' : Reader} → next r ≡ ok (s, r') → IsValid r → IsValid r'
unfolding next getline
next-IsValid r {s} {r'} e v = elim (Bool-cases r.file.good) [
  | inr bad ↦ let same : r ≡ r' = ground arith in subst IsValid same v
  | inl good ↦
      let (line, file) = getline r.file in
      parse_line-IsValid line (record r { file = file }) (rw good at e)
        (IsValid-of_same refl refl refl v)
]

-- A reader that was just opened is valid, and so is one that was set back to the beginning.
pub fresh-IsValid : (f : Option (List ℕ)) → IsValid (fresh f)
fresh-IsValid f = record {
  data_length = refl;
  addr_length = refl;
  pntr_le = omega arith;
  data_written = λ j l u. absurd (omega arith);
  addr_written = λ j l u. absurd (omega arith);
}

pub beg-IsValid : (r : Reader) → IsValid r → IsValid (beg r)
unfolding beg
beg-IsValid r v = record {
  data_length = v.data_length;
  addr_length = v.addr_length;
  pntr_le = omega arith;
  data_written = λ j l u. absurd (omega arith);
  addr_written = λ j l u. absurd (omega arith);
}

-- A data record leaves the pointer within the arrays.
pub save-prom_pntr :
    (n i addr : ℕ) (bytes : List (Option ℕ)) (r : Reader) {r' : Reader}
    → save n i addr bytes r ≡ ok r'
    → r'.prom_pntr ≡ r.prom_pntr
unfolding save
save-prom_pntr zero i addr bytes r h = cc
save-prom_pntr (suc n) i addr bytes r h =
    let (v, e, later) =
      >>=-eq-ok (value (data_at bytes i)) (λ v. save n (i + 1) addr bytes (save_one i addr v r))
        h in
    save-prom_pntr n (i + 1) addr bytes (save_one i addr v r) later
