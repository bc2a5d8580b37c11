-- ===== src/Mcs/Took.antt =====
-- What a record that `dispatch` accepts does to the reader, as a relation.
use evr_card_g.Base.{
  ℕ, ◌≤◌, true, List, Option, ◌≡◌, ◌≢◌, ◌⊎◌, [], ◌∷◌, inl, inr, refl, ◌∙◌, ap, arith, ◌-◌, ◌==◌,
  Bool-cases, ==_iff, ltb, ℤ, pos, negsuc,
}
use evr_card_g.Base.Outcome.{Outcome, ok, out_of_range, undefined, ◌>>=◌, >>=-eq-ok}
use evr_card_g.Mcs.Reader.{
  Reader, Header, collect, save, store_data, data_record, end_record, store_base, base_record,
  base_of, dispatch, header, parse_line, at,
}

-- A call whose value is returned with the status `n`, in the reader that `g` makes of it.
returned :
    {A : Type 0} (m : Outcome A) (n : ℤ) (g : A → Reader) {s : ℤ} {r' : Reader}
    → ◌>>=◌ {B = ℤ × Reader} m (λ a. ok (n, g a)) ≡ ok (s, r')
    → (a : A) × (m ≡ ok a) × (s ≡ n) × (r' ≡ g a)
returned (ok a) n g e = (a, refl, cc, cc)
returned out_of_range n g e = cc
returned undefined n g e = cc

pub data Took (line : List ℕ) (h : Header) (r : Reader) : ℤ → Reader → Type 0 where
  refused : Took line h r (negsuc 0) r
  took_data :
      (bytes : List (Option ℕ)) (r' : Reader)
      → h.byte_cnt ≢ 0
      → h.byte_cnt ≤ 16
      → collect line h.byte_cnt 0 h.bytes h.summing ≡ ok (bytes, h.check_sum)
      → save h.byte_cnt 0 h.addr bytes (record r { prom_pntr = 16 - h.byte_cnt }) ≡ ok r'
      → Took line h r (pos 0) r'
  took_end : h.summing ≡ h.check_sum → Took line h r (pos 1) (record r { end_of_file = true })
  took_base :
      (bytes : List (Option ℕ)) (base : ℕ)
      → h.byte_cnt ≡ 2
      → h.addr ≡ 0
      → collect line 2 0 h.bytes h.summing ≡ ok (bytes, h.check_sum)
      → base_of bytes ≡ ok base
      → Took line h r (pos 4) (record r { prom_base_addr = base })

module _ (line : List ℕ) (h : Header) (r : Reader) {s : ℤ} {r' : Reader} where
  Took-of_refused : (s ≡ negsuc 0) × (r' ≡ r) → Took line h r s r'
  Took-of_refused (e, f) = rw (e, f) refused

  store_data-Took :
      (bytes : List (Option ℕ)) (sum : ℕ)
      → h.byte_cnt ≢ 0
      → h.byte_cnt ≤ 16
      → collect line h.byte_cnt 0 h.bytes h.summing ≡ ok (bytes, sum)
      → store_data h r (bytes, sum) ≡ ok (s, r')
      → Took line h r s r'
  unfolding store_data
  store_data-Took bytes sum ne le c e = elim (Bool-cases (sum == h.check_sum)) [
    | inl same ↦
        let all : ℕ = h.byte_cnt in
        let (q, saved, es, er) =
          returned (save all 0 h.addr bytes (record r { prom_pntr = 16 - all })) (pos 0) (λ q. q)
            (rw same at e) in
        rw (es, er)
          (took_data bytes q ne le
            (c ∙ ap (λ (t : ℕ). ok (bytes, t)) ((==_iff sum h.check_sum).0 same)) saved)
    | inr other ↦ Took-of_refused (ground arith)
  ]

  store_base-Took :
      (bytes : List (Option ℕ)) (sum : ℕ)
      → h.byte_cnt ≡ 2
      → h.addr ≡ 0
      → collect line 2 0 h.bytes h.summing ≡ ok (bytes, sum)
      → store_base h r (bytes, sum) ≡ ok (s, r')
      → Took line h r s r'
  unfolding store_base
  store_base-Took bytes sum two zero_addr c e = elim (Bool-cases (sum == h.check_sum)) [
    | inl same ↦
        let (base, eb, es, er) =
          returned (base_of bytes) (pos 4) (λ base. record r { prom_base_addr = base })
            (rw same at e) in
        rw (es, er)
          (took_base bytes base two zero_addr
            (c ∙ ap (λ (t : ℕ). ok (bytes, t)) ((==_iff sum h.check_sum).0 same)) eb)
    | inr other ↦ Took-of_refused (ground arith)
  ]

  data_record-Took : h.byte_cnt ≤ 16 → data_record line h r ≡ ok (s, r') → Took line h r s r'
  unfolding data_record
  data_record-Took le e = elim (Bool-cases (h.byte_cnt == 0)) [
    | inl empty ↦ Took-of_refused (ground arith)
    | inr some_bytes ↦
        let ((bytes, sum), c, later) =
          >>=-eq-ok (collect line h.byte_cnt 0 h.bytes h.summing) (store_data h r)
            (rw some_bytes at e) in
        store_data-Took bytes sum (ground arith) le c later
  ]

  base_record-Took : base_record line h r ≡ ok (s, r') → Took line h r s r'
  unfolding base_record
  base_record-Took e = elim (Bool-cases (h.byte_cnt == 2)) [
    | inr other ↦ Took-of_refused (ground arith)
    | inl two ↦ elim (Bool-cases (h.addr == 0)) [
      | inr other ↦ Took-of_refused (ground arith)
      | inl zero_addr ↦
          let ((bytes, sum), c, later) =
            >>=-eq-ok (collect line 2 0 h.bytes h.summing) (store_base h r)
              (rw (two, zero_addr) at e) in
          store_base-Took bytes sum ((==_iff h.byte_cnt 2).0 two) ((==_iff h.addr 0).0 zero_addr) c
            later
    ]
  ]

  end_record-Took : end_record h r ≡ ok (s, r') → Took line h r s r'
  unfolding end_record
  end_record-Took e = elim (Bool-cases (h.summing == h.check_sum)) [
    | inr other ↦ Took-of_refused (ground arith)
    | inl same ↦
        let (_, _, es, er) =
          returned (ok tt) (pos 1) (λ _. record r { end_of_file = true }) (rw same at e) in
        rw (es, er) (took_end ((==_iff h.summing h.check_sum).0 same))
  ]

  -- Every return of the switch is one of the four.
  pub dispatch-Took : dispatch line h r ≡ ok (s, r') → Took line h r s r'
  unfolding dispatch
  dispatch-Took e = elim (Bool-cases (ltb 16 h.byte_cnt)) [
    | inl large ↦ Took-of_refused (ground arith)
    | inr fits ↦ elim (Bool-cases (h.record_type == 0)) [
      | inl kind ↦ data_record-Took (ground arith) (rw (fits, kind) at e)
      | inr k₀ ↦ elim (Bool-cases (h.record_type == 1)) [
        | inl kind ↦ end_record-Took (rw (fits, k₀, kind) at e)
        | inr k₁ ↦ elim (Bool-cases (h.record_type == 4)) [
          | inl kind ↦ base_record-Took (rw (fits, k₀, k₁, kind) at e)
          | inr k₄ ↦ Took-of_refused (ground arith)
        ]
      ]
    ]
  ]

-- A line whose first character is no colon is refused; any other goes through the switch.
pub parse_line-Took :
    (line : List ℕ) (r : Reader) {s : ℤ} {r' : Reader}
    → parse_line line r ≡ ok (s, r')
    → ((s ≡ negsuc 0) × (r' ≡ r) × (line ≢ []))
      ⊎ ((h : Header) × (header line ≡ ok h) × (line ≢ []) × Took line h r s r')
unfolding parse_line at
parse_line-Took [] r e = cc
parse_line-Took (c ∷ line) r e = elim (Bool-cases (c == b':')) [
  | inr other ↦ inl (ground arith, ground arith, λ n. cc)
  | inl start ↦
      let (h, eh, later) =
        >>=-eq-ok (header (c ∷ line)) (λ h. dispatch (c ∷ line) h r) (rw start at e) in
      inr (h, eh, (λ n. cc), dispatch-Took (c ∷ line) h r later)
]
