-- ===== src/Regs/Apart.antt =====
-- The fields of a struct, and the blocks of TprReg, do not overlap.
use Prim.Native.String.{String}
use evr_card_g.Base.{
  ℕ, ◌+◌, ◌*◌, ◌≤◌, ◌<◌, [], ◌∷◌, some, ◌≡◌, ◌≢◌, ◌⊎◌, inl, inr, arith, Bool-cases,
}
use evr_card_g.Regs.Layout.{Struct, size, same_name, field_at, tpr_reg, bytes_of}

-- A field lies behind those before it and within the struct.
field_at-size :
    (s : Struct) (name : String) (k i n : ℕ)
    → field_at s name k ≡ some (i, n)
    → (k ≤ i) × (i + n ≤ k + size s)
field_at-size [] name k i n e = cc
field_at-size ((field, words) ∷ fields) name k i n e = elim (Bool-cases (same_name field name)) [
  | inl here ↦ (ground arith, ground arith)
  | inr later ↦
      let (l, u) = field_at-size fields name (k + words) i n (rw later at e) in
      (omega arith, omega arith)
]

fields_apart :
    (s : Struct) (a b : String) (k i n j m : ℕ)
    → field_at s a k ≡ some (i, n)
    → field_at s b k ≡ some (j, m)
    → i ≢ j
    → (i + n ≤ j) ⊎ (j + m ≤ i)
fields_apart [] a b k i n j m ea eb ne = cc
fields_apart ((field, words) ∷ fields) a b k i n j m ea eb ne =
    elim (Bool-cases (same_name field a)) [
      | inl a_here ↦ elim (Bool-cases (same_name field b)) [
        | inl b_here ↦ absurd (ground arith)
        | inr b_later ↦
            let behind = field_at-size fields b (k + words) j m (rw b_later at eb) in
            inl (ground arith)
      ]
      | inr a_later ↦ elim (Bool-cases (same_name field b)) [
        | inl b_here ↦
            let behind = field_at-size fields a (k + words) i n (rw a_later at ea) in
            inr (ground arith)
        | inr b_later ↦
            fields_apart fields a b (k + words) i n j m (rw a_later at ea) (rw b_later at eb) ne
      ]
    ]

-- Two blocks of `TprReg` that begin at different words have no register in common: a word of the
-- one and a word of the other have different offsets, and the first is within `TprReg`.
pub blocks_apart :
    (a b : String) (i n j m p q : ℕ)
    → field_at tpr_reg a 0 ≡ some (i, n)
    → field_at tpr_reg b 0 ≡ some (j, m)
    → i ≢ j
    → p < n
    → q < m
    → (4 * (i + p) ≢ 4 * (j + q)) × (4 * (i + p) < bytes_of tpr_reg)
blocks_apart a b i n j m p q ea eb ne hp hq =
    let apart = fields_apart tpr_reg a b 0 i n j m ea eb ne in
    let within = field_at-size tpr_reg a 0 i n ea in
    (
      elim apart [ inl first ↦ (λ e. omega arith) | inr second ↦ (λ e. omega arith) ],
      omega (arith, within.1),
    )
