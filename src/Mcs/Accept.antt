-- ===== src/Mcs/Accept.antt =====
-- `next` on a well-formed record: the round trip from the description in Encode.
use evr_card_g.Base.{
  ℕ, suc, ◌+◌, ◌-◌, ◌*◌, ◌/◌, ◌%◌, ◌^◌, ◌≤◌, ◌<◌, List, [], ◌∷◌, ◌++◌, Option, none, some, ◌≡◌,
  refl, arith, length, get_elem?, ◌∙◌, ◌↔◌, set, bit_or, length-set,
}
use native.Mathlib.Nat.{mod-eq_of_lt, div-add-mod'}
use evr_card_g.Base.Bits.{bit_or_sum}
use evr_card_g.Base.Outcome.{ok}
use evr_card_g.Mcs.Reader.{Reader, unset, header, collect, add_char, data_at, save, save_one}
use evr_card_g.Mcs.Invariant.{data_at-set_self, data_at-set_ne}
use evr_card_g.Mcs.Encode.{
  encode, AllBytes, field-encode, fields, record_line, get_elem?-append_right,
}

abbrev pub total : List ℕ → ℕ
total [] = 0
total (x ∷ xs) = x + total xs

-- The loop of `collect` over known bytes.
unfoldable pub write_bytes : List (Option ℕ) → ℕ → List ℕ → List (Option ℕ)
write_bytes d i [] = d
write_bytes d i (y ∷ ys) = write_bytes (set d i (some y)) (i + 1) ys

unfoldable pub add_bytes : ℕ → List ℕ → ℕ
add_bytes s [] = s
add_bytes s (y ∷ ys) = add_bytes (add_char s y) ys

add_bytes-total : (s : ℕ) (ys : List ℕ) → add_bytes s ys % 256 ≡ (s + total ys) % 256
unfolding add_bytes
add_bytes-total s [] = omega arith
add_bytes-total s (y ∷ ys) = omega (arith, add_bytes-total (add_char s y) ys)

add_bytes-lt : (s : ℕ) (ys : List ℕ) → s < 256 → add_bytes s ys < 256
unfolding add_bytes
add_bytes-lt s [] h = h
add_bytes-lt s (y ∷ ys) h = add_bytes-lt (add_char s y) ys (omega arith)

-- `ys` stands in `xs` from index `k` on.
abbrev pub Segment : List ℕ → ℕ → List ℕ → Type 0
Segment xs k [] = Unit {0}
Segment xs k (y ∷ ys) = (get_elem? xs k ≡ some y) × Segment xs (suc k) ys

Segment-cons :
    (x : ℕ) (xs : List ℕ) (k : ℕ) (ys : List ℕ) → Segment xs k ys → Segment (x ∷ xs) (suc k) ys
Segment-cons x xs k [] s = tt
Segment-cons x xs k (y ∷ ys) s = (s.0, Segment-cons x xs (suc k) ys s.1)

Segment-append : (ys after : List ℕ) → Segment (ys ++ after) 0 ys
Segment-append [] after = tt
Segment-append (y ∷ ys) after = (refl, Segment-cons y (ys ++ after) 0 ys (Segment-append ys after))

pub collect-encode :
    (xs ys : List ℕ) (k i : ℕ) (d : List (Option ℕ)) (s : ℕ)
    → AllBytes xs
    → Segment xs k ys
    → k ≡ i + 4
    → collect (b':' ∷ encode xs) (length ys) i d s ≡ ok (write_bytes d i ys, add_bytes s ys)
unfolding collect write_bytes add_bytes
collect-encode xs [] k i d s a g e = refl
collect-encode xs (y ∷ ys) k i d s a g e =
    rw (field-encode b':' xs k (9 + i * 2) (data_at d i) (omega arith) a g.0)
      (collect-encode xs ys (suc k) (i + 1) (set d i (some y)) (add_char s y) a g.1 (omega arith))

pub Segment-fields :
    (addr kind : ℕ) (bytes : List ℕ) (check : ℕ) → Segment (fields addr kind bytes check) 4 bytes
Segment-fields addr kind bytes check =
    let body = bytes ++ check ∷ [] in
    let s₁ = Segment-cons kind body 0 bytes (Segment-append bytes (check ∷ [])) in
    let s₂ = Segment-cons (addr % 256) (kind ∷ body) 1 bytes s₁ in
    let s₃ = Segment-cons (addr / 256) (addr % 256 ∷ kind ∷ body) 2 bytes s₂ in
    Segment-cons (length bytes) (addr / 256 ∷ addr % 256 ∷ kind ∷ body) 3 bytes s₃

four_more : (n : ℕ) → 4 + n ≡ suc (suc (suc (suc n)))
four_more n = omega arith

pub header-fields :
    (addr kind : ℕ) (bytes : List ℕ) (check : ℕ)
    → AllBytes (fields addr kind bytes check)
    → length bytes ≤ 16
    → header (record_line addr kind bytes check)
      ≡ ok (record {
        byte_cnt = length bytes;
        addr = addr;
        record_type = kind;
        check_sum = (256 - check % 256) % 256;
        summing =
            add_char
              (add_char (add_char (add_char 0 (length bytes)) (addr / 256)) (addr % 256))
              kind;
        bytes = set (set unset 0 (some check)) 1 (some (addr % 256));
      })
unfolding header
header-fields addr kind bytes check a h =
    let xs = fields addr kind bytes check in
    let at_check : get_elem? xs (4 + length bytes) ≡ some check =
      rw (four_more (length bytes)) (get_elem?-append_right bytes (check ∷ [])) in
    let index : (9 + 2 * length bytes) % 2 ^ 32 ≡ (4 + length bytes) * 2 + 1 = omega arith in
    let joined : bit_or (addr / 256 * 256 % 2 ^ 32) (addr % 256) ≡ addr =
      rw (mod-eq_of_lt {n = addr / 256 * 256} {m = 2 ^ 32} (omega (arith, a.1.0)))
        (bit_or_sum 8 (addr / 256) (addr % 256) (omega arith) ∙ div-add-mod' addr 256) in
    rw (
      field-encode b':' xs 0 1 none refl a refl,
      field-encode b':' xs 1 3 none refl a refl,
      field-encode b':' xs 2 5 none refl a refl,
      field-encode b':' xs 3 7 none refl a refl,
      field-encode b':' xs (4 + length bytes) ((9 + 2 * length bytes) % 2 ^ 32) (some (addr / 256))
          index a at_check,
      joined,
    )

-- `ys` stands, written, in an array from index `i` on.
abbrev pub Reads : List (Option ℕ) → ℕ → List ℕ → Type 0
Reads d i [] = Unit {0}
Reads d i (y ∷ ys) = (data_at d i ≡ some y) × Reads d (i + 1) ys

data_at-write_bytes :
    (d : List (Option ℕ)) (i j : ℕ) (ys : List ℕ)
    → j < i
    → data_at (write_bytes d i ys) j ≡ data_at d j
unfolding write_bytes
data_at-write_bytes d i j [] h = refl
data_at-write_bytes d i j (y ∷ ys) h =
    data_at-write_bytes (set d i (some y)) (i + 1) j ys (omega arith)
    ∙ data_at-set_ne d i j y (λ e. omega arith)

pub Reads-write_bytes :
    (d : List (Option ℕ)) (i : ℕ) (ys : List ℕ)
    → i + length ys ≤ length d
    → Reads (write_bytes d i ys) i ys
unfolding write_bytes
Reads-write_bytes d i [] h = tt
Reads-write_bytes d i (y ∷ ys) h = (
  data_at-write_bytes (set d i (some y)) (i + 1) i ys (omega arith)
      ∙ data_at-set_self d i y (omega arith),
  Reads-write_bytes (set d i (some y)) (i + 1) ys (omega (arith, length-set d i (some y))),
)

-- What the saving loop makes of known bytes.
unfoldable pub saved : ℕ → ℕ → List ℕ → Reader → Reader
saved i addr [] r = r
saved i addr (y ∷ ys) r = saved (i + 1) addr ys (save_one i addr y r)

pub save-saved :
    (bytes : List (Option ℕ)) (i addr : ℕ) (ys : List ℕ) (r : Reader)
    → Reads bytes i ys
    → save (length ys) i addr bytes r ≡ ok (saved i addr ys r)
unfolding save saved
save-saved bytes i addr [] r g = refl
save-saved bytes i addr (y ∷ ys) r g =
    rw g.0 (save-saved bytes (i + 1) addr ys (save_one i addr y r) g.1)

-- The bytes of a record, its check sum included, add up to 0 modulo 256.
abbrev pub Balanced : ℕ → ℕ → List ℕ → ℕ → Type 0
Balanced addr kind bytes check = total (fields addr kind bytes check) % 256 ≡ 0

total-append : (xs ys : List ℕ) → total (xs ++ ys) ≡ total xs + total ys
total-append [] ys = omega arith
total-append (x ∷ xs) ys = omega (arith, total-append xs ys)

abbrev pub header_sum : ℕ → ℕ → List ℕ → ℕ
header_sum addr kind bytes =
    add_char (add_char (add_char (add_char 0 (length bytes)) (addr / 256)) (addr % 256)) kind

pub check_iff :
    (addr kind : ℕ) (bytes : List ℕ) (check : ℕ)
    → (add_bytes (header_sum addr kind bytes) bytes ≡ (256 - check % 256) % 256)
      ↔ Balanced addr kind bytes check
check_iff addr kind bytes check = (
  (λ e. omega (arith, e, whole, sum)),
  (λ e.
      omega (arith, e, whole, sum, add_bytes-lt (header_sum addr kind bytes) bytes (omega arith))),
)
  where
    whole : total (bytes ++ check ∷ []) ≡ total bytes + check
    whole = omega (arith, total-append bytes (check ∷ []))

    sum :
        add_bytes (header_sum addr kind bytes) bytes % 256
        ≡ (length bytes + addr / 256 + addr % 256 + kind + total bytes) % 256
    sum = omega (arith, add_bytes-total (header_sum addr kind bytes) bytes)
