-- ===== src/Xvc/Clocks.antt =====
-- What the loops of the server take and give.
use evr_card_g.Base.{
  ℕ, zero, suc, ◌+◌, ◌-◌, ◌*◌, ◌/◌, ◌%◌, ◌≤◌, ◌<◌, ◌≡◌, ◌⊎◌, inl, inr, refl, Option, none, some,
  List, [], ◌++◌, length, length-append, ◌==◌, leb, if◌then◌else◌, arith, Bool-cases, Option-cases,
  take, drop,
}
use mathlib.Core.Path.{subst}
use evr_card_g.Xvc.Socket.{Link, IsSocket, sread_loop, sread}
use evr_card_g.Xvc.Shift.{int_of, bytes_of_int, shift_loop}

-- A read of so many bytes that succeeded, or one that failed.
abbrev pub Received : {S : Type 0} → ℕ → Option (List ℕ) × S → Type 0
Received len (o, s) = (o ≡ none) ⊎ ((bs : List ℕ) × (o ≡ some bs) × (length bs ≡ len))

module _ {S : Type 0} (link : Link S) (socket : IsSocket link) where
  sread_loop_total :
      (n len : ℕ) (got : List ℕ) (s : S)
      → len < n
      → (r : Option (List ℕ) × S) × (sread_loop link n len got s ≡ some r)
        × Received (length got + len) r
  unfolding sread_loop
  sread_loop_total zero len got s h = absurd (omega arith)
  sread_loop_total (suc n) len got s h = elim (Bool-cases (len == 0)) [
    | inl e ↦ ((some got, s), rw (e) refl, inr (got, refl, ground arith))
    | inr more ↦ elim (Option-cases (link.recv len s).0) [
      | inl e ↦ ((none, (link.recv len s).1), rw (more, e) refl, inl refl)
      | inr (bs, e) ↦
          let (some_, few) = socket.some_bytes len s bs e in
          let (r, f, g) =
            sread_loop_total n (len - length bs) (got ++ bs) (link.recv len s).1 (ground arith) in
          (r, rw (more, e) f, subst (λ k. Received k r) (omega (arith, length-append got bs)) g)
    ]
  ]

-- `sread` ends: it gives as many bytes as were asked for, or it failed.
pub sread_total :
    {S : Type 0} (link : Link S)
    → IsSocket link
    → (len : ℕ) (s : S) → (r : Option (List ℕ) × S) × (sread link len s ≡ some r) × Received len r
sread_total link socket len s =
    let (r, e, g) = sread_loop_total link socket (suc len) len [] s (omega arith) in
    (r, e, subst (λ k. Received k r) no_more g)
  where
    no_more : 0 + len ≡ len
    no_more = omega arith

-- A shift that always ends, on a card that counts the bits that it is clocked by.
abbrev pub Counts : {C : Type 0} → (C → ℕ) → (ℕ → ℕ → ℕ → C → Option (ℕ × C)) → Type 0
Counts {C} clocks shift =
    (bits tms tdi : ℕ) (c : C)
    → (out : ℕ × C) × (shift bits tms tdi c ≡ some out) × (clocks out.1 ≡ clocks c + bits)

length-bytes_of_int : (n w : ℕ) → length (bytes_of_int n w) ≡ n
length-bytes_of_int zero w = refl
length-bytes_of_int (suc n) w = omega (arith, length-bytes_of_int n (w / 256))

-- The loop gives a byte for each byte of a vector, and clocks the card by the bits of the request,
-- but by 8 for each byte if the bytes are a multiple of four.
pub shift_loop-Counts :
    {C : Type 0} (clocks : C → ℕ) (shift : ℕ → ℕ → ℕ → C → Option (ℕ × C))
    → Counts clocks shift
    → (nr_bytes : ℕ) (buffer : List ℕ) (n left bits at : ℕ) (result : List ℕ) (c : C) → left < n
    → bits ≤ 8 * left
    → 8 * left < bits + 8
    → (out : List ℕ × C) × (shift_loop shift nr_bytes buffer n left bits at result c ≡ some out)
      × (length out.0 ≡ length result + left)
      × (clocks out.1 ≡ clocks c + (if left % 4 == 0 then 8 * left else bits))
unfolding shift_loop
shift_loop-Counts clocks shift counts nr buffer zero left bits at result c h l g =
    absurd (omega arith)
shift_loop-Counts clocks shift counts nr buffer (suc n) left bits at result c h l g =
    elim (Bool-cases (left == 0)) [
      | inl e ↦ ((result, c), rw (e) refl, ground arith, ground arith)
      | inr more ↦ elim (Bool-cases (leb 4 left)) [
        | inl four ↦
            let ((tdo, c1), e1, k1) =
              counts 32 (int_of (take 4 (drop at buffer))) (int_of (take 4 (drop (at + nr) buffer)))
                c in
            let (out, f, g1, g2) =
              shift_loop-Counts clocks shift counts nr buffer n (left - 4) (bits - 32) (at + 4)
                (result ++ bytes_of_int 4 tdo) c1 (ground arith) (ground arith) (ground arith) in
            (
              out,
              rw (more, four, e1) f,
              ground
                  (arith, g1, length-append result (bytes_of_int 4 tdo), length-bytes_of_int 4 tdo),
              ground (arith, g2, k1),
            )
        | inr last ↦
            let ((tdo, c1), e1, k1) =
              counts bits (int_of (take left (drop at buffer)))
                (int_of (take left (drop (at + nr) buffer))) c in
            (
              (result ++ bytes_of_int left tdo, c1),
              rw (more, last, e1) refl,
              ground (
                arith,
                length-append result (bytes_of_int left tdo),
                length-bytes_of_int left tdo,
              ),
              ground (arith, k1),
            )
      ]
    ]
