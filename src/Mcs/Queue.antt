-- ===== src/Mcs/Queue.antt =====
-- The reader as a queue: the addresses and bytes from the pointer to the end of the arrays.
use evr_card_g.Base.{
  ℕ, zero, suc, ◌+◌, ◌-◌, ◌*◌, ◌/◌, ◌%◌, ◌^◌, ◌≤◌, ◌<◌, false, List, [], ◌∷◌, Option, some, ◌≡◌,
  ◌≢◌, refl, arith, length, ap, ◌∙◌, sym, set, bit_or, length-set, pos,
}
use mathlib.Core.Path.{ap₂}
use evr_card_g.Base.Bits.{bit_or_sum, bit_or-zero}
use evr_card_g.Base.Bits.Digits.{bit_or-digit}
use evr_card_g.Base.Outcome.{ok}
use evr_card_g.Mcs.Reader.{Reader, data_at, save_one}
use evr_card_g.Mcs.Read.{deliver}
use evr_card_g.Mcs.Invariant.{data_at-set_self, data_at-set_ne, IsValid}
use evr_card_g.Mcs.Accept.{saved}

abbrev pub Entry : Type 0
Entry = Option ℕ × Option ℕ

abbrev pub entries : List (Option ℕ) → List (Option ℕ) → ℕ → ℕ → List Entry
entries addrs bytes k zero = []
entries addrs bytes k (suc n) = (data_at addrs k, data_at bytes k) ∷ entries addrs bytes (suc k) n

abbrev pub pending : Reader → List Entry
pending r = entries r.prom_addr r.prom_data r.prom_pntr (16 - r.prom_pntr)

-- Bytes with the addresses that the source gives them, from index `i` of their record on.
abbrev pub labelled : ℕ → ℕ → ℕ → List ℕ → List Entry
labelled base addr i [] = []
labelled base addr i (y ∷ ys) =
    (some (bit_or (bit_or base addr) i), some y) ∷ labelled base addr (i + 1) ys

saved_keeps :
    (i addr j : ℕ) (ys : List ℕ) (r : Reader)
    → j < i + r.prom_pntr
    → (data_at (saved i addr ys r).prom_addr j ≡ data_at r.prom_addr j)
      × (data_at (saved i addr ys r).prom_data j ≡ data_at r.prom_data j)
      × ((saved i addr ys r).prom_pntr ≡ r.prom_pntr)
unfolding saved
saved_keeps i addr j [] r h = (refl, refl, refl)
saved_keeps i addr j (y ∷ ys) r h =
    let (a, d, p) = saved_keeps (i + 1) addr j ys (save_one i addr y r) (omega arith) in
    let ne : i + r.prom_pntr ≢ j = omega arith in
    (a ∙ data_at-set_ne r.prom_addr _ j _ ne, d ∙ data_at-set_ne r.prom_data _ j y ne, p)

entries-saved :
    (i addr k : ℕ) (ys : List ℕ) (r : Reader)
    → length r.prom_addr ≡ 16
    → length r.prom_data ≡ 16
    → k ≡ i + r.prom_pntr
    → k + length ys ≤ 16
    → entries (saved i addr ys r).prom_addr (saved i addr ys r).prom_data k (length ys)
      ≡ labelled r.prom_base_addr addr i ys
unfolding saved
entries-saved i addr k [] r la ld e h = refl
entries-saved i addr k (y ∷ ys) r la ld e h =
    let q = save_one i addr y r in
    let (a, d, _) = saved_keeps (i + 1) addr k ys q (omega arith) in
    let at_a =
      ap (λ (t : ℕ). data_at (set r.prom_addr t (some (bit_or (bit_or r.prom_base_addr addr) i))) k)
        (sym e)
      ∙ data_at-set_self r.prom_addr k _ (omega arith) in
    let at_d =
      ap (λ (t : ℕ). data_at (set r.prom_data t (some y)) k) (sym e)
      ∙ data_at-set_self r.prom_data k y (omega arith) in
    ap₂ ◌∷◌ (λ j. ((a ∙ at_a) j, (d ∙ at_d) j))
      (entries-saved (i + 1) addr (suc k) ys q (length-set _ _ _ ∙ la) (length-set _ _ _ ∙ ld)
        (omega arith) (omega arith))

saved-prom_pntr :
    (i addr : ℕ) (ys : List ℕ) (r : Reader) → (saved i addr ys r).prom_pntr ≡ r.prom_pntr
unfolding saved
saved-prom_pntr i addr [] r = refl
saved-prom_pntr i addr (y ∷ ys) r = saved-prom_pntr (i + 1) addr ys (save_one i addr y r)

-- What a data record of at most 16 bytes leaves in the queue of a valid reader: its bytes, in
-- their order, with the addresses `base | addr | i`, and nothing else.
pub pending-saved :
    (addr : ℕ) (bytes : List ℕ) (r : Reader)
    → IsValid r
    → length bytes ≤ 16
    → pending (saved 0 addr bytes (record r { prom_pntr = 16 - length bytes }))
      ≡ labelled r.prom_base_addr addr 0 bytes
pending-saved addr bytes r v h =
    let p = 16 - length bytes in
    let q = record r { prom_pntr = p } in
    let s = saved 0 addr bytes q in
    ap₂ (entries s.prom_addr s.prom_data) (saved-prom_pntr 0 addr bytes q)
      (omega (arith, saved-prom_pntr 0 addr bytes q))
    ∙ entries-saved 0 addr p bytes q v.addr_length v.data_length (omega arith) (omega arith)

advanced : Reader → Reader
advanced r = record r { prom_pntr = r.prom_pntr + 1 }

entries_head :
    (r : Reader) (n : ℕ) {a b : Option ℕ} {rest : List Entry}
    → entries r.prom_addr r.prom_data r.prom_pntr n ≡ (a, b) ∷ rest
    → (m : ℕ) × (n ≡ suc m)
      × (data_at r.prom_addr r.prom_pntr ≡ a)
      × (data_at r.prom_data r.prom_pntr ≡ b)
      × (entries r.prom_addr r.prom_data (suc r.prom_pntr) m ≡ rest)
entries_head r zero e = cc
entries_head r (suc n) e = (n, refl, cc, cc, cc)

-- A call of `read` between records takes the front of the queue.
pub deliver_pops :
    (r : Reader) (a b : ℕ) (rest : List Entry)
    → pending r ≡ (some a, some b) ∷ rest
    → (r' : Reader) × (deliver r
        ≡ ok (pos 0, record { address = some a; byte = some b; end_of_file = false }, r'))
      × (pending r' ≡ rest)
unfolding deliver advanced
deliver_pops r a b rest e =
    let (m, left, ea, eb, er) = entries_head r (16 - r.prom_pntr) e in
    (advanced r, rw (ea, eb), same m left ∙ er)
  where
    same :
        (m : ℕ)
        → 16 - r.prom_pntr ≡ suc m
        → pending (advanced r) ≡ entries r.prom_addr r.prom_data (suc r.prom_pntr) m
    same m left = ap₂ (entries r.prom_addr r.prom_data) (omega arith) (omega arith)

-- Consecutive addresses.
abbrev pub numbered : ℕ → List ℕ → List Entry
numbered a [] = []
numbered a (y ∷ ys) = (some a, some y) ∷ numbered (a + 1) ys

-- A record whose address is a multiple of 16 has the addresses that its format means.
pub labelled-numbered :
    (base addr i : ℕ) (ys : List ℕ)
    → addr < 2 ^ 16
    → addr % 16 ≡ 0
    → i + length ys ≤ 16
    → labelled (base * 2 ^ 16) addr i ys ≡ numbered (base * 2 ^ 16 + addr + i) ys
labelled-numbered base addr i [] small aligned h = refl
labelled-numbered base addr i (y ∷ ys) small aligned h =
    let joined : bit_or (bit_or (base * 2 ^ 16) addr) i ≡ base * 2 ^ 16 + addr + i =
      rw (bit_or_sum 16 base addr small) (
        ap (λ (t : ℕ). bit_or t i) sixteens
        ∙ bit_or_sum 4 (base * 4096 + addr / 16) i (omega arith)
        ∙ omega (arith, sixteens)) in
    ap₂ ◌∷◌ (λ j. (some (joined j), some y))
      (labelled-numbered base addr (i + 1) ys small aligned (omega arith)
        ∙ ap (λ (t : ℕ). numbered t ys) (omega arith))
  where
    sixteens : base * 2 ^ 16 + addr ≡ (base * 4096 + addr / 16) * 2 ^ 4
    sixteens = omega arith

odd_or_one : (a : ℕ) → a % 2 ≡ 1 → bit_or a 1 ≡ a
odd_or_one a h = omega (arith, bit_or-digit a 1, bit_or-zero (a / 2))

-- A record with an odd address: its second byte gets the address of the first.
pub labelled_odd :
    (base addr y z : ℕ)
    → bit_or base addr % 2 ≡ 1
    → labelled base addr 0 (y ∷ z ∷ [])
      ≡ (some (bit_or base addr), some y) ∷ (some (bit_or base addr), some z) ∷ []
labelled_odd base addr y z h = rw (bit_or-zero, odd_or_one (bit_or base addr) h)
