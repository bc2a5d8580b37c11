-- ===== src/Mcs/Hands.antt =====
-- `read`, call by call: the bytes of a record as they are handed out.
use evr_card_g.Base.{
  ℕ, suc, ◌+◌, ◌-◌, false, List, [], ◌∷◌, some, ◌≡◌, refl, arith, length, ap, ◌∙◌, ◌==◌, ==_iff, ℤ,
  pos, bit_or,
}
use evr_card_g.Base.Outcome.{ok, >>=-eq-ok, value}
use evr_card_g.Mcs.Reader.{Reader, next, save_one, data_at}
use evr_card_g.Mcs.Read.{
  ReadData, filled, read, deliver, fill, after_fill, finish, round, turn, go_on,
}
use evr_card_g.Mcs.Accept.{saved}
use evr_card_g.Mcs.Invariant.{IsValid}
use evr_card_g.Mcs.Queue.{Entry, pending, labelled, deliver_pops}
use evr_card_g.Mcs.RoundTrip.{past}
use evr_card_g.Mcs.Records.{DataRecord, next-saved}

not_empty :
    (r : Reader) {e : Entry} {rest : List Entry}
    → pending r ≡ e ∷ rest
    → (r.prom_pntr == 16) ≡ false
not_empty r {e} {rest} q = ground arith

-- What a delivery does not touch.
abbrev pub Kept : Reader → Reader → Type 0
Kept r r' =
    (r'.file ≡ r.file) × (r'.end_of_file ≡ r.end_of_file) × (r'.prom_base_addr ≡ r.prom_base_addr)

deliver-Kept :
    (r : Reader) {s : ℤ} {mem : ReadData} {r' : Reader} → deliver r ≡ ok (s, mem, r') → Kept r r'
unfolding deliver
deliver-Kept r e =
    let (a, _, e₁) = >>=-eq-ok (value (data_at r.prom_addr r.prom_pntr)) _ e in
    let (v, _, e₂) = >>=-eq-ok (value (data_at r.prom_data r.prom_pntr)) _ e₁ in (cc, cc, cc)

abbrev handed : ℕ → ℕ → ReadData
handed a b = record { address = some a; byte = some b; end_of_file = false }

-- If the queue has an address and a byte at its front, a call of `read` answers 0, hands these out
-- and takes them off, and leaves the file, the note of its end and the base address as they were.
pub read_pops :
    (fuel : ℕ) (mem : ReadData) (r : Reader) (a b : ℕ) (rest : List Entry)
    → pending r ≡ (some a, some b) ∷ rest
    → (r' : Reader) × (read fuel mem r
        ≡ some (ok (pos 0, record { address = some a; byte = some b; end_of_file = false }, r')))
      × (pending r' ≡ rest)
      × Kept r r'
unfolding read
read_pops fuel mem r a b rest q =
    let (r', e, q') = deliver_pops r a b rest q in
    (r', rw (not_empty r q) (ap some e), q', deliver-Kept r e)

-- Calls of `read`, one behind the other, that hand out these bytes with these addresses and
-- answer 0, whatever stood in the structure that they fill.
pub data Hands (fuel : ℕ) (r' : Reader) : List Entry → Reader → Type 0 where
  none_left : Hands fuel r' [] r'
  one_more :
      {a b : ℕ} {rest : List Entry} {r r₁ : Reader}
      → ((mem : ReadData)
          → read fuel mem r
            ≡ some
                (ok (pos 0, record { address = some a; byte = some b; end_of_file = false }, r₁)))
      → Hands fuel r' rest r₁
      → Hands fuel r' ((some a, some b) ∷ rest) r

-- What was queued is handed out.
pending-Hands :
    (fuel base addr i : ℕ) (ys : List ℕ) (r : Reader)
    → pending r ≡ labelled base addr i ys
    → (r' : Reader) × Hands fuel r' (labelled base addr i ys) r × (pending r' ≡ []) × Kept r r'
unfolding read
pending-Hands fuel base addr i [] r q = (r, none_left, q, (refl, refl, refl))
pending-Hands fuel base addr i (y ∷ ys) r q =
    let a = bit_or (bit_or base addr) i in
    let rest = labelled base addr (i + 1) ys in
    let (r₁, e, q₁) = deliver_pops r a y rest q in
    let (r', h, q', (f', o', b')) = pending-Hands fuel base addr (i + 1) ys r₁ q₁ in
    let (f, o, b) = deliver-Kept r e in
    (r', one_more (λ mem. rw (not_empty r q) (ap some e)) h, q', (f' ∙ f, o' ∙ o, b' ∙ b))

saved-Kept : (i addr : ℕ) (ys : List ℕ) (r : Reader) → Kept r (saved i addr ys r)
unfolding saved
saved-Kept i addr [] r = (refl, refl, refl)
saved-Kept i addr (y ∷ ys) r = saved-Kept (i + 1) addr ys (save_one i addr y r)

turn_of_more : (s : ℤ) (r : Reader) → r.end_of_file ≡ false → turn s r ≡ next r
unfolding turn
turn_of_more s r more = ground arith

round_of_data : (q : Reader) → q.end_of_file ≡ false → round (pos 0) q ≡ some (filled q)
unfolding round
round_of_data q more = ground arith

-- A call of `read` on an empty queue, behind which a data record follows.
read_of_empty :
    (fuel : ℕ) (mem : ReadData) (r q : Reader)
    → r.prom_pntr ≡ 16
    → r.end_of_file ≡ false
    → next r ≡ ok (pos 0, q)
    → q.end_of_file ≡ false
    → read (suc fuel) mem r ≡ some (deliver q)
unfolding read after_fill fill go_on finish
read_of_empty fuel mem r q empty more e more' = rw (
  (==_iff r.prom_pntr 16).1 empty,
  turn_of_more (pos 0) r more ∙ e,
  go_on,
  round_of_data q more',
  after_fill,
  finish,
)

-- On a valid reader whose queue is empty, and whose next line is a data record of 1 to 16 bytes
-- with a right check sum, as many calls of `read` as it has bytes hand out exactly these, in
-- their order, with the addresses `base | addr | i`. Then the queue is empty again, and the reader
-- stands behind the record, with the base address that it had.
pub read_record :
    (fuel : ℕ) (r : Reader) (addr : ℕ) (bytes : List ℕ)
    → IsValid r
    → r.prom_pntr ≡ 16
    → r.end_of_file ≡ false
    → (d : DataRecord r addr bytes)
    → (r' : Reader) × Hands (suc fuel) r' (labelled r.prom_base_addr addr 0 bytes) r
      × (pending r' ≡ [])
      × Kept (past r d.rest) r'
read_record fuel r addr [] v empty more d = absurd (omega (arith, d.some_byte))
read_record fuel r addr (y ∷ ys) v empty more d =
    let bytes = y ∷ ys in
    let start = record (past r d.rest) { prom_pntr = 16 - length bytes } in
    let q = saved 0 addr bytes start in
    let (qf, qo, qb) = saved-Kept 0 addr bytes start in
    let (came, pends) = next-saved r addr bytes v d in
    let (r₁, e, q₁) = deliver_pops q _ y _ pends in
    let (f, o, b) = deliver-Kept q e in
    let (r', h, p', (f', o', b')) = pending-Hands (suc fuel) r.prom_base_addr addr 1 ys r₁ q₁ in
    (
      r',
      one_more (λ mem. read_of_empty fuel mem r q empty more came (qo ∙ more) ∙ ap some e) h,
      p',
      (f' ∙ f ∙ qf, o' ∙ o ∙ qo, b' ∙ b ∙ qb),
    )
