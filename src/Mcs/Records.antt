-- ===== src/Mcs/Records.antt =====
-- A data record that `next` takes, and the queue that it leaves.
use evr_card_g.Base.{
  ℕ, ◌+◌, ◌-◌, ◌*◌, ◌%◌, ◌^◌, ◌≤◌, ◌<◌, true, List, [], ◌∷◌, some, ◌≡◌, arith, length, ◌==◌, ==_iff,
  ap, ◌∙◌, bit_or, pos,
}
use evr_card_g.Base.Outcome.{ok}
use evr_card_g.Mcs.Reader.{Reader, next}
use evr_card_g.Mcs.Encode.{AllBytes, fields, record_line}
use evr_card_g.Mcs.Accept.{total, saved}
use evr_card_g.Mcs.Invariant.{IsValid}
use evr_card_g.Mcs.Queue.{
  Entry, pending, labelled, pending-saved, numbered, labelled-numbered, labelled_odd,
}
use evr_card_g.Mcs.RoundTrip.{StandsAt, past, next-data}

-- The next line is a data record of 1 to 16 bytes that add up to 0 modulo 256.
pub record DataRecord (r : Reader) (addr : ℕ) (bytes : List ℕ) : Type 0 where
  pub check : ℕ
  pub rest : List ℕ
  pub stands : StandsAt r (record_line addr 0 bytes check) rest
  pub all_bytes : AllBytes (fields addr 0 bytes check)
  pub some_byte : 0 < length bytes
  pub at_most : length bytes ≤ 16
  pub balanced : total (fields addr 0 bytes check) % 256 ≡ 0

-- `next` answers 0 and leaves this queue.
abbrev pub Queues : Reader → List Entry → Type 0
Queues r es = (r' : Reader) × (next r ≡ ok (pos 0, r')) × (pending r' ≡ es)

-- What `next` leaves is `saved`, and the queue of that is the record.
pub next-saved :
    (r : Reader) (addr : ℕ) (bytes : List ℕ)
    → IsValid r
    → (d : DataRecord r addr bytes)
    → let s = saved 0 addr bytes (record (past r d.rest) { prom_pntr = 16 - length bytes }) in
      (next r ≡ ok (pos 0, s)) × (pending s ≡ labelled r.prom_base_addr addr 0 bytes)
next-saved r addr bytes v d =
    let q = past r d.rest in
    let zero_sum : (total (fields addr 0 bytes d.check) % 256 == 0) ≡ true =
      (==_iff _ _).1 d.balanced in
    let v' : IsValid q = record {
      data_length = v.data_length;
      addr_length = v.addr_length;
      pntr_le = v.pntr_le;
      data_written = v.data_written;
      addr_written = v.addr_written;
    } in
    (
      next-data r addr bytes d.check d.rest d.stands d.all_bytes d.some_byte d.at_most
          ∙ rw zero_sum,
      pending-saved addr bytes q v' d.at_most,
    )

-- On a valid reader whose next line is a data record of 1 to 16 bytes with a right check sum,
-- `next` answers 0, and what `read` will hand out then are the record's bytes, in their order,
-- with the addresses `base | addr | i`, and nothing else.
pub next-Queues :
    (r : Reader) (addr : ℕ) (bytes : List ℕ)
    → IsValid r
    → DataRecord r addr bytes
    → Queues r (labelled r.prom_base_addr addr 0 bytes)
next-Queues r addr bytes v d =
    let (came, pends) = next-saved r addr bytes v d in
    let start = record (past r d.rest) { prom_pntr = 16 - length bytes } in
    (saved 0 addr bytes start, came, pends)

-- On a valid reader whose next line is a data record of 1 to 16 bytes with a right check sum, at
-- an address below 2 ^ 16 that is a multiple of 16, and whose base address is a multiple of
-- 2 ^ 16, `next` answers 0 and queues the bytes under the addresses of the format: consecutive
-- from `base + addr` on.
pub next-Queues_aligned :
    (r : Reader) (base addr : ℕ) (bytes : List ℕ)
    → IsValid r
    → DataRecord r addr bytes
    → r.prom_base_addr ≡ base * 2 ^ 16
    → addr < 2 ^ 16
    → addr % 16 ≡ 0
    → Queues r (numbered (base * 2 ^ 16 + addr) bytes)
next-Queues_aligned r base addr bytes v d at_base small aligned =
    let (r', e, q) = next-Queues r addr bytes v d in
    (
      r',
      e,
      q
          ∙ ap (λ (t : ℕ). labelled t addr 0 bytes) at_base
          ∙ labelled-numbered base addr 0 bytes small aligned (omega (arith, d.at_most))
          ∙ ap (λ (t : ℕ). numbered t bytes) (omega arith),
    )

-- On a valid reader whose next line is a data record of two bytes with a right check sum, at an
-- odd address, `next` queues both bytes under that one address.
pub next-Queues_odd :
    (r : Reader) (addr y z : ℕ)
    → IsValid r
    → DataRecord r addr (y ∷ z ∷ [])
    → bit_or r.prom_base_addr addr % 2 ≡ 1
    → Queues r (
        (some (bit_or r.prom_base_addr addr), some y)
        ∷ (some (bit_or r.prom_base_addr addr), some z)
        ∷ [])
next-Queues_odd r addr y z v d odd =
    let (r', e, q) = next-Queues r addr (y ∷ z ∷ []) v d in
    (r', e, q ∙ labelled_odd r.prom_base_addr addr y z odd)
