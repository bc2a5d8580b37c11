-- ===== src/Driver/Files.antt =====
-- software/kernel/tpr.c: open and release of the device files.
use evr_card_g.Base.{
  ℕ, ◌+◌, ℤ, pos, negsuc, true, false, Option, none, some, ltb, ◌==◌, if◌then◌else◌, not, ◌||◌,
  update,
}
use evr_card_g.Bus.{Bus}
use evr_card_g.Regs.Word.{set_bit, clear_bit}
use evr_card_g.Driver.Device.{
  Client, the_master, nth, Device, mod_shared, success, error, bump, with_share, share_of,
}
use evr_card_g.Driver.Registers.{irq_control, channel_control}

-- What an open answers: the status, and the file's private data if it was set.
pub record Opened (C : Type 0) : Type 0 where
  pub status : ℤ
  pub file : Option Client
  pub dev : Device C

module _ {C : Type 0} where
  -- The head of the free list, taken under the lock.
  unfoldable pub take_share : Device C → Option (ℕ × Device C)
  take_share d = elim d.freelist [
    | none ↦ none
    | some s ↦ some (s, record d { freelist = (d.all_shares s).next })
  ]

  abbrev pub set_parent : ℕ → Device C → Device C
  set_parent s d = with_share s (λ sh. record sh { opened = true }) d

  abbrev pub set_next : ℕ → Option ℕ → Device C → Device C
  set_next s p d = with_share s (λ sh. record sh { next = p }) d

  abbrev pub set_prev : ℕ → Option ℕ → Device C → Device C
  set_prev s p d = with_share s (λ sh. record sh { prev = p }) d

  -- `p->next = q` and `p->prev = q` where `p` is no NULL.
  abbrev pub set_next_of : Option ℕ → Option ℕ → Device C → Device C
  set_next_of none q d = d
  set_next_of (some p) q d = set_next p q d

  abbrev pub set_prev_of : Option ℕ → Option ℕ → Device C → Device C
  set_prev_of none q d = d
  set_prev_of (some p) q d = set_prev p q d

  -- The share before the list whose head is `h`.
  abbrev pub push_front : ℕ → Option ℕ → Device C → Device C
  push_front s h d = set_prev s none (set_prev_of h (some s) (set_next s h d))

  unfoldable pub link_channel : ℕ → ℕ → Device C → Device C
  link_channel m s d =
      let d1 = with_share s (λ sh. record sh { minor = pos m }) d in
      let d2 = push_front s (d1.shared m) d1 in record d2 { shared = update d2.shared m (some s) }

  unfoldable pub link_bsa : ℕ → Device C → Device C
  link_bsa s d =
      let d1 = with_share s (λ sh. record sh { minor = negsuc 0 }) d in
      let d2 = push_front s d1.bsa d1 in record d2 { bsa = some s }

  -- Out of the list that the share is in, from its own fields.
  abbrev pub unlink : ℕ → Device C → Device C
  unlink s d =
      let d1 = set_next_of (d.all_shares s).prev (d.all_shares s).next d in
      set_prev_of (d1.all_shares s).next (d1.all_shares s).prev d1

  -- `head = shared->next` where the share has no `prev`.
  abbrev pub next_head : ℕ → Option ℕ → Device C → Option ℕ
  next_head s h d = elim (d.all_shares s).prev [ none ↦ (d.all_shares s).next | some p ↦ h ]

  -- Back on the free list.
  unfoldable pub give_back : ℕ → Device C → Device C
  give_back s d =
      let d1 = set_next s d.freelist (set_prev s none d) in record d1 { freelist = some s }

  unfoldable pub unlink_bsa : ℕ → Device C → Device C
  unlink_bsa s d = let d1 = unlink s d in record d1 { bsa = next_head s d1.bsa d1 }

  abbrev pub clear_parent : Client → Device C → Device C
  clear_parent the_master d = record d { master = record d.master { opened = false } }
  clear_parent (nth s) d = with_share s (λ sh. record sh { opened = false }) d

module _ {C : Type 0} (bus : Bus C) where
  -- Before the share is linked, and without the lock: the first open of a minor enables it.
  unfoldable pub enable_minor : ℕ → Device C → Device C
  enable_minor m d = elim (d.shared m) [
    | some h ↦ d
    | none ↦
        let (v, c1) = bus.load (channel_control m) d.card in
        let c2 = bus.store irq_control 1 (bus.store (channel_control m) (set_bit 2 v) c1) in
        record d {
          minors = set_bit m d.minors;
          card = c2;
          counters = record d.counters { irq_enable = bump d.counters.irq_enable };
        }
  ]

  unfoldable pub open_share : ℕ → Device C → Opened C
  open_share m d = elim (take_share d) [
    | none ↦ record { status = error; file = none; dev = d }
    | some (s, d1) ↦
        let d2 = set_parent s d1 in
        let d3 = if ltb m mod_shared then link_channel m s (enable_minor m d2) else link_bsa s d2 in
        record { status = success; file = some (nth s); dev = d3 }
  ]

  unfoldable pub tpr_open : ℕ → Device C → Opened C
  tpr_open m d =
      if ltb m mod_shared || (m == mod_shared + 1)
      then open_share m d
      else if m == mod_shared
      then (if d.master.opened then record { status = error; file = none; dev = d } else record {
        status = success;
        file = some the_master;
        dev = record d { master = record d.master { opened = true } };
      })
      else record { status = error; file = none; dev = d }

  -- The last one of a minor to leave: its control word is made of that of channel 0.
  unfoldable pub disable_minor : ℕ → Device C → Device C
  disable_minor m d = elim (d.shared m) [
    | some h ↦ d
    | none ↦
        let (v, c1) = bus.load (channel_control 0) d.card in
        record d {
          minors = clear_bit m d.minors;
          card = bus.store (channel_control m) (clear_bit 2 v) c1;
        }
  ]

  unfoldable pub unlink_channel : ℕ → ℕ → Device C → Device C
  unlink_channel m s d =
      let d1 = unlink s d in
      disable_minor m (record d1 { shared = update d1.shared m (next_head s (d1.shared m) d1) })

  unfoldable pub release_share : ℕ → Device C → Device C
  release_share s d = elim (d.all_shares s).minor [
    | negsuc n ↦ give_back s (unlink_bsa s d)
    | pos m ↦ give_back s (unlink_channel m s d)
  ]

  unfoldable pub release_nth : Client → Device C → Device C
  release_nth the_master d = d
  release_nth (nth s) d = release_share s d

  unfoldable pub tpr_release : Client → Device C → ℤ × Device C
  tpr_release f d = if not (share_of f d).opened then (error, d) else (
    success,
    clear_parent f (elim (share_of f d).idx [ negsuc n ↦ d | pos k ↦ release_nth f d ]),
  )
