-- ===== src/Driver/Closing.antt =====
-- A release moves a share from its list to the front of the free list.
use evr_card_g.Base.{
  ℕ, ◌<◌, ◌≡◌, refl, true, false, none, some, points, if◌then◌else◌, arith, inl, inr, Option-cases,
  ==_iff, is_empty, is_null, List, has,
}
use evr_card_g.Base.Bits.{bit}
use evr_card_g.Bus.{Bus}
use evr_card_g.Driver.Device.{Device, mod_shared, nth}
use evr_card_g.Driver.Files.{give_back, unlink_channel, unlink_bsa, clear_parent, disable_minor}
use evr_card_g.Driver.Links.{
  past, prev-apart, next-apart, front-null, Chain-none, Chain-some, has-not_empty,
}
use evr_card_g.Driver.Minors.{bit-clear_bit}
use evr_card_g.Regs.Word.{clear_bit}
use evr_card_g.Driver.Lists.{
  Place, free, channel, bsa, same, nexts, prevs, head, move, Lists, Represents,
}
use evr_card_g.Driver.Lists.Leave.{Left}

-- A share that is not its own neighbour, and is the head of its list just when it has no `prev`.
pub record Apart {C : Type 0} (d : Device C) (s : ℕ) (from : Place) : Type 0 where
  pub prev_apart : points (prevs d s) s ≡ false
  pub next_apart : points (nexts d s) s ≡ false
  pub front : points (head d from) s ≡ is_null (prevs d s)

module _ {C : Type 0} where
  abbrev pub closed_bsa : ℕ → Device C → Device C
  closed_bsa s d = clear_parent (nth s) (give_back s (unlink_bsa s d))

  module _ (s : ℕ) (d : Device C) (apart : Apart d s bsa) where
    head-closed_bsa :
        (q : Place)
        → head (closed_bsa s d) q ≡ (
            if same q free
            then some s
            else if same q bsa
            then past (nexts d) s (head d bsa)
            else head d q)
    unfolding give_back unlink_bsa
    head-closed_bsa free = ground arith
    head-closed_bsa (channel k) = ground (arith, apart.prev_apart, apart.next_apart, apart.front)
    head-closed_bsa bsa = ground (arith, apart.prev_apart, apart.next_apart, apart.front)

    pub Left-closed_bsa : Left d (closed_bsa s d) s bsa
    unfolding give_back unlink_bsa
    Left-closed_bsa = record {
      next_eq = λ x. ground (arith, apart.prev_apart, apart.next_apart);
      prev_eq = λ x. ground (arith, apart.prev_apart, apart.next_apart);
      place_eq = λ x. ground (arith, apart.prev_apart, apart.next_apart);
      idx_eq = λ x. ground (arith, apart.prev_apart, apart.next_apart);
      head_eq = head-closed_bsa;
    }

  pub minors-closed_bsa : (s : ℕ) (d : Device C) → (closed_bsa s d).minors ≡ d.minors
  unfolding give_back unlink_bsa
  minors-closed_bsa s d = ground arith

module _ {C : Type 0} (bus : Bus C) where
  -- The device after a release of the share `s` of a channel, or of the BSA device.
  abbrev pub closed_channel : ℕ → ℕ → Device C → Device C
  closed_channel m s d = clear_parent (nth s) (give_back s (unlink_channel bus m s d))

  module _ (m s : ℕ) (d : Device C) (apart : Apart d s (channel m)) where
    head-closed_channel :
        (q : Place)
        → head (closed_channel m s d) q ≡ (
            if same q free
            then some s
            else if same q (channel m)
            then past (nexts d) s (head d (channel m))
            else head d q)
    unfolding give_back unlink_channel disable_minor
    head-closed_channel free = ground arith
    head-closed_channel (channel k) =
        ground (arith, apart.prev_apart, apart.next_apart, apart.front)
    head-closed_channel bsa = ground (arith, apart.prev_apart, apart.next_apart, apart.front)

    pub Left-closed_channel : Left d (closed_channel m s d) s (channel m)
    unfolding give_back unlink_channel disable_minor
    Left-closed_channel = record {
      next_eq = λ x. ground (arith, apart.prev_apart, apart.next_apart);
      prev_eq = λ x. ground (arith, apart.prev_apart, apart.next_apart);
      place_eq = λ x. ground (arith, apart.prev_apart, apart.next_apart);
      idx_eq = λ x. ground (arith, apart.prev_apart, apart.next_apart);
      head_eq = head-closed_channel;
    }

module _ {C : Type 0} {d : Device C} {s : ℕ} {from : Place} {a : Place → List ℕ} (l : Lists d a)
    (here : has s (a from) ≡ true) (used : same from free ≡ false) where
  pub Apart-Lists : Apart d s from
  Apart-Lists = record {
    prev_apart =
        prev-apart (nexts d) (prevs d) none (head d from) s (a from) refl (l.linked from)
          (l.backed from used) here;
    next_apart = next-apart (nexts d) (prevs d) (head d from) s (a from) (l.linked from) here;
    front =
        front-null (nexts d) (prevs d) (head d from) s (a from) (l.linked from) (l.backed from used)
          here;
  }

module _ {C : Type 0} (bus : Bus C) (m s : ℕ) (d : Device C) where
  minors-last :
      (closed_channel bus m s d).shared m ≡ none
      → (closed_channel bus m s d).minors ≡ clear_bit m d.minors
  unfolding give_back unlink_channel disable_minor
  minors-last e = ground arith

  minors-not_last :
      (h : ℕ)
      → (closed_channel bus m s d).shared m ≡ some h
      → (closed_channel bus m s d).minors ≡ d.minors
  unfolding give_back unlink_channel disable_minor
  minors-not_last h e = ground arith

  pub lit-closed_channel :
      (a : Place → List ℕ) (k : ℕ)
      → Represents d a
      → Lists (closed_channel bus m s d) (move s (channel m) free a)
      → has s (a (channel m)) ≡ true
      → m < mod_shared
      → k < mod_shared
      → bit k (closed_channel bus m s d).minors
        ≡ (if is_empty (move s (channel m) free a (channel k)) then 0 else 1)
  lit-closed_channel a k r l i h lt =
      let d' = closed_channel bus m s d in
      let rest = move s (channel m) free a (channel m) in
      elim (Option-cases (d'.shared m)) [
        | inl e ↦ ground (
          arith,
          r.lit k lt,
          bit-clear_bit k m d.minors lt h,
          Chain-none (nexts d') (d'.shared m) rest (l.linked (channel m)) e,
          ==_iff k m,
          minors-last e,
        )
        | inr (x, e) ↦ ground (
          arith,
          r.lit k lt,
          r.lit m h,
          Chain-some (nexts d') (d'.shared m) x rest (l.linked (channel m)) e,
          ==_iff k m,
          minors-not_last x e,
          has-not_empty s (a (channel m)) i,
        )
      ]
