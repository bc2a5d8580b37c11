-- ===== src/Driver/Opening.antt =====
-- An open moves the first share of the free list to the front of the list of its minor.
use evr_card_g.Base.{
  ℕ, ◌<◌, ◌≡◌, none, some, List, if◌then◌else◌, arith, inl, inr, Option-cases, ==_iff, is_empty,
}
use evr_card_g.Bus.{Bus}
use evr_card_g.Driver.Device.{Device, mod_shared}
use evr_card_g.Driver.Files.{set_parent, link_channel, link_bsa, enable_minor}
use evr_card_g.Driver.Lists.{Place, free, channel, bsa, same, nexts, head, move, Represents}
use evr_card_g.Base.Bits.{bit}
use evr_card_g.Regs.Word.{set_bit}
use evr_card_g.Driver.Minors.{bit-set_bit}
use evr_card_g.Driver.Links.{Chain-none, Chain-some}
use evr_card_g.Driver.Lists.Enter.{Entered}

module _ {C : Type 0} (bus : Bus C) where
  -- The device after an open of a channel, or of the BSA device, that got share `s`.
  abbrev pub opened_channel : ℕ → ℕ → Device C → Device C
  opened_channel m s d =
      link_channel m s
        (enable_minor bus m (set_parent s (record d { freelist = (d.all_shares s).next })))

  head-opened_channel :
      (m s : ℕ) (d : Device C) (q : Place)
      → head (opened_channel m s d) q
        ≡ (if same q (channel m) then some s else if same q free then nexts d s else head d q)
  unfolding link_channel enable_minor
  head-opened_channel m s d free = ground arith
  head-opened_channel m s d (channel k) = ground arith
  head-opened_channel m s d bsa = ground arith

  pub Entered-channel : (m s : ℕ) (d : Device C) → Entered d (opened_channel m s d) s (channel m)
  unfolding link_channel enable_minor
  Entered-channel m s d = elim (Option-cases (d.shared m)) [
    | inl e ↦ record {
      next_eq = λ x. ground arith;
      prev_eq = λ x. ground arith;
      place_eq = λ x. ground arith;
      idx_eq = λ x. ground arith;
      head_eq = head-opened_channel m s d;
    }
    | inr (h, e) ↦ record {
      next_eq = λ x. ground arith;
      prev_eq = λ x. ground arith;
      place_eq = λ x. ground arith;
      idx_eq = λ x. ground arith;
      head_eq = head-opened_channel m s d;
    }
  ]

  minors-first :
      (m s : ℕ) (d : Device C)
      → d.shared m ≡ none
      → (opened_channel m s d).minors ≡ set_bit m d.minors
  unfolding link_channel enable_minor
  minors-first m s d e = ground arith

  minors-later :
      (m s h : ℕ) (d : Device C) → d.shared m ≡ some h → (opened_channel m s d).minors ≡ d.minors
  unfolding link_channel enable_minor
  minors-later m s h d e = ground arith

  pub lit-opened_channel :
      (m s k : ℕ) (d : Device C) (a : Place → List ℕ)
      → Represents d a
      → m < mod_shared
      → k < mod_shared
      → bit k (opened_channel m s d).minors
        ≡ (if is_empty (move s free (channel m) a (channel k)) then 0 else 1)
  lit-opened_channel m s k d a r h l = elim (Option-cases (d.shared m)) [
    | inl e ↦ ground (
      arith,
      r.lit k l,
      bit-set_bit k m d.minors l h,
      Chain-none (nexts d) (d.shared m) (a (channel m)) (r.lists.linked (channel m)) e,
      ==_iff k m,
      minors-first m s d e,
    )
    | inr (x, e) ↦ ground (
      arith,
      r.lit k l,
      r.lit m h,
      Chain-some (nexts d) (d.shared m) x (a (channel m)) (r.lists.linked (channel m)) e,
      ==_iff k m,
      minors-later m s x d e,
    )
  ]

module _ {C : Type 0} where
  abbrev pub opened_bsa : ℕ → Device C → Device C
  opened_bsa s d = link_bsa s (set_parent s (record d { freelist = (d.all_shares s).next }))

  head-opened_bsa :
      (s : ℕ) (d : Device C) (q : Place)
      → head (opened_bsa s d) q
        ≡ (if same q bsa then some s else if same q free then nexts d s else head d q)
  unfolding link_bsa
  head-opened_bsa s d free = ground arith
  head-opened_bsa s d (channel k) = ground arith
  head-opened_bsa s d bsa = ground arith

  pub Entered-bsa : (s : ℕ) (d : Device C) → Entered d (opened_bsa s d) s bsa
  unfolding link_bsa
  Entered-bsa s d = elim (Option-cases d.bsa) [
    | inl e ↦ record {
      next_eq = λ x. ground arith;
      prev_eq = λ x. ground arith;
      place_eq = λ x. ground arith;
      idx_eq = λ x. ground arith;
      head_eq = head-opened_bsa s d;
    }
    | inr (h, e) ↦ record {
      next_eq = λ x. ground arith;
      prev_eq = λ x. ground arith;
      place_eq = λ x. ground arith;
      idx_eq = λ x. ground arith;
      head_eq = head-opened_bsa s d;
    }
  ]

  pub minors-opened_bsa : (s : ℕ) (d : Device C) → (opened_bsa s d).minors ≡ d.minors
  unfolding link_bsa
  minors-opened_bsa s d = ground arith
