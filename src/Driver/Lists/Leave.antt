-- ===== src/Driver/Lists/Leave.antt =====
-- A share leaves its list, wherever it stands in it, and goes to the front of the free list.
use evr_card_g.Base.{
  ℕ, ◌≡◌, refl, true, false, Option, none, some, List, ◌∷◌, has, remove, points, ◌==◌,
  if◌then◌else◌, arith, inl, inr, Bool-cases, ◌∙◌, ==_iff,
}
use evr_card_g.Driver.Device.{Device}
use evr_card_g.Driver.Links.{
  Chain, Back, Chain-frame, Back-frame, past_next, past_prev, past, Chain-remove_among,
  Back-remove_among, prev-mem, next-mem, has-remove_self,
}
use evr_card_g.Driver.Lists.Move.{s_out, apart, member-move, present-move, bounded-move}
use evr_card_g.Driver.Lists.{
  Place, free, same, eq_of_same, same_refl, place, nexts, prevs, head, move, Lists,
}

-- What the fields are then.
pub record Left {C : Type 0} (d d' : Device C) (s : ℕ) (from : Place) : Type 0 where
  pub next_eq :
      (x : ℕ) → nexts d' x ≡ (if x == s then d.freelist else past_next (nexts d) (prevs d) s x)
  pub prev_eq : (x : ℕ) → prevs d' x ≡ (if x == s then none else past_prev (nexts d) (prevs d) s x)
  pub place_eq :
      (x : ℕ) → place (d'.all_shares x) ≡ (if x == s then free else place (d.all_shares x))
  pub idx_eq : (x : ℕ) → (d'.all_shares x).idx ≡ (d.all_shares x).idx
  pub head_eq :
      (q : Place)
      → head d' q ≡ (
          if same q free
          then some s
          else if same q from
          then past (nexts d) s (head d from)
          else head d q)

module _ {C : Type 0} {d d' : Device C} {s : ℕ} {from : Place} {a : Place → List ℕ} (l : Lists d a)
    (here : has s (a from) ≡ true) (used : same from free ≡ false) (e : Left d d' s from) where
  other : same free from ≡ false
  other = ground (arith, eq_of_same free from, same_refl from)

  -- The neighbours of the share are in its list.
  prev_in : (x : ℕ) → points (prevs d s) x ≡ true → has x (a from) ≡ true
  prev_in x p =
      elim (prev-mem (nexts d) (prevs d) none (head d from) s (a from) (l.linked from)
        (l.backed from used) here) [
          | inl (f, n) ↦ ground (arith, n)
          | inr (f, (z, n, i)) ↦ ground (arith, n, i, ==_iff x z)
        ]

  next_in : (x : ℕ) → points (nexts d s) x ≡ true → has x (a from) ≡ true
  next_in x p = go (nexts d s) refl p
    where
      go : (n : Option ℕ) → nexts d s ≡ n → points n x ≡ true → has x (a from) ≡ true
      go none f p = cc
      go (some z) f p = ground (
        arith,
        next-mem (nexts d) (prevs d) (head d from) s z (a from) (l.linked from) here f,
        ==_iff x z,
      )

  linked_other : (q : Place) → same q from ≡ false → Chain (nexts d') (head d q) (a q)
  linked_other q f =
      Chain-frame (head d q) (a q)
        (λ x i.
          rw (e.next_eq x, apart l s from here q x f i)
            (ground (arith, prev_in x, l.member q x i, l.member from x, same_refl q)))
        (l.linked q)

  linked_free : Chain (nexts d') (some s) (s ∷ a free)
  linked_free = (
    refl,
    s_out l s from here free other,
    rw (e.next_eq s) (rw ((==_iff s s).1 refl) (linked_other free other)),
  )

  out : (x : ℕ) → has x (remove s (a from)) ≡ true → (x == s) ≡ false
  out x i =
      ground (arith, has-remove_self (nexts d) (head d from) s (a from) (l.linked from), ==_iff x s)

  linked_from : Chain (nexts d') (past (nexts d) s (head d from)) (remove s (a from))
  linked_from =
      Chain-frame (past (nexts d) s (head d from)) (remove s (a from))
        (λ x i. rw (e.next_eq x, out x i) refl)
        (Chain-remove_among (nexts d) (prevs d) none (head d from) s (a from) (λ y f. cc)
          (l.linked from) (l.backed from used) here)

  linked : (q : Place) → Chain (nexts d') (head d' q) (move s from free a q)
  linked q = elim (Bool-cases (same q free)) [
    | inl into ↦ rw (e.head_eq q, into, eq_of_same q free into) linked_free
    | inr away ↦ elim (Bool-cases (same q from)) [
      | inl at ↦ rw (e.head_eq q, away, at, eq_of_same q from at) linked_from
      | inr apart ↦ rw (e.head_eq q, away, apart) (linked_other q apart)
    ]
  ]

  backed_from : Back (prevs d') none (remove s (a from))
  backed_from =
      Back-frame none (remove s (a from)) (λ x i. rw (e.prev_eq x, out x i) refl)
        (Back-remove_among (nexts d) (prevs d) none (head d from) s (a from) (l.linked from)
          (l.backed from used) here)

  backed_other :
      (q : Place) → same q from ≡ false → same q free ≡ false → Back (prevs d') none (a q)
  backed_other q f g =
      Back-frame none (a q)
        (λ x i.
          rw (e.prev_eq x, apart l s from here q x f i)
            (ground (arith, next_in x, l.member q x i, l.member from x, same_refl q)))
        (l.backed q g)

  backed : (q : Place) → same q free ≡ false → Back (prevs d') none (move s from free a q)
  backed q g = elim (Bool-cases (same q from)) [
    | inl at ↦ rw (g, at, eq_of_same q from at) backed_from
    | inr apart ↦ rw (g, apart) (backed_other q apart g)
  ]

  pub Lists-leave : Lists d' (move s from free a)
  Lists-leave = record {
    linked = linked;
    backed = backed;
    member = member-move l s from free d' here other e.place_eq;
    present = present-move l s from free d' here other e.place_eq;
    bounded = bounded-move l s from free d' here other e.place_eq;
    indexed = λ x h. e.idx_eq x ∙ l.indexed x h;
  }
