-- ===== src/Driver/Lists/Enter.antt =====
-- A share goes from the front of the free list to the front of another.
use evr_card_g.Base.{
  ℕ, ◌≡◌, refl, true, false, Option, none, some, List, [], ◌∷◌, has, remove, points, ◌==◌,
  if◌then◌else◌, arith, inl, inr, Bool-cases, ◌∙◌, ==_iff,
}
use mathlib.Core.Path.{subst}
use evr_card_g.Driver.Device.{Device}
use evr_card_g.Driver.Links.{Chain, Back, Chain-frame, Back-frame, points-mem}
use evr_card_g.Driver.Lists.Move.{s_out, apart, member-move, present-move, bounded-move}
use evr_card_g.Driver.Lists.{
  Place, free, same, eq_of_same, same_refl, place, nexts, prevs, head, move, Lists,
}

-- What the fields are then.
pub record Entered {C : Type 0} (d d' : Device C) (s : ℕ) (to : Place) : Type 0 where
  pub next_eq : (x : ℕ) → nexts d' x ≡ (if x == s then head d to else nexts d x)
  pub prev_eq :
      (x : ℕ)
      → prevs d' x ≡ (if x == s then none else if points (head d to) x then some s else prevs d x)
  pub place_eq : (x : ℕ) → place (d'.all_shares x) ≡ (if x == s then to else place (d.all_shares x))
  pub idx_eq : (x : ℕ) → (d'.all_shares x).idx ≡ (d.all_shares x).idx
  pub head_eq :
      (q : Place)
      → head d' q ≡ (if same q to then some s else if same q free then nexts d s else head d q)

module _ {C : Type 0} {d d' : Device C} {s : ℕ} {rest : List ℕ} {to : Place} {a : Place → List ℕ}
    (l : Lists d a) (first : a free ≡ s ∷ rest) (other : same to free ≡ false)
    (e : Entered d d' s to) where
  here : has s (a free) ≡ true
  here = rw (first) (ground (arith, ==_iff s s))

  Chain-first : Chain (nexts d) d.freelist (s ∷ rest)
  Chain-first = subst (λ xs. Chain (nexts d) d.freelist xs) first (l.linked free)

  linked_to : Chain (nexts d') (some s) (s ∷ a to)
  linked_to = (
    refl,
    s_out l s free here to other,
    rw (e.next_eq s) (
        rw ((==_iff s s).1 refl) (
          Chain-frame (head d to) (a to)
            (λ x i. rw (e.next_eq x, apart l s free here to x other i) refl) (l.linked to))),
  )

  linked_free : Chain (nexts d') (nexts d s) rest
  linked_free =
      let (h, out, c) = Chain-first in
      Chain-frame (nexts d s) rest (λ x i. rw (e.next_eq x) (ground arith)) c

  linked_other :
      (q : Place) → same q to ≡ false → same q free ≡ false → Chain (nexts d') (head d q) (a q)
  linked_other q t f =
      Chain-frame (head d q) (a q) (λ x i. rw (e.next_eq x, apart l s free here q x f i) refl)
        (l.linked q)

  remove_s : remove s (a free) ≡ rest
  remove_s = rw (first) (ground (arith, ==_iff s s))

  linked : (q : Place) → Chain (nexts d') (head d' q) (move s free to a q)
  linked q = elim (Bool-cases (same q to)) [
    | inl here ↦ rw (e.head_eq q, here, eq_of_same q to here) linked_to
    | inr away ↦ elim (Bool-cases (same q free)) [
      | inl from ↦ rw (e.head_eq q, away, from, eq_of_same q free from, remove_s) linked_free
      | inr apart ↦ rw (e.head_eq q, away, apart) (linked_other q away apart)
    ]
  ]

  pushed-Back :
      (h : Option ℕ) (xs : List ℕ)
      → Chain (nexts d) h xs
      → Back (prevs d) none xs
      → has s xs ≡ false
      → ((x : ℕ) → prevs d' x ≡ (if x == s then none else if points h x then some s else prevs d x))
      → Back (prevs d') (some s) xs
  pushed-Back h [] c b out eq = tt
  pushed-Back h (y ∷ ys) (f, g, c) (p, b) out eq =
      (rw (eq y, f) (ground arith), Back-frame (some y) ys (λ z i. rw (eq z, f) (ground arith)) b)

  backed_to : Back (prevs d') none (s ∷ a to)
  backed_to = (
    rw (e.prev_eq s) (ground (arith, ==_iff s s)),
    pushed-Back (head d to) (a to) (l.linked to) (l.backed to other) (s_out l s free here to other)
        e.prev_eq,
  )

  backed_other : (q : Place) → same q to ≡ false → same q free ≡ false → Back (prevs d') none (a q)
  backed_other q t f =
      Back-frame none (a q)
        (λ x i.
          rw (e.prev_eq x, apart l s free here q x f i)
            (ground (
              arith,
              points-mem (nexts d) (head d to) x (a to) (l.linked to),
              l.member to x,
              l.member q x,
              same_refl q,
            )))
        (l.backed q f)

  backed : (q : Place) → same q free ≡ false → Back (prevs d') none (move s free to a q)
  backed q f = elim (Bool-cases (same q to)) [
    | inl here ↦ rw (here, eq_of_same q to here) backed_to
    | inr away ↦ rw (away, f) (backed_other q away f)
  ]

  pub Lists-enter : Lists d' (move s free to a)
  Lists-enter = record {
    linked = linked;
    backed = backed;
    member = member-move l s free to d' here other e.place_eq;
    present = present-move l s free to d' here other e.place_eq;
    bounded = bounded-move l s free to d' here other e.place_eq;
    indexed = λ x h. e.idx_eq x ∙ l.indexed x h;
  }
