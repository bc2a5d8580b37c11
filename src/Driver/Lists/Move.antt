-- ===== src/Driver/Lists/Move.antt =====
-- Who is in which list after a share changed its place.
use evr_card_g.Base.{
  ℕ, ◌<◌, ◌≡◌, sym, true, false, List, has, ◌==◌, if◌then◌else◌, arith, inl, inr, Bool-cases, ◌∙◌,
  ==_iff,
}
use evr_card_g.Driver.Device.{Device, open_shares}
use evr_card_g.Driver.Links.{has-remove_ne, has-remove_self}
use evr_card_g.Driver.Lists.{Place, same, eq_of_same, same_refl, place, nexts, head, move, Lists}

module _ {C : Type 0} {d : Device C} {a : Place → List ℕ} (l : Lists d a) (s : ℕ) (from : Place)
    (here : has s (a from) ≡ true) where
  pub s_out : (q : Place) → same q from ≡ false → has s (a q) ≡ false
  s_out q f = ground (arith, l.member q s, l.member from s here, same_refl q)

  pub apart : (q : Place) (x : ℕ) → same q from ≡ false → has x (a q) ≡ true → (x == s) ≡ false
  apart q x f i = ground (arith, l.member q x i, l.member from s here, same_refl q, ==_iff x s)

  has-move :
      (to : Place)
      → same to from ≡ false
      → (q : Place) (x : ℕ)
      → has x (move s from to a q) ≡ (if x == s then same q to else has x (a q))
  has-move to other q x = elim (Bool-cases (same q to)) [
    | inl into ↦ rw (into) (ground arith)
    | inr away ↦ elim (Bool-cases (same q from)) [
      | inl out ↦
          rw (away, out)
            (ground (
              arith,
              has-remove_ne x s (a q),
              has-remove_self (nexts d) (head d q) x (a q) (l.linked q),
              ==_iff x s,
            ))
      | inr apart ↦ rw (away, apart) (ground (arith, s_out q apart, ==_iff x s))
    ]
  ]

module _ {C : Type 0} {d : Device C} {a : Place → List ℕ} (l : Lists d a) (s : ℕ) (from to : Place)
    (d' : Device C) (here : has s (a from) ≡ true) (other : same to from ≡ false)
    (place_eq : (x : ℕ)
      → place (d'.all_shares x) ≡ (if x == s then to else place (d.all_shares x))) where
  pub member-move :
      (q : Place) (x : ℕ) → has x (move s from to a q) ≡ true → place (d'.all_shares x) ≡ q
  member-move q x i =
      let j = sym (has-move l s from here to other q x) ∙ i in
      rw (place_eq x) (ground (arith, j, l.member q x, eq_of_same q to))

  pub present-move :
      (x : ℕ) → x < open_shares → has x (move s from to a (place (d'.all_shares x))) ≡ true
  present-move x h =
      has-move l s from here to other (place (d'.all_shares x)) x
      ∙ rw (place_eq x) (ground (arith, l.present x h, same_refl to))

  pub bounded-move : (q : Place) (x : ℕ) → has x (move s from to a q) ≡ true → x < open_shares
  bounded-move q x i =
      let j = sym (has-move l s from here to other q x) ∙ i in
      ground (arith, j, l.bounded q x, l.bounded from s here, ==_iff x s)
