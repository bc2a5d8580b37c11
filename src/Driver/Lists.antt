-- ===== src/Driver/Lists.antt =====
-- What the pointers of the shares stand for: a list of shares for each channel, one for the BSA
-- clients, and the free list.
pub mod Move
pub mod Enter
pub mod Leave
use evr_card_g.Base.{
  ℕ, ◌<◌, ◌≤◌, is_empty, ◌≡◌, ◌≢◌, refl, pos, negsuc, ℤ, Bool, true, false, Option, none, some,
  List, [], ◌∷◌, has, remove, ◌==◌, if◌then◌else◌, arith, ◌⊎◌, inl, inr, Bool-cases, ==_iff, ap,
}
use evr_card_g.Driver.Device.{Share, Device, mod_shared, open_shares}
use evr_card_g.Base.Bits.{bit}
use evr_card_g.Driver.Links.{Chain, Back}

pub data Place : Type 0 where
  free : Place
  channel : ℕ → Place
  bsa : Place

abbrev pub same : Place → Place → Bool
same free free = true
same free (channel m) = false
same free bsa = false
same (channel k) free = false
same (channel k) (channel m) = k == m
same (channel k) bsa = false
same bsa free = false
same bsa (channel m) = false
same bsa bsa = true

pub eq_of_same : (q r : Place) → same q r ≡ true → q ≡ r
eq_of_same free free e = refl
eq_of_same free (channel m) e = cc
eq_of_same free bsa e = cc
eq_of_same (channel k) free e = cc
eq_of_same (channel k) (channel m) e = ap channel ((==_iff k m).0 e)
eq_of_same (channel k) bsa e = cc
eq_of_same bsa free e = cc
eq_of_same bsa (channel m) e = cc
eq_of_same bsa bsa e = refl

pub same_refl : (q : Place) → same q q ≡ true
same_refl free = refl
same_refl (channel m) = (==_iff m m).1 refl
same_refl bsa = refl

-- Where a share is, by its own fields.
abbrev pub place_of : Bool → ℤ → Place
place_of false m = free
place_of true (pos m) = channel m
place_of true (negsuc n) = bsa

abbrev pub place : Share → Place
place s = place_of s.opened s.minor

module _ {C : Type 0} where
  abbrev pub nexts : Device C → ℕ → Option ℕ
  nexts d x = (d.all_shares x).next

  abbrev pub prevs : Device C → ℕ → Option ℕ
  prevs d x = (d.all_shares x).prev

  abbrev pub head : Device C → Place → Option ℕ
  head d free = d.freelist
  head d (channel m) = d.shared m
  head d bsa = d.bsa

-- A share that changes its place.
abbrev pub move : ℕ → Place → Place → (Place → List ℕ) → Place → List ℕ
move s from to a q = if same q to then s ∷ a q else if same q from then remove s (a q) else a q

-- The lists `a` are what the pointers of the device lead through, and they have each share once, at
-- the place that its fields name.
pub record Lists {C : Type 0} (d : Device C) (a : Place → List ℕ) : Type 0 where
  pub linked : (q : Place) → Chain (nexts d) (head d q) (a q)
  pub backed : (q : Place) → same q free ≡ false → Back (prevs d) none (a q)
  pub member : (q : Place) (x : ℕ) → has x (a q) ≡ true → place (d.all_shares x) ≡ q
  pub present : (x : ℕ) → x < open_shares → has x (a (place (d.all_shares x))) ≡ true
  pub bounded : (q : Place) (x : ℕ) → has x (a q) ≡ true → x < open_shares
  pub indexed : (x : ℕ) → x < open_shares → (d.all_shares x).idx ≡ pos x

-- And a channel is noted in `minors` just when it has a client.
pub record Represents {C : Type 0} (d : Device C) (a : Place → List ℕ) : Type 0 where
  pub lists : Lists d a
  pub lit : (m : ℕ) → m < mod_shared → bit m d.minors ≡ (if is_empty (a (channel m)) then 0 else 1)
  pub in_range : (m : ℕ) → mod_shared ≤ m → a (channel m) ≡ []
