-- ===== src/Driver/Reach.antt =====
-- The devices that opens and releases lead to, one after the other.
use evr_card_g.Base.{
  ℕ, ◌<◌, ◌≤◌, ◌≡◌, ◌≢◌, ◌↔◌, refl, sym, pos, negsuc, Bool, true, false, Option, none, some, List,
  [], ◌∷◌, has, is_empty, arith, ==_iff, inl, inr, Bool-cases, ℤ,
}
use mathlib.Core.Path.{subst}
use evr_card_g.Base.Bits.{bit}
use evr_card_g.Bus.{Bus}
use evr_card_g.Driver.Device.{Device, Queues, mod_shared, open_shares, success, error, nth}
use evr_card_g.Driver.Files.{Opened, tpr_open, tpr_release}
use evr_card_g.Driver.Probe.{Kernel, tpr_probe}
use evr_card_g.Driver.Fresh.{all_free, tpr_probe-Represents}
use evr_card_g.Driver.Links.{has-not_empty}
use evr_card_g.Driver.Lists.{free, channel, same, place, place_of, move, Represents}
use evr_card_g.Driver.Sessions.{Clients, Answers, client_open, tpr_open-Answers}
use evr_card_g.Driver.Releases.{tpr_release-Represents}

not_open : (o : Bool) (z : ℤ) → same (place_of o z) free ≡ true → o ≡ false
not_open false z e = refl
not_open true (pos k) e = cc
not_open true (negsuc k) e = cc

on_channel : (o : Bool) (z : ℤ) (m : ℕ) → place_of o z ≡ channel m → (o ≡ true) × (z ≡ pos m)
on_channel false z m e = absurd (ground (arith, e))
on_channel true (pos k) m e = (refl, ground (arith, e))
on_channel true (negsuc k) m e = absurd (ground (arith, e))

at_channel : (o : Bool) (z : ℤ) (m : ℕ) → o ≡ true → z ≡ pos m → place_of o z ≡ channel m
at_channel o z m e f = rw (e, f) refl

first_of : (xs : List ℕ) → is_empty xs ≡ false → (x : ℕ) × (has x xs ≡ true)
first_of [] e = cc
first_of (x ∷ xs) e = (x, ground (arith, ==_iff x x))

module _ {C : Type 0} (bus : Bus C) where
  pub data Reach : Device C → Type 0 where
    probed :
        (k : Kernel) (queues : Queues) (d : Device C)
        → ((m : ℕ) → mod_shared ≤ m → d.shared m ≡ none)
        → (tpr_probe bus k queues d).0 ≡ success
        → Reach (tpr_probe bus k queues d).1
    opened : {d : Device C} (m : ℕ) → m ≢ mod_shared → Reach d → Reach (tpr_open bus m d).dev
    released :
        {d : Device C} (s : ℕ) → s < open_shares → Reach d → Reach (tpr_release bus (nth s) d).1

  answered :
      (d : Device C) (o : Option (ℕ × Clients)) (r : Opened C) (a : Clients)
      → Represents d a
      → Answers d o r
      → (a' : Clients) × Represents r.dev a'
  answered d none r a rep ans = (a, subst (λ t. Represents t.dev a) (sym ans) rep)
  answered d (some (s, a')) r a rep ans = (a', ans.2)

  release-refused :
      (s : ℕ) (d : Device C)
      → same (place (d.all_shares s)) free ≡ true
      → tpr_release bus (nth s) d ≡ (error, d)
  unfolding tpr_release
  release-refused s d e = ground (arith, not_open (d.all_shares s).opened (d.all_shares s).minor e)

  -- Each device that a probe, opens and releases lead to has the lists that its shares name.
  pub Reach-Represents : {d : Device C} → Reach d → (a : Clients) × Represents d a
  Reach-Represents (probed k queues d outside e) =
      (all_free, tpr_probe-Represents bus k queues d outside e)
  Reach-Represents (opened {d} m ne r) =
      let (a, rep) = Reach-Represents r in
      answered d (client_open m a) (tpr_open bus m d) a rep (tpr_open-Answers bus m d a rep ne)
  Reach-Represents (released {d} s h r) =
      let (a, rep) = Reach-Represents r in
      let q = place (d.all_shares s) in
      elim (Bool-cases (same q free)) [
        | inl at ↦ (a, subst (λ t. Represents t.1 a) (sym (release-refused s d at)) rep)
        | inr used ↦ (
          move s q free a,
          (tpr_release-Represents bus s d a rep q used (rep.lists.present s h)).1,
        )
      ]

  -- After a probe and any sequence of opens and releases, a channel is enabled in `minors` exactly
  -- if one of the shares is open on it.
  pub Reach-enabled :
      {d : Device C} (m : ℕ)
      → Reach d
      → m < mod_shared
      → (bit m d.minors ≡ 1) ↔ (
          (s : ℕ) × (s < open_shares)
          × ((d.all_shares s).opened ≡ true)
          × ((d.all_shares s).minor ≡ pos m))
  Reach-enabled {d} m r h =
      let (a, rep) = Reach-Represents r in
      (
        (λ e.
            let (s, i) = first_of (a (channel m)) (ground (arith, rep.lit m h)) in
            let (o, z) =
              on_channel (d.all_shares s).opened (d.all_shares s).minor m
                (rep.lists.member (channel m) s i) in
            (s, rep.lists.bounded (channel m) s i, o, z)),
        (λ (s, below, o, z).
            let i =
              subst (λ q. has s (a q) ≡ true)
                (at_channel (d.all_shares s).opened (d.all_shares s).minor m o z)
                (rep.lists.present s below) in
            ground (arith, rep.lit m h, has-not_empty s (a (channel m)) i)),
      )
