-- ===== src/Driver/Releases.antt =====
-- What a release promises.
use evr_card_g.Base.{ℕ, ◌<◌, ◌≡◌, refl, ℤ, Bool, true, false, has, arith}
use evr_card_g.Bus.{Bus}
use evr_card_g.Driver.Device.{Device, mod_shared, success, nth}
use evr_card_g.Driver.Files.{tpr_release, release_nth, release_share}
use evr_card_g.Driver.Lists.{Place, free, channel, bsa, same, place_of, move, Represents}
use evr_card_g.Driver.Lists.Leave.{Lists-leave}
use evr_card_g.Driver.Closing.{
  closed_channel, closed_bsa, Left-closed_channel, Left-closed_bsa, Apart-Lists, lit-closed_channel,
  minors-closed_bsa,
}
use evr_card_g.Driver.Sessions.{Clients}

-- A share's fields, from its place.
opened_of_place : (o : Bool) (m : ℤ) (q : Place) → place_of o m ≡ q → same q free ≡ false → o ≡ true
opened_of_place true m q e f = refl
opened_of_place false m q e f = ground (arith, e)

module _ {C : Type 0} (bus : Bus C) (s : ℕ) (d : Device C) (a : Clients) (r : Represents d a) where
  release-channel :
      (m : ℕ)
      → has s (a (channel m)) ≡ true
      → tpr_release bus (nth s) d ≡ (success, closed_channel bus m s d)
  unfolding tpr_release release_nth release_share
  release-channel m i =
      ground
        (arith, r.lists.member (channel m) s i, r.lists.indexed s (r.lists.bounded (channel m) s i))

  release-bsa : has s (a bsa) ≡ true → tpr_release bus (nth s) d ≡ (success, closed_bsa s d)
  unfolding tpr_release release_nth release_share
  release-bsa i =
      ground (arith, r.lists.member bsa s i, r.lists.indexed s (r.lists.bounded bsa s i))

  channel_below : (m : ℕ) → has s (a (channel m)) ≡ true → m < mod_shared
  channel_below m i = ground (arith, r.in_range m)

  Represents-closed_channel :
      (m : ℕ)
      → has s (a (channel m)) ≡ true
      → Represents (closed_channel bus m s d) (move s (channel m) free a)
  Represents-closed_channel m i =
      let l =
        Lists-leave r.lists i refl (Left-closed_channel bus m s d (Apart-Lists r.lists i refl)) in
      record {
        lists = l;
        lit = λ k h. lit-closed_channel bus m s d a k r l i (channel_below m i) h;
        in_range = λ k h. ground (arith, channel_below m i, r.in_range k h);
      }

  Represents-closed_bsa : has s (a bsa) ≡ true → Represents (closed_bsa s d) (move s bsa free a)
  Represents-closed_bsa i = record {
    lists = Lists-leave r.lists i refl (Left-closed_bsa s d (Apart-Lists r.lists i refl));
    lit = λ k h. ground (arith, r.lit k h, minors-closed_bsa s d);
    in_range = λ k h. r.in_range k h;
  }

  -- A release of a share that is in use succeeds, takes it out of its list wherever it stands
  -- there, leaves the order of the others, and puts it at the front of the free list.
  pub tpr_release-Represents :
      (q : Place)
      → same q free ≡ false
      → has s (a q) ≡ true
      → let (status, d') = tpr_release bus (nth s) d in
        (status ≡ success) × Represents d' (move s q free a)
  tpr_release-Represents free f i = cc
  tpr_release-Represents (channel m) f i =
      rw (release-channel m i) (refl, Represents-closed_channel m i)
  tpr_release-Represents bsa f i = rw (release-bsa i) (refl, Represents-closed_bsa i)
