-- ===== src/Driver/Race.antt =====
-- An open whose test for the first client is overtaken by the release of the last one: the test
-- and the enabling are not under the lock.
use evr_card_g.Base.{
  ℕ, ◌<◌, ◌≡◌, refl, true, ltb, false, none, some, List, [], ◌∷◌, has, arith, ◌==◌, ==_iff,
}
use mathlib.Core.Path.{subst}
use evr_card_g.Base.Bits.{bit}
use evr_card_g.Bus.{Bus}
use evr_card_g.Driver.Device.{Device, mod_shared, success, nth}
use evr_card_g.Driver.Files.{
  set_parent, enable_minor, link_channel, tpr_release, release_nth, release_share, unlink_channel,
  disable_minor, give_back, tpr_open, open_share,
}
use evr_card_g.Driver.Links.{Chain, Back}
use evr_card_g.Driver.Lists.{free, channel, nexts, prevs, Represents}
use evr_card_g.Driver.Minors.{bit-clear_bit}
use evr_card_g.Driver.Sessions.{Clients, take-some}
use evr_card_g.Regs.Word.{clear_bit}

module _ {C : Type 0} (bus : Bus C) (m s t : ℕ) where
  -- The open of share `t` up to its test, the release of share `s`, the rest of the open.
  unfoldable pub before_link : Device C → Device C
  before_link d = enable_minor bus m (set_parent t (record d { freelist = (d.all_shares t).next }))

  unfoldable pub overtaken : Device C → Device C
  overtaken d = link_channel m t (tpr_release bus (nth s) (before_link d)).1

  module _ (rest : List ℕ) (d : Device C) (a : Clients) (r : Represents d a)
      (only : a (channel m) ≡ s ∷ []) (first : a free ≡ t ∷ rest) where
    Chain-s : Chain (nexts d) (d.shared m) (s ∷ [])
    Chain-s = subst (λ xs. Chain (nexts d) (d.shared m) xs) only (r.lists.linked (channel m))

    Back-s : Back (prevs d) none (s ∷ [])
    Back-s = subst (λ xs. Back (prevs d) none xs) only (r.lists.backed (channel m) refl)

    s_in : has s (a (channel m)) ≡ true
    s_in = rw (only) (ground (arith, ==_iff s s))

    t_in : has t (a free) ≡ true
    t_in = rw (first) (ground (arith, ==_iff t t))

    apart : (s == t) ≡ false
    apart =
        ground (arith, r.lists.member (channel m) s s_in, r.lists.member free t t_in, ==_iff s t)

    minors-overtaken : (overtaken d).minors ≡ clear_bit m d.minors
    unfolding overtaken before_link enable_minor link_channel tpr_release release_nth release_share
        unlink_channel disable_minor give_back
    minors-overtaken = ground (
      arith,
      Chain-s.0,
      Chain-s.2,
      Back-s.0,
      apart,
      r.lists.member (channel m) s s_in,
      r.lists.indexed s (r.lists.bounded (channel m) s s_in),
    )

    -- The open of a minor, in the parts that the release comes between.
    tpr_open-parts :
        m < mod_shared
        → tpr_open bus m d
          ≡ record { status = success; file = some (nth t); dev = link_channel m t (before_link d) }
    unfolding tpr_open open_share before_link
    tpr_open-parts h =
        let low : ltb m mod_shared ≡ true = ground arith in
        let taken = take-some bus t rest d a r first in ground (arith, low, taken)

    -- An open of a minor below 14, whose only client is `s`, takes the first free share `t`. If it
    -- is not interrupted it is `before_link` and then `link_channel`. If the release of `s` comes
    -- between the two, which the driver's lock allows, then `t` is the head of the minor's list, and
    -- the bit of the minor is 0: the new client has a minor that is disabled.
    pub overtaken-disabled :
        m < mod_shared
        → (tpr_open bus m d ≡ record {
          status = success;
          file = some (nth t);
          dev = link_channel m t (before_link d);
        })
          × ((overtaken d).shared m ≡ some t)
          × (bit m (overtaken d).minors ≡ 0)
    unfolding overtaken link_channel
    overtaken-disabled h = (
      tpr_open-parts h,
      ground arith,
      rw (minors-overtaken) (ground (arith, bit-clear_bit m m d.minors h h)),
    )
