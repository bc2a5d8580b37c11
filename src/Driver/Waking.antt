-- ===== src/Driver/Waking.antt =====
-- Which clients a receive wakes.
use evr_card_g.Base.{
  ℕ, zero, suc, ◌+◌, ◌<◌, ◌≡◌, refl, ◌∙◌, Bool, true, false, Option, some, List, [], ◌∷◌, length,
  has, update, leb, ◌&&◌, ◌||◌, arith, Bool-cases, inl, inr, ==_iff, ltb, not,
}
use mathlib.Core.Path.{subst}
use evr_card_g.Regs.Word.{test_bit}
use evr_card_g.Driver.Device.{Share, Device, mod_shared, open_shares}
use evr_card_g.Driver.Dma.{wake_list, wake_channels, wake_apps}
use evr_card_g.Driver.Links.{Chain, Chain-frame}
use evr_card_g.Driver.Lists.{
  Place, free, channel, bsa, same, same_refl, eq_of_same, place, nexts, head, Lists,
}
use evr_card_g.Driver.Sessions.{Clients}

abbrev links : (ℕ → Share) → ℕ → Option ℕ
links sh x = (sh x).next

-- The shares with the bits of a list of them set.
pub record Woken (sh sh' : ℕ → Share) (woken : ℕ → Bool) : Type 0 where
  pub pending : (x : ℕ) → (sh' x).pendingirq ≡ ((sh x).pendingirq || woken x)
  pub same_next : (x : ℕ) → (sh' x).next ≡ (sh x).next

wake_list-Woken :
    (n : ℕ) (h : Option ℕ) (xs : List ℕ) (sh : ℕ → Share)
    → Chain (links sh) h xs
    → length xs < n
    → (sh' : ℕ → Share) × (wake_list n h sh ≡ some sh') × Woken sh sh' (λ x. has x xs)
unfolding wake_list
wake_list-Woken zero h xs sh c l = absurd (omega arith)
wake_list-Woken (suc n) h [] sh c l =
    (sh, rw (c) refl, record { pending = λ x. ground arith; same_next = λ x. refl })
wake_list-Woken (suc n) h (x ∷ xs) sh (e, out, c) l =
    let sh1 = update sh x (record (sh x) { pendingirq = true }) in
    let c1 : Chain (links sh1) (links sh1 x) xs =
      subst (λ g. Chain (links sh1) g xs) (ground (arith, ==_iff x x))
        (Chain-frame (links sh x) xs (λ y i. ground arith) c) in
    let (sh', f, w) = wake_list-Woken n (links sh1 x) xs sh1 c1 (omega arith) in
    (
      sh',
      rw (e) f,
      record {
        pending = λ y. w.pending y ∙ ground (arith, ==_iff y x);
        same_next = λ y. w.same_next y ∙ ground (arith, ==_iff y x);
      },
    )

-- The places whose bit is among `n` bits of the mask from `ich` on.
abbrev within : ℕ → ℕ → ℕ → Place → Bool
within n ich wmask free = false
within n ich wmask (channel m) = leb ich m && (ltb m (ich + n) && test_bit m wmask)
within n ich wmask bsa = false

-- Whom a mask of messages is for: bit `m` for the clients of channel `m`, bit 15 for BSA.
abbrev pub for_place : ℕ → Place → Bool
for_place wmask free = false
for_place wmask (channel m) = ltb m mod_shared && test_bit m wmask
for_place wmask bsa = test_bit (mod_shared + 1) wmask

within-zero : (ich wmask : ℕ) (q : Place) → within 0 ich wmask q ≡ false
within-zero ich wmask free = refl
within-zero ich wmask (channel m) = ground arith
within-zero ich wmask bsa = refl

within-on :
    (n ich wmask : ℕ) (q : Place)
    → test_bit ich wmask ≡ true
    → within (suc n) ich wmask q ≡ (same (channel ich) q || within n (ich + 1) wmask q)
within-on n ich wmask free e = refl
within-on n ich wmask (channel m) e = ground (arith, ==_iff ich m)
within-on n ich wmask bsa e = refl

within-off :
    (n ich wmask : ℕ) (q : Place)
    → test_bit ich wmask ≡ false
    → within (suc n) ich wmask q ≡ within n (ich + 1) wmask q
within-off n ich wmask free e = refl
within-off n ich wmask (channel m) e = ground (arith, ==_iff ich m)
within-off n ich wmask bsa e = refl

within-channels :
    (wmask : ℕ) (q : Place) → within mod_shared 0 wmask q ≡ (for_place wmask q && not (same bsa q))
within-channels wmask free = refl
within-channels wmask (channel m) = ground arith
within-channels wmask bsa = ground arith

bsa_on :
    (wmask : ℕ) (q : Place)
    → test_bit (mod_shared + 1) wmask ≡ true
    → same bsa q ≡ (for_place wmask q && same bsa q)
bsa_on wmask free e = refl
bsa_on wmask (channel m) e = ground arith
bsa_on wmask bsa e = rw (e) refl

bsa_off :
    (wmask : ℕ) (q : Place)
    → test_bit (mod_shared + 1) wmask ≡ false
    → (for_place wmask q && same bsa q) ≡ false
bsa_off wmask free e = refl
bsa_off wmask (channel m) e = ground arith
bsa_off wmask bsa e = rw (e) refl

module _ {C : Type 0} {d : Device C} {a : Clients} (r : Lists d a) (fuel wmask : ℕ)
    (enough : (q : Place) → length (a q) < fuel) where
  has-place : (q : Place) (x : ℕ) → x < open_shares → has x (a q) ≡ same q (place (d.all_shares x))
  has-place q x h =
      ground
        (arith, r.member q x, r.present x h, same_refl q, eq_of_same q (place (d.all_shares x)))

  abbrev Marked : (ℕ → Share) → (ℕ → Share) → (Place → Bool) → Type 0
  Marked sh sh' select =
      ((x : ℕ)
        → x < open_shares
        → (sh' x).pendingirq ≡ ((sh x).pendingirq || select (place (d.all_shares x))))
      × ((x : ℕ) → (sh' x).next ≡ nexts d x)

  wake_one :
      (q : Place) (sh : ℕ → Share)
      → ((x : ℕ) → (sh x).next ≡ nexts d x)
      → (sh' : ℕ → Share) × (wake_list fuel (head d q) sh ≡ some sh') × Marked sh sh' (same q)
  wake_one q sh e =
      let (sh', f, w) =
        wake_list-Woken fuel (head d q) (a q) sh
          (Chain-frame (head d q) (a q) (λ x i. e x) (r.linked q)) (enough q) in
      (sh', f, ((λ x h. w.pending x ∙ rw (has-place q x h) refl), (λ x. w.same_next x ∙ e x)))

  wake_channels-Marked :
      (n ich : ℕ) (sh : ℕ → Share)
      → ((x : ℕ) → (sh x).next ≡ nexts d x)
      → (sh' : ℕ → Share) × (wake_channels fuel n ich wmask d.shared sh ≡ some sh')
        × Marked sh sh' (within n ich wmask)
  unfolding wake_channels
  wake_channels-Marked zero ich sh e =
      (sh, refl, ((λ x h. ground (arith, within-zero ich wmask (place (d.all_shares x)))), e))
  wake_channels-Marked (suc n) ich sh e = elim (Bool-cases (test_bit ich wmask)) [
    | inl on ↦
        let (sh1, f1, (p1, e1)) = wake_one (channel ich) sh e in
        let (sh2, f2, (p2, e2)) = wake_channels-Marked n (ich + 1) sh1 e1 in
        (
          sh2,
          rw (wake_channels, on, f1) f2,
          (
            (λ x h.
                ground (arith, p1 x h, p2 x h, within-on n ich wmask (place (d.all_shares x)) on)),
            e2,
          ),
        )
    | inr off ↦
        let (sh2, f2, (p2, e2)) = wake_channels-Marked n (ich + 1) sh e in
        (
          sh2,
          rw (wake_channels, off) f2,
          (
            (λ x h. ground (arith, p2 x h, within-off n ich wmask (place (d.all_shares x)) off)),
            e2,
          ),
        )
  ]

  -- The waking of the clients ends, if the fuel exceeds each list, and it sets the bit of a share
  -- just if the mask names the channel that the share is open on, or BSA. The queues stay as they are.
  pub wake_apps-Woken :
      (x : ℕ)
      → x < open_shares
      → (d' : Device C) × (wake_apps fuel wmask d ≡ some d')
        × ((d'.all_shares x).pendingirq
            ≡ ((d.all_shares x).pendingirq || for_place wmask (place (d.all_shares x))))
        × (d'.queues ≡ d.queues)
  unfolding wake_apps
  wake_apps-Woken x h =
      let (sh1, f1, (p1, e1)) = wake_channels-Marked mod_shared 0 d.all_shares (λ x. refl) in
      let (sh2, f2, (p2, e2)) = wake_one bsa sh1 e1 in
      let channels = within-channels wmask (place (d.all_shares x)) in
      elim (Bool-cases (test_bit (mod_shared + 1) wmask)) [
        | inl on ↦ (
          record d { all_shares = sh2 },
          rw (wake_apps, f1, on, f2) refl,
          ground (arith, p1 x h, p2 x h, channels, bsa_on wmask (place (d.all_shares x)) on),
          refl,
        )
        | inr off ↦ (
          record d { all_shares = sh1 },
          rw (wake_apps, f1, off) refl,
          ground (arith, p1 x h, channels, bsa_off wmask (place (d.all_shares x)) off),
          refl,
        )
      ]
