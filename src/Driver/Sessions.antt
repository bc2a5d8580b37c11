-- ===== src/Driver/Sessions.antt =====
-- What open and release promise: shares that move between the free list, the lists of the channels
-- and that of the BSA device.
use evr_card_g.Base.{
  ℕ, ◌+◌, ◌<◌, ◌≤◌, ◌≡◌, ◌≢◌, refl, sym, true, false, ltb, Option, none, some, List, [], ◌∷◌, ◌==◌,
  if◌then◌else◌, arith, inl, inr, Option-cases,
}
use mathlib.Core.Path.{subst}
use evr_card_g.Bus.{Bus}
use evr_card_g.Driver.Device.{Device, mod_shared, success, error, nth}
use evr_card_g.Driver.Files.{Opened, take_share, open_share, tpr_open}
use evr_card_g.Driver.Lists.{Place, free, channel, bsa, nexts, move, Represents}
use evr_card_g.Driver.Links.{Chain}
use evr_card_g.Driver.Lists.Enter.{Lists-enter}
use evr_card_g.Driver.Opening.{
  opened_channel, opened_bsa, Entered-channel, Entered-bsa, lit-opened_channel, minors-opened_bsa,
}

abbrev pub Clients : Type 0
Clients = Place → List ℕ

-- The list that an open of a minor joins.
abbrev pub place_for : ℕ → Option Place
place_for m =
    if ltb m mod_shared then some (channel m) else if m == mod_shared + 1 then some bsa else none

abbrev pub first_free : List ℕ → Place → Clients → Option (ℕ × Clients)
first_free [] to a = none
first_free (s ∷ rest) to a = some (s, move s free to a)

-- An open as its clients see it: the share that it gives, and who is where then.
abbrev pub client_open : ℕ → Clients → Option (ℕ × Clients)
client_open m a = elim (place_for m) [ none ↦ none | some to ↦ first_free (a free) to a ]

module _ {C : Type 0} where
  -- An answer of the driver that agrees with one of these.
  abbrev pub Answers : Device C → Option (ℕ × Clients) → Opened C → Type 0
  Answers d none r = r ≡ record { status = error; file = none; dev = d }
  Answers d (some (s, a)) r = (r.status ≡ success) × (r.file ≡ some (nth s)) × Represents r.dev a

test_lt : (m n : ℕ) → m < n → ltb m n ≡ true
test_lt m n h = ground arith

test_ge : (m n : ℕ) → n ≤ m → ltb m n ≡ false
test_ge m n h = ground arith

client_open-none : (m : ℕ) (a : Clients) → place_for m ≡ none → client_open m a ≡ none
client_open-none m a p = ground (arith, p)

client_open-some :
    (m : ℕ) (to : Place) (a : Clients)
    → place_for m ≡ some to
    → client_open m a ≡ first_free (a free) to a
client_open-some m to a p = ground (arith, p)

module _ {C : Type 0} (bus : Bus C) where
  Represents-channel :
      (m s : ℕ) (rest : List ℕ) (d : Device C) (a : Clients)
      → Represents d a
      → a free ≡ s ∷ rest
      → m < mod_shared
      → Represents (opened_channel bus m s d) (move s free (channel m) a)
  Represents-channel m s rest d a r first h = record {
    lists = Lists-enter r.lists first refl (Entered-channel bus m s d);
    lit = λ k l. lit-opened_channel bus m s k d a r h l;
    in_range = λ k l. ground (arith, r.in_range k l);
  }

  Represents-bsa :
      (s : ℕ) (rest : List ℕ) (d : Device C) (a : Clients)
      → Represents d a
      → a free ≡ s ∷ rest
      → Represents (opened_bsa s d) (move s free bsa a)
  Represents-bsa s rest d a r first = record {
    lists = Lists-enter r.lists first refl (Entered-bsa s d);
    lit = λ k l. ground (arith, r.lit k l, minors-opened_bsa s d);
    in_range = λ k l. r.in_range k l;
  }

  take-none : (d : Device C) (a : Clients) → Represents d a → a free ≡ [] → take_share d ≡ none
  unfolding take_share
  take-none d a r e = rw (freelist_null) refl
    where
      freelist_null : d.freelist ≡ none
      freelist_null = subst (λ xs. Chain (nexts d) d.freelist xs) e (r.lists.linked free)

  pub take-some :
      (s : ℕ) (rest : List ℕ) (d : Device C) (a : Clients)
      → Represents d a
      → a free ≡ s ∷ rest
      → take_share d ≡ some (s, record d { freelist = (d.all_shares s).next })
  unfolding take_share
  take-some s rest d a r e = rw (freelist_head) refl
    where
      freelist_head : d.freelist ≡ some s
      freelist_head = (subst (λ xs. Chain (nexts d) d.freelist xs) e (r.lists.linked free)).0

  open_share-channel :
      (m s : ℕ) (rest : List ℕ) (d : Device C) (a : Clients)
      → Represents d a
      → a free ≡ s ∷ rest
      → m < mod_shared
      → Answers d (some (s, move s free (channel m) a)) (open_share bus m d)
  unfolding open_share
  open_share-channel m s rest d a r e h =
      rw (open_share, take-some s rest d a r e, test_lt m mod_shared h)
        (refl, refl, Represents-channel m s rest d a r e h)

  open_share-bsa :
      (m s : ℕ) (rest : List ℕ) (d : Device C) (a : Clients)
      → Represents d a
      → a free ≡ s ∷ rest
      → mod_shared ≤ m
      → Answers d (some (s, move s free bsa a)) (open_share bus m d)
  unfolding open_share
  open_share-bsa m s rest d a r e h =
      rw (open_share, take-some s rest d a r e, test_ge m mod_shared h)
        (refl, refl, Represents-bsa s rest d a r e)

  open_share-Answers :
      (m : ℕ) (to : Place) (d : Device C) (a : Clients)
      → Represents d a
      → place_for m ≡ some to
      → (xs : List ℕ) → a free ≡ xs
      → Answers d (first_free xs to a) (open_share bus m d)
  unfolding open_share
  open_share-Answers m to d a r p [] e = rw (open_share, take-none d a r e) refl
  open_share-Answers m free d a r p (s ∷ rest) e = absurd (ground arith)
  open_share-Answers m (channel k) d a r p (s ∷ rest) e =
      subst (λ q. Answers d (some (s, move s free q a)) (open_share bus m d)) (ground (arith, p))
        (open_share-channel m s rest d a r e (ground (arith, p)))
  open_share-Answers m bsa d a r p (s ∷ rest) e =
      open_share-bsa m s rest d a r e (ground (arith, p))

  opens-share :
      (m : ℕ) (to : Place) (d : Device C)
      → place_for m ≡ some to
      → tpr_open bus m d ≡ open_share bus m d
  unfolding tpr_open
  opens-share m to d p = ground (arith, p)

  refuses :
      (m : ℕ) (d : Device C)
      → m ≢ mod_shared
      → place_for m ≡ none
      → tpr_open bus m d ≡ record { status = error; file = none; dev = d }
  unfolding tpr_open
  refuses m d ne p = ground (arith, p)

  -- An open of any device file but the control file answers as its clients see it: it gives them
  -- the first free share and puts that at the front of the minor's list, or is refused and changes
  -- nothing if no share is free or the minor is out of range.
  pub tpr_open-Answers :
      (m : ℕ) (d : Device C) (a : Clients)
      → Represents d a
      → m ≢ mod_shared
      → Answers d (client_open m a) (tpr_open bus m d)
  tpr_open-Answers m d a r ne = elim (Option-cases (place_for m)) [
    | inl p ↦
        subst (λ o. Answers d o (tpr_open bus m d)) (sym (client_open-none m a p))
          (refuses m d ne p)
    | inr (to, p) ↦
        subst (λ o. Answers d o (tpr_open bus m d)) (sym (client_open-some m to a p))
          (subst (λ t. Answers d (first_free (a free) to a) t) (sym (opens-share m to d p))
            (open_share-Answers m to d a r p (a free) refl))
  ]
