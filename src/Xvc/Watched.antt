-- ===== src/Xvc/Watched.antt =====
-- The descriptors that the server watches.
use evr_card_g.Base.{
  ℕ, zero, suc, ◌+◌, ◌≤◌, ◌<◌, ◌≡◌, refl, arith, true, false, List, [], ◌∷◌, ◌++◌, Option, none,
  some, map, update, ltb, ◌==◌, ==_iff, Bool-cases, inl, inr, ◌⊎◌,
}
use evr_card_g.Base.Outcome.{undefined}
use evr_card_g.Base.Run.{done}
use evr_card_g.Bus.{Bus}
use evr_card_g.Xvc.Socket.{Link}
use evr_card_g.Xvc.Serve.{Server}
use evr_card_g.Xvc.Shift.{shift_word}
use evr_card_g.Xvc.Clocks.{Counts}
use evr_card_g.Xvc.Finite.{IsFinite}
use evr_card_g.Xvc.Ends.{handle_data-Ends}
use evr_card_g.Xvc.Clients.{
  Clients, Ready, after_call, Visit, next, leaves, forget, accept_client, kept_or_forgotten,
  serve_client, visit, visit_all, serve_clients,
}

module _ {S : Type 0} (left : S → ℕ) (commands bound : ℕ) where
  -- A descriptor that `accept` gives is below the bound, and its client will send fewer bytes than
  -- `commands`.
  abbrev pub Fits : Option (ℕ × S) → Type 0
  Fits none = Unit {0}
  Fits (some (newfd, sock)) = (newfd < bound) × (left sock < commands)

  abbrev pub AllFit : List (Ready S) → Type 0
  AllFit [] = Unit {0}
  AllFit (ready ∷ rounds) = Fits ready.accepted × AllFit rounds

updated :
    {S : Type 0} (left : S → ℕ) (commands : ℕ) (f : ℕ → S) (i : ℕ) (s : S)
    → ((k : ℕ) → left (f k) < commands)
    → left s < commands
    → (k : ℕ) → left (update f i s k) < commands
updated left commands f i s q l k = elim (Bool-cases (k == i)) [
  | inl e ↦ rw e l
  | inr e ↦ rw e (q k)
]

module _ {S : Type 0} (left : S → ℕ) (commands bound : ℕ) {C : Type 0} where
  -- `maxfd` is below a bound, and every watched descriptor is at most `maxfd`. Each client will send
  -- fewer bytes than `commands`.
  abbrev pub Watched : Clients S C → Type 0
  Watched h =
      (h.maxfd < bound)
      × ((fd : ℕ) → h.conn fd ≡ true → fd ≤ h.maxfd)
      × ((fd : ℕ) → left (h.socks fd) < commands)

  forget-Watched : (fd : ℕ) (h : Clients S C) → Watched h → Watched (forget fd h)
  unfolding forget
  forget-Watched fd h (b, w, q) = (b, (λ k e. w k (ground (e, arith))), q)

  accept_client-Watched :
      (a : Option (ℕ × S)) (h : Clients S C)
      → Fits left commands bound a
      → Watched h
      → Watched (accept_client a h)
  unfolding accept_client
  accept_client-Watched none h fits w = w
  accept_client-Watched (some (newfd, sock)) h (fits, few) (b, w, q) =
      elim (Bool-cases (ltb h.maxfd newfd)) [
        | inl l ↦ rw l (
          fits,
          (λ k e. ground (arith, ==_iff k newfd, w k, e, l)),
          updated left commands h.socks newfd sock q few,
        )
        | inr l ↦ rw l (
          b,
          (λ k e. ground (arith, ==_iff k newfd, w k, e, l)),
          updated left commands h.socks newfd sock q few,
        )
      ]

  kept_or_forgotten-Watched :
      (fd : ℕ) (h : Clients S C) (r : ℕ × Server S C)
      → left r.1.sock ≤ left (h.socks fd)
      → Watched h
      → Watched (kept_or_forgotten fd h r)
  unfolding kept_or_forgotten
  kept_or_forgotten-Watched fd h (status, v) less (b, w, q) =
      let few : left v.sock < commands = omega (arith, less, q fd) in
      let kept : Watched (after_call fd v h) =
        (b, w, updated left commands h.socks fd v.sock q few) in
      elim (Bool-cases (status == 0)) [
        | inl z ↦ rw z kept
        | inr z ↦ rw z (forget-Watched fd (after_call fd v h) kept)
      ]

-- What a visit leaves, whether the pass goes on or not.
abbrev left_by : {S C : Type 0} → Visit S C → Clients S C
left_by (next h) = h
left_by (leaves h) = h

module _ {S C : Type 0} (link : Link S) (left : S → ℕ) (finite : IsFinite link left) (bus : Bus C)
    (polls : ℕ) (clocks : C → ℕ) (counts : Counts clocks (shift_word bus polls))
    (commands listener bound : ℕ) where
  abbrev Visits : Ready S → ℕ → Clients S C → Type 0
  Visits ready fd h =
      (v : Visit S C) × (visit link bus polls commands listener ready fd h ≡ done v)
      × Watched left commands bound (left_by v)

  visit-Watched :
      (ready : Ready S) (fd : ℕ) (h : Clients S C)
      → Fits left commands bound ready.accepted
      → Watched left commands bound h
      → Visits ready fd h ⊎ (visit link bus polls commands listener ready fd h ≡ some undefined)
  unfolding visit serve_client
  visit-Watched ready fd h fits w =
      let v : Server S C = record { sock = h.socks fd; card = h.card; replay = h.replay } in
      elim (Bool-cases (ready.readable fd)) [
        | inl a ↦ elim (Bool-cases (fd == listener)) [
          | inl b ↦ inl (
            next (accept_client ready.accepted h),
            rw (a, b) refl,
            accept_client-Watched left commands bound ready.accepted h fits w,
          )
          | inr b ↦
              elim (handle_data-Ends link left finite bus polls clocks counts commands v (w.2 fd)) [
                | inl (r, answered, less) ↦ inl (
                  next (kept_or_forgotten fd h r),
                  rw (a, b, answered) refl,
                  kept_or_forgotten-Watched left commands bound fd h r less w,
                )
                | inr fault ↦ inr (rw (a, b, fault) refl)
              ]
        ]
        | inr a ↦ elim (Bool-cases (ready.excepted fd)) [
          | inl c ↦ elim (Bool-cases (fd == listener)) [
            | inl b ↦
                inl (
                  leaves (forget fd h),
                  rw (a, b, c) refl,
                  forget-Watched left commands bound fd h w,
                )
            | inr b ↦
                inl
                  (next (forget fd h), rw (a, b, c) refl, forget-Watched left commands bound fd h w)
          ]
          | inr c ↦ inl (next h, rw (a, c) refl, w)
        ]
      ]

  -- A pass from a descriptor on that comes to an end and keeps the invariant, or meets a fault.
  abbrev Passes : ℕ → Ready S → ℕ → Clients S C → Type 0
  Passes n ready fd h =
      ((h' : Clients S C) × (visit_all link bus polls commands listener n ready fd h ≡ done h')
        × Watched left commands bound h')
      ⊎ (visit_all link bus polls commands listener n ready fd h ≡ some undefined)

  visited-Passes :
      (n : ℕ) (ready : Ready S) (fd : ℕ) (h : Clients S C) (v : Visit S C)
      → ltb h.maxfd fd ≡ false
      → visit link bus polls commands listener ready fd h ≡ done v
      → Watched left commands bound (left_by v)
      → ((h₁ : Clients S C) → Watched left commands bound h₁ → Passes n ready (fd + 1) h₁)
      → Passes (suc n) ready fd h
  unfolding visit_all
  visited-Passes n ready fd h (leaves h₁) on e w later = inl (h₁, rw (on, e) refl, w)
  visited-Passes n ready fd h (next h₁) on e w later = elim (later h₁ w) [
    | inl (h', e', w') ↦ inl (h', rw (on, e) e', w')
    | inr fault ↦ inr (rw (on, e) fault)
  ]

  visit_all-Passes :
      (n : ℕ) (ready : Ready S) (fd : ℕ) (h : Clients S C)
      → Fits left commands bound ready.accepted
      → fd ≤ bound
      → bound < fd + n
      → Watched left commands bound h
      → Passes n ready fd h
  unfolding visit_all
  visit_all-Passes zero ready fd h fits l enough w =
      let no : bound < 0 = omega (arith, l, enough) in elim no [ ]
  visit_all-Passes (suc n) ready fd h fits l enough w = elim (Bool-cases (ltb h.maxfd fd)) [
    | inl over ↦ inl (h, rw over refl, w)
    | inr on ↦
        let small : fd < bound = ground (arith, on, w.0) in
        elim (visit-Watched ready fd h fits w) [
          | inr fault ↦ inr (rw (on, fault) refl)
          | inl (v, visited, w₁) ↦ visited-Passes n ready fd h v on visited w₁ (λ h₁ kept.
              visit_all-Passes n ready (fd + 1) h₁ fits (omega (arith, small))
                (omega (arith, enough)) kept)
        ]
  ]

  -- On a card that ends each shift, with descriptors below a bound, and clients that will each send
  -- fewer bytes than a call of `handle_data` has rounds, the loop comes through each pass over the
  -- descriptors up to the first error of `select`, or a request meets a fault of `handle_data`. At
  -- that error each watched descriptor is at most `maxfd`, which is below the bound.
  pub serve_clients-Watched :
      (rounds : List (Ready S)) (later : List (Option (Ready S))) (h : Clients S C)
      → AllFit left commands bound rounds
      → Watched left commands bound h
      → ((h' : Clients S C) × (serve_clients link bus polls commands listener
              (suc bound)
              (map some rounds ++ none ∷ later)
              h
            ≡ done h')
          × Watched left commands bound h')
        ⊎ (serve_clients link bus polls commands listener
              (suc bound)
              (map some rounds ++ none ∷ later)
              h
            ≡ some undefined)
  unfolding serve_clients
  serve_clients-Watched [] later h fits w = inl (h, refl, w)
  serve_clients-Watched (ready ∷ rounds) later h (fits, more) w =
      elim (visit_all-Passes (suc bound) ready 0 h fits (omega arith) (omega arith) w) [
        | inr fault ↦ inr (rw fault refl)
        | inl (h₁, passed, w₁) ↦ elim (serve_clients-Watched rounds later h₁ more w₁) [
          | inr fault ↦ inr (rw passed fault)
          | inl (h', e, w') ↦ inl (h', rw passed e, w')
        ]
      ]
