-- ===== src/Driver/Fresh.antt =====
-- What probe and remove leave.
use evr_card_g.Base.{
  ℕ, zero, suc, ◌+◌, ◌<◌, ◌≤◌, ◌≡◌, refl, sym, true, false, Option, none, some, List, [], ◌∷◌, has,
  update, arith, ◌==◌, if◌then◌else◌, ==_iff, inl, inr, ◌∙◌, Option-cases, Bool-cases, ltb,
}
use mathlib.Core.Path.{subst}
use evr_card_g.Base.Bits.{bit-zero}
use evr_card_g.Bus.{Bus}
use evr_card_g.Driver.Device.{Share, Device, RxBuffer, Queues, mod_shared, open_shares, success}
use evr_card_g.Driver.Links.{Chain, Back}
use evr_card_g.Driver.Lists.{Place, free, channel, bsa, same, place, nexts, prevs, head, Represents}
use evr_card_g.Driver.Probe.{
  Kernel, number_of_rx_buffers, clear_done, init_registers, init_share, init_shares, init_shared,
  init_lists, init_device, init_buffers, start_device, tpr_probe,
}
use evr_card_g.Driver.Registers.{rx_free}
use evr_card_g.Driver.Sessions.{Clients}

-- The free list that probe builds: the last share first.
unfoldable pub countdown : ℕ → List ℕ
countdown zero = []
countdown (suc n) = n ∷ countdown n

abbrev pub all_free : Clients
all_free free = countdown open_shares
all_free (channel m) = []
all_free bsa = []

has-countdown : (x n : ℕ) → has x (countdown n) ≡ ltb x n
unfolding countdown
has-countdown x zero = ground arith
has-countdown x (suc n) = ground (arith, has-countdown x n)

init_shares_lem :
    (n x : ℕ) (sh : ℕ → Share)
    → init_shares n sh x ≡ (if ltb x n then init_share x (sh x) else sh x)
unfolding init_shares
init_shares_lem zero x sh = ground arith
init_shares_lem (suc n) x sh = elim (Bool-cases (x == n)) [
  | inl e ↦ rw (e, (==_iff x n).0 e) (ground (arith, init_shares_lem n n sh))
  | inr ne ↦ rw (ne) (ground (arith, init_shares_lem n x sh))
]

init_shared_lem :
    (n x : ℕ) (sh : ℕ → Option ℕ) → init_shared n sh x ≡ (if ltb x n then none else sh x)
unfolding init_shared
init_shared_lem zero x sh = ground arith
init_shared_lem (suc n) x sh = ground (arith, init_shared_lem n x sh)

-- The head of the list of the first `n`.
abbrev before_share : ℕ → Option ℕ
before_share zero = none
before_share (suc n) = some n

Chain-countdown :
    (next : ℕ → Option ℕ) (n : ℕ)
    → ((x : ℕ) → x < n → next x ≡ before_share x)
    → Chain next (before_share n) (countdown n)
unfolding countdown
Chain-countdown next zero h = refl
Chain-countdown next (suc n) h = (
  refl,
  has-countdown n n ∙ ground arith,
  rw (h n (omega arith)) (Chain-countdown next n (λ x l. h x (omega arith))),
)

module _ {C : Type 0} where
  next-init_lists :
      (d : Device C) (x : ℕ) → x < open_shares → nexts (init_lists d) x ≡ before_share x
  unfolding init_lists
  next-init_lists d zero h = ground (arith, init_shares_lem open_shares 0 d.all_shares)
  next-init_lists d (suc x) h = ground (arith, init_shares_lem open_shares (suc x) d.all_shares)

  place-init_lists :
      (d : Device C) (x : ℕ) → x < open_shares → place ((init_lists d).all_shares x) ≡ free
  unfolding init_lists
  place-init_lists d x h = rw (init_shares_lem open_shares x d.all_shares) (ground arith)

  linked-init_lists :
      (d : Device C)
      → ((m : ℕ) → mod_shared ≤ m → d.shared m ≡ none)
      → (q : Place) → Chain (nexts (init_lists d)) (head (init_lists d) q) (all_free q)
  unfolding init_lists
  linked-init_lists d outside free =
      Chain-countdown (nexts (init_lists d)) open_shares (next-init_lists d)
  linked-init_lists d outside (channel m) =
      ground (arith, init_shared_lem mod_shared m d.shared, outside m)
  linked-init_lists d outside bsa = refl

  member-init_lists :
      (d : Device C) (q : Place) (x : ℕ)
      → has x (all_free q) ≡ true
      → (x < open_shares) × (place ((init_lists d).all_shares x) ≡ q)
  member-init_lists d free x i =
      let below : x < open_shares = ground (arith, has-countdown x open_shares, i) in
      (below, place-init_lists d x below)
  member-init_lists d (channel m) x i = cc
  member-init_lists d bsa x i = cc

  backed-init_lists :
      (d : Device C) (q : Place)
      → same q free ≡ false
      → Back (prevs (init_lists d)) none (all_free q)
  backed-init_lists d free f = cc
  backed-init_lists d (channel m) f = tt
  backed-init_lists d bsa f = tt

  Represents-init_lists :
      (d : Device C)
      → ((m : ℕ) → mod_shared ≤ m → d.shared m ≡ none)
      → d.minors ≡ 0
      → Represents (init_lists d) all_free
  unfolding init_lists
  Represents-init_lists d outside none_lit = record {
    lists = record {
      linked = linked-init_lists d outside;
      backed = backed-init_lists d;
      member = λ q x i. (member-init_lists d q x i).1;
      present = λ x h. rw (place-init_lists d x h) (has-countdown x open_shares ∙ ground arith);
      bounded = λ q x i. (member-init_lists d q x i).0;
      indexed = λ x h. rw (init_shares_lem open_shares x d.all_shares) (ground arith);
    };
    lit = λ m h. rw (none_lit) (bit-zero m);
    in_range = λ m h. refl;
  }

  -- The receive buffers and the registers have no part in it.
  Represents-card :
      (b : ℕ → RxBuffer) (n : ℕ) (c : C) (d : Device C) (a : Clients)
      → Represents d a
      → Represents (record d { rx_buffer = b; rx_count = n; card = c }) a
  Represents-card b n c d a r = record {
    lists = record {
      linked = r.lists.linked;
      backed = r.lists.backed;
      member = r.lists.member;
      present = r.lists.present;
      bounded = r.lists.bounded;
      indexed = r.lists.indexed;
    };
    lit = r.lit;
    in_range = r.in_range;
  }

module _ {C : Type 0} (bus : Bus C) where
  Represents-init_buffers :
      (coherent : ℕ → Option RxBuffer) (n idx : ℕ) (d : Device C) (a : Clients)
      → Represents d a
      → Represents (init_buffers bus coherent n idx d) a
  unfolding init_buffers
  Represents-init_buffers coherent zero idx d a r = r
  Represents-init_buffers coherent (suc n) idx d a r = elim (Option-cases (coherent idx)) [
    | inl e ↦ rw (init_buffers, e) r
    | inr (b, e) ↦
        rw (init_buffers, e)
          (Represents-init_buffers coherent n (idx + 1)
            (record d {
              rx_buffer = update d.rx_buffer idx (clear_done b);
              rx_count = idx + 1;
              card = bus.store rx_free b.dma d.card;
            })
            a
            (Represents-card (update d.rx_buffer idx (clear_done b)) (idx + 1)
              (bus.store rx_free b.dma d.card) d a r))
  ]

  Represents-pend :
      (d : Device C) (a : Clients) → Represents d a → Represents (record d { rx_pend = 0 }) a
  Represents-pend d a r = record {
    lists = record {
      linked = r.lists.linked;
      backed = r.lists.backed;
      member = r.lists.member;
      present = r.lists.present;
      bounded = r.lists.bounded;
      indexed = r.lists.indexed;
    };
    lit = r.lit;
    in_range = r.in_range;
  }

  Represents-start :
      (k : Kernel) (d : Device C)
      → ((m : ℕ) → mod_shared ≤ m → d.shared m ≡ none)
      → d.minors ≡ 0
      → Represents (start_device bus k d).1 all_free
  unfolding start_device
  Represents-start k d outside none_lit =
      let d1 = init_lists (record d { base_len = k.bar_len }) in
      let d2 = record d1 { card = init_registers bus d1.card; rx_count = 0 } in
      let d3 = init_buffers bus k.coherent number_of_rx_buffers 0 d2 in
      let r1 = Represents-init_lists (record d { base_len = k.bar_len }) outside none_lit in
      let r2 = Represents-card d1.rx_buffer 0 (init_registers bus d1.card) d1 all_free r1 in
      Represents-pend d3 all_free
        (Represents-init_buffers k.coherent number_of_rx_buffers 0 d2 all_free r2)

  reaches_start :
      (k : Kernel) (queues : Queues) (d : Device C)
      → (tpr_probe bus k queues d).0 ≡ success
      → tpr_probe bus k queues d ≡ start_device bus k (init_device queues d)
  unfolding tpr_probe
  reaches_start k queues d e = ground (arith, e)

  -- A probe that succeeds leaves each share on the free list, the last one first, no client of a
  -- channel or of the BSA device, and no channel enabled.
  pub tpr_probe-Represents :
      (k : Kernel) (queues : Queues) (d : Device C)
      → ((m : ℕ) → mod_shared ≤ m → d.shared m ≡ none)
      → (tpr_probe bus k queues d).0 ≡ success
      → Represents (tpr_probe bus k queues d).1 all_free
  unfolding init_device
  tpr_probe-Represents k queues d outside e =
      subst (λ p. Represents p.1 all_free) (sym (reaches_start k queues d e))
        (Represents-start k (init_device queues d) outside refl)
