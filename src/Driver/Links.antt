-- ===== src/Driver/Links.antt =====
-- Linked lists through `next` and `prev` pointers of numbered elements, and what unlinking an
-- element does to them.
use evr_card_g.Base.{
  ℕ, ◌≡◌, ◌≢◌, refl, true, false, Option, none, some, List, [], ◌∷◌, has, remove, points, is_empty,
  is_null, Option-cases, sym, ◌==◌, if◌then◌else◌, arith, ◌⊎◌, inl, inr, Bool-cases,
}

-- From `h` the `next` pointers lead through the distinct elements `xs` to NULL.
abbrev pub Chain : (ℕ → Option ℕ) → Option ℕ → List ℕ → Type 0
Chain next h [] = h ≡ none
Chain next h (x ∷ xs) = (h ≡ some x) × (has x xs ≡ false) × Chain next (next x) xs

-- The `prev` pointer of the first of `xs` is `p`, and that of each other one is the one before.
abbrev pub Back : (ℕ → Option ℕ) → Option ℕ → List ℕ → Type 0
Back prev p [] = Unit {0}
Back prev p (x ∷ xs) = (prev x ≡ p) × Back prev (some x) xs

pub Chain-frame :
    {next next' : ℕ → Option ℕ} (h : Option ℕ) (xs : List ℕ)
    → ((x : ℕ) → has x xs ≡ true → next' x ≡ next x)
    → Chain next h xs
    → Chain next' h xs
Chain-frame h [] same c = c
Chain-frame {next} {next'} h (x ∷ xs) same (e, out, c) =
    let tail = Chain-frame (next x) xs (λ y i. same y (ground arith)) c in
    (e, out, rw (same x (ground arith)) tail)

pub Back-frame :
    {prev prev' : ℕ → Option ℕ} (p : Option ℕ) (xs : List ℕ)
    → ((x : ℕ) → has x xs ≡ true → prev' x ≡ prev x)
    → Back prev p xs
    → Back prev' p xs
Back-frame p [] same b = b
Back-frame p (x ∷ xs) same (e, b) =
    (ground (arith, same x), Back-frame (some x) xs (λ y i. same y (ground arith)) b)

pub has-remove_ne : (x s : ℕ) (xs : List ℕ) → (x == s) ≡ false → has x (remove s xs) ≡ has x xs
has-remove_ne x s [] ne = refl
has-remove_ne x s (y ∷ ys) ne = ground (arith, has-remove_ne x s ys ne)

pub has-remove_self :
    (next : ℕ → Option ℕ) (h : Option ℕ) (s : ℕ) (xs : List ℕ)
    → Chain next h xs
    → has s (remove s xs) ≡ false
has-remove_self next h s [] c = refl
has-remove_self next h s (x ∷ xs) (e, out, c) = ground (arith, has-remove_self next (next x) s xs c)

-- Where the `next` and `prev` pointers lead when `s` is unlinked.
abbrev pub past_next : (ℕ → Option ℕ) → (ℕ → Option ℕ) → ℕ → ℕ → Option ℕ
past_next next prev s x = if points (prev s) x then next s else next x

abbrev pub past_prev : (ℕ → Option ℕ) → (ℕ → Option ℕ) → ℕ → ℕ → Option ℕ
past_prev next prev s x = if points (next s) x then prev s else prev x

abbrev pub past : (ℕ → Option ℕ) → ℕ → Option ℕ → Option ℕ
past next s h = if points h s then next s else h

eq_of_test : (s x : ℕ) → (s == x) ≡ true → s ≡ x
eq_of_test s x e = ground arith

remove_first : (s x : ℕ) (xs : List ℕ) → (s == x) ≡ true → remove s (x ∷ xs) ≡ xs
remove_first s x xs e = ground arith

remove_later : (s x : ℕ) (xs : List ℕ) → (s == x) ≡ false → remove s (x ∷ xs) ≡ x ∷ remove s xs
remove_later s x xs e = ground arith

pub has-remove : (x s : ℕ) (xs : List ℕ) → has x (remove s xs) ≡ true → has x xs ≡ true
has-remove x s [] i = i
has-remove x s (y ∷ ys) i = ground (arith, has-remove x s ys)

module _ (next prev : ℕ → Option ℕ) where
  -- The element before `s` is in the list or is the pointer before the list.
  pub prev-mem :
      (p h : Option ℕ) (s : ℕ) (xs : List ℕ)
      → Chain next h xs
      → Back prev p xs
      → has s xs ≡ true
      → ((h ≡ some s) × (prev s ≡ p))
        ⊎ ((h ≢ some s) × ((z : ℕ) × (prev s ≡ some z) × (has z xs ≡ true)))
  prev-mem p h s [] c b i = absurd (ground arith)
  prev-mem p h s (x ∷ xs) (e, out, c) (f, b) i = elim (Bool-cases (s == x)) [
    | inl same ↦ inl (ground arith, ground arith)
    | inr other ↦ elim (prev-mem (some x) (next x) s xs c b (ground arith)) [
      | inl (first, before) ↦ inr (ground arith, (x, before, ground arith))
      | inr (later, (z, before, among)) ↦ inr (ground arith, (z, before, ground arith))
    ]
  ]

  pub next-mem :
      (h : Option ℕ) (s z : ℕ) (xs : List ℕ)
      → Chain next h xs
      → has s xs ≡ true
      → next s ≡ some z
      → has z xs ≡ true
  next-mem h s z [] c i e = absurd (ground arith)
  next-mem h s z (x ∷ []) (e, out, c) i f = absurd (ground arith)
  next-mem h s z (x ∷ (y ∷ ys)) (e, out, c) i f = elim (Bool-cases (s == x)) [
    | inl same ↦ ground arith
    | inr other ↦ ground (arith, next-mem (next x) s z (y ∷ ys) c (ground arith) f)
  ]

  past_first : (h : Option ℕ) (s x : ℕ) → h ≡ some x → (s == x) ≡ true → past next s h ≡ next s
  past_first h s x e same = rw (e) (ground arith)

  first_out :
      (s x : ℕ) (xs : List ℕ) → (s == x) ≡ true → Chain next (next x) xs → Chain next (next s) xs
  first_out s x xs same c = rw (eq_of_test s x same) c

  first-Back :
      (s : ℕ) (p : Option ℕ) (xs : List ℕ)
      → prev s ≡ p
      → Chain next (next s) xs
      → Back prev (some s) xs
      → Back (past_prev next prev s) p xs
  first-Back s p [] e c b = tt
  first-Back s p (y ∷ ys) e (f, out, c) (g, b) =
      (rw (f) (ground arith), Back-frame (some y) ys (λ z i. ground arith) b)

  -- A step over the element that is unlinked.
  past-step :
      (s x : ℕ) (xs : List ℕ)
      → has x xs ≡ false
      → Chain next (next x) xs
      → Back prev (some x) xs
      → has s xs ≡ true
      → past_next next prev s x ≡ past next s (next x)
  past-step s x xs out c b i = elim (prev-mem (some x) (next x) s xs c b i) [
    | inl (first, before) ↦ rw (first, before) (ground arith)
    | inr (later, (z, before, among)) ↦ ground arith
  ]

  pub Chain-remove_among :
      (p h : Option ℕ) (s : ℕ) (xs : List ℕ)
      → ((y : ℕ) → p ≡ some y → has y xs ≡ false)
      → Chain next h xs
      → Back prev p xs
      → has s xs ≡ true
      → Chain (past_next next prev s) (past next s h) (remove s xs)
  Chain-remove_among p h s [] away c b i = absurd (ground arith)
  Chain-remove_among p h s (x ∷ xs) away (e, out, c) (f, b) i = elim (Bool-cases (s == x)) [
    | inl same ↦
        rw (remove_first s x xs same, past_first h s x e same)
          (Chain-frame (next s) xs (λ y j. ground (arith, away y)) (first_out s x xs same c))
    | inr other ↦ rw (remove_later s x xs other) (
      ground arith,
      ground (arith, has-remove x s xs),
      rw (past-step s x xs out c b (ground arith))
          (Chain-remove_among (some x) (next x) s xs (λ y g. ground arith) c b (ground arith)),
    )
  ]

  pub Back-remove_among :
      (p h : Option ℕ) (s : ℕ) (xs : List ℕ)
      → Chain next h xs
      → Back prev p xs
      → has s xs ≡ true
      → Back (past_prev next prev s) p (remove s xs)
  Back-remove_among p h s [] c b i = absurd (ground arith)
  Back-remove_among p h s (x ∷ xs) (e, out, c) (f, b) i = elim (Bool-cases (s == x)) [
    | inl same ↦ rw (remove_first s x xs same) (
        first-Back s p xs (rw (eq_of_test s x same) f) (first_out s x xs same c)
          (rw (eq_of_test s x same) b))
    | inr other ↦ rw (remove_later s x xs other) (
      ground (arith, next-mem (next x) s x xs c),
      Back-remove_among (some x) (next x) s xs c b (ground arith),
    )
  ]

pub points-mem :
    (next : ℕ → Option ℕ) (h : Option ℕ) (x : ℕ) (xs : List ℕ)
    → Chain next h xs
    → points h x ≡ true
    → has x xs ≡ true
points-mem next none x [] c p = cc
points-mem next (some y) x [] c p = cc
points-mem next none x (y ∷ ys) (f, g, c) p = cc
points-mem next (some z) x (y ∷ ys) (f, g, c) p = ground arith

pub Chain-none :
    (next : ℕ → Option ℕ) (h : Option ℕ) (xs : List ℕ)
    → Chain next h xs
    → h ≡ none
    → is_empty xs ≡ true
Chain-none next h [] c e = refl
Chain-none next h (x ∷ xs) (f, g, c) e = absurd (ground arith)

pub Chain-some :
    (next : ℕ → Option ℕ) (h : Option ℕ) (x : ℕ) (xs : List ℕ)
    → Chain next h xs
    → h ≡ some x
    → is_empty xs ≡ false
Chain-some next h x [] c e = absurd (ground arith)
Chain-some next h x (y ∷ ys) c e = refl

module _ (next prev : ℕ → Option ℕ) where
  -- An element is not its own neighbour.
  pub prev-apart :
      (p h : Option ℕ) (s : ℕ) (xs : List ℕ)
      → points p s ≡ false
      → Chain next h xs
      → Back prev p xs
      → has s xs ≡ true
      → points (prev s) s ≡ false
  prev-apart p h s [] f c b i = absurd (ground arith)
  prev-apart p h s (x ∷ xs) f (e, out, c) (g, b) i = elim (Bool-cases (s == x)) [
    | inl same ↦ rw (eq_of_test s x same, g) (rw (sym (eq_of_test s x same)) f)
    | inr other ↦ prev-apart (some x) (next x) s xs other c b (ground arith)
  ]

  pub next-apart :
      (h : Option ℕ) (s : ℕ) (xs : List ℕ)
      → Chain next h xs
      → has s xs ≡ true
      → points (next s) s ≡ false
  next-apart h s [] c i = absurd (ground arith)
  next-apart h s (x ∷ xs) (e, out, c) i = elim (Bool-cases (s == x)) [
    | inl same ↦ rw (eq_of_test s x same) (ground (arith, points-mem next (next x) x xs c))
    | inr other ↦ next-apart (next x) s xs c (ground arith)
  ]

  pub front-null :
      (h : Option ℕ) (s : ℕ) (xs : List ℕ)
      → Chain next h xs
      → Back prev none xs
      → has s xs ≡ true
      → points h s ≡ is_null (prev s)
  front-null h s xs c b i = elim (prev-mem next prev none h s xs c b i) [
    | inl (first, before) ↦ rw (first, before) (ground arith)
    | inr (later, (z, before, among)) ↦
        rw (before) (elim (Option-cases h) [ inl e ↦ rw (e) refl | inr (y, e) ↦ ground arith ])
  ]

pub has-not_empty : (s : ℕ) (xs : List ℕ) → has s xs ≡ true → is_empty xs ≡ false
has-not_empty s [] i = cc
has-not_empty s (x ∷ xs) i = refl
