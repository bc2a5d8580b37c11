-- ===== src/Regs/Clock.antt =====
-- class ClockManager: `clkSel`, which stores a table of clock settings.
use evr_card_g.Base.{
  ℕ, Bool, true, false, List, [], ◌∷◌, ◌≡◌, ◌≢◌, refl, arith, ◌==◌, if◌then◌else◌, ◌⊎◌, inl, inr,
  ◌∙◌, sym, ap, Bool-cases,
}
use evr_card_g.Bus.{Bus}
use evr_card_g.Regs.Blocks.{word_at, refclk_base}
use evr_card_g.Regs.Setup.{IsMemory}

-- The table: the register, its value for LCLS, and its value for LCLS-II.
abbrev pub drp : List (ℕ × ℕ × ℕ)
drp =
    (0x28, 0xFFFF, 0xFFFF)
    ∷ (0x08, 0x1EFC, 0x1C30)
    ∷ (0x09, 0x0080, 0x4800)
    ∷ (0x0A, 0x1041, 0x1041)
    ∷ (0x0B, 0x00C0, 0x00C0)
    ∷ (0x0C, 0x1041, 0x1041)
    ∷ (0x0D, 0x00C0, 0x00C0)
    ∷ (0x0E, 0x1041, 0x1041)
    ∷ (0x0F, 0x00C0, 0x00C0)
    ∷ (0x10, 0x1041, 0x1041)
    ∷ (0x11, 0x00C0, 0x00C0)
    ∷ (0x06, 0x1041, 0x1041)
    ∷ (0x07, 0x00C0, 0x30C0)
    ∷ (0x12, 0x1041, 0x1041)
    ∷ (0x13, 0x00C0, 0x28C0)
    ∷ (0x16, 0x1041, 0x1041)
    ∷ (0x14, 0x1145, 0x1082)
    ∷ (0x15, 0x0000, 0x2800)
    ∷ (0x18, 0x01E8, 0x01E8)
    ∷ (0x19, 0x7001, 0x3801)
    ∷ (0x1A, 0x71E9, 0x39E9)
    ∷ (0x4E, 0x0800, 0x0800)
    ∷ (0x4F, 0x1100, 0x1900)
    ∷ (0, 0, 0)
    ∷ []

-- What a store of the rows leaves in the register at `o`, which held `old`.
abbrev pub written : List (ℕ × ℕ × ℕ) → Bool → ℕ → ℕ → ℕ
written [] lcls2 o old = old
written ((reg, first, second) ∷ rows) lcls2 o old =
    let rest =
      written rows lcls2 o
        (if o == word_at refclk_base reg then (if lcls2 then second else first) else old) in
    if reg == 0 then old else rest

module _ {C : Type 0} (bus : Bus C) where
  open bus use {store}

  -- `*(this+drp[i][0]) = drp[i][lcls2?2:1]`, down to the row that begins with 0.
  unfoldable pub write_drp : List (ℕ × ℕ × ℕ) → Bool → C → C
  write_drp [] lcls2 c = c
  write_drp ((reg, first, second) ∷ rows) lcls2 c =
      let rest =
        write_drp rows lcls2
          (store (word_at refclk_base reg) (if lcls2 then second else first) c) in
      if reg == 0 then c else rest

  unfoldable pub clock_manager_clk_sel : Bool → C → C
  unfolding write_drp
  clock_manager_clk_sel = write_drp drp

-- A store of the rows leaves a register alone, or what it leaves there hangs on the rows only.
written_cases :
    (rows : List (ℕ × ℕ × ℕ)) (o : ℕ)
    → ((l : Bool) (x : ℕ) → written rows l o x ≡ x)
      ⊎ ((l : Bool) (x y : ℕ) → written rows l o x ≡ written rows l o y)
written_cases [] o = inl (λ l x. refl)
written_cases ((reg, first, second) ∷ rows) o = elim (Bool-cases (reg == 0)) [
  | inl last ↦ inl (λ l x. rw last)
  | inr more ↦ elim (written_cases rows o) [
    | inr fixed ↦ inr (λ l x y. rw more (fixed l _ _))
    | inl kept ↦ elim (Bool-cases (o == word_at refclk_base reg)) [
      | inl hit ↦ inr (λ l x y. rw (more, hit))
      | inr miss ↦ inl (λ l x. rw (more, miss) (kept l x))
    ]
  ]
]

-- A row that the loop gets to: the rows up to it, and itself, do not begin with 0.
pub data Stored (reg first second : ℕ) : List (ℕ × ℕ × ℕ) → Type 0 where
  here : {rows : List (ℕ × ℕ × ℕ)} → reg ≢ 0 → Stored reg first second ((reg, first, second) ∷ rows)
  there :
      {reg' first' second' : ℕ} {rows : List (ℕ × ℕ × ℕ)}
      → reg' ≢ 0
      → Stored reg first second rows
      → Stored reg first second ((reg', first', second') ∷ rows)

absent : ℕ → List (ℕ × ℕ × ℕ) → Bool
absent reg [] = true
absent reg ((reg', first, second) ∷ rows) = if reg == reg' then false else absent reg rows

distinct : List (ℕ × ℕ × ℕ) → Bool
distinct [] = true
distinct ((reg, first, second) ∷ rows) = if absent reg rows then distinct rows else false

word_ne : (a b : ℕ) → (a == b) ≡ false → (word_at refclk_base a == word_at refclk_base b) ≡ false
word_ne a b h = ground arith

test_same : (a : ℕ) → (a == a) ≡ true
test_same a = ground arith

test_ne_zero : (a : ℕ) → a ≢ 0 → (a == 0) ≡ false
test_ne_zero a h = ground arith

written_absent :
    (rows : List (ℕ × ℕ × ℕ)) (l : Bool) (reg x : ℕ)
    → absent reg rows ≡ true
    → written rows l (word_at refclk_base reg) x ≡ x
unfolding absent
written_absent [] l reg x h = refl
written_absent ((reg', first, second) ∷ rows) l reg x h = elim (Bool-cases (reg == reg')) [
  | inl same ↦ cc (rw same at h)
  | inr other ↦ elim (Bool-cases (reg' == 0)) [
    | inl last ↦ rw last
    | inr more ↦
        let rest : absent reg rows ≡ true = rw other at h in
        rw (more, word_ne reg reg' other) (written_absent rows l reg x rest)
  ]
]

-- If no register stands in two rows, then each row that the loop gets to is what is left.
written-Stored :
    (l : Bool) (reg first second : ℕ) {rows : List (ℕ × ℕ × ℕ)} (x : ℕ)
    → distinct rows ≡ true
    → Stored reg first second rows
    → written rows l (word_at refclk_base reg) x ≡ (if l then second else first)
unfolding distinct
written-Stored l reg first second x d (here {rows = rows} ne) =
    rw (test_ne_zero reg ne, test_same (word_at refclk_base reg))
      (written_absent rows l reg _ (ground arith))
written-Stored l reg first second x d (there {reg' = reg'} {rows = rows} ne s) =
    rw (test_ne_zero reg' ne) (written-Stored l reg first second _ (ground arith) s)

module _ {C : Type 0} (bus : Bus C) (m : IsMemory bus) where
  write_drp-written :
      (rows : List (ℕ × ℕ × ℕ)) (l : Bool) (o : ℕ) (c : C)
      → (bus.load o (write_drp bus rows l c)).0 ≡ written rows l o (bus.load o c).0
  unfolding write_drp
  write_drp-written [] l o c = refl
  write_drp-written ((reg, first, second) ∷ rows) l o c = elim (Bool-cases (reg == 0)) [
    | inl last ↦ rw last
    | inr more ↦
        let v = if l then second else first in
        rw more (
          write_drp-written rows l o (bus.store (word_at refclk_base reg) v c)
          ∙ ap (written rows l o) (m.load-store o (word_at refclk_base reg) v c))
  ]

  -- On registers that are read back as they were stored, a selection of the clock overwrites the
  -- one before it: each register then holds what it would hold without the first.
  pub clk_sel_overwrites :
      (first second : Bool) (o : ℕ) (c : C)
      → (bus.load o (clock_manager_clk_sel bus second (clock_manager_clk_sel bus first c))).0
        ≡ (bus.load o (clock_manager_clk_sel bus second c)).0
  unfolding clock_manager_clk_sel
  clk_sel_overwrites first second o c =
      let twice =
        write_drp-written drp second o (write_drp bus drp first c)
        ∙ ap (written drp second o) (write_drp-written drp first o c) in
      let once = write_drp-written drp second o c in
      elim (written_cases drp o) [
        | inl kept ↦ twice ∙ ap (written drp second o) (kept first _) ∙ sym once
        | inr fixed ↦ twice ∙ fixed second _ _ ∙ sym once
      ]

  -- On registers that are read back as they were stored, a selection of the clock leaves in the
  -- register of each row of the table the row's value for the clock that was selected.
  pub clk_sel_rows :
      (lcls2 : Bool) (reg first second : ℕ) (c : C)
      → Stored reg first second drp
      → (bus.load (word_at refclk_base reg) (clock_manager_clk_sel bus lcls2 c)).0
        ≡ (if lcls2 then second else first)
  unfolding clock_manager_clk_sel absent distinct
  clk_sel_rows lcls2 reg first second c s =
      write_drp-written drp lcls2 (word_at refclk_base reg) c
      ∙ written-Stored lcls2 reg first second _ refl s
