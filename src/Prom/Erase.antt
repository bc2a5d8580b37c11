-- ===== src/Prom/Erase.antt =====
-- The erase of the legacy PROM, block by block.
use evr_card_g.Base.{
  ℕ, zero, suc, ◌+◌, ◌-◌, ◌*◌, ◌/◌, ◌%◌, ◌^◌, ◌≤◌, ◌<◌, true, List, [], ◌∷◌, ◌≡◌, ◌≢◌, ◌↔◌, ◌⊎◌,
  arith, sym, ◌∙◌, leb, inl, inr, ap,
}
use mathlib.Core.Path.{subst}
use native.Mathlib.Decide.{dec_lt}
use evr_card_g.Base.Run.{done, >>=-eq-done}
use evr_card_g.Bus.{Bus}
use evr_card_g.Prom.Flash.{erase_command}
use evr_card_g.Prom.Card.{prom_block_size, erase_blocks}

-- The addresses of `n` blocks from `a` on.
abbrev pub blocks_from : ℕ → ℕ → List ℕ
blocks_from a zero = []
blocks_from a (suc n) = a ∷ blocks_from (a + prom_block_size) n

leb_of_le : (a b : ℕ) → a ≤ b → leb a b ≡ true
leb_of_le a b h = ground arith

module _ {C : Type 0} (bus : Bus C) (fuel : ℕ) where
  -- Each of these blocks is erased, in this order, and nothing else is done.
  pub data Erases : List ℕ → C → C → Type 0 where
    none_left : {c : C} → Erases [] c c
    erased :
        {a : ℕ} {rest : List ℕ} {c c' c'' : C}
        → erase_command bus fuel a c ≡ done c'
        → Erases rest c' c''
        → Erases (a ∷ rest) c c''

  erase_blocks_past :
      (blocks size a : ℕ) (c : C) → size < a → erase_blocks bus (suc blocks) fuel size a c ≡ done c
  unfolding erase_blocks
  erase_blocks_past blocks size a c h = ground arith

  erase_blocks-Erases_from :
      (blocks size a n : ℕ) (c c' : C)
      → size + prom_block_size < 2 ^ 32
      → a ≤ size + prom_block_size
      → size < a + n * prom_block_size
      → a + n * prom_block_size ≤ size + prom_block_size
      → erase_blocks bus blocks fuel size a c ≡ done c'
      → Erases (blocks_from a n) c c'
  unfolding erase_blocks
  erase_blocks-Erases_from zero size a n c c' h l u v e = cc
  erase_blocks-Erases_from (suc blocks) size a zero c c' h l u v e =
      let same : c ≡ c' = ground arith in subst (Erases [] c) same none_left
  erase_blocks-Erases_from (suc blocks) size a (suc n) c c' h l u v e =
      let next = (a + prom_block_size) % 2 ^ 32 in
      let no_wrap : next ≡ a + prom_block_size = omega arith in
      let (c₁, first, later) =
        >>=-eq-done (erase_command bus fuel a c) (λ x. erase_blocks bus blocks fuel size next x)
          (ground arith) in
      erased first (
        erase_blocks-Erases_from blocks size (a + prom_block_size) n c₁ c' h (omega arith)
          (omega arith) (omega arith)
          (ap (λ (t : ℕ). erase_blocks bus blocks fuel size t c₁) (sym no_wrap) ∙ later))

  Erases-erase_blocks_from :
      (n size a : ℕ) (c c' : C)
      → size + prom_block_size < 2 ^ 32
      → size < a + n * prom_block_size
      → a + n * prom_block_size ≤ size + prom_block_size
      → Erases (blocks_from a n) c c'
      → erase_blocks bus (suc n) fuel size a c ≡ done c'
  unfolding erase_blocks
  Erases-erase_blocks_from zero size a c c' h u v none_left =
      erase_blocks_past 0 size a c (omega arith)
  Erases-erase_blocks_from (suc n) size a c c' h u v (erased {c' = c₁} first later) =
      let next = (a + prom_block_size) % 2 ^ 32 in
      let no_wrap : next ≡ a + prom_block_size = omega arith in
      let rest =
        Erases-erase_blocks_from n size (a + prom_block_size) c₁ c' h (omega arith) (omega arith)
          later in
      let rest' = ap (λ (t : ℕ). erase_blocks bus (suc n) fuel size t c₁) no_wrap ∙ rest in
      rw (leb_of_le a size (omega arith), first) rest'

  -- With rounds for each block and one more, the erase up to `size` returns exactly when each
  -- block from 0 up to the one that holds `size` was erased, in their order. The size leaves room
  -- for one more block below 2 ^ 32.
  pub erase_blocks_iff :
      (size : ℕ) (c c' : C)
      → size + prom_block_size < 2 ^ 32
      → (erase_blocks bus (size / prom_block_size + 2) fuel size 0 c ≡ done c')
        ↔ Erases (blocks_from 0 (size / prom_block_size + 1)) c c'
  erase_blocks_iff size c c' h = (
    erase_blocks-Erases_from (size / prom_block_size + 2) size 0 (size / prom_block_size + 1) c c' h
        (omega arith) (omega arith) (omega arith),
    λ e.
        ap (λ (t : ℕ). erase_blocks bus t fuel size 0 c) two
        ∙ Erases-erase_blocks_from (size / prom_block_size + 1) size 0 c c' h (omega arith)
            (omega arith) e,
  )
    where
      two : size / prom_block_size + 2 ≡ suc (size / prom_block_size + 1)
      two = omega arith

  -- From an address of 32 bits at which a block begins, the loop never ends if the size is within
  -- the last block below 2 ^ 32, whatever the fuel: the address wraps.
  pub erase_blocks_endless :
      (blocks size a : ℕ) (c : C)
      → 2 ^ 32 - prom_block_size ≤ size
      → a < 2 ^ 32
      → a % prom_block_size ≡ 0
      → (c' : C) → erase_blocks bus blocks fuel size a c ≢ done c'
  unfolding erase_blocks
  erase_blocks_endless zero size a c h l m c' e = cc
  erase_blocks_endless (suc blocks) size a c h l m c' e =
      let next = (a + prom_block_size) % 2 ^ 32 in
      let (c₁, first, later) =
        >>=-eq-done (erase_command bus fuel a c) (λ x. erase_blocks bus blocks fuel size next x)
          (rw (leb_of_le a size (omega arith)) at e) in
      erase_blocks_endless blocks size next c₁ h (omega arith) (omega arith) c' later

-- `x` lies in a block that starts at one of these addresses.
abbrev pub Covered : ℕ → List ℕ → Type 0
Covered x [] = ⊥
Covered x (a ∷ rest) = ((a ≤ x) × (x < a + prom_block_size)) ⊎ Covered x rest

Covered-blocks_from :
    (x a n : ℕ) → a ≤ x → x < a + n * prom_block_size → Covered x (blocks_from a n)
Covered-blocks_from x a zero l u = absurd (omega arith)
Covered-blocks_from x a (suc n) l u = elim (dec_lt x (a + prom_block_size)) [
  | yes p ↦ inl (l, p)
  | no p ↦ inr (Covered-blocks_from x (a + prom_block_size) n (omega arith) (omega arith))
]

-- Each address up to `size` lies in a block that is erased.
pub erased-Covered :
    (x size : ℕ) → x ≤ size → Covered x (blocks_from 0 (size / prom_block_size + 1))
erased-Covered x size h =
    Covered-blocks_from x 0 (size / prom_block_size + 1) (omega arith) (omega arith)

-- A legacy erase that returns, of a size that is not within the last block of 32 bits, has erased
-- a block with each address up to the size in it.
pub erase_blocks-Covered :
    {C : Type 0} (bus : Bus C) (fuel size x : ℕ) (c c' : C)
    → size + prom_block_size < 2 ^ 32
    → x ≤ size
    → erase_blocks bus (size / prom_block_size + 2) fuel size 0 c ≡ done c'
    → (erased_at : List ℕ) × Erases bus fuel erased_at c c' × Covered x erased_at
erase_blocks-Covered bus fuel size x c c' h l e = (
  blocks_from 0 (size / prom_block_size + 1),
  (erase_blocks_iff bus fuel size c c' h).0 e,
  erased-Covered x size l,
)
