-- ===== src/Regs/Version.antt =====
-- class AxiVersion: the build stamp.
use evr_card_g.Base.{ℕ, zero, suc, ◌+◌, ◌/◌, ◌%◌, ◌^◌, List, [], ◌∷◌, ◌++◌, ◌==◌, if◌then◌else◌}
use evr_card_g.Base.Outcome.{Outcome, ok, undefined, ◌>>=◌}
use evr_card_g.Bus.{Bus}
use evr_card_g.Regs.Blocks.{word_at}

-- The offset of `BuildStamp`: the block stands at 0x10000, and this is its word 0x200.
abbrev pub stamp_base : ℕ
stamp_base = 0x10800

-- The bytes of a word in memory, which is little endian.
abbrev pub word_bytes : ℕ → List ℕ
word_bytes v = v % 256 ∷ v / 2 ^ 8 % 256 ∷ v / 2 ^ 16 % 256 ∷ v / 2 ^ 24 % 256 ∷ []

-- `std::string(const char*)`: the bytes up to the first zero; behind the array nothing is defined.
unfoldable pub c_string : List ℕ → Outcome (List ℕ)
c_string [] = undefined
c_string (b ∷ bytes) =
    let rest = (do tail ← c_string bytes; ok (b ∷ tail)) in if b == 0 then ok [] else rest

module _ {C : Type 0} (bus : Bus C) where
  open bus use {load}

  -- The bytes of `n` words from word `i` of the stamp on.
  unfoldable pub load_words : ℕ → ℕ → C → List ℕ × C
  load_words zero i c = ([], c)
  load_words (suc n) i c =
      let (v, c₁) = load (word_at stamp_base i) c in
      let (bytes, c₂) = load_words n (i + 1) c₁ in (word_bytes v ++ bytes, c₂)

  unfoldable pub build_stamp : C → Outcome (List ℕ) × C
  unfolding c_string load_words
  build_stamp c = let (bytes, c') = load_words 64 0 c in (c_string bytes, c')
