-- ===== src/Apps/Lock/Registers.antt =====
-- software/app/evrlock.cc: the structs LockApp and LockCore, and the copy of a LockApp.
use evr_card_g.Base.{ℕ, ◌-◌, ◌/◌, List, [], ◌∷◌, Option, none, some, update}
use evr_card_g.Bus.{Bus}
use evr_card_g.Regs.Layout.{Struct, size, bytes_of, axi_version, xbar, tpr_core}
use evr_card_g.Regs.Blocks.{word_at}

abbrev pub lock_app : Struct
lock_app =
    ("ready", 1)
    ∷ ("phase", 1)
    ∷ ("phaseN", 1)
    ∷ ("valid", 1)
    ∷ ("clks", 1)
    ∷ ("tmoCnt", 1)
    ∷ ("refMarkCnt", 1)
    ∷ ("testMarkCnt", 1)
    ∷ ("timingRst", 1)
    ∷ ("txDataNC", 1)
    ∷ ("txDataSC", 1)
    ∷ ("psincdec", 1)
    ∷ ("loopbackNC", 1)
    ∷ ("loopbackSC", 1)
    ∷ ("rxmode", 1)
    ∷ ("ncTrigDelay", 1)
    ∷ ("refMarkIntErr", 1)
    ∷ ("testMarkIntErr", 1)
    ∷ ("refClkRate", 1)
    ∷ ("testClkRate", 1)
    ∷ []

abbrev pub lock_core : Struct
lock_core =
    ("reserved_0", 0x10000 / 4)
    ∷ ("version", size axi_version)
    ∷ ("reserved_10000", (0x40000 - 0x20000) / 4)
    ∷ ("xbar", size xbar)
    ∷ ("reserved_30010", (0x60000 - 0x40010) / 4)
    ∷ ("app", size lock_app)
    ∷ ("reserved_80000", (0x20000 - bytes_of lock_app) / 4)
    ∷ ("coreNC", size tpr_core)
    ∷ ("reserved_C0000", (0x40000 - bytes_of tpr_core) / 4)
    ∷ ("coreSC", size tpr_core)
    ∷ ("reserved_END", (0x40000 - bytes_of tpr_core) / 4)
    ∷ []

abbrev pub app_base : ℕ
app_base = 0x60000

abbrev pub core_nc_base : ℕ
core_nc_base = 0x80000

abbrev pub core_sc_base : ℕ
core_sc_base = 0xC0000

-- Word `k` of LockApp.
abbrev pub app_word : ℕ → ℕ
app_word = word_at app_base

-- A LockApp in memory: its words, `none` where none was written.
abbrev pub AppCopy : Type 0
AppCopy = ℕ → Option ℕ

-- The words that `REGCPY` copies, in order: all up to testMarkCnt, and txDataNC and txDataSC.
abbrev pub copied_words : List ℕ
copied_words = 0 ∷ 1 ∷ 2 ∷ 3 ∷ 4 ∷ 5 ∷ 6 ∷ 7 ∷ 9 ∷ 10 ∷ []

module _ {C : Type 0} (bus : Bus C) where
  open bus use {load, sleep_us}

  -- `REGCPY` of the words of a list from the registers, and from another copy.
  unfoldable pub copy_regs : List ℕ → AppCopy → C → AppCopy × C
  copy_regs [] a c = (a, c)
  copy_regs (k ∷ ks) a c =
      let (v, c') = load (app_word k) c in copy_regs ks (update a k (some v)) (sleep_us 1000 c')

  unfoldable pub copy_fields : List ℕ → AppCopy → AppCopy → C → AppCopy × C
  copy_fields [] from a c = (a, c)
  copy_fields (k ∷ ks) from a c = copy_fields ks from (update a k (from k)) (sleep_us 1000 c)

  -- `LockApp::dump`: a new copy of the registers, and its copy into the cache.
  unfoldable pub app_dump : AppCopy → C → AppCopy × C
  unfolding copy_regs copy_fields
  app_dump cache c =
      let (cc, c') = copy_regs copied_words (λ k. none) c in copy_fields copied_words cc cache c'
