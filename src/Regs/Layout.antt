-- ===== src/Regs/Layout.antt =====
-- software/app/tpr.hh: the structs of the registers, as their fields with the number of 32-bit words
-- of each, and where that puts a field.
use Prim.Native.Nat.{eq, lt, gt}
use Prim.Native.String.{String, compare}
use evr_card_g.Base.{
  ℕ, ◌+◌, ◌-◌, ◌*◌, ◌/◌, Bool, true, false, List, [], ◌∷◌, Option, none, some, if◌then◌else◌,
}

abbrev pub Struct : Type 0
Struct = List (String × ℕ)

-- The words of a struct, which has no padding, since each field is of 32-bit words.
abbrev pub size : Struct → ℕ
size [] = 0
size ((name, words) ∷ fields) = words + size fields

abbrev pub same_name : String → String → Bool
same_name a b = elim (compare a b) [ lt ↦ false | eq ↦ true | gt ↦ false ]

-- The first word of a field behind `k` others, and its number of words.
abbrev pub field_at : Struct → String → ℕ → Option (ℕ × ℕ)
field_at [] name k = none
field_at ((field, words) ∷ fields) name k =
    let rest = field_at fields name (k + words) in
    if same_name field name then some (k, words) else rest

abbrev pub axi_version : Struct
axi_version =
    ("FpgaVersion", 1)
    ∷ ("ScratchPad", 1)
    ∷ ("DeviceDnaHigh", 1)
    ∷ ("DeviceDnaLow", 1)
    ∷ ("FdSerialHigh", 1)
    ∷ ("FdSerialLow", 1)
    ∷ ("MasterReset", 1)
    ∷ ("FpgaReload", 1)
    ∷ ("FpgaReloadAddress", 1)
    ∷ ("Counter", 1)
    ∷ ("FpgaReloadHalt", 1)
    ∷ ("reserved_11", 0x100 - 11)
    ∷ ("UserConstants", 64)
    ∷ ("reserved_0x140", 0x200 - 0x140)
    ∷ ("BuildStamp", 64)
    ∷ ("reserved_0x240", 0x4000 - 0x240)
    ∷ []

abbrev pub debug_bridge : Struct
debug_bridge =
    ("length", 1) ∷ ("tms_vector", 1) ∷ ("tdi_vector", 1) ∷ ("tdo_vector", 1) ∷ ("ctrl", 1) ∷ []

abbrev pub xbar : Struct
xbar = ("outMap", 4) ∷ []

abbrev pub tpr_csr : Struct
tpr_csr =
    ("irqEnable", 1)
    ∷ ("irqStatus", 1)
    ∷ ("partitionAddr", 1)
    ∷ ("dmaCount", 1)
    ∷ ("countReset", 1)
    ∷ ("trigMaster", 1)
    ∷ ("dmaFullThr", 1)
    ∷ ("dmaDrops", 1)
    ∷ []

abbrev pub clock_manager : Struct
clock_manager = ("reg", 256) ∷ []

abbrev pub trg_mon : Struct
trg_mon = ("reset", 1) ∷ ("reserved", 1) ∷ ("trigger", 12 * 2) ∷ []

abbrev pub base_channel : Struct
base_channel =
    ("control", 1)
    ∷ ("evtSel", 1)
    ∷ ("evtCount", 1)
    ∷ ("bsaDelay", 1)
    ∷ ("bsaWidth", 1)
    ∷ ("bsaCount", 1)
    ∷ ("bsaData", 1)
    ∷ ("reserved", 0x3F9)
    ∷ []

abbrev pub base_trigger : Struct
base_trigger =
    ("control", 1) ∷ ("delay", 1) ∷ ("width", 1) ∷ ("delayTap", 1) ∷ ("reserved", 0x3FC) ∷ []

abbrev pub tpr_base : Struct
tpr_base =
    ("channel", 14 * size base_channel)
    ∷ ("reserved_20", 2)
    ∷ ("frameCount", 1)
    ∷ ("reserved_2C", 2)
    ∷ ("bsaCntlCount", 1)
    ∷ ("bsaCntlData", 1)
    ∷ ("reserved_b", 0x3F9 + 0x400 * (31 - 14))
    ∷ ("trigger", 12 * size base_trigger)
    ∷ []

abbrev pub dma_control : Struct
dma_control =
    ("rxFree", 1)
    ∷ ("reserved_4", 15)
    ∷ ("rxFreeStat", 1)
    ∷ ("reserved_14", 47)
    ∷ ("rxMaxFrame", 1)
    ∷ ("rxFifoSize", 1)
    ∷ ("rxCount", 1)
    ∷ ("lastDesc", 1)
    ∷ []

abbrev pub tpr_core : Struct
tpr_core =
    ("SOFcounts", 1)
    ∷ ("EOFcounts", 1)
    ∷ ("Msgcounts", 1)
    ∷ ("CRCerrors", 1)
    ∷ ("RxRecClks", 1)
    ∷ ("RxRstDone", 1)
    ∷ ("RxDecErrs", 1)
    ∷ ("RxDspErrs", 1)
    ∷ ("CSR", 1)
    ∷ ("reserved", 1)
    ∷ ("TxRefClks", 1)
    ∷ ("BypassCnts", 1)
    ∷ ("FrameVersion", 1)
    ∷ []

abbrev pub ring_b : Struct
ring_b = ("csr", 1) ∷ ("data", 0x1FFF) ∷ []

abbrev pub tpg_mini : Struct
tpg_mini =
    ("ClkSel", 1)
    ∷ ("BaseCntl", 1)
    ∷ ("PulseIdU", 1)
    ∷ ("PulseIdL", 1)
    ∷ ("TStampU", 1)
    ∷ ("TStampL", 1)
    ∷ ("FixedRate", 10)
    ∷ ("RateReload", 1)
    ∷ ("HistoryCntl", 1)
    ∷ ("FwVersion", 1)
    ∷ ("Resources", 1)
    ∷ ("BsaCompleteU", 1)
    ∷ ("BsaCompleteL", 1)
    ∷ ("reserved_22", 128 - 22)
    ∷ ("BsaDef", 64 * 2)
    ∷ ("reserved_256", 320 - 256)
    ∷ ("CntPLL", 1)
    ∷ ("Cnt186M", 1)
    ∷ ("reserved_322", 1)
    ∷ ("CntIntvl", 1)
    ∷ ("CntBRT", 1)
    ∷ []

-- The bytes of a struct.
abbrev pub bytes_of : Struct → ℕ
bytes_of s = 4 * size s

abbrev pub tpr_reg : Struct
tpr_reg =
    ("reserved_0", 0x10000 / 4)
    ∷ ("version", size axi_version)
    ∷ ("reserved_10000", (0x30000 - 0x20000) / 4)
    ∷ ("debug", size debug_bridge)
    ∷ ("reserved_30000", (0x10000 - bytes_of debug_bridge) / 4)
    ∷ ("xbar", size xbar)
    ∷ ("reserved_30010", (0x60000 - 0x40010) / 4)
    ∷ ("csr", size tpr_csr)
    ∷ ("reserved_60400", (0x400 - bytes_of tpr_csr) / 4)
    ∷ ("dma", size dma_control)
    ∷ ("reserved_78000", (0x17C00 - bytes_of dma_control) / 4)
    ∷ ("refclk", size clock_manager)
    ∷ ("reserved_7E000", (0x06000 - bytes_of clock_manager) / 4)
    ∷ ("trgmon", size trg_mon)
    ∷ ("reserved_80000", (0x02000 - bytes_of trg_mon) / 4)
    ∷ ("base", size tpr_base)
    ∷ ("reserved_C0000", (0x40000 - bytes_of tpr_base) / 4)
    ∷ ("tpr", size tpr_core)
    ∷ ("reserved_tpr", (0x10000 - bytes_of tpr_core) / 4)
    ∷ ("ring0", size ring_b)
    ∷ ("reserved_ring0", (0x10000 - bytes_of ring_b) / 4)
    ∷ ("ring1", size ring_b)
    ∷ ("reserved_ring1", (0x10000 - bytes_of ring_b) / 4)
    ∷ ("tpg", size tpg_mini)
    ∷ []

-- The offset in bytes of a field of a struct, and of a field of a block of `TprReg`.
abbrev pub offset_of : Struct → String → Option ℕ
offset_of s name = elim (field_at s name 0) [ none ↦ none | some (k, words) ↦ some (4 * k) ]

abbrev pub register : String → Struct → String → Option ℕ
register block s name = elim (offset_of tpr_reg block) [
  | none ↦ none
  | some base ↦ elim (offset_of s name) [ none ↦ none | some k ↦ some (base + k) ]
]
