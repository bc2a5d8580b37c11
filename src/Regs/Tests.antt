-- ===== src/Regs/Tests.antt =====
-- The theorems on a card that is one word of memory.
use evr_card_g.Base.{some, ◌/◌, ◌%◌, ◌^◌, ◌==◌, if◌then◌else◌, ℕ, true, ◌≡◌, refl}
use evr_card_g.Bus.{Bus}
use evr_card_g.Regs.Layout.{
  offset_of, register, tpr_reg, tpr_core, tpr_csr, dma_control, tpr_base, tpg_mini, debug_bridge,
}
use evr_card_g.Regs.Core.{csr}
use evr_card_g.Regs.Blocks.{
  xbar_base, csr_base, dma_base, refclk_base, base_base, tpg_base, trigger_base, word_at, ac_select,
}
use evr_card_g.Regs.Setup.{IsMemory}
use evr_card_g.Xvc.Shift.{jtag_base, length_offset, tms_offset, tdi_offset, tdo_offset, ctrl_offset}
use evr_card_g.Regs.Settings.{HoldsBits}

abbrev memory : Bus ℕ
memory = record { store = λ offset v c. v; load = λ offset c. (c, c); sleep_us = λ n c. c }

memory-HoldsBits : HoldsBits memory csr (λ j. true)
memory-HoldsBits = record { load-store = λ j v c w. refl }

-- A card whose registers are a function of the offset.
abbrev registers : Bus (ℕ → ℕ)
registers = record {
  store = λ offset v c o. if o == offset then v else c o;
  load = λ offset c. (c offset, c);
  sleep_us = λ n c. c;
}

registers-IsMemory : IsMemory registers
registers-IsMemory = record {
  load-store = λ o o' v c. refl;
  load-sleep_us = λ o n c. refl;
  load-load = λ o o' c. refl;
}

abbrev zeros : ℕ → ℕ
zeros o = 0

-- A time slot mask with bit 10 changes the kind of the selection.
ac_select_bit_10 : ac_select 2 0x400 / 2 ^ 11 % 4 ≡ 3
unfolding ac_select
ac_select_bit_10 = refl

-- The offsets that the models use are those of the structs.
offsets_of_blocks :
    (offset_of tpr_reg "xbar" ≡ some xbar_base)
    × (offset_of tpr_reg "csr" ≡ some csr_base)
    × (offset_of tpr_reg "dma" ≡ some dma_base)
    × (offset_of tpr_reg "refclk" ≡ some refclk_base)
    × (offset_of tpr_reg "base" ≡ some base_base)
    × (offset_of tpr_reg "tpg" ≡ some tpg_base)
    × (offset_of tpr_reg "debug" ≡ some jtag_base)
    × (register "debug" debug_bridge "length" ≡ some length_offset)
    × (register "debug" debug_bridge "tms_vector" ≡ some tms_offset)
    × (register "debug" debug_bridge "tdi_vector" ≡ some tdi_offset)
    × (register "debug" debug_bridge "tdo_vector" ≡ some tdo_offset)
    × (register "debug" debug_bridge "ctrl" ≡ some ctrl_offset)
    × (offset_of tpr_reg "ring0" ≡ some 0xD0000)
    × (offset_of tpr_reg "ring1" ≡ some 0xE0000)
offsets_of_blocks =
    (refl, refl, refl, refl, refl, refl, refl, refl, refl, refl, refl, refl, refl, refl)

offsets_of_registers :
    (register "tpr" tpr_core "CSR" ≡ some csr)
    × (register "csr" tpr_csr "countReset" ≡ some (word_at csr_base 4))
    × (register "csr" tpr_csr "dmaFullThr" ≡ some (word_at csr_base 6))
    × (register "dma" dma_control "rxFifoSize" ≡ some (word_at dma_base 65))
    × (register "base" tpr_base "trigger" ≡ some trigger_base)
    × (register "tpg" tpg_mini "BsaDef" ≡ some (word_at tpg_base 128))
offsets_of_registers = (refl, refl, refl, refl, refl, refl)
