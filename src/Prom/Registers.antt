-- ===== src/Prom/Registers.antt =====
-- class EvrCardG2Prom: the registers that it uses, and the words that it stores there.
use evr_card_g.Base.{ℕ, ◌*◌, ◌%◌, ◌^◌, bit_or}

-- The offsets that the constructor computes.
abbrev pub map_version : ℕ
map_version = 0x10000

abbrev pub map_prom_type : ℕ
map_prom_type = 0x10400

abbrev pub map_build : ℕ
map_build = 0x10800

abbrev pub map_data : ℕ
map_data = 0x20000

abbrev pub map_address : ℕ
map_address = 0x20004

abbrev pub map_read : ℕ
map_read = 0x20008

abbrev pub map_test : ℕ
map_test = 0x2000C

abbrev pub read_mask : ℕ
read_mask = 0x80000000

-- Command and data of 16 bits in one word.
unfoldable pub gen_req_word : ℕ → ℕ → ℕ
gen_req_word cmd word = bit_or (cmd * 2 ^ 16 % 2 ^ 32) word
