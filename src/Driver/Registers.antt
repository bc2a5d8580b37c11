-- ===== src/Driver/Registers.antt =====
-- software/kernel/tpr.h: the offsets of the registers that the driver uses.
use evr_card_g.Base.{ℕ, ◌+◌, ◌*◌}

abbrev pub xbar_out : ℕ → ℕ
xbar_out k = 0x40000 + 4 * k

abbrev pub irq_control : ℕ
irq_control = 0x60000

abbrev pub irq_status : ℕ
irq_status = 0x60004

abbrev pub rx_free : ℕ
rx_free = 0x60400

abbrev pub rx_max_frame : ℕ
rx_max_frame = 0x60500

abbrev pub rx_fifo_size : ℕ
rx_fifo_size = 0x60504

abbrev pub channel_control : ℕ → ℕ
channel_control i = 0x80000 + 0x1000 * i

abbrev pub trigger_control : ℕ → ℕ
trigger_control i = 0xA0000 + 0x1000 * i
