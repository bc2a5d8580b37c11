-- ===== src/Xvc.antt =====
-- software/app/tprxvc.cc: the virtual cable server, which shifts bits through the card's JTAG.
pub mod Socket
pub mod Shift
pub mod Serve
pub mod Clocks
pub mod Overflow
pub mod Clients
pub mod Main
pub mod Finite
pub mod Ends
pub mod Watched
mod Tests
