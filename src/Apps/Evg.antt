-- ===== src/Apps/Evg.antt =====
-- software/app/evgasync.cc and .hh: the asynchronous event generator.
pub mod Registers
pub mod Codes
pub mod Main
