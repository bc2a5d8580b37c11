-- ===== src/Apps/Lock.antt =====
-- software/app/evrlock.cc: the program that watches the lock of the receiver.
pub mod Registers
pub mod Monitor
pub mod Main
