-- ===== src/Apps/Check.antt =====
-- software/app/tprtest.cc: the test program of the receiver.
pub mod Link
pub mod Rates
pub mod Frames
pub mod Capture
pub mod Client
pub mod Pulses
pub mod Pipeline
pub mod Judged
pub mod Settled
pub mod Triggers
pub mod Main
