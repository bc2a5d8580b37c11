-- ===== src/Apps.antt =====
-- The command line programs of software/app: their options, and what they do with the registers.
pub mod Options
pub mod Dumps
pub mod Frames
pub mod Evg
pub mod Reals
pub mod Trig
pub mod Check
pub mod Tool
pub mod Loopback
pub mod Lock
mod Tests
