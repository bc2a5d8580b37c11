-- ===== src/Regs.antt =====
-- software/app/tpr.hh and tpr.cc: the register blocks of the timing receiver.
pub mod Word
pub mod Layout
pub mod Apart
pub mod Version
pub mod Core
pub mod Blocks
pub mod Settings
pub mod Setup
pub mod Clock
pub mod Select
mod Tests
