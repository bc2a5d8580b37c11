-- ===== src/Apps/Trig.antt =====
-- software/app/tprtrig.cc: the command line driver of the triggers.
pub mod Config
pub mod Rate
pub mod Trigger
pub mod Choice
pub mod Main
pub mod Refusal
