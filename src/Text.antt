-- ===== src/Text.antt =====
-- What the programs of software/app use of the C library on text: `strtoul` with base 0, and "%u".
pub mod Codes
pub mod Numbers
pub mod Decimal
mod Tests
