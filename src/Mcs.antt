-- ===== src/Mcs.antt =====
-- software/PromLoader/McsRead.cpp: the reader of Intel hex (.mcs) files.
pub mod Stream
pub mod Hex
pub mod Reader
pub mod Read
pub mod Took
pub mod Progress
pub mod Invariant
pub mod Loaded
pub mod Delivery
pub mod Encode
pub mod Accept
pub mod RoundTrip
pub mod Records
pub mod Queue
pub mod Hands
mod Tests
