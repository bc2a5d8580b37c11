-- ===== src/Prom.antt =====
-- software/PromLoader/EvrCardG2Prom.cpp and PromLoad.cpp: erase, program and verify the card's
-- boot PROM through its registers.
pub mod Registers
pub mod Flash
pub mod Cycles
pub mod Program
pub mod Card
pub mod Erase
pub mod Boot
pub mod Load
pub mod Success
pub mod Padding
pub mod Verify
pub mod Exit
mod Tests
