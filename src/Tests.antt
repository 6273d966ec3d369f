-- ===== src/Tests.antt =====
-- Runs on known words, and the instances of the theorems at concrete inputs.
pub mod Words
pub mod Witnesses
pub mod Registers
pub mod Edits
pub mod Branches
