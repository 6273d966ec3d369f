-- ===== src/RoundTrip/Reg.antt =====
-- src/decode/dp_reg.rs and src/encode/dp_reg.rs together: a word decoded and encoded again.
pub mod Shapes
pub mod Sources
pub mod Operands
pub mod Shifted
pub mod Extended
pub mod Flags
pub mod Conditional
pub mod Source3
pub mod Source2
pub mod Source1
pub mod Classes
pub mod Group
