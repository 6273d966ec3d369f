-- ===== src/Encode.antt =====
-- src/encode: the encoder, by instruction group.
pub mod Error
pub mod Arms
pub mod Bits
pub mod DpImm
pub mod DpReg
pub mod BranchSys
pub mod Groups
pub mod Dispatch
