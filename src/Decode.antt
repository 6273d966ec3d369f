-- ===== src/Decode.antt =====
-- src/decode: the hand-written decode tree.
pub mod Bits
pub mod BranchSys
pub mod DpImm
pub mod DpReg
pub mod Tree
pub mod Gates
