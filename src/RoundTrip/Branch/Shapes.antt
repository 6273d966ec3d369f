-- ===== src/RoundTrip/Branch/Shapes.antt =====
-- Chains of `|` over the fields of a word of the branch group that give the word back.
pub mod Labels
pub mod Compare
pub mod Register
pub use Labels.{
  cond_branch_sum, cond_branch_packed, uncond_branch_imm_sum, uncond_branch_imm_packed,
  compare_branch_sum, compare_branch_packed, test_branch_sum, test_branch_packed,
}
pub use Compare.{cmpbr_register_packed, cmpbr_immediate_packed}
pub use Register.{branch_reg_packed, exception_packed}
