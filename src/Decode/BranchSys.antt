-- ===== src/Decode/BranchSys.antt =====
-- src/decode/branch_sys.rs: the dispatch of the branch and system group. The decoders of the
-- system blocks are a parameter.
pub mod Fields
pub mod Immediate
pub mod Compare
pub mod Register
pub mod Exception
use f_arm.Base.{ℕ, ◌==◌, if◌then◌else◌}
use f_arm.Decode.Bits.{bits}
use f_arm.Decode.BranchSys.Compare.{decode_cmpbr}
use f_arm.Decode.BranchSys.Exception.{decode_exception}
use f_arm.Decode.BranchSys.Immediate.{
  decode_uncond_branch_imm, decode_cond_branch, decode_compare_branch, decode_test_branch,
}
use f_arm.Decode.BranchSys.Register.{decode_uncond_branch_reg}
use f_arm.Features.{FeatureSet}
use f_arm.Instruction.{Instruction}

-- `decode_system`, `decode_system_pair` and `decode_tchange`.
pub record SystemDecoders : Type 0 where
  pub system : ℕ → FeatureSet → Instruction → Instruction
  pub system_pair : ℕ → FeatureSet → Instruction → Instruction
  pub tchange : ℕ → FeatureSet → Instruction → Instruction

unfoldable pub decode : SystemDecoders → ℕ → ℕ → FeatureSet → Instruction → Instruction
decode blocks word ip features out =
    let b25_31 = bits word 25 7 in
    if b25_31 == 0b1101011
    then decode_uncond_branch_reg word features out
    else if bits word 24 8 == 0b1101_0100
    then decode_exception word features out
    else if bits word 22 10 == 0b11_0101_0100
    then blocks.system word features out
    else if bits word 22 10 == 0b11_0101_0101
    then blocks.system_pair word features out
    else if bits word 22 10 == 0b11_0101_0110
    then blocks.tchange word features out
    else if b25_31 == 0b0101010
    then decode_cond_branch word features out
    else if bits word 25 6 == 0b011010
    then decode_compare_branch word ip out
    else if bits word 25 6 == 0b011011
    then decode_test_branch word ip out
    else if bits word 25 6 == 0b111010
    then decode_cmpbr word ip features out
    else if bits word 26 5 == 0b00101
    then decode_uncond_branch_imm word ip out
    else out
