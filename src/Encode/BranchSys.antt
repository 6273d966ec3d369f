-- ===== src/Encode/BranchSys.antt =====
-- src/encode/branch_sys.rs: the dispatch on the code. The codes of the system blocks come with
-- those blocks.
pub mod Fields
pub mod Immediate
pub mod Compare
pub mod Register
pub mod Exception
use f_arm.Base.{ℕ}
use f_arm.Encode.BranchSys.Compare.{enc_cmpbr}
use f_arm.Encode.BranchSys.Exception.{enc_exception, enc_udf}
use f_arm.Encode.BranchSys.Immediate.{
  enc_cond_branch, enc_pauth_lr_sppc, enc_uncond_branch_imm, enc_compare_branch, enc_test_branch,
}
use f_arm.Encode.BranchSys.Register.{enc_branch_reg}
use f_arm.Encode.Error.{EncodeError, Result, err}
use f_arm.Instruction.{Instruction}
use f_arm.Mnemonic.{Code}

unfoldable pub encode : Instruction → Result ℕ
encode insn = elim insn.code [
  | Code.bcond ↦ enc_cond_branch insn
  | Code.bc_cond ↦ enc_cond_branch insn
  | Code.retaasppc ↦ enc_pauth_lr_sppc insn
  | Code.retabsppc ↦ enc_pauth_lr_sppc insn
  | Code.autiasppc ↦ enc_pauth_lr_sppc insn
  | Code.autibsppc ↦ enc_pauth_lr_sppc insn
  | Code.buncond ↦ enc_uncond_branch_imm insn
  | Code.bl_imm ↦ enc_uncond_branch_imm insn
  | Code.cbz32 ↦ enc_compare_branch insn
  | Code.cbz64 ↦ enc_compare_branch insn
  | Code.cbnz32 ↦ enc_compare_branch insn
  | Code.cbnz64 ↦ enc_compare_branch insn
  | Code.cbgt ↦ enc_cmpbr insn
  | Code.cbge ↦ enc_cmpbr insn
  | Code.cbhi ↦ enc_cmpbr insn
  | Code.cbhs ↦ enc_cmpbr insn
  | Code.cbeq ↦ enc_cmpbr insn
  | Code.cbne ↦ enc_cmpbr insn
  | Code.cblt ↦ enc_cmpbr insn
  | Code.cblo ↦ enc_cmpbr insn
  | Code.cbbgt ↦ enc_cmpbr insn
  | Code.cbbge ↦ enc_cmpbr insn
  | Code.cbbhi ↦ enc_cmpbr insn
  | Code.cbbhs ↦ enc_cmpbr insn
  | Code.cbbeq ↦ enc_cmpbr insn
  | Code.cbbne ↦ enc_cmpbr insn
  | Code.cbhgt ↦ enc_cmpbr insn
  | Code.cbhge ↦ enc_cmpbr insn
  | Code.cbhhi ↦ enc_cmpbr insn
  | Code.cbhhs ↦ enc_cmpbr insn
  | Code.cbheq ↦ enc_cmpbr insn
  | Code.cbhne ↦ enc_cmpbr insn
  | Code.tbz ↦ enc_test_branch insn
  | Code.tbnz ↦ enc_test_branch insn
  | Code.br ↦ enc_branch_reg insn
  | Code.blr ↦ enc_branch_reg insn
  | Code.ret ↦ enc_branch_reg insn
  | Code.eret ↦ enc_branch_reg insn
  | Code.drps ↦ enc_branch_reg insn
  | Code.braaz ↦ enc_branch_reg insn
  | Code.brabz ↦ enc_branch_reg insn
  | Code.blraaz ↦ enc_branch_reg insn
  | Code.blrabz ↦ enc_branch_reg insn
  | Code.braa ↦ enc_branch_reg insn
  | Code.brab ↦ enc_branch_reg insn
  | Code.blraa ↦ enc_branch_reg insn
  | Code.blrab ↦ enc_branch_reg insn
  | Code.retaa ↦ enc_branch_reg insn
  | Code.retab ↦ enc_branch_reg insn
  | Code.eretaa ↦ enc_branch_reg insn
  | Code.eretab ↦ enc_branch_reg insn
  | Code.retaasppcr ↦ enc_branch_reg insn
  | Code.retabsppcr ↦ enc_branch_reg insn
  | Code.svc ↦ enc_exception insn
  | Code.hvc ↦ enc_exception insn
  | Code.smc ↦ enc_exception insn
  | Code.brk ↦ enc_exception insn
  | Code.hlt ↦ enc_exception insn
  | Code.tcancel ↦ enc_exception insn
  | Code.tenter ↦ enc_exception insn
  | Code.dcps1 ↦ enc_exception insn
  | Code.dcps2 ↦ enc_exception insn
  | Code.dcps3 ↦ enc_exception insn
  | Code.udf ↦ enc_udf insn
  | _ ↦ err EncodeError.unsupported
]
