-- ===== src/Encode/BranchSys/Register.antt =====
-- src/encode/branch_sys.rs: the branches to a register, and the returns.
use f_arm.Base.{ℕ, leb, if◌then◌else◌, shl32, ◌or◌}
use f_arm.Encode.DpImm.Fields.{reg_num}
use f_arm.Encode.Error.{EncodeError, Result, ok, err, ◌>>=◌}
use f_arm.Instruction.{Instruction}
use f_arm.Mnemonic.{Code}

-- Where the fields `rn` and `op4` of a form come from.
pub data RegisterForm : Type 0 where
  plain z_form modifier implicit implicit_z two_registers default_x30 : RegisterForm

-- `(opc, op3)` and the form.
unfoldable pub branch_reg_fields : Code → Result (ℕ × ℕ × RegisterForm)
branch_reg_fields Code.br = ok (0b0000, 0b000000, RegisterForm.plain)
branch_reg_fields Code.blr = ok (0b0001, 0b000000, RegisterForm.plain)
branch_reg_fields Code.ret = ok (0b0010, 0b000000, RegisterForm.default_x30)
branch_reg_fields Code.eret = ok (0b0100, 0b000000, RegisterForm.implicit)
branch_reg_fields Code.drps = ok (0b0101, 0b000000, RegisterForm.implicit)
branch_reg_fields Code.braaz = ok (0b0000, 0b000010, RegisterForm.z_form)
branch_reg_fields Code.brabz = ok (0b0000, 0b000011, RegisterForm.z_form)
branch_reg_fields Code.blraaz = ok (0b0001, 0b000010, RegisterForm.z_form)
branch_reg_fields Code.blrabz = ok (0b0001, 0b000011, RegisterForm.z_form)
branch_reg_fields Code.retaa = ok (0b0010, 0b000010, RegisterForm.implicit_z)
branch_reg_fields Code.retab = ok (0b0010, 0b000011, RegisterForm.implicit_z)
branch_reg_fields Code.retaasppcr = ok (0b0010, 0b000010, RegisterForm.modifier)
branch_reg_fields Code.retabsppcr = ok (0b0010, 0b000011, RegisterForm.modifier)
branch_reg_fields Code.eretaa = ok (0b0100, 0b000010, RegisterForm.implicit_z)
branch_reg_fields Code.eretab = ok (0b0100, 0b000011, RegisterForm.implicit_z)
branch_reg_fields Code.braa = ok (0b1000, 0b000010, RegisterForm.two_registers)
branch_reg_fields Code.brab = ok (0b1000, 0b000011, RegisterForm.two_registers)
branch_reg_fields Code.blraa = ok (0b1001, 0b000010, RegisterForm.two_registers)
branch_reg_fields Code.blrab = ok (0b1001, 0b000011, RegisterForm.two_registers)
branch_reg_fields _ = err EncodeError.unsupported

-- `(rn, op4)`
unfoldable pub recover_branch_reg : Instruction → RegisterForm → Result (ℕ × ℕ)
unfolding reg_num
recover_branch_reg insn RegisterForm.plain = do rn ← reg_num insn 0; ok (rn, 0)
recover_branch_reg insn RegisterForm.z_form = do rn ← reg_num insn 0; ok (rn, 0b11111)
recover_branch_reg insn RegisterForm.modifier = do op4 ← reg_num insn 0; ok (0b11111, op4)
recover_branch_reg insn RegisterForm.implicit = ok (0b11111, 0)
recover_branch_reg insn RegisterForm.implicit_z = ok (0b11111, 0b11111)
recover_branch_reg insn RegisterForm.two_registers = do
  rn ← reg_num insn 0
  op4 ← reg_num insn 1
  ok (rn, op4)
recover_branch_reg insn RegisterForm.default_x30 = do
  rn ← (if leb 1 insn.op_count then reg_num insn 0 else ok 30)
  ok (rn, 0)

unfoldable pub enc_branch_reg : Instruction → Result ℕ
enc_branch_reg insn = do
  (opc, op3, form) ← branch_reg_fields insn.code
  (rn, op4) ← recover_branch_reg insn form
  ok (shl32 0b1101011 25 or shl32 opc 21 or shl32 0b11111 16 or shl32 op3 10 or shl32 rn 5 or op4)
