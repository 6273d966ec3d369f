-- ===== src/Encode/DpImm/Fields.antt =====
-- src/encode/dp_imm.rs: the helpers that read an operand, and the width of a code.
use f_arm.Base.{ℕ, Bool, true, false, i64_as_u64}
use f_arm.Encode.Error.{EncodeError, Result, ok, err}
use f_arm.Instruction.{Instruction, op}
use f_arm.Mnemonic.{Code}
use f_arm.Operand.{Operand}
use f_arm.Register.Number.{number}

unfoldable pub reg_num : Instruction → ℕ → Result ℕ
reg_num insn n = elim (op insn n) [
  | Operand.reg r _ _ _ _ _ ↦ ok (number r)
  | _ ↦ err EncodeError.invalid_operand
]

unfoldable pub imm_u : Instruction → ℕ → Result ℕ
imm_u insn n = elim (op insn n) [
  | Operand.imm_unsigned v ↦ ok v
  | Operand.imm_logical v ↦ ok v
  | Operand.imm_signed v ↦ ok (i64_as_u64 v)
  | Operand.shift_amount v ↦ ok v
  | _ ↦ err EncodeError.invalid_operand
]

unfoldable pub is_64 : Code → Bool
is_64 Code.add_imm64 = true
is_64 Code.sub_imm64 = true
is_64 Code.adds_imm64 = true
is_64 Code.subs_imm64 = true
is_64 Code.addg_imm = true
is_64 Code.subg_imm = true
is_64 Code.and_imm64 = true
is_64 Code.orr_imm64 = true
is_64 Code.eor_imm64 = true
is_64 Code.ands_imm64 = true
is_64 Code.movn64 = true
is_64 Code.movz64 = true
is_64 Code.movk64 = true
is_64 Code.sbfm64 = true
is_64 Code.bfm64 = true
is_64 Code.ubfm64 = true
is_64 Code.extr64 = true
is_64 Code.smax_imm64 = true
is_64 Code.smin_imm64 = true
is_64 Code.umax_imm64 = true
is_64 Code.umin_imm64 = true
is_64 _ = false
