-- ===== src/Encode/DpImm.antt =====
-- src/encode/dp_imm.rs: the encoder of the immediate data-processing group.
pub mod Fields
pub mod Arithmetic
pub mod Constant
pub mod Bitfield
use f_arm.Base.{ℕ}
use f_arm.Encode.DpImm.Arithmetic.{enc_pc_rel, enc_addsub_imm, enc_addsub_tags, enc_minmax_imm}
use f_arm.Encode.DpImm.Bitfield.{enc_bitfield, enc_extract}
use f_arm.Encode.DpImm.Constant.{enc_logical_imm, enc_move_wide}
use f_arm.Encode.Error.{EncodeError, Result, err}
use f_arm.Instruction.{Instruction}
use f_arm.Mnemonic.{Code}

unfoldable pub encode : Instruction → Result ℕ
encode insn = elim insn.code [
  | Code.adr ↦ enc_pc_rel insn
  | Code.adrp ↦ enc_pc_rel insn
  | Code.add_imm32 ↦ enc_addsub_imm insn
  | Code.add_imm64 ↦ enc_addsub_imm insn
  | Code.sub_imm32 ↦ enc_addsub_imm insn
  | Code.sub_imm64 ↦ enc_addsub_imm insn
  | Code.adds_imm32 ↦ enc_addsub_imm insn
  | Code.adds_imm64 ↦ enc_addsub_imm insn
  | Code.subs_imm32 ↦ enc_addsub_imm insn
  | Code.subs_imm64 ↦ enc_addsub_imm insn
  | Code.addg_imm ↦ enc_addsub_tags insn
  | Code.subg_imm ↦ enc_addsub_tags insn
  | Code.smax_imm32 ↦ enc_minmax_imm insn
  | Code.smax_imm64 ↦ enc_minmax_imm insn
  | Code.smin_imm32 ↦ enc_minmax_imm insn
  | Code.smin_imm64 ↦ enc_minmax_imm insn
  | Code.umax_imm32 ↦ enc_minmax_imm insn
  | Code.umax_imm64 ↦ enc_minmax_imm insn
  | Code.umin_imm32 ↦ enc_minmax_imm insn
  | Code.umin_imm64 ↦ enc_minmax_imm insn
  | Code.and_imm32 ↦ enc_logical_imm insn
  | Code.and_imm64 ↦ enc_logical_imm insn
  | Code.orr_imm32 ↦ enc_logical_imm insn
  | Code.orr_imm64 ↦ enc_logical_imm insn
  | Code.eor_imm32 ↦ enc_logical_imm insn
  | Code.eor_imm64 ↦ enc_logical_imm insn
  | Code.ands_imm32 ↦ enc_logical_imm insn
  | Code.ands_imm64 ↦ enc_logical_imm insn
  | Code.movn32 ↦ enc_move_wide insn
  | Code.movn64 ↦ enc_move_wide insn
  | Code.movz32 ↦ enc_move_wide insn
  | Code.movz64 ↦ enc_move_wide insn
  | Code.movk32 ↦ enc_move_wide insn
  | Code.movk64 ↦ enc_move_wide insn
  | Code.sbfm32 ↦ enc_bitfield insn
  | Code.sbfm64 ↦ enc_bitfield insn
  | Code.bfm32 ↦ enc_bitfield insn
  | Code.bfm64 ↦ enc_bitfield insn
  | Code.ubfm32 ↦ enc_bitfield insn
  | Code.ubfm64 ↦ enc_bitfield insn
  | Code.extr32 ↦ enc_extract insn
  | Code.extr64 ↦ enc_extract insn
  | _ ↦ err EncodeError.unsupported
]
