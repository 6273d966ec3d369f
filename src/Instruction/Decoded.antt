-- ===== src/Instruction/Decoded.antt =====
-- src/decode/dp_imm.rs: the operand array after each class decoder.
use f_arm.Base.{ℕ, arith}
use f_arm.Decode.DpImm.{
  decode, decode_op1, decode_addsub_imm, decode_addsub_imm_tags, decode_minmax_imm,
  decode_logical_imm, decode_move_wide, decode_pc_rel,
}
use f_arm.Decode.BranchSys.Immediate.{decode_auti_sppc}
use f_arm.Decode.DpImm.Bitfield.{
  decode_bitfield, decode_extract, emit_sbfm_alias, emit_ubfm_alias, emit_bfm_alias,
}
use f_arm.Features.{FeatureSet}
use f_arm.Instruction.{Instruction, set, set_alias, push_operand}
use f_arm.Instruction.Laws.{WellFormed}

module _ (w ip : ℕ) (features : FeatureSet) (out : Instruction) (h : WellFormed out) where
  pc_rel-WellFormed : WellFormed (decode_pc_rel w ip out)
  unfolding WellFormed decode_pc_rel set push_operand
  pc_rel-WellFormed = ground arith

  addsub-WellFormed : WellFormed (decode_addsub_imm w out)
  unfolding WellFormed decode_addsub_imm set set_alias push_operand
  addsub-WellFormed = ground arith

  tags-WellFormed : WellFormed (decode_addsub_imm_tags w features out)
  unfolding WellFormed decode_addsub_imm_tags set push_operand
  tags-WellFormed = ground arith

  minmax-WellFormed : WellFormed (decode_minmax_imm w features out)
  unfolding WellFormed decode_minmax_imm set push_operand
  minmax-WellFormed = ground arith

  logical-WellFormed : WellFormed (decode_logical_imm w out)
  unfolding WellFormed decode_logical_imm set set_alias push_operand
  logical-WellFormed = ground arith

  move_wide-WellFormed : WellFormed (decode_move_wide w out)
  unfolding WellFormed decode_move_wide set set_alias push_operand
  move_wide-WellFormed = ground arith

  bitfield-WellFormed : WellFormed (decode_bitfield w out)
  unfolding WellFormed decode_bitfield emit_sbfm_alias emit_ubfm_alias emit_bfm_alias set set_alias
      push_operand
  bitfield-WellFormed = ground arith

  extract-WellFormed : WellFormed (decode_extract w out)
  unfolding WellFormed decode_extract set set_alias push_operand
  extract-WellFormed = ground arith

  sppc-WellFormed : WellFormed (decode_auti_sppc w out)
  unfolding WellFormed decode_auti_sppc set push_operand
  sppc-WellFormed = ground arith

-- The group decoder keeps five slots and at most five operands, for every word, address and
-- feature set.
pub decode-WellFormed :
    (w ip : ℕ) (features : FeatureSet) (out : Instruction)
    → WellFormed out
    → WellFormed (decode w ip features out)
unfolding decode decode_op1
decode-WellFormed w ip features out h = ground (
  arith,
  pc_rel-WellFormed w ip features out h,
  addsub-WellFormed w ip features out h,
  tags-WellFormed w ip features out h,
  minmax-WellFormed w ip features out h,
  logical-WellFormed w ip features out h,
  move_wide-WellFormed w ip features out h,
  bitfield-WellFormed w ip features out h,
  extract-WellFormed w ip features out h,
  sppc-WellFormed w ip features out h,
)
