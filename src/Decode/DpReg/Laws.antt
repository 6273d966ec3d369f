-- ===== src/Decode/DpReg/Laws.antt =====
-- src/decode/dp_reg.rs: the operand array after each class decoder.
use f_arm.Base.{ℕ, arith}
use f_arm.Decode.Bits.{bit, bits}
use f_arm.Decode.DpReg.{decode, decode_op2, decode_op3}
use f_arm.Decode.DpReg.Flags.{
  decode_addsub_carry, decode_addsub_pt, decode_rmif, decode_setf, decode_cond_compare,
  decode_cond_select,
}
use f_arm.Decode.DpReg.Shifted.{
  decode_logical_shifted, decode_addsub_shifted, decode_addsub_extended,
}
use f_arm.Decode.DpReg.Source1.{
  decode_dp_1source, decode_dp_1source_basic, decode_dp_1source_pauth, decode_pauth_plain,
  push_pauth_lr,
}
use f_arm.Decode.DpReg.Source2.{
  decode_dp_2source, decode_dp_2source_opcode, decode_dp_2source_gated, decode_crc32, push_rrr,
}
use f_arm.Decode.DpReg.Source3.{decode_dp_3source, push_dp_3source}
use f_arm.Features.{FeatureSet}
use f_arm.Instruction.{Instruction, set, set_alias, push_operand}
use f_arm.Instruction.Laws.{WellFormed}

module _ (w : ℕ) (features : FeatureSet) (out : Instruction) (h : WellFormed out) where
  logical_shifted-WellFormed : WellFormed (decode_logical_shifted w out)
  unfolding WellFormed decode_logical_shifted set set_alias push_operand
  logical_shifted-WellFormed = ground arith

  addsub_shifted-WellFormed : WellFormed (decode_addsub_shifted w out)
  unfolding WellFormed decode_addsub_shifted set set_alias push_operand
  addsub_shifted-WellFormed = ground arith

  addsub_extended-WellFormed : WellFormed (decode_addsub_extended w out)
  unfolding WellFormed decode_addsub_extended set set_alias push_operand
  addsub_extended-WellFormed = ground arith

  addsub_carry-WellFormed : WellFormed (decode_addsub_carry w out)
  unfolding WellFormed decode_addsub_carry set set_alias push_operand
  addsub_carry-WellFormed = ground arith

  addsub_pt-WellFormed : WellFormed (decode_addsub_pt w features out)
  unfolding WellFormed decode_addsub_pt set push_operand
  addsub_pt-WellFormed = ground arith

  rmif-WellFormed : WellFormed (decode_rmif w out)
  unfolding WellFormed decode_rmif set push_operand
  rmif-WellFormed = ground arith

  setf-WellFormed : WellFormed (decode_setf w out)
  unfolding WellFormed decode_setf set push_operand
  setf-WellFormed = ground arith

  cond_compare-WellFormed : WellFormed (decode_cond_compare w out)
  unfolding WellFormed decode_cond_compare set push_operand
  cond_compare-WellFormed = ground arith

  cond_select-WellFormed : WellFormed (decode_cond_select w out)
  unfolding WellFormed decode_cond_select set set_alias push_operand
  cond_select-WellFormed = ground arith

  dp_3source-WellFormed : WellFormed (decode_dp_3source w out)
  unfolding WellFormed decode_dp_3source push_dp_3source set set_alias push_operand
  dp_3source-WellFormed = ground arith

  crc32-WellFormed : (sf opcode rd rn rm : ℕ) → WellFormed (decode_crc32 sf opcode rd rn rm out)
  unfolding WellFormed decode_crc32 set push_operand
  crc32-WellFormed sf opcode rd rn rm = ground arith

  gated-WellFormed : WellFormed (decode_dp_2source_gated w features out)
  unfolding WellFormed decode_dp_2source_gated push_rrr set push_operand
  gated-WellFormed =
      ground
        (arith, crc32-WellFormed (bit w 31) (bits w 10 6) (bits w 0 5) (bits w 5 5) (bits w 16 5))

  opcode-WellFormed : WellFormed (decode_dp_2source_opcode w features out)
  unfolding WellFormed decode_dp_2source_opcode push_rrr set set_alias push_operand
  opcode-WellFormed = ground (arith, gated-WellFormed)

  dp_2source-WellFormed : WellFormed (decode_dp_2source w features out)
  unfolding WellFormed decode_dp_2source set push_operand
  dp_2source-WellFormed = ground (arith, opcode-WellFormed)

  basic-WellFormed :
      (sf opcode rn rd : ℕ) → WellFormed (decode_dp_1source_basic sf opcode rn rd features out)
  unfolding WellFormed decode_dp_1source_basic set push_operand
  basic-WellFormed sf opcode rn rd = ground arith

  pauth_plain-WellFormed :
      (opcode rn rd : ℕ) → WellFormed (decode_pauth_plain opcode rn rd features out)
  unfolding WellFormed decode_pauth_plain set push_operand
  pauth_plain-WellFormed opcode rn rd = ground arith

  pauth-WellFormed :
      (sf opcode rn rd : ℕ) → WellFormed (decode_dp_1source_pauth sf opcode rn rd features out)
  unfolding WellFormed decode_dp_1source_pauth push_pauth_lr set push_operand
  pauth-WellFormed sf opcode rn rd = ground (arith, pauth_plain-WellFormed opcode rn rd)

  dp_1source-WellFormed : WellFormed (decode_dp_1source w features out)
  unfolding decode_dp_1source
  dp_1source-WellFormed = ground (
    arith,
    basic-WellFormed (bit w 31) (bits w 10 6) (bits w 5 5) (bits w 0 5),
    pauth-WellFormed (bit w 31) (bits w 10 6) (bits w 5 5) (bits w 0 5),
  )

-- The group decoder keeps five slots and at most five operands, for every word, address and
-- feature set.
pub decode_dp_reg-WellFormed :
    (w ip : ℕ) (features : FeatureSet) (out : Instruction)
    → WellFormed out
    → WellFormed (decode w ip features out)
unfolding decode decode_op2 decode_op3
decode_dp_reg-WellFormed w ip features out h = ground (
  arith,
  logical_shifted-WellFormed w features out h,
  addsub_shifted-WellFormed w features out h,
  addsub_extended-WellFormed w features out h,
  addsub_carry-WellFormed w features out h,
  addsub_pt-WellFormed w features out h,
  rmif-WellFormed w features out h,
  setf-WellFormed w features out h,
  cond_compare-WellFormed w features out h,
  cond_select-WellFormed w features out h,
  dp_3source-WellFormed w features out h,
  dp_2source-WellFormed w features out h,
  dp_1source-WellFormed w features out h,
)
