-- ===== src/Decode/Tree.antt =====
-- src/decode/mod.rs: the decode tree. The groups other than the data-processing and branch ones
-- are a parameter, a record of one decoder for each.
use f_arm.Base.{ℕ, ◌==◌, if◌then◌else◌, ◌||◌, bit_and, shr}
use f_arm.Decode.BranchSys
use f_arm.Decode.BranchSys.{SystemDecoders}
use f_arm.Decode.DpImm.{decode}
use f_arm.Decode.DpReg
use f_arm.Features.{FeatureSet}
use f_arm.Instruction.{Instruction, new_invalid, set, ◌▸◌}
use f_arm.Mnemonic.{Code}
use f_arm.Operand.{Operand}

-- `decode` of the sibling modules: the word, its address, the features, and `out`.
abbrev pub GroupDecoder : Type 0
GroupDecoder = ℕ → ℕ → FeatureSet → Instruction → Instruction

-- A cargo feature that is off is a decoder that leaves `out` as it is.
pub record GroupDecoders : Type 0 where
  pub apple : ℕ → FeatureSet → Instruction → Instruction
  pub sme : GroupDecoder
  pub sve : GroupDecoder
  pub system : SystemDecoders
  pub ldst : GroupDecoder
  pub simd_fp : GroupDecoder

unfoldable pub decode_reserved : GroupDecoders → GroupDecoder
decode_reserved groups word ip features out =
    if shr word 16 == 0
    then set out Code.udf ▸ Operand.imm_unsigned (bit_and word 0xffff)
    else if bit_and word 0xffff_f800 == 0x0020_1000
    then groups.apple word features out
    else if shr word 31 == 1
    then groups.sme word ip features out
    else out

-- The dispatch on `op0`, on an instruction that is already reset.
unfoldable pub dispatch : GroupDecoders → ℕ → GroupDecoder
dispatch groups op0 word ip features out =
    if op0 == 0b0000
    then decode_reserved groups word ip features out
    else if op0 == 0b0001 || op0 == 0b0011
    then out
    else if op0 == 0b0010
    then groups.sve word ip features out
    else if op0 == 0b1000 || op0 == 0b1001
    then decode word ip features out
    else if op0 == 0b1010 || op0 == 0b1011
    then f_arm.Decode.BranchSys.decode groups.system word ip features out
    else if op0 == 0b0100 || op0 == 0b0110 || op0 == 0b1100 || op0 == 0b1110
    then groups.ldst word ip features out
    else if op0 == 0b0101 || op0 == 0b1101
    then f_arm.Decode.DpReg.decode word ip features out
    else if op0 == 0b0111 || op0 == 0b1111
    then groups.simd_fp word ip features out
    else out

-- `decode_into` overwrites its `out`, so it is no argument here; `decode` returns it by value.
unfoldable pub decode_into : GroupDecoders → ℕ → ℕ → FeatureSet → Instruction
unfolding dispatch
decode_into groups word ip features =
    let op0 = bit_and (shr word 25) 0xf in
    dispatch groups op0 word ip features (new_invalid word ip)
