-- ===== src/Tests/Words.antt =====
-- Words of the repository's tests, decoded and encoded again.
use f_arm.Base.{ℕ, ◌≡◌, refl}
use f_arm.Decode.Bits.{bit, bits, sign_extend, decode_bit_masks, move_wide_preferred}
use f_arm.Decode.BranchSys.Immediate.{decode_auti_sppc}
use f_arm.Decode.DpImm.{
  decode, decode_pc_rel, decode_addsub_imm, decode_addsub_imm_tags, decode_minmax_imm,
  decode_logical_imm, logical_code, signed_imm, decode_move_wide, move_wide_code,
}
use f_arm.Decode.DpImm.Bitfield.{
  reg, width_of, decode_bitfield, decode_extract, emit_sbfm_alias, emit_bfm_alias, emit_ubfm_alias,
}
use f_arm.Encode.Arms.{is_mov, is_compare}
use f_arm.Encode.Bits.{
  encode_bit_masks, esize_loop, try_esize, replicates, encode_element, pack_n_imms, trailing_zeros,
  confirm, mask, cut_wmask,
}
use f_arm.Encode.DpImm.{encode}
use f_arm.Encode.DpImm.Arithmetic.{
  enc_pc_rel, pc_rel_imm21, too_far, addsub_op_s, recover_addsub_imm, enc_addsub_imm,
  enc_addsub_tags, enc_minmax_imm,
}
use f_arm.Encode.DpImm.Bitfield.{enc_bitfield, bitfield_opc, recover_bitfield_fields, enc_extract}
use f_arm.Encode.DpImm.Constant.{
  logical_opc, logical_operands, enc_logical_imm, enc_move_wide, move_wide_opc, factor_movz,
  factor_movn, factor_loop,
}
use f_arm.Encode.DpImm.Fields.{reg_num, imm_u, is_64}
use f_arm.Encode.Error.{Result, ok}
use f_arm.Features.{all_features, has}
use f_arm.Instruction.{new_invalid, set, set_alias, push_operand, op}
use f_arm.Register.Number.{number}
use f_arm.Register.Resolve.{gp_register}

unfoldable again : ℕ → Result ℕ
unfolding decode decode_pc_rel decode_addsub_imm decode_addsub_imm_tags decode_minmax_imm
    decode_logical_imm logical_code signed_imm decode_move_wide move_wide_code reg width_of
    decode_bitfield decode_extract emit_sbfm_alias emit_bfm_alias emit_ubfm_alias bit bits
    sign_extend decode_bit_masks move_wide_preferred encode is_64 reg_num imm_u enc_pc_rel
    pc_rel_imm21 too_far is_mov is_compare addsub_op_s recover_addsub_imm enc_addsub_imm
    enc_addsub_tags enc_minmax_imm enc_bitfield bitfield_opc recover_bitfield_fields enc_extract
    logical_operands logical_opc enc_logical_imm enc_move_wide move_wide_opc factor_movz factor_movn
    factor_loop encode_bit_masks esize_loop try_esize replicates encode_element pack_n_imms
    trailing_zeros confirm mask cut_wmask has gp_register number decode_auti_sppc set set_alias
    push_operand op new_invalid
again w = encode (decode w 0x1000 all_features (new_invalid w 0x1000))

t0x11000420 : again 0x11000420 ≡ ok 0x11000420
unfolding again
t0x11000420 = refl

t0xf100043f : again 0xF100043F ≡ ok 0xF100043F
unfolding again
t0xf100043f = refl

t0x910003e0 : again 0x910003E0 ≡ ok 0x910003E0
unfolding again
t0x910003e0 = refl

t0x92401c00 : again 0x92401C00 ≡ ok 0x92401C00
unfolding again
t0x92401c00 = refl

t0xf240001f : again 0xF240001F ≡ ok 0xF240001F
unfolding again
t0xf240001f = refl

t0xd2a00020 : again 0xD2A00020 ≡ ok 0xD2A00020
unfolding again
t0xd2a00020 = refl

t0x72800020 : again 0x72800020 ≡ ok 0x72800020
unfolding again
t0x72800020 = refl

t0x92800000 : again 0x92800000 ≡ ok 0x92800000
unfolding again
t0x92800000 = refl

t0x9344fc20 : again 0x9344FC20 ≡ ok 0x9344FC20
unfolding again
t0x9344fc20 = refl

t0xd37cec20 : again 0xD37CEC20 ≡ ok 0xD37CEC20
unfolding again
t0xd37cec20 = refl

t0xb37c0c20 : again 0xB37C0C20 ≡ ok 0xB37C0C20
unfolding again
t0xb37c0c20 = refl

t0x93c21020 : again 0x93C21020 ≡ ok 0x93C21020
unfolding again
t0x93c21020 = refl

t0x10000000 : again 0x10000000 ≡ ok 0x10000000
unfolding again
t0x10000000 = refl

t0x90000000 : again 0x90000000 ≡ ok 0x90000000
unfolding again
t0x90000000 = refl

t0x91c01420 : again 0x91C01420 ≡ ok 0x91C01420
unfolding again
t0x91c01420 = refl

t0x11c3f483 : again 0x11C3F483 ≡ ok 0x11C3F483
unfolding again
t0x11c3f483 = refl

t0x32000000 : again 0x32000000 ≡ ok 0x32000000
unfolding again
t0x32000000 = refl
