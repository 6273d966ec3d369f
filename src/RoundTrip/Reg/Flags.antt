-- ===== src/RoundTrip/Reg/Flags.antt =====
-- Carry, checked pointers and flag manipulation: decoded and encoded again.
use f_arm.Base.{ℕ, ◌/◌, ◌%◌, ◌^◌, ◌<◌, ◌≡◌, ◌==◌, arith, true, false}
use f_arm.Decode.Bits.{bit, bits}
use f_arm.Decode.Bits.Laws.{bit-cases}
use f_arm.Decode.DpImm.Bitfield.{reg, width_of}
use f_arm.Decode.DpReg.Flags.{
  addsub_carry_code, decode_addsub_carry, decode_addsub_pt, decode_rmif, decode_setf,
}
use f_arm.Decode.DpReg.Shifted.{reg_shifted, folded_shift}
use f_arm.Encode.DpImm.Fields.{reg_num, imm_u}
use f_arm.Encode.DpReg.Fields.{is_64, reg_with_shift}
use f_arm.Encode.DpReg.Flags.{
  addsub_carry_fields, enc_addsub_carry, addsub_pt_op, lsl_amount, enc_addsub_pt, enc_rmif,
  enc_setf, setf_sz,
}
use f_arm.Encode.Error.{ok}
use f_arm.Features.{Feature, FeatureSet, has}
use f_arm.Instruction.{Instruction, set, set_alias, push_operand, op}
use f_arm.Register.{RegWidth}
use f_arm.RoundTrip.Reads.{bits-lt, number-field}
use f_arm.RoundTrip.Reg.Shapes.{addsub_carry_packed, addsub_pt_packed, rmif_packed, setf_packed}

addsub_carry_code_fields :
    (sf op s : ℕ)
    → sf < 2
    → op < 2
    → s < 2
    → (is_64 (addsub_carry_code sf op s) ≡ (sf == 1))
      × (addsub_carry_fields (addsub_carry_code sf op s) ≡ (op, s))
unfolding addsub_carry_code is_64 addsub_carry_fields
addsub_carry_code_fields sf op s h0 h1 h2 = ground arith

-- An allocated word of the add and subtract with carry class comes back from the encoder, through
-- the `NGC` and `NGCS` aliases too.
pub enc-decode_addsub_carry :
    (w : ℕ) (out : Instruction)
    → w < 2 ^ 32
    → w / 2 ^ 21 % 256 ≡ 0b11010000
    → bits w 10 6 ≡ 0
    → enc_addsub_carry (decode_addsub_carry w out) ≡ ok w
unfolding enc_addsub_carry decode_addsub_carry set set_alias push_operand op reg reg_num
    addsub_carry_code is_64 addsub_carry_fields
enc-decode_addsub_carry w out h e h10 = ground (
  arith,
  bit-cases w 31,
  bit-cases w 30,
  bit-cases w 29,
  number-field w 16 false (width_of (bit w 31)),
  number-field w 5 false (width_of (bit w 31)),
  number-field w 0 false (width_of (bit w 31)),
  addsub_carry_packed w h e h10,
)

-- An allocated checked-pointer word comes back from the encoder, where the feature is on.
pub enc-decode_addsub_pt :
    (w : ℕ) (features : FeatureSet) (out : Instruction)
    → w < 2 ^ 32
    → w / 2 ^ 21 % 256 ≡ 0b11010000
    → has features Feature.cpa ≡ true
    → bit w 31 ≡ 1
    → bit w 29 ≡ 0
    → bits w 13 3 ≡ 1
    → enc_addsub_pt (decode_addsub_pt w features out) ≡ ok w
unfolding enc_addsub_pt decode_addsub_pt set push_operand op reg reg_num reg_with_shift reg_shifted
    folded_shift lsl_amount addsub_pt_op
enc-decode_addsub_pt w features out h e hf h31 h29 h13 = ground (
  arith,
  bit-cases w 30,
  bits-lt w 10 3,
  number-field w 16 false RegWidth.x64,
  number-field w 5 true RegWidth.x64,
  number-field w 0 true RegWidth.x64,
  addsub_pt_packed w h e h31 h29 h13,
)

-- An allocated `RMIF` word comes back from the encoder.
pub enc-decode_rmif :
    (w : ℕ) (out : Instruction)
    → w < 2 ^ 32
    → w / 2 ^ 21 % 256 ≡ 0b11010000
    → bit w 31 ≡ 1
    → bit w 30 ≡ 0
    → bit w 29 ≡ 1
    → w / 2 ^ 10 % 32 ≡ 1
    → bit w 4 ≡ 0
    → enc_rmif (decode_rmif w out) ≡ ok w
unfolding enc_rmif decode_rmif set push_operand op reg reg_num imm_u
enc-decode_rmif w out h e h31 h30 h29 h10 h4 = ground (
  arith,
  bits-lt w 0 4,
  bits-lt w 15 6,
  number-field w 5 false RegWidth.x64,
  rmif_packed w h e h31 h30 h29 h10 h4,
)

-- An allocated `SETF8` or `SETF16` word comes back from the encoder.
pub enc-decode_setf :
    (w : ℕ) (out : Instruction)
    → w < 2 ^ 32
    → w / 2 ^ 21 % 256 ≡ 0b11010000
    → bit w 31 ≡ 0
    → bit w 30 ≡ 0
    → bit w 29 ≡ 1
    → bits w 15 6 ≡ 0
    → w / 2 ^ 10 % 16 ≡ 2
    → bit w 4 ≡ 0
    → bits w 0 4 ≡ 0b1101
    → enc_setf (decode_setf w out) ≡ ok w
unfolding enc_setf decode_setf set push_operand op reg reg_num setf_sz
enc-decode_setf w out h e h31 h30 h29 h15 h10 h4 h0 = ground (
  arith,
  bit-cases w 14,
  number-field w 5 false RegWidth.w32,
  setf_packed w h e h31 h30 h29 h15 h10 h4 h0,
)
