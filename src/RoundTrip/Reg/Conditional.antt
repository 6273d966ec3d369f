-- ===== src/RoundTrip/Reg/Conditional.antt =====
-- Conditional compare and conditional select: decoded and encoded again.
use f_arm.RoundTrip.Arms.{cset-arm, csetm-arm, cinc-arm, cinv-arm, cneg-arm}
use f_arm.Encode.Arms.{is_set_form, is_unary_form}
use f_arm.Mnemonic.Names.{mnemonic}
use f_arm.Base.{ℕ, ◌/◌, ◌%◌, ◌^◌, ◌<◌, ◌≡◌, ◌==◌, arith, false}
use f_arm.Decode.Bits.{bit, bits}
use f_arm.Decode.Bits.Laws.{bit-cases}
use f_arm.Decode.DpImm.Bitfield.{reg, width_of}
use f_arm.Decode.DpReg.Flags.{
  cond_compare_code, decode_cond_compare, cond_select_code, decode_cond_select,
}
use f_arm.Encode.DpImm.Fields.{reg_num, imm_u}
use f_arm.Encode.DpReg.Fields.{is_64, cond_of}
use f_arm.Encode.DpReg.Flags.{
  cond_compare_fields, enc_cond_compare, cond_select_fields, recover_cond_select, enc_cond_select,
}
use f_arm.Encode.Error.{ok}
use f_arm.Enums.{condition_from_bits}
use f_arm.Enums.Laws.{as_u4-condition_from_bits, invert-invert}
use f_arm.Instruction.{Instruction, set, set_alias, push_operand, op}
use f_arm.RoundTrip.Reads.{bit-lt, bits-lt, number-field}
use f_arm.RoundTrip.Reg.Shapes.{cond_compare_packed, cond_select_packed}

-- An allocated conditional compare word comes back from the encoder, in the register and in the
-- immediate form.
pub enc-decode_cond_compare :
    (w : ℕ) (out : Instruction)
    → w < 2 ^ 32
    → w / 2 ^ 21 % 256 ≡ 0b11010010
    → bit w 29 ≡ 1
    → bit w 10 ≡ 0
    → bit w 4 ≡ 0
    → enc_cond_compare (decode_cond_compare w out) ≡ ok w
unfolding enc_cond_compare decode_cond_compare set push_operand op reg reg_num imm_u cond_of
    cond_compare_code is_64 cond_compare_fields
enc-decode_cond_compare w out h e h29 h10 h4 = ground (
  arith,
  bit-cases w 31,
  bit-cases w 30,
  bit-cases w 11,
  bits-lt w 0 4,
  bits-lt w 12 4,
  bits-lt w 16 5,
  as_u4-condition_from_bits (bits w 12 4),
  number-field w 16 false (width_of (bit w 31)),
  number-field w 5 false (width_of (bit w 31)),
  cond_compare_packed w h e h29 h10 h4,
)

cond_select_code_fields :
    (sf op o2 : ℕ)
    → sf < 2
    → op < 2
    → o2 < 2
    → (is_64 (cond_select_code sf op o2) ≡ (sf == 1))
      × (cond_select_fields (cond_select_code sf op o2) ≡ (op, o2))
unfolding cond_select_code is_64 cond_select_fields
cond_select_code_fields sf op o2 h0 h1 h2 = ground arith

cond_select_code-arm :
    (sf op o2 : ℕ)
    → (is_set_form (mnemonic (cond_select_code sf op o2)) ≡ false)
      × (is_unary_form (mnemonic (cond_select_code sf op o2)) ≡ false)
unfolding cond_select_code is_set_form is_unary_form mnemonic
cond_select_code-arm sf op o2 = ground arith

module _ (w : ℕ) (out : Instruction) (h29 : bit w 29 ≡ 0) (h11 : bit w 11 ≡ 0) where
  pub cond_select-code :
      (decode_cond_select w out).code ≡ cond_select_code (bit w 31) (bit w 30) (bit w 10)
  unfolding decode_cond_select set set_alias push_operand
  cond_select-code = ground arith

  cond_select-reads :
      recover_cond_select (decode_cond_select w out)
      ≡ ok (bits w 0 5, bits w 5 5, bits w 16 5, bits w 12 4)
  unfolding decode_cond_select recover_cond_select reg_num cond_of set set_alias push_operand op reg
  cond_select-reads = ground (
    arith,
    cond_select_code-arm (bit w 31) (bit w 30) (bit w 10),
    cset-arm,
    csetm-arm,
    cinc-arm,
    cinv-arm,
    cneg-arm,
    bit-cases w 31,
    bit-cases w 30,
    bit-cases w 10,
    bits-lt w 12 4,
    as_u4-condition_from_bits (bits w 12 4),
    invert-invert (condition_from_bits (bits w 12 4)),
    number-field w 16 false (width_of (bit w 31)),
    number-field w 5 false (width_of (bit w 31)),
    number-field w 0 false (width_of (bit w 31)),
  )

-- An allocated conditional select word comes back from the encoder, through the `CSET`, `CSETM`,
-- `CINC`, `CINV` and `CNEG` aliases, whose condition is inverted, too.
pub enc-decode_cond_select :
    (w : ℕ) (out : Instruction)
    → w < 2 ^ 32
    → w / 2 ^ 21 % 256 ≡ 0b11010100
    → bit w 29 ≡ 0
    → bit w 11 ≡ 0
    → enc_cond_select (decode_cond_select w out) ≡ ok w
unfolding enc_cond_select
enc-decode_cond_select w out h e h29 h11 = ground (
  arith,
  bit-cases w 31,
  bit-lt w 30,
  bit-lt w 10,
  cond_select-code w out h29 h11,
  cond_select-reads w out h29 h11,
  cond_select_code_fields (bit w 31) (bit w 30) (bit w 10),
  cond_select_packed w h e h29 h11,
)
