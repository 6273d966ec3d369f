-- ===== src/RoundTrip/Reg/Source1.antt =====
-- Data-processing with one source, and pointer authentication: decoded and encoded again.
use f_arm.Base.{ℕ, ◌/◌, ◌%◌, ◌^◌, ◌<◌, ◌≡◌, ◌⊎◌, arith, true, false}
use f_arm.Decode.Bits.{bit, bits}
use f_arm.Decode.Bits.Laws.{bit-cases}
use f_arm.Decode.DpImm.Bitfield.{reg, width_of}
use f_arm.Decode.DpReg.Source1.{
  dp_1source_code, decode_dp_1source_basic, pauth_lr_code, pauth_code, has_modifier, push_pauth_lr,
  decode_pauth_plain, decode_dp_1source_pauth, decode_dp_1source,
}
use f_arm.Encode.DpImm.Fields.{reg_num}
use f_arm.Encode.DpReg.Fields.{is_64}
use f_arm.Encode.DpReg.{encode}
use f_arm.Encode.DpReg.Source1.{
  dp_1source_opcode, enc_dp_1source_basic, pauth_lr_fields, pauth_fields, enc_pauth_plain,
  enc_dp_1source_pauth,
}
use f_arm.Encode.Error.{ok}
use f_arm.Features.{FeatureSet}
use f_arm.Instruction.{Instruction, set, push_operand, op}
use f_arm.Mnemonic.{Code}
use f_arm.Register.{RegWidth}
use f_arm.RoundTrip.Reads.{number-field}
use f_arm.RoundTrip.Reg.Shapes.{dp_1source_basic_packed, dp_1source_pauth_packed}

module _ (w : ℕ) (features : FeatureSet) (out : Instruction) where
  abbrev basic : Instruction
  basic = decode_dp_1source_basic (bit w 31) (bits w 10 6) (bits w 5 5) (bits w 0 5) features out

  abbrev pauth : Instruction
  pauth = decode_dp_1source_pauth (bit w 31) (bits w 10 6) (bits w 5 5) (bits w 0 5) features out

  encode-dp_1source_basic : (basic ≡ out) ⊎ (encode basic ≡ enc_dp_1source_basic basic)
  unfolding decode_dp_1source_basic dp_1source_code set push_operand encode
  encode-dp_1source_basic = ground (arith, bit-cases w 31)

  abbrev plain : Instruction
  plain = decode_pauth_plain (bits w 10 6) (bits w 5 5) (bits w 0 5) features out

  encode-pauth_plain : (plain ≡ out) ⊎ (encode plain ≡ enc_dp_1source_pauth plain)
  unfolding decode_pauth_plain pauth_code set push_operand encode
  encode-pauth_plain = ground arith

  encode-pauth_lr :
      (c : Code)
      → (c ≡ Code.paciasppc)
        ⊎ (c ≡ Code.pacibsppc)
        ⊎ (c ≡ Code.pacnbiasppc)
        ⊎ (c ≡ Code.pacnbibsppc)
        ⊎ (c ≡ Code.autiasppcr)
        ⊎ (c ≡ Code.autibsppcr)
      → encode (push_pauth_lr c (bits w 5 5) out)
        ≡ enc_dp_1source_pauth (push_pauth_lr c (bits w 5 5) out)
  unfolding push_pauth_lr has_modifier set push_operand encode
  encode-pauth_lr c k = ground arith

  encode-dp_1source_pauth : (pauth ≡ out) ⊎ (encode pauth ≡ enc_dp_1source_pauth pauth)
  unfolding decode_dp_1source_pauth pauth_lr_code
  encode-dp_1source_pauth = ground (
    arith,
    encode-pauth_plain,
    encode-pauth_lr Code.paciasppc,
    encode-pauth_lr Code.pacibsppc,
    encode-pauth_lr Code.pacnbiasppc,
    encode-pauth_lr Code.pacnbibsppc,
    encode-pauth_lr Code.autiasppcr,
    encode-pauth_lr Code.autibsppcr,
  )

  enc-decode_dp_1source_basic :
      w < 2 ^ 32
      → w / 2 ^ 21 % 256 ≡ 0b11010110
      → bit w 30 ≡ 1
      → bit w 29 ≡ 0
      → bits w 16 5 ≡ 0
      → (basic ≡ out) ⊎ (enc_dp_1source_basic basic ≡ ok w)
  unfolding decode_dp_1source_basic dp_1source_code set push_operand enc_dp_1source_basic
      dp_1source_opcode is_64 reg_num op reg
  enc-decode_dp_1source_basic h e h30 h29 h16 = ground (
    arith,
    bit-cases w 31,
    number-field w 5 false (width_of (bit w 31)),
    number-field w 0 false (width_of (bit w 31)),
    dp_1source_basic_packed w h e h30 h29 h16,
  )

  enc-decode_dp_1source_pauth :
      w < 2 ^ 32
      → w / 2 ^ 21 % 256 ≡ 0b11010110
      → bit w 30 ≡ 1
      → bit w 29 ≡ 0
      → bits w 16 5 ≡ 1
      → (pauth ≡ out) ⊎ (enc_dp_1source_pauth pauth ≡ ok w)
  unfolding decode_dp_1source_pauth decode_pauth_plain push_pauth_lr has_modifier pauth_lr_code
      pauth_code set push_operand enc_dp_1source_pauth pauth_lr_fields pauth_fields enc_pauth_plain
      reg_num op reg
  enc-decode_dp_1source_pauth h e h30 h29 h16 = ground (
    arith,
    bit-cases w 31,
    number-field w 5 false RegWidth.x64,
    number-field w 5 true RegWidth.x64,
    number-field w 0 false RegWidth.x64,
    dp_1source_pauth_packed w h e,
  )

-- A word of the one-source class either is left alone by the decoder or comes back from the
-- encoder: the plain forms, and pointer authentication with a plain, a zero and an implicit
-- source.
pub encode-decode_dp_1source :
    (w : ℕ) (features : FeatureSet) (out : Instruction)
    → w < 2 ^ 32
    → w / 2 ^ 21 % 256 ≡ 0b11010110
    → bit w 30 ≡ 1
    → (decode_dp_1source w features out ≡ out) ⊎ (encode (decode_dp_1source w features out) ≡ ok w)
unfolding decode_dp_1source
encode-decode_dp_1source w features out h e h30 = ground (
  arith,
  bit-cases w 29,
  encode-dp_1source_basic w features out,
  encode-dp_1source_pauth w features out,
  enc-decode_dp_1source_basic w features out h e h30,
  enc-decode_dp_1source_pauth w features out h e h30,
)
