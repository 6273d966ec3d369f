-- ===== src/RoundTrip/AddSub.antt =====
-- Add and subtract, with tags too, minimum and maximum (immediate): decoded and encoded again.
use f_arm.RoundTrip.Arms.{mov-arm, cmp-arm, cmn-arm}
use f_arm.Encode.Arms.{is_mov, is_compare}
use f_arm.Mnemonic.Names.{mnemonic}
use f_arm.Base.{ℕ, ◌+◌, ◌*◌, ◌/◌, ◌%◌, ◌^◌, ◌<◌, ◌≡◌, ◌==◌, arith, true, false}
use f_arm.Base.Bits.{bit_and_mask}
use f_arm.Decode.Bits.{bit, bits, sign_extend}
use f_arm.Decode.Bits.Laws.{bit-cases, bit_lem}
use f_arm.Decode.DpImm.{addsub_code, decode_addsub_imm, decode_minmax_imm, decode_addsub_imm_tags}
use f_arm.Decode.DpImm.Bitfield.{reg, width_of}
use f_arm.Encode.DpImm.Arithmetic.{
  addsub_op_s, recover_addsub_imm, enc_addsub_imm, enc_minmax_imm, enc_addsub_tags,
}
use f_arm.Encode.DpImm.Fields.{is_64}
use f_arm.Encode.Error.{ok}
use f_arm.Features.{Feature, FeatureSet, has}
use f_arm.Instruction.{Instruction, set, set_alias, push_operand, op}
use f_arm.Register.{RegWidth}
use f_arm.RoundTrip.Fields.{addsub_sum, minmax_sum, tags_sum}
use f_arm.RoundTrip.Reads.{bit-lt, bits-lt, number-field, addsub_word, minmax_word, tags_word}

addsub_code_fields :
    (sf op s : ℕ)
    → sf < 2
    → op < 2
    → s < 2
    → (is_64 (addsub_code sf op s) ≡ (sf == 1)) × (addsub_op_s (addsub_code sf op s) ≡ (op, s))
unfolding addsub_code is_64 addsub_op_s
addsub_code_fields sf op s h0 h1 h2 = ground arith

addsub_code-arm :
    (sf op s : ℕ)
    → (is_mov (mnemonic (addsub_code sf op s)) ≡ false)
      × (is_compare (mnemonic (addsub_code sf op s)) ≡ false)
unfolding addsub_code is_mov is_compare mnemonic
addsub_code-arm sf op s = ground arith

module _ (w : ℕ) (out : Instruction) where
  -- The code that the decoder sets first: operands and aliases keep it.
  pub decode_addsub-code :
      (decode_addsub_imm w out).code ≡ addsub_code (bit w 31) (bit w 30) (bit w 29)
  unfolding decode_addsub_imm set set_alias push_operand
  decode_addsub-code = ground arith

  addsub-reads :
      recover_addsub_imm (decode_addsub_imm w out)
      ≡ ok (bits w 0 5, bits w 5 5, bits w 10 12, bit w 22)
  unfolding decode_addsub_imm recover_addsub_imm set set_alias push_operand op reg
  addsub-reads = ground (
    arith,
    addsub_code-arm (bit w 31) (bit w 30) (bit w 29),
    mov-arm,
    cmp-arm,
    cmn-arm,
    bit-cases w 31,
    bit-cases w 30,
    bit-cases w 29,
    bit-cases w 22,
    bits-lt w 10 12,
    number-field w 5 true (width_of (bit w 31)),
    number-field w 0 true (width_of (bit w 31)),
    number-field w 0 false (width_of (bit w 31)),
  )

-- An add or subtract immediate word comes back from the encoder, through the `MOV`, `CMP` and
-- `CMN` aliases too.
pub enc-decode_addsub :
    (w : ℕ) (out : Instruction)
    → w < 2 ^ 32
    → w / 2 ^ 23 % 64 ≡ 0b100010
    → enc_addsub_imm (decode_addsub_imm w out) ≡ ok w
unfolding enc_addsub_imm
enc-decode_addsub w out h e = ground (
  arith,
  bit-cases w 31,
  bit-lt w 30,
  bit-lt w 29,
  bit-lt w 22,
  bits-lt w 0 5,
  bits-lt w 5 5,
  bits-lt w 10 12,
  decode_addsub-code w out,
  addsub-reads w out,
  addsub_code_fields (bit w 31) (bit w 30) (bit w 29),
  addsub_word w h e,
  addsub_sum (bit w 31) (bit w 30) (bit w 29) (bit w 22) (bits w 10 12) (bits w 5 5) (bits w 0 5),
)

bit-zero : (n : ℕ) → bit n 0 ≡ n % 2
bit-zero n = omega (arith, bit_lem n 0)

-- An allocated minimum or maximum immediate word comes back from the encoder, where the feature
-- is on.
pub enc-decode_minmax :
    (w : ℕ) (features : FeatureSet) (out : Instruction)
    → w < 2 ^ 32
    → w / 2 ^ 23 % 64 ≡ 0b100011
    → bit w 22 ≡ 1
    → has features Feature.cssc ≡ true
    → bit w 30 ≡ 0
    → bit w 29 ≡ 0
    → bits w 20 2 ≡ 0
    → enc_minmax_imm (decode_minmax_imm w features out) ≡ ok w
unfolding decode_minmax_imm enc_minmax_imm set set_alias push_operand op reg width_of sign_extend
enc-decode_minmax w features out h e h22 hf h30 h29 h20 = ground (
  arith,
  bit-cases w 31,
  bits-lt w 0 5,
  bits-lt w 5 5,
  bits-lt w 10 8,
  bits-lt w 18 2,
  bit-zero (bits w 18 2),
  number-field w 5 false RegWidth.w32,
  number-field w 5 false RegWidth.x64,
  number-field w 0 false RegWidth.w32,
  number-field w 0 false RegWidth.x64,
  bit_and_mask 8 (bits w 10 8),
  bit_and_mask 8 (0xffff_ff00 + bits w 10 8),
  minmax_word w h e h30 h29 h22 h20,
  minmax_sum (bit w 31) (bits w 18 2) (bits w 10 8) (bits w 5 5) (bits w 0 5),
)

-- An allocated tagged add or subtract word comes back from the encoder but for bits 15 and 14,
-- which come back clear, where memory tagging is on.
pub enc-decode_tags :
    (w : ℕ) (features : FeatureSet) (out : Instruction)
    → w < 2 ^ 32
    → w / 2 ^ 23 % 64 ≡ 0b100011
    → has features Feature.mte ≡ true
    → bit w 31 ≡ 1
    → bit w 29 ≡ 0
    → bit w 22 ≡ 0
    → enc_addsub_tags (decode_addsub_imm_tags w features out)
      ≡ ok (w / 2 ^ 16 * 2 ^ 16 + w % 2 ^ 14)
unfolding decode_addsub_imm_tags enc_addsub_tags set set_alias push_operand op reg
enc-decode_tags w features out h e hf h31 h29 h22 = ground (
  arith,
  bit-cases w 30,
  bits-lt w 0 5,
  bits-lt w 5 5,
  bits-lt w 10 4,
  bits-lt w 16 6,
  number-field w 5 true RegWidth.x64,
  number-field w 0 true RegWidth.x64,
  bit_and_mask 4 (bits w 16 6 * 2 ^ 4 % 2 ^ 64),
  tags_word w h e h31 h29 h22,
  tags_sum (bit w 30) (bits w 16 6) (bits w 10 4) (bits w 5 5) (bits w 0 5),
)
