-- ===== src/RoundTrip/Branch/Immediate.antt =====
-- The branches to a label, but the ones that compare two operands: decoded and encoded again.
use f_arm.Base.{
  ℕ, ◌+◌, ◌*◌, ◌/◌, ◌%◌, ◌^◌, ◌<◌, ◌≡◌, ◌⊎◌, ◌∙◌, arith, false, shr, bit_and, bit_or, shl32,
}
use f_arm.Base.Bits.{bit_and_mask, or_field}
use f_arm.Decode.Bits.{bit, bits}
use f_arm.Decode.Bits.Laws.{bit-cases, bit_lem, bits_lem}
use f_arm.Decode.BranchSys.Immediate.{
  decode_uncond_branch_imm, decode_cond_branch, compare_branch_code, decode_compare_branch,
  decode_test_branch,
}
use f_arm.Decode.DpImm.Bitfield.{reg, width_of}
use f_arm.Encode.BranchSys.Immediate.{
  hinted, enc_cond_branch, links, enc_uncond_branch_imm, compare_branch_fields, enc_compare_branch,
  tests_nonzero, enc_test_branch,
}
use f_arm.Encode.Error.{ok}
use f_arm.Enums.Laws.{as_u4-condition_from_bits}
use f_arm.Features.{FeatureSet}
use f_arm.Instruction.{Instruction, set, push_operand, op}
use f_arm.RoundTrip.Branch.Labels.{rel_imm-target_26, rel_imm-target_19, rel_imm-target_14}
use f_arm.RoundTrip.Branch.Shapes.{
  uncond_branch_imm_packed, cond_branch_packed, compare_branch_packed, test_branch_packed,
}
use f_arm.RoundTrip.Reads.{bit-lt, bits-lt, number-field}

-- A `B` or `BL` word at a 64-bit address comes back from the encoder, which recovers the offset
-- from the absolute label.
pub enc-decode_uncond_branch_imm :
    (w ip : ℕ) (out : Instruction)
    → w < 2 ^ 32
    → w / 2 ^ 26 % 32 ≡ 0b00101
    → ip < 2 ^ 64
    → out.ip ≡ ip
    → enc_uncond_branch_imm (decode_uncond_branch_imm w ip out) ≡ ok w
unfolding decode_uncond_branch_imm enc_uncond_branch_imm set push_operand op links
enc-decode_uncond_branch_imm w ip out h e hip same = ground (
  arith,
  bit-cases w 31,
  bit_lem w 31,
  bits_lem w 29 3 (omega arith) (omega arith),
  bits-lt w 0 26,
  rel_imm-target_26 ip (bits w 0 26) hip,
  uncond_branch_imm_packed w h e,
)

-- A conditional branch word, hinted or not, comes back from the encoder, or is left alone where
-- the hint is not accepted.
pub enc-decode_cond_branch :
    (w : ℕ) (features : FeatureSet) (out : Instruction)
    → w < 2 ^ 32
    → w / 2 ^ 24 % 256 ≡ 0b01010100
    → out.ip < 2 ^ 64
    → (decode_cond_branch w features out ≡ out)
      ⊎ (enc_cond_branch (decode_cond_branch w features out) ≡ ok w)
unfolding decode_cond_branch enc_cond_branch set push_operand op hinted
enc-decode_cond_branch w features out h e hip = ground (
  arith,
  bit-cases w 4,
  bit_lem w 24,
  bits-lt w 5 19,
  bits-lt w 0 4,
  as_u4-condition_from_bits (bits w 0 4),
  rel_imm-target_19 out.ip (bits w 5 19) hip,
  cond_branch_packed w h e,
)

compare_branch_code_fields :
    (op sf : ℕ) → op < 2 → sf < 2 → compare_branch_fields (compare_branch_code op sf) ≡ (sf, op)
unfolding compare_branch_code compare_branch_fields
compare_branch_code_fields op sf h k = ground arith

-- A `CBZ` or `CBNZ` word at a 64-bit address comes back from the encoder.
pub enc-decode_compare_branch :
    (w ip : ℕ) (out : Instruction)
    → w < 2 ^ 32
    → w / 2 ^ 25 % 64 ≡ 0b011010
    → ip < 2 ^ 64
    → out.ip ≡ ip
    → enc_compare_branch (decode_compare_branch w ip out) ≡ ok w
unfolding decode_compare_branch enc_compare_branch set push_operand op reg
enc-decode_compare_branch w ip out h e hip same = ground (
  arith,
  bit-lt w 24,
  bit-lt w 31,
  bits-lt w 5 19,
  number-field w 0 false (width_of (bit w 31)),
  compare_branch_code_fields (bit w 24) (bit w 31),
  rel_imm-target_19 ip (bits w 5 19) hip,
  compare_branch_packed w h e,
)

-- The position of the tested bit, in two parts of the word.
tested_bit :
    (b5 b40 : ℕ)
    → b5 < 2
    → b40 < 32
    → (bit_or (shl32 b5 5) b40 ≡ b5 * 32 + b40)
      × (bit_and (shr (b5 * 32 + b40) 5) 1 ≡ b5)
      × (bit_and (b5 * 32 + b40) 31 ≡ b40)
tested_bit b5 b40 h k = (
  or_field 5 (shl32 b5 5) b40 (omega arith) k ∙ omega arith,
  bit_and_mask 1 (shr (b5 * 32 + b40) 5) ∙ omega arith,
  bit_and_mask 5 (b5 * 32 + b40) ∙ omega arith,
)

-- A `TBZ` or `TBNZ` word at a 64-bit address comes back from the encoder, the position of the bit
-- included.
pub enc-decode_test_branch :
    (w ip : ℕ) (out : Instruction)
    → w < 2 ^ 32
    → w / 2 ^ 25 % 64 ≡ 0b011011
    → ip < 2 ^ 64
    → out.ip ≡ ip
    → enc_test_branch (decode_test_branch w ip out) ≡ ok w
unfolding decode_test_branch enc_test_branch set push_operand op reg tests_nonzero
enc-decode_test_branch w ip out h e hip same = ground (
  arith,
  bit-cases w 24,
  bit-lt w 31,
  bits-lt w 19 5,
  bits-lt w 5 14,
  number-field w 0 false (width_of (bit w 31)),
  tested_bit (bit w 31) (bits w 19 5),
  rel_imm-target_14 ip (bits w 5 14) hip,
  test_branch_packed w h e,
)
