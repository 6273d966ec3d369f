-- ===== src/RoundTrip/Codes.antt =====
-- The dispatch of `encode` on the codes that the class decoders set.
use f_arm.Base.{Option, none, some, ℕ, ◌+◌, ◌*◌, ◌<◌, ◌≡◌, ◌≢◌, ◌⊎◌, arith, true}
use f_arm.Decode.Bits.{BitMasks, bit, bits, decode_bit_masks}
use f_arm.Decode.Bits.Laws.{bit-cases}
use f_arm.Decode.DpImm.{
  addsub_code, minmax_code, logical_code, move_wide_code, decode_addsub_imm_tags, decode_minmax_imm,
  decode_logical_imm, decode_move_wide, decode_pc_rel,
}
use f_arm.Decode.DpImm.Bitfield.{bitfield_code, decode_extract, decode_bitfield}
use f_arm.Encode.DpImm.{encode}
use f_arm.Encode.DpImm.Arithmetic.{enc_pc_rel, enc_addsub_imm, enc_addsub_tags, enc_minmax_imm}
use f_arm.Encode.DpImm.Bitfield.{enc_bitfield, enc_extract}
use f_arm.Encode.DpImm.Constant.{enc_logical_imm, enc_move_wide}
use f_arm.Features.{Feature, FeatureSet, has}
use f_arm.Instruction.{Instruction, set, set_alias, push_operand}
use f_arm.RoundTrip.Bitfield.{bit_five}
use f_arm.RoundTrip.MoveWide.{bit_two}
use f_arm.RoundTrip.Reads.{bits-lt}

module _ (insn : Instruction) (sf opc : ℕ) where
  pub encode-addsub : (s : ℕ) → insn.code ≡ addsub_code sf opc s → encode insn ≡ enc_addsub_imm insn
  unfolding addsub_code encode
  encode-addsub s c = ground arith

  pub encode-minmax : insn.code ≡ minmax_code sf opc → encode insn ≡ enc_minmax_imm insn
  unfolding minmax_code encode
  encode-minmax c = ground arith

  pub encode-logical : insn.code ≡ logical_code sf opc → encode insn ≡ enc_logical_imm insn
  unfolding logical_code encode
  encode-logical c = ground arith

  pub encode-move_wide : insn.code ≡ move_wide_code sf opc → encode insn ≡ enc_move_wide insn
  unfolding move_wide_code encode
  encode-move_wide c = ground arith

  pub encode-bitfield : insn.code ≡ bitfield_code sf opc → encode insn ≡ enc_bitfield insn
  unfolding bitfield_code encode
  encode-bitfield c = ground arith

-- The code that a decoder leaves is the one that it set first: operands and aliases keep it.
module _ (w : ℕ) (out : Instruction) where
  pub decode_move_wide-cases :
      (decode_move_wide w out ≡ out)
      ⊎ (((decode_move_wide w out).code ≡ move_wide_code (bit w 31) (bits w 29 2))
          × (bits w 29 2 ≢ 1)
          × ((bit w 31 ≡ 1) ⊎ (bits w 21 2 < 2)))
  unfolding decode_move_wide set set_alias push_operand
  decode_move_wide-cases = ground (arith, bit-cases w 31, bits-lt w 21 2, bit_two (bits w 21 2))

  pub decode_tags-cases :
      (features : FeatureSet)
      → (decode_addsub_imm_tags w features out ≡ out)
        ⊎ ((encode (decode_addsub_imm_tags w features out)
              ≡ enc_addsub_tags (decode_addsub_imm_tags w features out))
            × (has features Feature.mte ≡ true)
            × (bit w 31 ≡ 1)
            × (bit w 29 ≡ 0)
            × (bit w 22 ≡ 0))
  unfolding decode_addsub_imm_tags encode set push_operand
  decode_tags-cases features = ground (arith, bit-cases w 31, bit-cases w 29, bit-cases w 22)

  pub decode_minmax-cases :
      (features : FeatureSet)
      → (decode_minmax_imm w features out ≡ out)
        ⊎ (((decode_minmax_imm w features out).code ≡ minmax_code (bit w 31) (bits w 18 2))
            × (has features Feature.cssc ≡ true)
            × (bit w 30 ≡ 0)
            × (bit w 29 ≡ 0)
            × (bits w 20 2 ≡ 0))
  unfolding decode_minmax_imm set push_operand
  decode_minmax-cases features = ground (arith, bit-cases w 30, bit-cases w 29)

  pub decode_extract-cases :
      (decode_extract w out ≡ out)
      ⊎ ((encode (decode_extract w out) ≡ enc_extract (decode_extract w out))
          × (bits w 29 2 ≡ 0)
          × (bit w 21 ≡ 0)
          × (bit w 22 ≡ bit w 31)
          × ((bit w 31 ≡ 1) ⊎ (bits w 10 6 < 32)))
  unfolding decode_extract encode set set_alias push_operand
  decode_extract-cases =
      ground (arith, bit-cases w 31, bit-cases w 21, bits-lt w 10 6, bit_five (bits w 10 6))

  pub decode_bitfield-cases :
      (decode_bitfield w out ≡ out)
      ⊎ ((bits w 29 2 < 3)
          × (bit w 22 ≡ bit w 31)
          × ((bit w 31 ≡ 1) ⊎ ((bits w 16 6 < 32) × (bits w 10 6 < 32))))
  unfolding decode_bitfield
  decode_bitfield-cases = ground (
    arith,
    bit-cases w 31,
    bits-lt w 29 2,
    bits-lt w 16 6,
    bits-lt w 10 6,
    bit_five (bits w 10 6),
    bit_five (bits w 16 6),
  )

  pub encode-pc_rel : encode (decode_pc_rel w out.ip out) ≡ enc_pc_rel (decode_pc_rel w out.ip out)
  unfolding decode_pc_rel encode set push_operand
  encode-pc_rel = ground (arith, bit-cases w 31)

  abbrev masks_of_word : Option BitMasks
  masks_of_word = decode_bit_masks (bit w 22) (bits w 10 6) (bits w 16 6) true (32 + 32 * bit w 31)

  pub decode_logical-rejects : masks_of_word ≡ none → decode_logical_imm w out ≡ out
  unfolding decode_logical_imm
  decode_logical-rejects k = ground (arith, bit-cases w 31)

  pub decode_logical-narrow : bit w 31 ≡ 0 → bit w 22 ≡ 1 → decode_logical_imm w out ≡ out
  unfolding decode_logical_imm
  decode_logical-narrow h k = ground arith

  pub decode_logical-code :
      (m : BitMasks)
      → masks_of_word ≡ some m
      → (bit w 31 ≡ 1) ⊎ (bit w 22 ≡ 0)
      → (decode_logical_imm w out).code ≡ logical_code (bit w 31) (bits w 29 2)
  unfolding decode_logical_imm set set_alias push_operand
  decode_logical-code m k h = ground (arith, bit-cases w 31)
