-- ===== src/Decode/Gates.antt =====
-- The feature gates: what src/decode/dp_imm.rs emits against the feature column of `codes!`.
use f_arm.Base.{ℕ, ◌≡◌, ◌⊎◌, arith, true, inl, refl}
use f_arm.Decode.BranchSys.Immediate.{decode_auti_sppc}
use f_arm.Decode.Bits.{bit, bits}
use f_arm.Decode.DpImm.{
  decode, decode_op1, decode_addsub_imm, decode_addsub_imm_tags, decode_minmax_imm, addsub_code,
  minmax_code, decode_logical_imm, logical_code, decode_move_wide, move_wide_code, decode_pc_rel,
}
use f_arm.Decode.DpImm.Bitfield.{
  decode_bitfield, decode_extract, bitfield_code, emit_sbfm_alias, emit_ubfm_alias, emit_bfm_alias,
}
use f_arm.Features.{Feature, FeatureSet, has}
use f_arm.Instruction.{Instruction, set, set_alias, push_operand}
use f_arm.Mnemonic.Gates.{feature}

-- The instruction is the one that was given, or its code belongs to an accepted feature.
unfoldable pub Gated : FeatureSet → Instruction → Instruction → Type 0
Gated features out insn = (insn ≡ out) ⊎ (has features (feature insn.code) ≡ true)

module _ (w ip : ℕ) (features : FeatureSet) (out : Instruction)
    (h : has features Feature.base ≡ true) where
  addsub_code-Gated : (a b c : ℕ) → has features (feature (addsub_code a b c)) ≡ true
  unfolding addsub_code feature
  addsub_code-Gated a b c = ground arith

  logical_code-Gated : (a b : ℕ) → has features (feature (logical_code a b)) ≡ true
  unfolding logical_code feature
  logical_code-Gated a b = ground arith

  move_wide_code-Gated : (a b : ℕ) → has features (feature (move_wide_code a b)) ≡ true
  unfolding move_wide_code feature
  move_wide_code-Gated a b = ground arith

  bitfield_code-Gated : (a b : ℕ) → has features (feature (bitfield_code a b)) ≡ true
  unfolding bitfield_code feature
  bitfield_code-Gated a b = ground arith

  minmax_code-Gated :
      (a b : ℕ) → has features Feature.cssc ≡ true → has features (feature (minmax_code a b)) ≡ true
  unfolding minmax_code feature
  minmax_code-Gated a b k = ground arith

  pc_rel-Gated : Gated features out (decode_pc_rel w ip out)
  unfolding Gated decode_pc_rel set push_operand feature
  pc_rel-Gated = ground arith

  addsub-Gated : Gated features out (decode_addsub_imm w out)
  unfolding Gated decode_addsub_imm set set_alias push_operand
  addsub-Gated = ground (arith, addsub_code-Gated (bit w 31) (bit w 30) (bit w 29))

  tags-Gated : Gated features out (decode_addsub_imm_tags w features out)
  unfolding Gated decode_addsub_imm_tags set push_operand feature
  tags-Gated = ground arith

  minmax-Gated : Gated features out (decode_minmax_imm w features out)
  unfolding Gated decode_minmax_imm set push_operand
  minmax-Gated = ground (arith, minmax_code-Gated (bit w 31) (bits w 18 2))

  logical-Gated : Gated features out (decode_logical_imm w out)
  unfolding Gated decode_logical_imm set set_alias push_operand
  logical-Gated = ground (arith, logical_code-Gated (bit w 31) (bits w 29 2))

  move_wide-Gated : Gated features out (decode_move_wide w out)
  unfolding Gated decode_move_wide set set_alias push_operand
  move_wide-Gated = ground (arith, move_wide_code-Gated (bit w 31) (bits w 29 2))

  bitfield-Gated : Gated features out (decode_bitfield w out)
  unfolding Gated decode_bitfield emit_sbfm_alias emit_ubfm_alias emit_bfm_alias set set_alias
      push_operand
  bitfield-Gated = ground (arith, bitfield_code-Gated (bit w 31) (bits w 29 2))

  extract-Gated : Gated features out (decode_extract w out)
  unfolding Gated decode_extract set set_alias push_operand feature
  extract-Gated = ground arith

  sppc-Gated : has features Feature.pauth_lr ≡ true → Gated features out (decode_auti_sppc w out)
  unfolding Gated decode_auti_sppc set push_operand feature
  sppc-Gated k = ground arith

Gated-refl : (features : FeatureSet) (out : Instruction) → Gated features out out
unfolding Gated
Gated-refl features out = inl refl

-- With the base feature accepted, the decoder of the immediate group emits no code of a feature
-- that is not accepted: it leaves the instruction as it was instead.
pub decode_dp_imm-Gated :
    (w ip : ℕ) (features : FeatureSet) (out : Instruction)
    → has features Feature.base ≡ true
    → Gated features out (decode w ip features out)
unfolding decode decode_op1
decode_dp_imm-Gated w ip features out h = ground (
  arith,
  Gated-refl features out,
  pc_rel-Gated w ip features out h,
  addsub-Gated w ip features out h,
  tags-Gated w ip features out h,
  minmax-Gated w ip features out h,
  logical-Gated w ip features out h,
  move_wide-Gated w ip features out h,
  bitfield-Gated w ip features out h,
  extract-Gated w ip features out h,
  sppc-Gated w ip features out h,
)
