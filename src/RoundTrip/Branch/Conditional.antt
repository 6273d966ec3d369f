-- ===== src/RoundTrip/Branch/Conditional.antt =====
-- Conditional branches whose label was edited: encoded, and decoded again.
use f_arm.Base.{
  ℕ, ◌==◌, if◌then◌else◌, ◌+◌, ◌*◌, ◌/◌, ◌%◌, ◌^◌, ◌<◌, ◌≡◌, ◌⊎◌, ◌∙◌, sym, ap, arith, refl, true,
  shl32, ◌or◌,
}
use f_arm.Decode.Bits.{bit, bits}
use f_arm.Decode.Bits.Laws.{bit_lem, bits_lem}
use f_arm.Decode.BranchSys.Fields.{branch_target}
use f_arm.Decode.BranchSys.Immediate.{decode_cond_branch}
use f_arm.Encode.BranchSys.Fields.{rel_imm}
use f_arm.Encode.BranchSys.Immediate.{cond_operand, hinted, enc_cond_branch}
use f_arm.Encode.Error.{Result, ok, ◌>>=◌}
use f_arm.Enums.{Condition, as_u4}
use f_arm.Enums.Laws.{condition_from_bits-as_u4, as_u4-lt}
use f_arm.Features.{Feature, FeatureSet, has}
use f_arm.Instruction.{Instruction, new_invalid, set, push_operand, op, ◌▸◌}
use f_arm.Instruction.Flow.{
  near_branch_target, flow_control, flow_of, plain_branch_flow, is_direct, target_or_zero,
  read_label,
}
use f_arm.Instruction.Project.{find_first}
use f_arm.Mnemonic.{Code}
use f_arm.Mnemonic.Names.{mnemonic}
use f_arm.Operand.{Operand}
use f_arm.RoundTrip.Branch.Accepts.{FieldWidth}
use f_arm.RoundTrip.Branch.Edited.{accepted, label-operand}
use f_arm.RoundTrip.Branch.Shapes.{cond_branch_sum}

cond-operand :
    (insn : Instruction) (c : Condition) → op insn 0 ≡ Operand.cond c → cond_operand insn ≡ ok c
unfolding cond_operand
cond-operand insn c e = ground arith

abbrev packed_word : Code → Condition → ℕ → Result ℕ
packed_word code c imm19 =
    ok (shl32 0b0101_0100 24 or shl32 imm19 5 or shl32 (hinted code) 4 or as_u4 c)

-- The encoder by the condition and the label.
encoded_cond :
    (insn : Instruction) (c : Condition) (t : ℕ)
    → op insn 0 ≡ Operand.cond c
    → op insn 1 ≡ Operand.label t
    → enc_cond_branch insn ≡ (rel_imm t insn.ip 19 2 >>= packed_word insn.code c)
unfolding enc_cond_branch
encoded_cond insn c t ec e = rw (cond-operand insn c ec, label-operand insn 1 t e) refl

abbrev code_of : ℕ → Code
code_of o0 = if o0 == 1 then Code.bc_cond else Code.bcond

-- The decoder by the fields.
decoded_cond :
    (w ip imm o0 : ℕ) (c : Condition) (features : FeatureSet)
    → o0 < 2
    → has features Feature.hbc ≡ true
    → imm < 2 ^ 19
    → w ≡ 0b0101_0100 * 2 ^ 24 + imm * 2 ^ 5 + o0 * 2 ^ 4 + as_u4 c
    → decode_cond_branch w features (new_invalid w ip) ≡ (
        set (new_invalid w ip) (code_of o0)
        ▸ Operand.cond c
        ▸ Operand.label (branch_target ip imm 21))
unfolding decode_cond_branch new_invalid
decoded_cond w ip imm o0 c features ho hbc hi e =
    let small = as_u4-lt c in
    let field : bits w 5 19 ≡ imm = omega (arith, bits_lem w 5 19 (omega arith) (omega arith)) in
    let named : bits w 0 4 ≡ as_u4 c = omega (arith, bits_lem w 0 4 (omega arith) (omega arith)) in
    let hint : bit w 4 ≡ o0 = omega (arith, bit_lem w 4) in
    let plain : bit w 24 ≡ 0 = omega (arith, bit_lem w 24) in
    rw (field, named, hint, plain, condition_from_bits-as_u4 c) (ground (arith, hbc))

-- What they leave, read back.
cond_fields :
    (w ip o0 t : ℕ) (c : Condition)
    → let left = set (new_invalid w ip) (code_of o0) ▸ Operand.cond c ▸ Operand.label t in
      (left.code ≡ code_of o0) × (op left 0 ≡ Operand.cond c) × (near_branch_target left ≡ t)
unfolding near_branch_target flow_control flow_of plain_branch_flow is_direct target_or_zero
    find_first read_label mnemonic set push_operand new_invalid op
cond_fields w ip o0 t c = ground arith

hinted-code :
    (code : Code)
    → (code ≡ Code.bcond) ⊎ (code ≡ Code.bc_cond)
    → (hinted code < 2) × (code_of (hinted code) ≡ code)
unfolding hinted
hinted-code code e = ground arith

-- A conditional branch whose condition or label was edited, from a 64-bit address to a 64-bit label:
-- where it encodes, its word is of the class, and where hinted branches are accepted it decodes at
-- the same address to the same code, condition and label. The conditions `AL` and `NV` stay apart.
pub decode-enc_cond_branch :
    (insn : Instruction) (w t : ℕ) (c : Condition) (features : FeatureSet)
    → (insn.code ≡ Code.bcond) ⊎ (insn.code ≡ Code.bc_cond)
    → op insn 0 ≡ Operand.cond c
    → op insn 1 ≡ Operand.label t
    → t < 2 ^ 64
    → insn.ip < 2 ^ 64
    → has features Feature.hbc ≡ true
    → enc_cond_branch insn ≡ ok w
    → (w < 2 ^ 32)
      × (w / 2 ^ 24 % 256 ≡ 0b0101_0100)
      × ((decode_cond_branch w features (new_invalid w insn.ip)).code ≡ insn.code)
      × (op (decode_cond_branch w features (new_invalid w insn.ip)) 0 ≡ Operand.cond c)
      × (near_branch_target (decode_cond_branch w features (new_invalid w insn.ip)) ≡ t)
decode-enc_cond_branch insn w t c features same ec e ht hip hbc k =
    let (imm, small, back, packed) =
      accepted FieldWidth.conditional t insn.ip (packed_word insn.code c) w ht hip
        (sym (encoded_cond insn c t ec e) ∙ k) in
    let (bit, code) = hinted-code insn.code same in
    let low = as_u4-lt c in
    let word : w ≡ 0b0101_0100 * 2 ^ 24 + imm * 2 ^ 5 + hinted insn.code * 2 ^ 4 + as_u4 c =
      ground (arith, cond_branch_sum imm (hinted insn.code) (as_u4 c) small bit low) in
    let decoded = decoded_cond w insn.ip imm (hinted insn.code) c features bit hbc small word in
    let (code', cond', target') =
      cond_fields w insn.ip (hinted insn.code) (branch_target insn.ip imm 21) c in
    (
      omega arith,
      omega arith,
      ap (λ (d : Instruction). d.code) decoded ∙ code' ∙ code,
      ap (λ d. op d 0) decoded ∙ cond',
      ap near_branch_target decoded ∙ target' ∙ back,
    )
