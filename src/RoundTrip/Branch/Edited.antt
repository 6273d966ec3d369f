-- ===== src/RoundTrip/Branch/Edited.antt =====
-- Branches whose label was edited: encoded, and decoded again.
use f_arm.Base.{
  ℕ, ◌==◌, if◌then◌else◌, ◌+◌, ◌*◌, ◌/◌, ◌%◌, ◌^◌, ◌<◌, ◌≡◌, ◌⊎◌, sym, ◌∙◌, ap, arith, refl, shl32,
  ◌or◌,
}
use f_arm.Decode.Bits.{bits}
use f_arm.Decode.Bits.Laws.{bits_lem}
use f_arm.Decode.BranchSys.Fields.{branch_target}
use f_arm.Decode.BranchSys.Immediate.{decode_uncond_branch_imm}
use f_arm.Encode.BranchSys.Fields.{label, rel_imm}
use f_arm.Encode.BranchSys.Immediate.{links, enc_uncond_branch_imm}
use f_arm.Encode.Error.{Result, ok, err, ◌>>=◌}
use f_arm.Instruction.{Instruction, new_invalid, set, push_operand, op, ◌▸◌}
use f_arm.Instruction.Flow.{
  near_branch_target, flow_control, flow_of, plain_branch_flow, is_direct, target_or_zero,
  read_label,
}
use f_arm.Instruction.Project.{find_first}
use f_arm.Mnemonic.Names.{mnemonic}
use f_arm.Mnemonic.{Code}
use f_arm.Operand.{Operand}
use f_arm.RoundTrip.Branch.Accepts.{FieldWidth, rel_imm_lem}
use f_arm.RoundTrip.Branch.Shapes.{uncond_branch_imm_sum}

-- An accepted label has a field, from which the decoder finds it again.
pub accepted :
    {bits : ℕ} (width : FieldWidth bits) (t ip : ℕ) (rest : ℕ → Result ℕ) (w : ℕ)
    → t < 2 ^ 64
    → ip < 2 ^ 64
    → (rel_imm t ip bits 2 >>= rest) ≡ ok w
    → (imm : ℕ) × (imm < 2 ^ bits) × (branch_target ip imm (bits + 2) ≡ t) × (rest imm ≡ ok w)
accepted {bits} width t ip rest w ht hip = of_result (rel_imm t ip bits 2) refl
  where
    of_result :
        (r : Result ℕ)
        → rel_imm t ip bits 2 ≡ r
        → (r >>= rest) ≡ ok w
        → (imm : ℕ) × (imm < 2 ^ bits) × (branch_target ip imm (bits + 2) ≡ t) × (rest imm ≡ ok w)
    of_result (ok imm) e k =
        let (small, back) = (rel_imm_lem width t ip imm ht hip).0 e in (imm, small, back, k)
    of_result (err failure) e k = cc

pub label-operand :
    (insn : Instruction) (n t : ℕ) → op insn n ≡ Operand.label t → label insn n ≡ ok t
unfolding label
label-operand insn n t e = ground arith

-- The encoder of `B` and `BL` by the label.
pub encoded_uncond :
    (insn : Instruction) (t : ℕ)
    → op insn 0 ≡ Operand.label t
    → enc_uncond_branch_imm insn ≡ (
        rel_imm t insn.ip 26 2 >>= λ imm26.
        ok (shl32 (links insn.code) 31 or shl32 0b00101 26 or imm26))
unfolding enc_uncond_branch_imm
encoded_uncond insn t e =
    ap
      (λ r. r >>= λ target. rel_imm target insn.ip 26 2 >>= λ imm26.
        ok (shl32 (links insn.code) 31 or shl32 0b00101 26 or imm26))
      (label-operand insn 0 t e)

-- The decoder of `B` and `BL` by the fields.
pub decoded_uncond :
    (w ip imm link : ℕ) (out : Instruction)
    → link < 2
    → imm < 2 ^ 26
    → w ≡ link * 2 ^ 31 + 0b00101 * 2 ^ 26 + imm
    → decode_uncond_branch_imm w ip out ≡ (
        set out (if link == 1 then Code.bl_imm else Code.buncond)
        ▸ Operand.label (branch_target ip imm 28))
unfolding decode_uncond_branch_imm
decoded_uncond w ip imm link out hl hi e =
    let field : bits w 0 26 ≡ imm = omega (arith, bits_lem w 0 26 (omega arith) (omega arith)) in
    rw field (ground (arith, bits_lem w 29 3 (omega arith) (omega arith)))

-- The code and the target of what they leave.
uncond_code :
    (out : Instruction) (link t : ℕ)
    → (set out (if link == 1 then Code.bl_imm else Code.buncond) ▸ Operand.label t).code
      ≡ (if link == 1 then Code.bl_imm else Code.buncond)
unfolding set push_operand
uncond_code out link t = ground arith

uncond_target :
    (w ip link t : ℕ)
    → near_branch_target
        (set (new_invalid w ip) (if link == 1 then Code.bl_imm else Code.buncond) ▸ Operand.label t)
      ≡ t
unfolding near_branch_target flow_control flow_of plain_branch_flow is_direct target_or_zero
    find_first read_label mnemonic set push_operand new_invalid
uncond_target w ip link t = ground arith

-- A `B` or `BL` whose label was edited, from a 64-bit address to a 64-bit label: where it encodes,
-- its word is of the class, and decodes at the same address to the same code and label.
pub decode-enc_uncond_branch_imm :
    (insn : Instruction) (w t : ℕ)
    → (insn.code ≡ Code.buncond) ⊎ (insn.code ≡ Code.bl_imm)
    → op insn 0 ≡ Operand.label t
    → t < 2 ^ 64
    → insn.ip < 2 ^ 64
    → enc_uncond_branch_imm insn ≡ ok w
    → (w < 2 ^ 32)
      × (w / 2 ^ 26 % 32 ≡ 0b00101)
      × ((decode_uncond_branch_imm w insn.ip (new_invalid w insn.ip)).code ≡ insn.code)
      × (near_branch_target (decode_uncond_branch_imm w insn.ip (new_invalid w insn.ip)) ≡ t)
unfolding links
decode-enc_uncond_branch_imm insn w t c e ht hip k =
    let (imm, small, back, packed) =
      accepted FieldWidth.branch t insn.ip
        (λ imm26. ok (shl32 (links insn.code) 31 or shl32 0b00101 26 or imm26)) w ht hip
        (sym (encoded_uncond insn t e) ∙ k) in
    let link : links insn.code < 2 = ground arith in
    let word : w ≡ links insn.code * 2 ^ 31 + 0b00101 * 2 ^ 26 + imm =
      ground (arith, uncond_branch_imm_sum (links insn.code) imm link small) in
    let same =
      decoded_uncond w insn.ip imm (links insn.code) (new_invalid w insn.ip) link small word in
    let out = new_invalid w insn.ip in
    let code : (if links insn.code == 1 then Code.bl_imm else Code.buncond) ≡ insn.code =
      ground arith in
    (
      omega arith,
      omega arith,
      ap (λ (d : Instruction). d.code) same
          ∙ uncond_code out (links insn.code) (branch_target insn.ip imm 28)
          ∙ code,
      ap near_branch_target same
          ∙ uncond_target w insn.ip (links insn.code) (branch_target insn.ip imm 28)
          ∙ back,
    )
