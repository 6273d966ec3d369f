-- ===== src/RoundTrip/Branch/Retarget.antt =====
-- A decoded `B` or `BL` that is given a new target and encoded.
use f_arm.Base.{
  ℕ, Bool, true, ◌==◌, ◌+◌, ◌*◌, ◌/◌, ◌%◌, ◌^◌, ◌<◌, ◌≡◌, ◌∙◌, ap, arith, if◌then◌else◌, shl32,
  ◌or◌,
}
use f_arm.Decode.BranchSys.Fields.{branch_target}
use f_arm.Decode.BranchSys.Immediate.{decode_uncond_branch_imm}
use f_arm.Encode.BranchSys.Immediate.{links, enc_uncond_branch_imm}
use f_arm.Encode.Error.{ok}
use f_arm.Instruction.{Instruction, new_invalid, set, push_operand, op, ◌▸◌}
use f_arm.Instruction.Edit.{set_label, edit_first, commit, write_first, visit_label, mark_modified}
use f_arm.Instruction.Flow.{
  set_near_branch_target, flow_control, flow_of, plain_branch_flow, is_direct,
}
use f_arm.Mnemonic.{Code}
use f_arm.Mnemonic.Names.{mnemonic}
use f_arm.Operand.{Operand}
use f_arm.RoundTrip.Branch.Edited.{encoded_uncond, decoded_uncond}
use f_arm.RoundTrip.Branch.Labels.{rel_imm-target_26}
use f_arm.RoundTrip.Branch.Shapes.{uncond_branch_imm_sum}

-- The code, by its link bit, and the instruction that the decoder leaves.
abbrev code_of : ℕ → Code
code_of link = if link == 1 then Code.bl_imm else Code.buncond

abbrev branch_to : (w ip link target : ℕ) → Instruction
branch_to w ip link target = set (new_invalid w ip) (code_of link) ▸ Operand.label target

module _ (w ip link old target : ℕ) where
  abbrev edited : Bool × Instruction
  edited = set_near_branch_target (branch_to w ip link old) target

  -- The edit is done; it changes the label alone.
  edited-fields :
      (edited.0 ≡ true)
      × (op (edited.1) 0 ≡ Operand.label target)
      × ((edited.1).code ≡ code_of link)
      × ((edited.1).ip ≡ ip)
  unfolding set_near_branch_target flow_control flow_of plain_branch_flow is_direct set_label
      edit_first commit write_first visit_label mark_modified mnemonic set push_operand new_invalid
      op
  edited-fields = ground arith

links-code_of : (link : ℕ) → link < 2 → links (code_of link) ≡ link
unfolding links
links-code_of link h = ground arith

-- A `B` or `BL` word at a 64-bit address, given any target in reach: the edit is done, and the
-- edited instruction encodes to the word with the field of the target in the place of the old one.
pub enc-set_near_branch_target :
    (w ip imm : ℕ)
    → w < 2 ^ 32
    → w / 2 ^ 26 % 32 ≡ 0b00101
    → ip < 2 ^ 64
    → imm < 2 ^ 26
    → ((set_near_branch_target
          (decode_uncond_branch_imm w ip (new_invalid w ip))
          (branch_target ip imm 28)).0
        ≡ true)
      × (enc_uncond_branch_imm (
            (set_near_branch_target
              (decode_uncond_branch_imm w ip (new_invalid w ip))
              (branch_target ip imm 28)).1)
          ≡ ok (w / 2 ^ 26 * 2 ^ 26 + imm))
enc-set_near_branch_target w ip imm h e hip small =
    let link = w / 2 ^ 31 in
    let t = branch_target ip imm 28 in
    let old = branch_target ip (w % 2 ^ 26) 28 in
    let decoded : decode_uncond_branch_imm w ip (new_invalid w ip) ≡ branch_to w ip link old =
      decoded_uncond w ip (w % 2 ^ 26) link (new_invalid w ip) (omega arith) (omega arith)
        (omega arith) in
    let after = (edited w ip link old t).1 in
    let (done, target, code, here) = edited-fields w ip link old t in
    let bit : links after.code ≡ link = ap links code ∙ links-code_of link (omega arith) in
    let sum = uncond_branch_imm_sum link imm (omega arith) small in
    (
      ap (λ insn. (set_near_branch_target insn t).0) decoded ∙ done,
      ap (λ insn. enc_uncond_branch_imm ((set_near_branch_target insn t).1)) decoded
          ∙ encoded_uncond after t target
          ∙ rw (here, rel_imm-target_26 ip imm hip small)
              (ap ok (ap (λ l. shl32 l 31 or shl32 0b00101 26 or imm) bit ∙ sum ∙ omega arith)),
    )
