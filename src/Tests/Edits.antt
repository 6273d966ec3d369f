-- ===== src/Tests/Edits.antt =====
-- The theorems on editing and on the feature gates at concrete instructions.
use f_arm.Base.{ℕ, zero, suc, ◌≡◌, ◌≤◌, ◌⊎◌, refl, arith, true, false, [], ◌∷◌}
use f_arm.Base.{some, none, List, get_or}
use f_arm.Decode.DpImm.{decode}
use f_arm.Decode.Gates.{Gated, decode_dp_imm-Gated}
use f_arm.Encode.Dispatch.{encode, re_encode}
use f_arm.Encode.Dispatch.Laws.{re_encode_commits}
use f_arm.Encode.DpImm.Arithmetic.{enc_pc_rel, is_adrp}
use f_arm.Encode.Error.{EncodeError, ok, err}
use f_arm.Enums.{Condition}
use f_arm.Features.{all_features, has}
use f_arm.Instruction.{Instruction, new_invalid, op}
use f_arm.Instruction.Edit.{
  relocate as relocate_insn, push_op as push, set_op as write_op, set_op_count as cut,
  edit_at as at, edit_first as first, with_register, visit_label, set_condition, is_modified,
}
use f_arm.Instruction.Edit.Labels.{enc_pc_rel-relocate}
use f_arm.Instruction.Edit.Laws.{AllOrNothing, edits-AllOrNothing}
use f_arm.Instruction.Edit.Steps.{Tidy, Reach, Step, Reach-Tidy, new_invalid-Tidy}
use f_arm.Instruction.Project.{condition, fused_condition}
use f_arm.Instruction.Project.Laws.{condition-set_condition}
use f_arm.Mnemonic.{Code, Mnemonic}
use f_arm.Operand.{Operand}
use f_arm.Register.{Register}
use f_arm.Tests.Witnesses.{blank}

abbrev x_reg : Register → Operand
x_reg r = Operand.reg r none none none none none

-- adr x1, 0x1010, at 0x1000
abbrev address_slots : List Operand
address_slots =
    x_reg Register.x1 ∷ Operand.label 0x1010 ∷ Operand.none ∷ Operand.none ∷ Operand.none ∷ []

abbrev address : Instruction
address = record {
  word = 0x1000_0081;
  ip = 0x1000;
  code = Code.adr;
  mnemonic = Mnemonic.adr;
  op_count = 2;
  flags = 0;
  operands = address_slots;
}

rest_of_address : (i : ℕ) → 2 ≤ i → get_or address_slots i Operand.none ≡ Operand.none
rest_of_address zero h = absurd (omega arith)
rest_of_address (suc zero) h = absurd (omega arith)
rest_of_address (suc (suc zero)) h = refl
rest_of_address (suc (suc (suc zero))) h = refl
rest_of_address (suc (suc (suc (suc zero)))) h = refl
rest_of_address (suc (suc (suc (suc (suc i))))) h = refl

address-Tidy : Tidy address
address-Tidy = record { slots = refl; counted = omega arith; rest_empty = rest_of_address }

enc_pc_rel-relocate_example : enc_pc_rel (relocate_insn address 0x8000) ≡ enc_pc_rel address
unfolding is_adrp op
enc_pc_rel-relocate_example =
    enc_pc_rel-relocate address 0x8000 0x1010 address-Tidy refl refl (omega arith) (omega arith)
      (omega arith)

-- Two edits in a row: an operand is appended, and the instruction moves.
Reach-Tidy_example : Tidy (relocate_insn ((push (new_invalid 0 0x1000) (Operand.label 8)).1) 0x2000)
Reach-Tidy_example =
    Reach-Tidy
      (Reach.next (Reach.next Reach.here (Step.push_op (new_invalid 0 0x1000) (Operand.label 8)))
        (Step.relocate ((push (new_invalid 0 0x1000) (Operand.label 8)).1) 0x2000))
      (new_invalid-Tidy 0 0x1000)

edits-AllOrNothing_example :
    AllOrNothing address (write_op address 7 (Operand.label 8))
    × AllOrNothing address (cut address 7)
    × AllOrNothing address (push address (Operand.label 8))
    × AllOrNothing address (at (with_register Register.x2) 7 address)
    × AllOrNothing address (first (visit_label 0x1020) address)
edits-AllOrNothing_example =
    edits-AllOrNothing address 7 (Operand.label 8) (with_register Register.x2) (visit_label 0x1020)

condition-set_condition_example :
    (((set_condition address Condition.ne).0 ≡ false)
      × (condition address ≡ fused_condition address.mnemonic))
    ⊎ (((set_condition address Condition.ne).0 ≡ true)
        × (condition ((set_condition address Condition.ne).1) ≡ some Condition.ne))
condition-set_condition_example = condition-set_condition address Condition.ne

re_encode_commits_example :
    let result = re_encode [] address in
    ((failure : EncodeError) × (encode [] address ≡ err failure)
      × (result.0 ≡ err failure)
      × (result.1 ≡ address))
    ⊎ ((word : ℕ) × (encode [] address ≡ ok word)
        × (result.0 ≡ ok word)
        × ((result.1).word ≡ word)
        × (is_modified (result.1) ≡ false)
        × (record (result.1) { word = address.word; flags = address.flags } ≡ address))
re_encode_commits_example = re_encode_commits [] address

decode_dp_imm-Gated_example :
    Gated all_features blank (decode 0x11c3_f483 0x1000 all_features blank)
unfolding has
decode_dp_imm-Gated_example = decode_dp_imm-Gated 0x11c3_f483 0x1000 all_features blank refl
