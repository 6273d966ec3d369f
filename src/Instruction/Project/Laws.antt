-- ===== src/Instruction/Project/Laws.antt =====
-- src/instruction.rs: what a setter writes, the projection reads.
use f_arm.Base.{◌≡◌, ◌⊎◌, arith, true, false, refl, Option, none, some, List}
use f_arm.Base.{inl, inr}
use f_arm.Enums.{Condition}
use f_arm.Instruction.{Instruction}
use f_arm.Instruction.Edit.{
  Visit, write_first, commit, edit_first, mark_modified, set_condition, visit_condition,
}
use f_arm.Instruction.Project.{read_condition, fused_condition, condition}
use f_arm.Instruction.Project.Loops.{Reads, write_first-Reads}
use f_arm.Operand.{Operand}

visit_condition-cases :
    (c : Condition) (o : Operand)
    → ((visit_condition c o ≡ Visit.skip) × (read_condition o ≡ none))
      ⊎ (visit_condition c o ≡ Visit.write (Operand.cond c))
unfolding visit_condition read_condition
visit_condition-cases c o = ground arith

condition-read : (c : Condition) → read_condition (Operand.cond c) ≡ some c
unfolding read_condition
condition-read c = refl

commit-Reads :
    (self : Instruction) (c : Condition) (o : Option (List Operand))
    → Reads
        (visit_condition c)
        read_condition
        (Operand.cond c)
        c
        (condition-read c)
        (visit_condition-cases c)
        self.op_count
        self.operands
        o
    → (((commit self o).0 ≡ false) × (condition self ≡ fused_condition self.mnemonic))
      ⊎ (((commit self o).0 ≡ true) × (condition ((commit self o).1) ≡ some c))
unfolding Reads commit condition mark_modified
commit-Reads self c none h = inl (refl, ground arith)
commit-Reads self c (some ops) h = inr (refl, ground arith)

-- A condition that is set is read back; where there is no condition operand, the setter refuses
-- and what is read is the condition fused into the mnemonic.
pub condition-set_condition :
    (self : Instruction) (c : Condition)
    → (((set_condition self c).0 ≡ false) × (condition self ≡ fused_condition self.mnemonic))
      ⊎ (((set_condition self c).0 ≡ true) × (condition ((set_condition self c).1) ≡ some c))
unfolding set_condition edit_first
condition-set_condition self c =
    commit-Reads self c (write_first self.op_count (visit_condition c) self.operands) (
      write_first-Reads (visit_condition c) read_condition (Operand.cond c) c (condition-read c)
        (visit_condition-cases c) self.op_count self.operands)
