-- ===== src/Instruction/Flow/Laws.antt =====
-- src/instruction.rs: a branch that is given a target.
use f_arm.Base.{ℕ, Bool, ◌≡◌, ◌⊎◌, arith, true, false, refl, Option, none, some, List, inl, inr}
use f_arm.Instruction.{Instruction}
use f_arm.Instruction.Edit.{
  Visit, write_first, commit, edit_first, mark_modified, set_label, visit_label,
}
use f_arm.Instruction.Flow.{
  flow_control, is_direct, read_label, target_or_zero, near_branch_target, set_near_branch_target,
}
use f_arm.Instruction.Project.Loops.{Reads, write_first-Reads}
use f_arm.Operand.{Operand}

visit_label-cases :
    (target : ℕ) (o : Operand)
    → ((visit_label target o ≡ Visit.skip) × (read_label o ≡ none))
      ⊎ (visit_label target o ≡ Visit.write (Operand.label target))
unfolding visit_label read_label
visit_label-cases target o = ground arith

label-read : (target : ℕ) → read_label (Operand.label target) ≡ some target
unfolding read_label
label-read target = refl

module _ (self : Instruction) (target : ℕ) where
  abbrev Retargeted : Bool × Instruction → Type 0
  Retargeted result =
      ((result.0 ≡ false) × (result.1 ≡ self) × (near_branch_target self ≡ 0))
      ⊎ ((result.0 ≡ true) × (near_branch_target (result.1) ≡ target))

  commit-Retargeted :
      (o : Option (List Operand))
      → is_direct (flow_control self) ≡ true
      → Reads
          (visit_label target)
          read_label
          (Operand.label target)
          target
          (label-read target)
          (visit_label-cases target)
          self.op_count
          self.operands
          o
      → Retargeted (commit self o)
  unfolding Reads commit near_branch_target mark_modified flow_control target_or_zero
  commit-Retargeted none e h = inl (refl, refl, ground arith)
  commit-Retargeted (some ops) e h = inr (refl, ground arith)

-- A target that is given to a direct branch is read back. The setter refuses, and changes nothing,
-- where the instruction is no direct branch or has no label, and there the target that is read is 0.
pub near_branch_target-set_near_branch_target :
    (self : Instruction) (target : ℕ)
    → (((set_near_branch_target self target).0 ≡ false)
        × ((set_near_branch_target self target).1 ≡ self)
        × (near_branch_target self ≡ 0))
      ⊎ (((set_near_branch_target self target).0 ≡ true)
          × (near_branch_target ((set_near_branch_target self target).1) ≡ target))
unfolding set_near_branch_target near_branch_target set_label edit_first
near_branch_target-set_near_branch_target self target =
    let loop =
      write_first-Reads (visit_label target) read_label (Operand.label target) target
        (label-read target) (visit_label-cases target) self.op_count self.operands in
    ground (
      arith,
      λ (e : is_direct (flow_control self) ≡ true).
          commit-Retargeted self target
            (write_first self.op_count (visit_label target) self.operands) e loop,
    )
