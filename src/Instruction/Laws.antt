-- ===== src/Instruction/Laws.antt =====
-- src/instruction.rs: the operand array under the operations of the decoders.
use f_arm.Base.{ℕ, zero, suc, ◌<◌, ◌≤◌, ◌≡◌, arith, ◌==◌, if◌then◌else◌}
use f_arm.Base.{List, [], ◌∷◌, length, get_or, set as set_elem, length-set}
use f_arm.Instruction.{Instruction, op, push_operand, max_operands}
use f_arm.Operand.{Operand}

-- Five slots, of which at most five count.
unfoldable pub WellFormed : Instruction → Type 0
WellFormed self = (length self.operands ≡ max_operands) × (self.op_count ≤ max_operands)

pub get_or-set :
    (xs : List Operand) (i j : ℕ) (v d : Operand)
    → i < length xs
    → get_or (set_elem xs i v) j d ≡ (if j == i then v else get_or xs j d)
get_or-set [] i j v d h = absurd (omega arith)
get_or-set (x ∷ xs) zero zero v d h = ground arith
get_or-set (x ∷ xs) zero (suc j) v d h = ground arith
get_or-set (x ∷ xs) (suc i) zero v d h = ground arith
get_or-set (x ∷ xs) (suc i) (suc j) v d h = ground (arith, get_or-set xs i j v d (omega arith))

-- Pushing an operand keeps five slots and at most five operands, also when all are taken.
pub push_operand-WellFormed :
    (self : Instruction) (operand : Operand)
    → WellFormed self
    → WellFormed (push_operand self operand)
unfolding WellFormed push_operand
push_operand-WellFormed self operand h =
    ground (arith, length-set self.operands self.op_count operand)

-- Where a slot is free, the pushed operand is read at the old count, and every other index reads
-- as before.
pub op-push_operand :
    (self : Instruction) (operand : Operand) (n : ℕ)
    → WellFormed self
    → self.op_count < max_operands
    → op (push_operand self operand) n ≡ (if n == self.op_count then operand else op self n)
unfolding WellFormed push_operand op
op-push_operand self operand n h free =
    ground (arith, get_or-set self.operands self.op_count n operand Operand.none)
