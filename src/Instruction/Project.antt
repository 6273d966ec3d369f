-- ===== src/Instruction/Project.antt =====
-- src/instruction.rs: the projections that read an instruction.
pub mod Loops
pub mod Laws
use f_arm.Base.{ℕ, zero, suc, bit_and, Option, none, some, List, [], ◌∷◌, ℤ, pos, i64_as_u64}
use f_arm.Base.{wrapping_add}
use f_arm.Enums.{Condition}
use f_arm.Instruction.{Instruction, op, insn_len}
use f_arm.Mnemonic.{Mnemonic}
use f_arm.Operand.{Operand}
use f_arm.Register.{Register}

unfoldable pub op_register : Instruction → ℕ → Register
op_register self n = elim (op self n) [ Operand.reg r _ _ _ _ _ ↦ r | _ ↦ Register.none ]

unfoldable pub op_immediate : Instruction → ℕ → ℕ
op_immediate self n = elim (op self n) [
  | Operand.imm_unsigned v ↦ v
  | Operand.imm_logical v ↦ v
  | Operand.imm_signed v ↦ i64_as_u64 v
  | Operand.label v ↦ v
  | _ ↦ 0
]

unfoldable pub next_ip : Instruction → ℕ
next_ip self = wrapping_add self.ip insn_len

-- `for op in &operands[..count] { if let … = op { return … } }`
unfoldable pub find_first {ℓ} : {A : Type ℓ} → ℕ → (Operand → Option A) → List Operand → Option A
find_first zero read ops = none
find_first (suc n) read [] = none
find_first (suc n) read (o ∷ ops) =
    let rest = find_first n read ops in elim (read o) [ some a ↦ some a | none ↦ rest ]

unfoldable pub read_condition : Operand → Option Condition
read_condition (Operand.cond c) = some c
read_condition _ = none

-- The condition that a compare-and-branch fuses into its mnemonic.
unfoldable pub fused_condition : Mnemonic → Option Condition
fused_condition Mnemonic.cbgt = some Condition.gt
fused_condition Mnemonic.cbbgt = some Condition.gt
fused_condition Mnemonic.cbhgt = some Condition.gt
fused_condition Mnemonic.cbge = some Condition.ge
fused_condition Mnemonic.cbbge = some Condition.ge
fused_condition Mnemonic.cbhge = some Condition.ge
fused_condition Mnemonic.cbhi = some Condition.hi
fused_condition Mnemonic.cbbhi = some Condition.hi
fused_condition Mnemonic.cbhhi = some Condition.hi
fused_condition Mnemonic.cbhs = some Condition.cs
fused_condition Mnemonic.cbbhs = some Condition.cs
fused_condition Mnemonic.cbhhs = some Condition.cs
fused_condition Mnemonic.cbeq = some Condition.eq
fused_condition Mnemonic.cbbeq = some Condition.eq
fused_condition Mnemonic.cbheq = some Condition.eq
fused_condition Mnemonic.cbne = some Condition.ne
fused_condition Mnemonic.cbbne = some Condition.ne
fused_condition Mnemonic.cbhne = some Condition.ne
fused_condition Mnemonic.cblt = some Condition.lt
fused_condition Mnemonic.cblo = some Condition.cc
fused_condition _ = none

unfoldable pub condition : Instruction → Option Condition
condition self = elim (find_first self.op_count read_condition self.operands) [
  | some c ↦ some c
  | none ↦ fused_condition self.mnemonic
]

unfoldable pub read_base : Operand → Option Register
read_base (Operand.mem_imm base _ _) = some base
read_base (Operand.mem_ext base _ _ _) = some base
read_base _ = none

unfoldable pub register_or_none : Option Register → Register
register_or_none none = Register.none
register_or_none (some r) = r

unfoldable pub memory_base : Instruction → Register
memory_base self = register_or_none (find_first self.op_count read_base self.operands)

unfoldable pub read_index : Operand → Option Register
read_index (Operand.mem_ext _ index _ _) = some index
read_index _ = none

unfoldable pub memory_index : Instruction → Register
memory_index self = register_or_none (find_first self.op_count read_index self.operands)

unfoldable pub read_scale : Operand → Option ℕ
read_scale (Operand.mem_ext _ _ _ shift) = some (bit_and shift 0x7f)
read_scale _ = none

unfoldable pub memory_index_scale : Instruction → ℕ
memory_index_scale self = elim (find_first self.op_count read_scale self.operands) [
  | some shift ↦ shift
  | none ↦ 0
]

unfoldable pub read_displacement : Operand → Option ℤ
read_displacement (Operand.mem_imm _ imm _) = some imm
read_displacement _ = none

unfoldable pub memory_displacement64 : Instruction → ℤ
memory_displacement64 self = elim (find_first self.op_count read_displacement self.operands) [
  | some imm ↦ imm
  | none ↦ pos 0
]
