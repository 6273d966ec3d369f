-- ===== src/Instruction.antt =====
-- src/instruction.rs: the decoded instruction and what the decoders do to it. The inline array
-- `[Operand; MAX_OPERANDS]` is a list of five operands.
pub mod Laws
pub mod Decoded
pub mod Edit
pub mod Project
pub mod Flow
use f_arm.Base.{
  ℕ, ◌+◌, ltb, if◌then◌else◌, List, [], ◌∷◌, set as set_elem, get_or, Bool, true, false,
}
use f_arm.Mnemonic.{Code, Mnemonic}
use f_arm.Mnemonic.Names.{mnemonic}
use f_arm.Operand.{Operand}

abbrev pub max_operands : ℕ
max_operands = 5

abbrev pub insn_len : ℕ
insn_len = 4

pub record Instruction : Type 0 where
  pub word : ℕ
  pub ip : ℕ
  pub code : Code
  pub mnemonic : Mnemonic
  pub op_count : ℕ
  pub flags : ℕ
  pub operands : List Operand

-- `[Operand::None; MAX_OPERANDS]`
abbrev pub no_operands : List Operand
no_operands = Operand.none ∷ Operand.none ∷ Operand.none ∷ Operand.none ∷ Operand.none ∷ []

unfoldable pub new_invalid : ℕ → ℕ → Instruction
new_invalid word ip = record {
  word = word;
  ip = ip;
  code = Code.invalid;
  mnemonic = Mnemonic.invalid;
  op_count = 0;
  flags = 0;
  operands = no_operands;
}

unfoldable pub is_invalid : Instruction → Bool
is_invalid self = elim self.code [ Code.invalid ↦ true | _ ↦ false ]

unfoldable pub op : Instruction → ℕ → Operand
op self n = if ltb n self.op_count then get_or self.operands n Operand.none else Operand.none

unfoldable pub set : Instruction → Code → Instruction
unfolding mnemonic
set self code = record self {
  code = code;
  mnemonic = mnemonic code;
  op_count = 0;
  operands = no_operands;
}

unfoldable pub set_alias : Instruction → Mnemonic → Instruction
set_alias self m = record self { mnemonic = m }

unfoldable pub push_operand : Instruction → Operand → Instruction
push_operand self operand =
    if ltb self.op_count max_operands
    then record self {
      operands = set_elem self.operands self.op_count operand;
      op_count = self.op_count + 1;
    }
    else self

-- `out.push_operand(op)` in a chain.
infixl 3 ◌▸◌
abbrev pub ◌▸◌ : Instruction → Operand → Instruction
out ▸ operand = push_operand out operand
