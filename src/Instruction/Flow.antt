-- ===== src/Instruction/Flow.antt =====
-- src/instruction.rs: the control-flow classes, and the target of a direct branch.
pub mod Laws
use f_arm.Base.{ℕ, if◌then◌else◌, Bool, true, false, Option, none, some}
use f_arm.Enums.{FlowControl}
use f_arm.Instruction.{Instruction}
use f_arm.Instruction.Edit.{set_label}
use f_arm.Instruction.Project.{find_first}
use f_arm.Mnemonic.{Code, Mnemonic}
use f_arm.Operand.{Operand}

-- The one arm that reads the code.
unfoldable pub plain_branch_flow : Code → FlowControl
plain_branch_flow Code.bcond = FlowControl.conditional_branch
plain_branch_flow _ = FlowControl.unconditional_branch

-- The match on the mnemonic, of an instruction with this code.
unfoldable pub flow_of : Code → Mnemonic → FlowControl
flow_of code Mnemonic.b = plain_branch_flow code
flow_of code Mnemonic.bc = FlowControl.conditional_branch
flow_of code Mnemonic.cbz = FlowControl.conditional_branch
flow_of code Mnemonic.cbnz = FlowControl.conditional_branch
flow_of code Mnemonic.tbz = FlowControl.conditional_branch
flow_of code Mnemonic.tbnz = FlowControl.conditional_branch
flow_of code Mnemonic.cbgt = FlowControl.conditional_branch
flow_of code Mnemonic.cbge = FlowControl.conditional_branch
flow_of code Mnemonic.cbhi = FlowControl.conditional_branch
flow_of code Mnemonic.cbhs = FlowControl.conditional_branch
flow_of code Mnemonic.cbeq = FlowControl.conditional_branch
flow_of code Mnemonic.cbne = FlowControl.conditional_branch
flow_of code Mnemonic.cblt = FlowControl.conditional_branch
flow_of code Mnemonic.cblo = FlowControl.conditional_branch
flow_of code Mnemonic.cbbgt = FlowControl.conditional_branch
flow_of code Mnemonic.cbbge = FlowControl.conditional_branch
flow_of code Mnemonic.cbbhi = FlowControl.conditional_branch
flow_of code Mnemonic.cbbhs = FlowControl.conditional_branch
flow_of code Mnemonic.cbbeq = FlowControl.conditional_branch
flow_of code Mnemonic.cbbne = FlowControl.conditional_branch
flow_of code Mnemonic.cbhgt = FlowControl.conditional_branch
flow_of code Mnemonic.cbhge = FlowControl.conditional_branch
flow_of code Mnemonic.cbhhi = FlowControl.conditional_branch
flow_of code Mnemonic.cbhhs = FlowControl.conditional_branch
flow_of code Mnemonic.cbheq = FlowControl.conditional_branch
flow_of code Mnemonic.cbhne = FlowControl.conditional_branch
flow_of code Mnemonic.bl = FlowControl.call
flow_of code Mnemonic.blr = FlowControl.indirect_call
flow_of code Mnemonic.blraa = FlowControl.indirect_call
flow_of code Mnemonic.blraaz = FlowControl.indirect_call
flow_of code Mnemonic.blrab = FlowControl.indirect_call
flow_of code Mnemonic.blrabz = FlowControl.indirect_call
flow_of code Mnemonic.br = FlowControl.indirect_branch
flow_of code Mnemonic.braa = FlowControl.indirect_branch
flow_of code Mnemonic.braaz = FlowControl.indirect_branch
flow_of code Mnemonic.brab = FlowControl.indirect_branch
flow_of code Mnemonic.brabz = FlowControl.indirect_branch
flow_of code Mnemonic.ret = FlowControl.return
flow_of code Mnemonic.retaa = FlowControl.return
flow_of code Mnemonic.retab = FlowControl.return
flow_of code Mnemonic.eret = FlowControl.return
flow_of code Mnemonic.eretaa = FlowControl.return
flow_of code Mnemonic.eretab = FlowControl.return
flow_of code Mnemonic.drps = FlowControl.return
flow_of code Mnemonic.retaasppc = FlowControl.return
flow_of code Mnemonic.retabsppc = FlowControl.return
flow_of code Mnemonic.retaasppcr = FlowControl.return
flow_of code Mnemonic.retabsppcr = FlowControl.return
flow_of code Mnemonic.svc = FlowControl.exception
flow_of code Mnemonic.hvc = FlowControl.exception
flow_of code Mnemonic.smc = FlowControl.exception
flow_of code Mnemonic.brk = FlowControl.exception
flow_of code Mnemonic.hlt = FlowControl.exception
flow_of code Mnemonic.dcps1 = FlowControl.exception
flow_of code Mnemonic.dcps2 = FlowControl.exception
flow_of code Mnemonic.dcps3 = FlowControl.exception
flow_of code _ = FlowControl.next

unfoldable pub flow_control : Instruction → FlowControl
flow_control self = flow_of self.code self.mnemonic

-- The arms that have a target.
unfoldable pub is_direct : FlowControl → Bool
is_direct FlowControl.conditional_branch = true
is_direct FlowControl.unconditional_branch = true
is_direct FlowControl.call = true
is_direct _ = false

unfoldable pub read_label : Operand → Option ℕ
read_label (Operand.label target) = some target
read_label _ = none

unfoldable pub target_or_zero : Option ℕ → ℕ
target_or_zero none = 0
target_or_zero (some target) = target

unfoldable pub near_branch_target : Instruction → ℕ
near_branch_target self =
    if is_direct (flow_control self)
    then target_or_zero (find_first self.op_count read_label self.operands)
    else 0

unfoldable pub set_near_branch_target : Instruction → ℕ → Bool × Instruction
set_near_branch_target self target =
    if is_direct (flow_control self) then set_label self target else (false, self)
