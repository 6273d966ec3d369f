-- ===== src/Decode/BranchSys/Fields.antt =====
-- src/decode/branch_sys.rs: the operands that the classes share.
use f_arm.Base.{ℕ, Bool, shl64, wrapping_sub, wrapping_add, i64_as_u64}
use f_arm.Decode.Bits.{bits, sign_extend}
use f_arm.Decode.DpImm.Bitfield.{reg}
use f_arm.Instruction.{Instruction, ◌▸◌}
use f_arm.Operand.{Operand}
use f_arm.Register.{RegWidth}
use f_arm.SysToken
use Prim.Native.String.{String}

-- `SysToken::of` looks the name up.
unfoldable pub sysop : String → Operand
sysop name = Operand.sys_op (SysToken.of name)

unfoldable pub xreg : Bool → ℕ → Operand
unfolding reg
xreg use_sp n = reg use_sp RegWidth.x64 n

-- `ip.wrapping_add(sign_extend((imm as u64) << 2, width + 2) as u64)`, the target of a branch.
unfoldable pub branch_target : ℕ → ℕ → ℕ → ℕ
branch_target ip imm width =
    let off = sign_extend (shl64 imm 2) width in wrapping_add ip (i64_as_u64 off)

unfoldable pub push_sppc_label : ℕ → Instruction → Instruction
push_sppc_label word out =
    let imm16 = bits word 5 16 in
    let off = shl64 imm16 2 in out ▸ Operand.label (wrapping_sub out.ip off)
