-- ===== src/Encode/BranchSys/Immediate.antt =====
-- src/encode/branch_sys.rs: the branches to a label, but the ones that compare two operands.
use f_arm.Base.{ℕ, ltb, ◌!=◌, ◌||◌, bit_and, shr, shl32, as_u32, wrapping_sub, ◌or◌}
use f_arm.Encode.BranchSys.Fields.{label, rel_imm}
use f_arm.Encode.DpImm.Fields.{reg_num, imm_u}
use f_arm.Encode.Error.{EncodeError, Result, ok, err, ◌>>=◌, ◌>>◌, reject_if}
use f_arm.Enums.{Condition, as_u4}
use f_arm.Instruction.{Instruction, op}
use f_arm.Mnemonic.{Code}
use f_arm.Operand.{Operand}

unfoldable pub cond_operand : Instruction → Result Condition
cond_operand insn = elim (op insn 0) [ Operand.cond c ↦ ok c | _ ↦ err EncodeError.invalid_operand ]

unfoldable pub hinted : Code → ℕ
hinted Code.bc_cond = 1
hinted _ = 0

unfoldable pub enc_cond_branch : Instruction → Result ℕ
unfolding cond_operand label
enc_cond_branch insn = do
  cond ← cond_operand insn
  target ← label insn 1
  imm19 ← rel_imm target insn.ip 19 2
  let o0 = hinted insn.code
  ok (shl32 0b0101_0100 24 or shl32 imm19 5 or shl32 o0 4 or as_u4 cond)

-- `(base, m)`: the base is `RET_BASE` or `AUTI_BASE`.
unfoldable pub sppc_fields : Code → Result (ℕ × ℕ)
sppc_fields Code.retaasppc = ok (0x5500_001f, 0)
sppc_fields Code.retabsppc = ok (0x5500_001f, 1)
sppc_fields Code.autiasppc = ok (0xf380_001f, 0)
sppc_fields Code.autibsppc = ok (0xf380_001f, 1)
sppc_fields _ = err EncodeError.unsupported

unfoldable pub enc_pauth_lr_sppc : Instruction → Result ℕ
unfolding label
enc_pauth_lr_sppc insn = do
  (base, m) ← sppc_fields insn.code
  target ← label insn 0
  let dist = wrapping_sub insn.ip target
  reject_if (bit_and dist 0b11 != 0 || ltb 0xffff (shr dist 2)) EncodeError.invalid_immediate
  let imm16 = as_u32 (shr dist 2)
  ok (base or shl32 m 21 or shl32 imm16 5)

unfoldable pub links : Code → ℕ
links Code.bl_imm = 1
links _ = 0

unfoldable pub enc_uncond_branch_imm : Instruction → Result ℕ
unfolding label
enc_uncond_branch_imm insn = do
  let op = links insn.code
  target ← label insn 0
  imm26 ← rel_imm target insn.ip 26 2
  ok (shl32 op 31 or shl32 0b00101 26 or imm26)

-- `(sf, op)`
unfoldable pub compare_branch_fields : Code → ℕ × ℕ
compare_branch_fields Code.cbz32 = (0, 0)
compare_branch_fields Code.cbz64 = (1, 0)
compare_branch_fields Code.cbnz32 = (0, 1)
compare_branch_fields _ = (1, 1)

unfoldable pub enc_compare_branch : Instruction → Result ℕ
unfolding label reg_num
enc_compare_branch insn =
    let (sf, op) = compare_branch_fields insn.code in
    do
      rt ← reg_num insn 0
      target ← label insn 1
      imm19 ← rel_imm target insn.ip 19 2
      ok (shl32 sf 31 or shl32 0b011010 25 or shl32 op 24 or shl32 imm19 5 or rt)

unfoldable pub tests_nonzero : Code → ℕ
tests_nonzero Code.tbnz = 1
tests_nonzero _ = 0

unfoldable pub enc_test_branch : Instruction → Result ℕ
unfolding label reg_num imm_u
enc_test_branch insn = do
  let op = tests_nonzero insn.code
  rt ← reg_num insn 0
  position ← imm_u insn 1
  let bitpos = as_u32 position
  reject_if (ltb 63 bitpos) EncodeError.invalid_immediate
  let b5 = bit_and (shr bitpos 5) 0x1
  let b40 = bit_and bitpos 0x1f
  target ← label insn 2
  imm14 ← rel_imm target insn.ip 14 2
  ok (shl32 b5 31 or shl32 0b011011 25 or shl32 op 24 or shl32 b40 19 or shl32 imm14 5 or rt)
