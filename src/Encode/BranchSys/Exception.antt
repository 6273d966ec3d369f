-- ===== src/Encode/BranchSys/Exception.antt =====
-- src/encode/branch_sys.rs: exception generation, and the reserved `UDF`.
use f_arm.Base.{
  ℕ, ltb, ◌==◌, ◌&&◌, if◌then◌else◌, Bool, true, false, bit_and, bit_or, shl32, as_u32, ◌or◌,
}
use f_arm.Encode.DpImm.Fields.{imm_u}
use f_arm.Encode.Error.{EncodeError, Result, ok, ◌>>=◌, ◌>>◌, reject_if}
use f_arm.Instruction.{Instruction}
use f_arm.Mnemonic.{Code}

-- `(opc, ll)`
unfoldable pub exception_fields : Code → ℕ × ℕ
exception_fields Code.svc = (0b000, 0b01)
exception_fields Code.hvc = (0b000, 0b10)
exception_fields Code.smc = (0b000, 0b11)
exception_fields Code.brk = (0b001, 0b00)
exception_fields Code.hlt = (0b010, 0b00)
exception_fields Code.tcancel = (0b011, 0b00)
exception_fields Code.tenter = (0b111, 0b00)
exception_fields Code.dcps1 = (0b101, 0b01)
exception_fields Code.dcps2 = (0b101, 0b10)
exception_fields _ = (0b101, 0b11)

-- `matches!(code, Dcps1 | Dcps2 | Dcps3)`
unfoldable pub is_dcps : Code → Bool
is_dcps Code.dcps1 = true
is_dcps Code.dcps2 = true
is_dcps Code.dcps3 = true
is_dcps _ = false

unfoldable pub is_tenter : Code → Bool
is_tenter Code.tenter = true
is_tenter _ = false

unfoldable pub recover_exception_imm : Instruction → Result ℕ
unfolding imm_u
recover_exception_imm insn =
    let tenter : Result ℕ = (do
      imm ← imm_u insn 0
      ok (bit_or (bit_and imm 0x7f) (if ltb 1 insn.op_count then 0x1000 else 0))) in
    if is_dcps insn.code && insn.op_count == 0
    then ok 0
    else if is_tenter insn.code
    then tenter
    else imm_u insn 0

unfoldable pub enc_exception : Instruction → Result ℕ
enc_exception insn =
    let (opc, ll) = exception_fields insn.code in
    do
      imm16 ← recover_exception_imm insn
      reject_if (ltb 0xffff imm16) EncodeError.invalid_immediate
      ok (shl32 0b1101_0100 24 or shl32 opc 21 or shl32 (as_u32 imm16) 5 or ll)

unfoldable pub enc_udf : Instruction → Result ℕ
unfolding imm_u
enc_udf insn = do
  imm16 ← imm_u insn 0
  reject_if (ltb 0xffff imm16) EncodeError.invalid_immediate
  ok (as_u32 imm16)
