-- ===== src/Encode/BranchSys/Compare.antt =====
-- src/encode/branch_sys.rs: the branches that compare a register with a register or a number.
use f_arm.Base.{
  ℕ, ltb, ◌==◌, if◌then◌else◌, Bool, true, false, Option, none, some, shl32, as_u32, ◌or◌,
}
use f_arm.Encode.BranchSys.Fields.{label, rel_imm, is_x_reg}
use f_arm.Encode.DpImm.Fields.{reg_num, imm_u}
use f_arm.Encode.Error.{EncodeError, Result, ok, err, ◌>>=◌, ◌>>◌, reject_if}
use f_arm.Instruction.{Instruction, op}
use f_arm.Mnemonic.{Code}
use f_arm.Operand.{Operand}

-- `(size, reg_cc, imm_cc)`
unfoldable pub cmpbr_fields : Code → Result (ℕ × Option ℕ × Option ℕ)
cmpbr_fields Code.cbgt = ok (0b00, some 0b000, some 0b000)
cmpbr_fields Code.cbge = ok (0b00, some 0b001, none)
cmpbr_fields Code.cbhi = ok (0b00, some 0b010, some 0b010)
cmpbr_fields Code.cbhs = ok (0b00, some 0b011, none)
cmpbr_fields Code.cbeq = ok (0b00, some 0b110, some 0b110)
cmpbr_fields Code.cbne = ok (0b00, some 0b111, some 0b111)
cmpbr_fields Code.cblt = ok (0b00, none, some 0b001)
cmpbr_fields Code.cblo = ok (0b00, none, some 0b011)
cmpbr_fields Code.cbbgt = ok (0b10, some 0b000, none)
cmpbr_fields Code.cbbge = ok (0b10, some 0b001, none)
cmpbr_fields Code.cbbhi = ok (0b10, some 0b010, none)
cmpbr_fields Code.cbbhs = ok (0b10, some 0b011, none)
cmpbr_fields Code.cbbeq = ok (0b10, some 0b110, none)
cmpbr_fields Code.cbbne = ok (0b10, some 0b111, none)
cmpbr_fields Code.cbhgt = ok (0b11, some 0b000, none)
cmpbr_fields Code.cbhge = ok (0b11, some 0b001, none)
cmpbr_fields Code.cbhhi = ok (0b11, some 0b010, none)
cmpbr_fields Code.cbhhs = ok (0b11, some 0b011, none)
cmpbr_fields Code.cbheq = ok (0b11, some 0b110, none)
cmpbr_fields Code.cbhne = ok (0b11, some 0b111, none)
cmpbr_fields _ = err EncodeError.unsupported

-- `Option::ok_or(EncodeError::InvalidOperand)`
unfoldable pub ok_or : Option ℕ → Result ℕ
ok_or (some cc) = ok cc
ok_or none = err EncodeError.invalid_operand

-- `u32::from`
unfoldable pub as_bit : Bool → ℕ
as_bit true = 1
as_bit false = 0

-- The width of a register form: the byte and halfword forms take no `X` register.
unfoldable pub register_width : Instruction → ℕ → Result ℕ
unfolding is_x_reg as_bit
register_width insn size =
    let narrow : Result ℕ = (do
      first ← is_x_reg insn 0
      reject_if first EncodeError.invalid_operand
      second ← is_x_reg insn 1
      reject_if second EncodeError.invalid_operand
      ok 0) in
    let word : Result ℕ = (do wide ← is_x_reg insn 0; ok (as_bit wide)) in
    if size == 0b00 then word else narrow

unfoldable pub enc_cmpbr_register : Instruction → ℕ → Option ℕ → ℕ → Result ℕ
unfolding ok_or register_width reg_num
enc_cmpbr_register insn size reg_cc imm9 = do
  cc ← ok_or reg_cc
  sf ← register_width insn size
  rt ← reg_num insn 0
  rm ← reg_num insn 1
  ok (
      shl32 sf 31
      or shl32 0b111010 25
      or shl32 cc 21
      or shl32 rm 16
      or shl32 size 14
      or shl32 imm9 5
      or rt)

unfoldable pub enc_cmpbr_immediate : Instruction → Option ℕ → ℕ → Result ℕ
unfolding ok_or is_x_reg as_bit reg_num imm_u
enc_cmpbr_immediate insn imm_cc imm9 = do
  cc ← ok_or imm_cc
  wide ← is_x_reg insn 0
  let sf = as_bit wide
  rt ← reg_num insn 0
  imm6 ← imm_u insn 1
  reject_if (ltb 0x3f imm6) EncodeError.invalid_immediate
  ok (
      shl32 sf 31
      or shl32 0b111010 25
      or shl32 1 24
      or shl32 cc 21
      or shl32 (as_u32 imm6) 15
      or shl32 imm9 5
      or rt)

unfoldable pub enc_cmpbr : Instruction → Result ℕ
unfolding label enc_cmpbr_register enc_cmpbr_immediate
enc_cmpbr insn = do
  (size, reg_cc, imm_cc) ← cmpbr_fields insn.code
  target ← label insn 2
  imm9 ← rel_imm target insn.ip 9 2
  elim (op insn 1) [
    | Operand.reg _ _ _ _ _ _ ↦ enc_cmpbr_register insn size reg_cc imm9
    | Operand.imm_unsigned _ ↦ enc_cmpbr_immediate insn imm_cc imm9
    | Operand.imm_signed _ ↦ enc_cmpbr_immediate insn imm_cc imm9
    | Operand.imm_logical _ ↦ enc_cmpbr_immediate insn imm_cc imm9
    | _ ↦ err EncodeError.invalid_operand
  ]
