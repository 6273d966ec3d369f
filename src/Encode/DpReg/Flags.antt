-- ===== src/Encode/DpReg/Flags.antt =====
-- src/encode/dp_reg.rs: carry, checked pointers, flag manipulation and the conditional forms.
use f_arm.Base.{ℕ, ltb, ◌==◌, if◌then◌else◌, ◌||◌, shl32, as_u32, ◌or◌}
use f_arm.Base.{Option, none, some}
use f_arm.Encode.Arms.{is_set_form, is_unary_form}
use f_arm.Encode.DpImm.Fields.{reg_num, imm_u}
use f_arm.Encode.DpReg.Fields.{is_64, cond_of, reg_with_shift}
use f_arm.Encode.Error.{EncodeError, Result, ok, err, ◌>>=◌, ◌>>◌, reject_if}
use f_arm.Enums.{ShiftType, as_u4, invert}
use f_arm.Instruction.{Instruction}
use f_arm.Mnemonic.{Code, Mnemonic}

-- `(op, s)`
unfoldable pub addsub_carry_fields : Code → ℕ × ℕ
addsub_carry_fields Code.adc32 = (0, 0)
addsub_carry_fields Code.adc64 = (0, 0)
addsub_carry_fields Code.adcs32 = (0, 1)
addsub_carry_fields Code.adcs64 = (0, 1)
addsub_carry_fields Code.sbc32 = (1, 0)
addsub_carry_fields Code.sbc64 = (1, 0)
addsub_carry_fields _ = (1, 1)

unfoldable pub enc_addsub_carry : Instruction → Result ℕ
enc_addsub_carry insn =
    let sf : ℕ = if is_64 insn.code then 1 else 0 in
    let (op, s) = addsub_carry_fields insn.code in
    let negated : Result (ℕ × ℕ × ℕ) = (do
      rd ← reg_num insn 0
      rm ← reg_num insn 1
      ok (rd, 31, rm)) in
    let canonical : Result (ℕ × ℕ × ℕ) = (do
      rd ← reg_num insn 0
      rn ← reg_num insn 1
      rm ← reg_num insn 2
      ok (rd, rn, rm)) in
    do
      (rd, rn, rm) ← (elim insn.mnemonic [
        | Mnemonic.ngc ↦ negated
        | Mnemonic.ngcs ↦ negated
        | _ ↦ canonical
      ])
      ok (
          shl32 sf 31
          or shl32 op 30
          or shl32 s 29
          or shl32 0b11010000 21
          or shl32 rm 16
          or shl32 rn 5
          or rd)

-- The amount of a decoration that must be a left shift.
unfoldable pub lsl_amount : Option (ShiftType × ℕ) → Result ℕ
lsl_amount none = ok 0
lsl_amount (some (ShiftType.lsl, a)) = ok a
lsl_amount (some _) = err EncodeError.invalid_operand

unfoldable pub addsub_pt_op : Code → ℕ
addsub_pt_op Code.subpt = 1
addsub_pt_op _ = 0

unfoldable pub enc_addsub_pt : Instruction → Result ℕ
unfolding lsl_amount
enc_addsub_pt insn =
    let op = addsub_pt_op insn.code in
    do
      rd ← reg_num insn 0
      rn ← reg_num insn 1
      (rm, shift) ← reg_with_shift insn 2
      amt ← lsl_amount shift
      reject_if (ltb 7 amt) EncodeError.invalid_immediate
      ok (
          shl32 1 31
          or shl32 op 30
          or shl32 0b11010000 21
          or shl32 rm 16
          or shl32 0b001 13
          or shl32 amt 10
          or shl32 rn 5
          or rd)

unfoldable pub enc_rmif : Instruction → Result ℕ
enc_rmif insn = do
  rn ← reg_num insn 0
  imm6 ← imm_u insn 1
  mask ← imm_u insn 2
  reject_if (ltb 0x3f imm6 || ltb 0xf mask) EncodeError.invalid_immediate
  ok (
      shl32 1 31
      or shl32 1 29
      or shl32 0b11010000 21
      or shl32 (as_u32 imm6) 15
      or shl32 0b00001 10
      or shl32 rn 5
      or as_u32 mask)

unfoldable pub setf_sz : Code → ℕ
setf_sz Code.setf16 = 1
setf_sz _ = 0

unfoldable pub enc_setf : Instruction → Result ℕ
enc_setf insn = do
  rn ← reg_num insn 0
  ok (
      shl32 1 29
      or shl32 0b11010000 21
      or shl32 (setf_sz insn.code) 14
      or shl32 0b000010 10
      or shl32 rn 5
      or 0b01101)

-- `(op, imm_form)`
unfoldable pub cond_compare_fields : Code → ℕ × ℕ
cond_compare_fields Code.ccmn_reg32 = (0, 0)
cond_compare_fields Code.ccmn_reg64 = (0, 0)
cond_compare_fields Code.ccmn_imm32 = (0, 1)
cond_compare_fields Code.ccmn_imm64 = (0, 1)
cond_compare_fields Code.ccmp_reg32 = (1, 0)
cond_compare_fields Code.ccmp_reg64 = (1, 0)
cond_compare_fields _ = (1, 1)

unfoldable pub enc_cond_compare : Instruction → Result ℕ
enc_cond_compare insn =
    let sf : ℕ = if is_64 insn.code then 1 else 0 in
    let (op, imm_form) = cond_compare_fields insn.code in
    let immediate : Result ℕ = (do
      v ← imm_u insn 1
      reject_if (ltb 0x1f v) EncodeError.invalid_immediate
      ok (as_u32 v)) in
    do
      rn ← reg_num insn 0
      rm ← (if imm_form == 1 then immediate else reg_num insn 1)
      nzcv ← imm_u insn 2
      reject_if (ltb 0xf nzcv) EncodeError.invalid_immediate
      cond ← cond_of insn 3
      ok (
          shl32 sf 31
          or shl32 op 30
          or shl32 0b111010010 21
          or shl32 rm 16
          or shl32 (as_u4 cond) 12
          or shl32 imm_form 11
          or shl32 rn 5
          or as_u32 nzcv)

-- `(op, o2)`
unfoldable pub cond_select_fields : Code → ℕ × ℕ
cond_select_fields Code.csel32 = (0, 0)
cond_select_fields Code.csel64 = (0, 0)
cond_select_fields Code.csinc32 = (0, 1)
cond_select_fields Code.csinc64 = (0, 1)
cond_select_fields Code.csinv32 = (1, 0)
cond_select_fields Code.csinv64 = (1, 0)
cond_select_fields _ = (1, 1)

-- `(rd, rn, rm, cond)`
unfoldable pub recover_cond_select : Instruction → Result (ℕ × ℕ × ℕ × ℕ)
recover_cond_select insn =
    let set_form : Result (ℕ × ℕ × ℕ × ℕ) = (do
      rd ← reg_num insn 0
      c ← cond_of insn 1
      ok (rd, 31, 31, as_u4 (invert c))) in
    let unary_form : Result (ℕ × ℕ × ℕ × ℕ) = (do
      rd ← reg_num insn 0
      rn ← reg_num insn 1
      c ← cond_of insn 2
      ok (rd, rn, rn, as_u4 (invert c))) in
    let canonical : Result (ℕ × ℕ × ℕ × ℕ) = (do
      rd ← reg_num insn 0
      rn ← reg_num insn 1
      rm ← reg_num insn 2
      c ← cond_of insn 3
      ok (rd, rn, rm, as_u4 c)) in
    if is_set_form insn.mnemonic
    then set_form
    else if is_unary_form insn.mnemonic
    then unary_form
    else canonical

unfoldable pub enc_cond_select : Instruction → Result ℕ
enc_cond_select insn =
    let sf : ℕ = if is_64 insn.code then 1 else 0 in
    let (op, o2) = cond_select_fields insn.code in
    do
      (rd, rn, rm, cond) ← recover_cond_select insn
      ok (
          shl32 sf 31
          or shl32 op 30
          or shl32 0b011010100 21
          or shl32 rm 16
          or shl32 cond 12
          or shl32 o2 10
          or shl32 rn 5
          or rd)
