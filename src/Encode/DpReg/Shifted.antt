-- ===== src/Encode/DpReg/Shifted.antt =====
-- src/encode/dp_reg.rs: logical, add and subtract with a shifted or an extended register.
use f_arm.Base.{ℕ, ltb, ◌==◌, if◌then◌else◌, shl32, ◌or◌}
use f_arm.Encode.Arms.{is_compare, is_mov, is_mvn, is_tst}
use f_arm.Encode.DpImm.Fields.{reg_num}
use f_arm.Encode.DpReg.Fields.{is_64, recover_shift, recover_extended_rm}
use f_arm.Encode.Error.{EncodeError, Result, ok, ◌>>=◌, ◌>>◌, reject_if}
use f_arm.Instruction.{Instruction}
use f_arm.Mnemonic.{Code, Mnemonic}

-- `(rd, rn, rm, sh, imm6)`
abbrev pub ShiftedFields : Type 0
ShiftedFields = ℕ × ℕ × ℕ × ℕ × ℕ

-- `(opc, n)`
unfoldable pub logical_shifted_fields : Code → ℕ × ℕ
logical_shifted_fields Code.and_shifted32 = (0b00, 0)
logical_shifted_fields Code.and_shifted64 = (0b00, 0)
logical_shifted_fields Code.bic_shifted32 = (0b00, 1)
logical_shifted_fields Code.bic_shifted64 = (0b00, 1)
logical_shifted_fields Code.orr_shifted32 = (0b01, 0)
logical_shifted_fields Code.orr_shifted64 = (0b01, 0)
logical_shifted_fields Code.orn_shifted32 = (0b01, 1)
logical_shifted_fields Code.orn_shifted64 = (0b01, 1)
logical_shifted_fields Code.eor_shifted32 = (0b10, 0)
logical_shifted_fields Code.eor_shifted64 = (0b10, 0)
logical_shifted_fields Code.eon_shifted32 = (0b10, 1)
logical_shifted_fields Code.eon_shifted64 = (0b10, 1)
logical_shifted_fields Code.ands_shifted32 = (0b11, 0)
logical_shifted_fields Code.ands_shifted64 = (0b11, 0)
logical_shifted_fields _ = (0b11, 1)

-- The operands `[Rd, Rm]` of an alias that reads the zero register.
unfoldable pub shifted_from_zero : Instruction → ℕ → Result ShiftedFields
shifted_from_zero insn sf = do
  rd ← reg_num insn 0
  rm ← reg_num insn 1
  (sh, imm6) ← recover_shift insn 1 sf
  ok (rd, 31, rm, sh, imm6)

-- The operands `[Rn, Rm]` of an alias that writes the zero register.
unfoldable pub shifted_to_zero : Instruction → ℕ → Result ShiftedFields
shifted_to_zero insn sf = do
  rn ← reg_num insn 0
  rm ← reg_num insn 1
  (sh, imm6) ← recover_shift insn 1 sf
  ok (31, rn, rm, sh, imm6)

unfoldable pub shifted_canonical : Instruction → ℕ → Result ShiftedFields
shifted_canonical insn sf = do
  rd ← reg_num insn 0
  rn ← reg_num insn 1
  rm ← reg_num insn 2
  (sh, imm6) ← recover_shift insn 2 sf
  ok (rd, rn, rm, sh, imm6)

unfoldable pub recover_logical_shifted : Instruction → ℕ → Result ShiftedFields
unfolding shifted_from_zero shifted_to_zero shifted_canonical
recover_logical_shifted insn sf =
    let register_move : Result ShiftedFields = (do
      rd ← reg_num insn 0
      rm ← reg_num insn 1
      ok (rd, 31, rm, 0, 0)) in
    if is_mov insn.mnemonic
    then register_move
    else if is_mvn insn.mnemonic
    then shifted_from_zero insn sf
    else if is_tst insn.mnemonic
    then shifted_to_zero insn sf
    else shifted_canonical insn sf

unfoldable pub enc_logical_shifted : Instruction → Result ℕ
enc_logical_shifted insn =
    let sf : ℕ = if is_64 insn.code then 1 else 0 in
    let (opc, n) = logical_shifted_fields insn.code in
    do
      (rd, rn, rm, sh, imm6) ← recover_logical_shifted insn sf
      ok (
          shl32 sf 31
          or shl32 opc 29
          or shl32 0b01010 24
          or shl32 sh 22
          or shl32 n 21
          or shl32 rm 16
          or shl32 imm6 10
          or shl32 rn 5
          or rd)

-- `(op, s)`
unfoldable pub addsub_shifted_fields : Code → ℕ × ℕ
addsub_shifted_fields Code.add_shifted32 = (0, 0)
addsub_shifted_fields Code.add_shifted64 = (0, 0)
addsub_shifted_fields Code.adds_shifted32 = (0, 1)
addsub_shifted_fields Code.adds_shifted64 = (0, 1)
addsub_shifted_fields Code.sub_shifted32 = (1, 0)
addsub_shifted_fields Code.sub_shifted64 = (1, 0)
addsub_shifted_fields _ = (1, 1)

unfoldable pub recover_addsub_shifted : Instruction → ℕ → Result ShiftedFields
unfolding shifted_from_zero shifted_to_zero shifted_canonical
recover_addsub_shifted insn sf = elim insn.mnemonic [
  | Mnemonic.cmp ↦ shifted_to_zero insn sf
  | Mnemonic.cmn ↦ shifted_to_zero insn sf
  | Mnemonic.neg ↦ shifted_from_zero insn sf
  | Mnemonic.negs ↦ shifted_from_zero insn sf
  | _ ↦ shifted_canonical insn sf
]

unfoldable pub enc_addsub_shifted : Instruction → Result ℕ
enc_addsub_shifted insn =
    let sf : ℕ = if is_64 insn.code then 1 else 0 in
    let (op, s) = addsub_shifted_fields insn.code in
    do
      (rd, rn, rm, sh, imm6) ← recover_addsub_shifted insn sf
      reject_if (sh == 0b11) EncodeError.invalid_operand
      ok (
          shl32 sf 31
          or shl32 op 30
          or shl32 s 29
          or shl32 0b01011 24
          or shl32 sh 22
          or shl32 rm 16
          or shl32 imm6 10
          or shl32 rn 5
          or rd)

-- `(op, s)`
unfoldable pub addsub_extended_fields : Code → ℕ × ℕ
addsub_extended_fields Code.add_extended32 = (0, 0)
addsub_extended_fields Code.add_extended64 = (0, 0)
addsub_extended_fields Code.adds_extended32 = (0, 1)
addsub_extended_fields Code.adds_extended64 = (0, 1)
addsub_extended_fields Code.sub_extended32 = (1, 0)
addsub_extended_fields Code.sub_extended64 = (1, 0)
addsub_extended_fields _ = (1, 1)

-- `(rd, rn, rm, option, imm3)`
unfoldable pub recover_addsub_extended : Instruction → ℕ → Result ShiftedFields
recover_addsub_extended insn default_option =
    let compare : Result ShiftedFields = (do
      rn ← reg_num insn 0
      (rm, option, imm3) ← recover_extended_rm insn 1 default_option
      ok (31, rn, rm, option, imm3)) in
    let canonical : Result ShiftedFields = (do
      rd ← reg_num insn 0
      rn ← reg_num insn 1
      (rm, option, imm3) ← recover_extended_rm insn 2 default_option
      ok (rd, rn, rm, option, imm3)) in
    if is_compare insn.mnemonic then compare else canonical

unfoldable pub enc_addsub_extended : Instruction → Result ℕ
enc_addsub_extended insn =
    let sf : ℕ = if is_64 insn.code then 1 else 0 in
    let (op, s) = addsub_extended_fields insn.code in
    let default_option : ℕ = if sf == 1 then 0b011 else 0b010 in
    do
      (rd, rn, rm, option, imm3) ← recover_addsub_extended insn default_option
      reject_if (ltb 4 imm3) EncodeError.invalid_immediate
      ok (
          shl32 sf 31
          or shl32 op 30
          or shl32 s 29
          or shl32 0b01011 24
          or shl32 1 21
          or shl32 rm 16
          or shl32 option 13
          or shl32 imm3 10
          or shl32 rn 5
          or rd)
