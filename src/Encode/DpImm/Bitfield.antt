-- ===== src/Encode/DpImm/Bitfield.antt =====
-- src/encode/dp_imm.rs: the bitfield class with its alias family, and extract. The `u32`
-- arithmetic on operands wraps, as it does in a release build.
use f_arm.Base.{ℕ, ◌-◌, ◌%◌, bit_and, ltb, ◌==◌, ◌!=◌, if◌then◌else◌}
use f_arm.Base.{◌&&◌, ◌||◌, shl32, add32, sub32, as_u32, ◌or◌}
use f_arm.Encode.DpImm.Fields.{reg_num, imm_u, is_64}
use f_arm.Encode.Error.{EncodeError, Result, ok, ◌>>=◌, ◌>>◌, reject_if}
use f_arm.Instruction.{Instruction}
use f_arm.Mnemonic.{Code, Mnemonic}

-- `(rn, immr, imms)`
abbrev pub BitfieldFields : Type 0
BitfieldFields = ℕ × ℕ × ℕ

-- `#lsb, #width` at operands `n` and `n + 1`, for the aliases that insert a field.
unfoldable pub insert_fields : Instruction → ℕ → ℕ → ℕ → ℕ → Result BitfieldFields
unfolding imm_u
insert_fields insn rn datasize n n' = do
  lsb ← imm_u insn n
  width ← imm_u insn n'
  reject_if (as_u32 width == 0) EncodeError.invalid_immediate
  ok (rn, sub32 datasize (as_u32 lsb) % datasize, sub32 (as_u32 width) 1)

unfoldable pub extract_fields : Instruction → ℕ → Result BitfieldFields
unfolding imm_u
extract_fields insn rn = do
  lsb ← imm_u insn 2
  width ← imm_u insn 3
  reject_if (as_u32 width == 0) EncodeError.invalid_immediate
  ok (rn, as_u32 lsb, sub32 (add32 (as_u32 lsb) (as_u32 width)) 1)

unfoldable pub recover_bitfield_fields : Instruction → ℕ → ℕ → Result BitfieldFields
unfolding reg_num imm_u insert_fields extract_fields
recover_bitfield_fields insn datasize max =
    let extension : ℕ → Result BitfieldFields = λ imms. reg_num insn 1 >>= λ rn. ok (rn, 0, imms) in
    let shift_right : Result BitfieldFields = (do
      rn ← reg_num insn 1
      shift ← imm_u insn 2
      ok (rn, as_u32 shift, max)) in
    let shift_left : Result BitfieldFields = (do
      rn ← reg_num insn 1
      shift ← imm_u insn 2
      reject_if (ltb max (as_u32 shift)) EncodeError.invalid_immediate
      ok (rn, (datasize - as_u32 shift) % datasize, max - as_u32 shift)) in
    let insert : Result BitfieldFields =
      reg_num insn 1 >>= λ rn. insert_fields insn rn datasize 2 3 in
    let extract : Result BitfieldFields = reg_num insn 1 >>= λ rn. extract_fields insn rn in
    let canonical : Result BitfieldFields = (do
      rn ← reg_num insn 1
      immr ← imm_u insn 2
      imms ← imm_u insn 3
      ok (rn, as_u32 immr, as_u32 imms)) in
    elim insn.mnemonic [
      | Mnemonic.sxtb ↦ extension 7
      | Mnemonic.uxtb ↦ extension 7
      | Mnemonic.sxth ↦ extension 15
      | Mnemonic.uxth ↦ extension 15
      | Mnemonic.sxtw ↦ extension 31
      | Mnemonic.asr ↦ shift_right
      | Mnemonic.lsr ↦ shift_right
      | Mnemonic.lsl ↦ shift_left
      | Mnemonic.sbfiz ↦ insert
      | Mnemonic.ubfiz ↦ insert
      | Mnemonic.sbfx ↦ extract
      | Mnemonic.ubfx ↦ extract
      | Mnemonic.bfxil ↦ extract
      | Mnemonic.bfi ↦ insert
      | Mnemonic.bfc ↦ insert_fields insn 31 datasize 1 2
      | _ ↦ canonical
    ]

unfoldable pub bitfield_opc : Code → ℕ
bitfield_opc Code.sbfm32 = 0
bitfield_opc Code.sbfm64 = 0
bitfield_opc Code.bfm32 = 1
bitfield_opc Code.bfm64 = 1
bitfield_opc _ = 2

unfoldable pub enc_bitfield : Instruction → Result ℕ
enc_bitfield insn =
    let sf : ℕ = if is_64 insn.code then 1 else 0 in
    let n = sf in
    let datasize : ℕ = if sf == 1 then 64 else 32 in
    let max = datasize - 1 in
    let opc = bitfield_opc insn.code in
    do
      (rn, immr, imms) ← recover_bitfield_fields insn datasize max
      reject_if (ltb max immr || ltb max imms) EncodeError.invalid_immediate
      rd ← reg_num insn 0
      ok (
          shl32 sf 31
          or shl32 opc 29
          or shl32 0b100110 23
          or shl32 n 22
          or shl32 immr 16
          or shl32 imms 10
          or shl32 rn 5
          or rd)

unfoldable pub enc_extract : Instruction → Result ℕ
unfolding is_64 reg_num imm_u
enc_extract insn =
    let sf : ℕ = if is_64 insn.code then 1 else 0 in
    let n = sf in
    let ror : Result BitfieldFields = (do
      rn ← reg_num insn 1
      imms ← imm_u insn 2
      ok (rn, rn, as_u32 imms)) in
    let canonical : Result BitfieldFields = (do
      rn ← reg_num insn 1
      rm ← reg_num insn 2
      imms ← imm_u insn 3
      ok (rn, rm, as_u32 imms)) in
    do
      rd ← reg_num insn 0
      (rn, rm, imms) ← (elim insn.mnemonic [ Mnemonic.ror ↦ ror | _ ↦ canonical ])
      reject_if (sf == 0 && bit_and imms 0b100000 != 0) EncodeError.invalid_immediate
      reject_if (ltb 0x3f imms) EncodeError.invalid_immediate
      ok (
          shl32 sf 31
          or shl32 0b00100111 23
          or shl32 n 22
          or shl32 rm 16
          or shl32 imms 10
          or shl32 rn 5
          or rd)
