-- ===== src/Encode/DpImm/Constant.antt =====
-- src/encode/dp_imm.rs: the logical immediate and the wide moves.
use f_arm.Base.{ℕ, zero, suc, ◌+◌, ◌*◌, ◌/◌, bit_and, ltb, ◌==◌, ◌!=◌, if◌then◌else◌}
use f_arm.Base.{◌&&◌, none, some}
use f_arm.Base.{shr, shl32, shl64, not64, ◌or◌}
use f_arm.Base.{as_u32}
use f_arm.Encode.Bits.{encode_bit_masks}
use f_arm.Encode.DpImm.Fields.{reg_num, imm_u, is_64}
use f_arm.Encode.Error.{EncodeError, Result, ok, err, ◌>>=◌, ◌>>◌, reject_if}
use f_arm.Instruction.{Instruction, op}
use f_arm.Mnemonic.{Code, Mnemonic}
use f_arm.Operand.{Operand}

unfoldable pub logical_opc : Code → ℕ
logical_opc Code.and_imm32 = 0
logical_opc Code.and_imm64 = 0
logical_opc Code.orr_imm32 = 1
logical_opc Code.orr_imm64 = 1
logical_opc Code.eor_imm32 = 2
logical_opc Code.eor_imm64 = 2
logical_opc _ = 3

-- `(rd, rn, value)` from the operands: `TST` has no destination, the `MOV` alias no source.
unfoldable pub logical_operands : Instruction → Result (ℕ × ℕ × ℕ)
logical_operands insn =
    let tst : Result (ℕ × ℕ × ℕ) = (do rn ← reg_num insn 0; v ← imm_u insn 1; ok (31, rn, v)) in
    let mov : Result (ℕ × ℕ × ℕ) = (do rd ← reg_num insn 0; v ← imm_u insn 1; ok (rd, 31, v)) in
    let canonical : Result (ℕ × ℕ × ℕ) = (do
      rd ← reg_num insn 0
      rn ← reg_num insn 1
      v ← imm_u insn 2
      ok (rd, rn, v)) in
    elim insn.mnemonic [ Mnemonic.tst ↦ tst | Mnemonic.mov ↦ mov | _ ↦ canonical ]

unfoldable pub enc_logical_imm : Instruction → Result ℕ
enc_logical_imm insn =
    let sf : ℕ = if is_64 insn.code then 1 else 0 in
    let datasize : ℕ = if sf == 1 then 64 else 32 in
    let opc = logical_opc insn.code in
    do
      (rd, rn, value₀) ← logical_operands insn
      let value : ℕ = if datasize == 32 then bit_and value₀ 0xffff_ffff else value₀
      elim (encode_bit_masks value datasize) [
        | none ↦ err EncodeError.invalid_immediate
        | some (n, immr, imms) ↦ ok (
            shl32 sf 31
            or shl32 opc 29
            or shl32 0b100100 23
            or shl32 n 22
            or shl32 immr 16
            or shl32 imms 10
            or shl32 rn 5
            or rd)
      ]

-- `for hw in 0..lanes`, with the lanes that are left.
unfoldable pub factor_loop : ℕ → ℕ → ℕ → Result (ℕ × ℕ)
factor_loop zero value hw = err EncodeError.invalid_immediate
factor_loop (suc left) value hw =
    let rest = factor_loop left value (hw + 1) in
    let shift = hw * 16 in
    if bit_and value (not64 (shl64 0xffff shift)) == 0
    then ok (as_u32 (bit_and (shr value shift) 0xffff), hw)
    else rest

unfoldable pub factor_movz : ℕ → ℕ → Result (ℕ × ℕ)
factor_movz value datasize = factor_loop (datasize / 16) value 0

unfoldable pub factor_movn : ℕ → ℕ → Result (ℕ × ℕ)
factor_movn value datasize =
    let inv : ℕ = if datasize == 32 then bit_and (not64 value) 0xffff_ffff else not64 value in
    factor_loop (datasize / 16) inv 0

unfoldable pub move_wide_opc : Code → ℕ
move_wide_opc Code.movn32 = 0
move_wide_opc Code.movn64 = 0
move_wide_opc Code.movz32 = 2
move_wide_opc Code.movz64 = 2
move_wide_opc _ = 3

unfoldable pub enc_move_wide : Instruction → Result ℕ
enc_move_wide insn =
    let sf : ℕ = if is_64 insn.code then 1 else 0 in
    let datasize : ℕ = if sf == 1 then 64 else 32 in
    let opc = move_wide_opc insn.code in
    let materialized : Result (ℕ × ℕ) = (do
      raw₀ ← imm_u insn 1
      let raw : ℕ = if datasize == 32 then bit_and raw₀ 0xffff_ffff else raw₀
      if opc == 2
          then factor_movz raw datasize
          else if opc == 0
          then factor_movn raw datasize
          else err EncodeError.invalid_operand) in
    do
      rd ← reg_num insn 0
      (imm16, hw) ← (elim (op insn 1) [
        | Operand.imm_shifted_move imm lsl ↦ ok (imm, lsl / 16)
        | Operand.imm_signed _ ↦ materialized
        | Operand.imm_unsigned _ ↦ materialized
        | _ ↦ err EncodeError.invalid_operand
      ])
      reject_if (sf == 0 && bit_and hw 2 != 0) EncodeError.invalid_immediate
      reject_if (ltb 0xffff imm16) EncodeError.invalid_immediate
      ok (shl32 sf 31 or shl32 opc 29 or shl32 0b100101 23 or shl32 hw 21 or shl32 imm16 5 or rd)
