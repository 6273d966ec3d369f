-- ===== src/Encode/BranchSys/Fields.antt =====
-- src/encode/branch_sys.rs: the helpers that read an operand, and the offset of a label.
use f_arm.Base.{
  ℕ, ◌-◌, Bool, ◌||◌, ◌!=◌, if◌then◌else◌, bit_and, shl32, shl64, asr, as_i64, i64_as_u64,
  i64_as_u32, wrapping_sub, is_zero, is_minus_one, ℤ, true, false, ◌==◌,
}
use f_arm.Encode.Error.{EncodeError, Result, ok, err}
use f_arm.Instruction.{Instruction, op}
use f_arm.Operand.{Operand}
use f_arm.Register.Width.{width_bits}

unfoldable pub label : Instruction → ℕ → Result ℕ
label insn n = elim (op insn n) [ Operand.label v ↦ ok v | _ ↦ err EncodeError.invalid_operand ]

-- `hi != 0 && hi != -1`, of the bits above a signed field.
unfoldable pub overflows : ℤ → ℕ → Bool
overflows imm bits =
    let hi = asr imm (bits - 1) in
    elim (is_zero hi || is_minus_one hi) [ true ↦ false | false ↦ true ]

-- The mask is applied to the bits of the signed offset.
unfoldable pub rel_imm : (target ip bits shift : ℕ) → Result ℕ
unfolding overflows
rel_imm target ip bits shift =
    let off = as_i64 (wrapping_sub target ip) in
    if bit_and (i64_as_u64 off) (shl64 1 shift - 1) != 0
    then err EncodeError.invalid_immediate
    else let imm = asr off shift in
      if overflows imm bits
      then err EncodeError.invalid_immediate
      else ok (bit_and (i64_as_u32 imm) (shl32 1 bits - 1))

unfoldable pub is_x_reg : Instruction → ℕ → Result Bool
is_x_reg insn n = elim (op insn n) [
  | Operand.reg r _ _ _ _ _ ↦ ok (width_bits r == 64)
  | _ ↦ err EncodeError.invalid_operand
]
