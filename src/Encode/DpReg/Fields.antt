-- ===== src/Encode/DpReg/Fields.antt =====
-- src/encode/dp_reg.rs: the helpers that read an operand, and the width of a code. `reg_num` and
-- `imm_u` are the functions of src/encode/dp_imm.rs, which dp_reg.rs repeats.
use f_arm.Base.{ℕ, bit_and, ltb, ◌==◌, ◌!=◌, Bool, true, false, ◌&&◌}
use f_arm.Base.{Option, none, some}
use f_arm.Encode.Error.{EncodeError, Result, ok, err, ◌>>=◌, ◌>>◌, reject_if}
use f_arm.Enums.{Condition, ShiftType, ExtendType, as_bits}
use f_arm.Instruction.{Instruction, op}
use f_arm.Mnemonic.{Code}
use f_arm.Operand.{Operand}
use f_arm.Register.Number.{number}

unfoldable pub cond_of : Instruction → ℕ → Result Condition
cond_of insn n = elim (op insn n) [ Operand.cond c ↦ ok c | _ ↦ err EncodeError.invalid_operand ]

unfoldable pub is_64 : Code → Bool
is_64 Code.and_shifted64 = true
is_64 Code.bic_shifted64 = true
is_64 Code.orr_shifted64 = true
is_64 Code.orn_shifted64 = true
is_64 Code.eor_shifted64 = true
is_64 Code.eon_shifted64 = true
is_64 Code.ands_shifted64 = true
is_64 Code.bics_shifted64 = true
is_64 Code.add_shifted64 = true
is_64 Code.adds_shifted64 = true
is_64 Code.sub_shifted64 = true
is_64 Code.subs_shifted64 = true
is_64 Code.add_extended64 = true
is_64 Code.adds_extended64 = true
is_64 Code.sub_extended64 = true
is_64 Code.subs_extended64 = true
is_64 Code.adc64 = true
is_64 Code.adcs64 = true
is_64 Code.sbc64 = true
is_64 Code.sbcs64 = true
is_64 Code.ccmn_reg64 = true
is_64 Code.ccmn_imm64 = true
is_64 Code.ccmp_reg64 = true
is_64 Code.ccmp_imm64 = true
is_64 Code.csel64 = true
is_64 Code.csinc64 = true
is_64 Code.csinv64 = true
is_64 Code.csneg64 = true
is_64 Code.madd64 = true
is_64 Code.msub64 = true
is_64 Code.udiv64 = true
is_64 Code.sdiv64 = true
is_64 Code.lslv64 = true
is_64 Code.lsrv64 = true
is_64 Code.asrv64 = true
is_64 Code.rorv64 = true
is_64 Code.rbit64 = true
is_64 Code.rev1664 = true
is_64 Code.rev3264 = true
is_64 Code.rev64_bit = true
is_64 Code.clz64 = true
is_64 Code.cls64 = true
is_64 Code.abs64 = true
is_64 Code.cnt64 = true
is_64 Code.ctz64 = true
is_64 Code.smax_reg64 = true
is_64 Code.smin_reg64 = true
is_64 Code.umax_reg64 = true
is_64 Code.umin_reg64 = true
is_64 _ = false

unfoldable pub reg_with_shift : Instruction → ℕ → Result (ℕ × Option (ShiftType × ℕ))
reg_with_shift insn n = elim (op insn n) [
  | Operand.reg r _ _ shift _ _ ↦ ok (number r, shift)
  | _ ↦ err EncodeError.invalid_operand
]

-- `shift.unwrap_or((ShiftType::Lsl, 0))`
unfoldable pub shift_or_none : Option (ShiftType × ℕ) → ShiftType × ℕ
shift_or_none none = (ShiftType.lsl, 0)
shift_or_none (some decoration) = decoration

unfoldable pub shift_field : ShiftType → Result ℕ
shift_field ShiftType.lsl = ok 0
shift_field ShiftType.lsr = ok 1
shift_field ShiftType.asr = ok 2
shift_field ShiftType.ror = ok 3
shift_field _ = err EncodeError.invalid_operand

-- `recover_shift` on the decoration of the operand.
unfoldable pub shift_fields : Option (ShiftType × ℕ) → ℕ → Result (ℕ × ℕ)
unfolding shift_field shift_or_none
shift_fields shift sf =
    let (st, imm6) = shift_or_none shift in
    do
      sh ← shift_field st
      reject_if (ltb 0x3f imm6) EncodeError.invalid_immediate
      reject_if (sf == 0 && bit_and imm6 0b10_0000 != 0) EncodeError.invalid_immediate
      ok (sh, imm6)

unfoldable pub recover_shift : Instruction → ℕ → ℕ → Result (ℕ × ℕ)
recover_shift insn n sf = reg_with_shift insn n >>= λ decorated. shift_fields decorated.1 sf

-- `shift.map(|(_, a)| a as u32).unwrap_or(0)`
unfoldable pub amount_or_zero : Option (ShiftType × ℕ) → ℕ
amount_or_zero none = 0
amount_or_zero (some (_, amt)) = amt

unfoldable pub option_or : Option ExtendType → ℕ → ℕ
option_or none default_option = default_option
option_or (some ext) default_option = as_bits ext

unfoldable pub recover_extended_rm : Instruction → ℕ → ℕ → Result (ℕ × ℕ × ℕ)
recover_extended_rm insn n default_option = elim (op insn n) [
  | Operand.reg r _ _ shift extend _ ↦
      ok (number r, option_or extend default_option, amount_or_zero shift)
  | _ ↦ err EncodeError.invalid_operand
]
