-- ===== src/Decode/DpReg/Shifted.antt =====
-- src/decode/dp_reg.rs: logical, add and subtract with a shifted, an extended or a plain register.
-- `reg` and `width_of` are the functions of src/decode/dp_imm.rs, which dp_reg.rs repeats.
use f_arm.Base.{ℕ, zero, suc, bit_and, ltb, ◌==◌, ◌!=◌, if◌then◌else◌, as_u8}
use f_arm.Base.{Bool, true, false, ◌&&◌, ◌||◌, Option, none, some}
use f_arm.Decode.Bits.{bit, bits}
use f_arm.Decode.DpImm.Bitfield.{reg, width_of}
use f_arm.Enums.{ShiftType, ExtendType, shift_from_bits, extend_from_bits}
use f_arm.Instruction.{Instruction, set, set_alias, ◌▸◌}
use f_arm.Mnemonic.{Code, Mnemonic}
use f_arm.Operand.{Operand}
use f_arm.Register.{RegWidth}
use f_arm.Register.Resolve.{gp_register}

-- The decoration of a shifted register, `LSL #0` folded away.
unfoldable pub folded_shift : ShiftType → ℕ → Option (ShiftType × ℕ)
folded_shift ShiftType.lsl amt = if amt == 0 then none else some (ShiftType.lsl, as_u8 amt)
folded_shift st amt = some (st, as_u8 amt)

unfoldable pub reg_shifted : RegWidth → ℕ → ShiftType → ℕ → Operand
reg_shifted width n st amt =
    Operand.reg (gp_register false width (bit_and n 0x1f)) none none (folded_shift st amt) none none

-- By `(sf, opc, n)`.
unfoldable pub logical_shifted_code : ℕ → ℕ → ℕ → Code
logical_shifted_code zero zero zero = Code.and_shifted32
logical_shifted_code (suc zero) zero zero = Code.and_shifted64
logical_shifted_code zero zero (suc zero) = Code.bic_shifted32
logical_shifted_code (suc zero) zero (suc zero) = Code.bic_shifted64
logical_shifted_code zero (suc zero) zero = Code.orr_shifted32
logical_shifted_code (suc zero) (suc zero) zero = Code.orr_shifted64
logical_shifted_code zero (suc zero) (suc zero) = Code.orn_shifted32
logical_shifted_code (suc zero) (suc zero) (suc zero) = Code.orn_shifted64
logical_shifted_code zero (suc (suc zero)) zero = Code.eor_shifted32
logical_shifted_code (suc zero) (suc (suc zero)) zero = Code.eor_shifted64
logical_shifted_code zero (suc (suc zero)) (suc zero) = Code.eon_shifted32
logical_shifted_code (suc zero) (suc (suc zero)) (suc zero) = Code.eon_shifted64
logical_shifted_code zero _ zero = Code.ands_shifted32
logical_shifted_code (suc zero) _ zero = Code.ands_shifted64
logical_shifted_code zero _ _ = Code.bics_shifted32
logical_shifted_code _ _ _ = Code.bics_shifted64

-- `st == ShiftType::Lsl`
unfoldable pub is_lsl : ShiftType → Bool
is_lsl ShiftType.lsl = true
is_lsl _ = false

unfoldable pub decode_logical_shifted : ℕ → Instruction → Instruction
unfolding is_lsl
decode_logical_shifted word out₀ =
    let sf = bit word 31 in
    let opc = bits word 29 2 in
    let shift = bits word 22 2 in
    let n = bit word 21 in
    let rm = bits word 16 5 in
    let imm6 = bits word 10 6 in
    let rn = bits word 5 5 in
    let rd = bits word 0 5 in
    if sf == 0 && bit imm6 5 == 1
    then out₀
    else let w = width_of sf in
      let st = shift_from_bits shift in
      let out = set out₀ (logical_shifted_code sf opc n) in
      let is_orr = opc == 1 && n == 0 in
      let is_orn = opc == 1 && n == 1 in
      let is_ands = opc == 3 && n == 0 in
      if is_orr && rn == 31 && is_lsl st && imm6 == 0
      then set_alias out Mnemonic.mov ▸ reg false w rd ▸ reg false w rm
      else if is_orn && rn == 31
      then set_alias out Mnemonic.mvn ▸ reg false w rd ▸ reg_shifted w rm st imm6
      else if is_ands && rd == 31
      then set_alias out Mnemonic.tst ▸ reg false w rn ▸ reg_shifted w rm st imm6
      else (out ▸ reg false w rd ▸ reg false w rn ▸ reg_shifted w rm st imm6)

-- By `(sf, op, s)`.
unfoldable pub addsub_shifted_code : ℕ → ℕ → ℕ → Code
addsub_shifted_code zero zero zero = Code.add_shifted32
addsub_shifted_code (suc zero) zero zero = Code.add_shifted64
addsub_shifted_code zero zero (suc zero) = Code.adds_shifted32
addsub_shifted_code (suc zero) zero (suc zero) = Code.adds_shifted64
addsub_shifted_code zero (suc zero) zero = Code.sub_shifted32
addsub_shifted_code (suc zero) (suc zero) zero = Code.sub_shifted64
addsub_shifted_code zero (suc zero) (suc zero) = Code.subs_shifted32
addsub_shifted_code _ _ _ = Code.subs_shifted64

unfoldable pub decode_addsub_shifted : ℕ → Instruction → Instruction
decode_addsub_shifted word out₀ =
    let sf = bit word 31 in
    let op = bit word 30 in
    let s = bit word 29 in
    let shift = bits word 22 2 in
    let rm = bits word 16 5 in
    let imm6 = bits word 10 6 in
    let rn = bits word 5 5 in
    let rd = bits word 0 5 in
    if shift == 3
    then out₀
    else if sf == 0 && bit imm6 5 == 1
    then out₀
    else let w = width_of sf in
      let st = shift_from_bits shift in
      let out = set out₀ (addsub_shifted_code sf op s) in
      let flag_setting = s == 1 in
      if flag_setting && rd == 31
      then set_alias out (if op == 1 then Mnemonic.cmp else Mnemonic.cmn)
        ▸ reg false w rn
        ▸ reg_shifted w rm st imm6
      else if op == 1 && rn == 31
      then set_alias out (if flag_setting then Mnemonic.negs else Mnemonic.neg)
        ▸ reg false w rd
        ▸ reg_shifted w rm st imm6
      else (out ▸ reg false w rd ▸ reg false w rn ▸ reg_shifted w rm st imm6)

-- By `(sf, op, s)`.
unfoldable pub addsub_extended_code : ℕ → ℕ → ℕ → Code
addsub_extended_code zero zero zero = Code.add_extended32
addsub_extended_code (suc zero) zero zero = Code.add_extended64
addsub_extended_code zero zero (suc zero) = Code.adds_extended32
addsub_extended_code (suc zero) zero (suc zero) = Code.adds_extended64
addsub_extended_code zero (suc zero) zero = Code.sub_extended32
addsub_extended_code (suc zero) (suc zero) zero = Code.sub_extended64
addsub_extended_code zero (suc zero) (suc zero) = Code.subs_extended32
addsub_extended_code _ _ _ = Code.subs_extended64

-- The decorations of `build_extended_rm`: the shift, and the extend.
unfoldable pub extended_decorations :
    ExtendType → ℕ → Bool → Option (ShiftType × ℕ) × Option ExtendType
extended_decorations ext imm3 use_lsl =
    if use_lsl
    then ((if imm3 == 0 then none else some (ShiftType.lsl, as_u8 imm3)), none)
    else (some (ShiftType.lsl, as_u8 imm3), some ext)

unfoldable pub build_extended_rm : ℕ → RegWidth → ExtendType → ℕ → Bool → Operand
build_extended_rm rm rm_w ext imm3 use_lsl =
    let decorations = extended_decorations ext imm3 use_lsl in
    Operand.reg (gp_register false rm_w (bit_and rm 0x1f)) none none decorations.0 decorations.1
      none

unfoldable pub decode_addsub_extended : ℕ → Instruction → Instruction
decode_addsub_extended word out₀ =
    let sf = bit word 31 in
    let op = bit word 30 in
    let s = bit word 29 in
    let option = bits word 13 3 in
    let imm3 = bits word 10 3 in
    let rm = bits word 16 5 in
    let rn = bits word 5 5 in
    let rd = bits word 0 5 in
    if bits word 22 2 != 0
    then out₀
    else if ltb 4 imm3
    then out₀
    else let w = width_of sf in
      let ext = extend_from_bits option in
      let out = set out₀ (addsub_extended_code sf op s) in
      let flag_setting = s == 1 in
      let is_cmp = flag_setting && rd == 31 in
      let rm_w = if sf == 1 && bit_and option 3 == 3 then RegWidth.x64 else RegWidth.w32 in
      let default_option : ℕ = if sf == 1 then 3 else 2 in
      let sp_involved = if is_cmp then rn == 31 else (rd == 31 || rn == 31) in
      let use_lsl = option == default_option && sp_involved in
      let rm_op = build_extended_rm rm rm_w ext imm3 use_lsl in
      if is_cmp
      then set_alias out (if op == 1 then Mnemonic.cmp else Mnemonic.cmn) ▸ reg true w rn ▸ rm_op
      else if flag_setting
      then (out ▸ reg false w rd ▸ reg true w rn ▸ rm_op)
      else (out ▸ reg true w rd ▸ reg true w rn ▸ rm_op)
