-- ===== src/Decode/DpReg/Flags.antt =====
-- src/decode/dp_reg.rs: carry, checked pointers, flag manipulation and the conditional forms.
use f_arm.Base.{ℕ, zero, suc, bit_and, ◌==◌, ◌!=◌, if◌then◌else◌, not, ◌&&◌, ◌||◌, true, false}
use f_arm.Decode.Bits.{bit, bits}
use f_arm.Decode.DpImm.Bitfield.{reg, width_of}
use f_arm.Decode.DpReg.Shifted.{reg_shifted}
use f_arm.Enums.{ShiftType, condition_from_bits, invert}
use f_arm.Features.{Feature, FeatureSet, has}
use f_arm.Instruction.{Instruction, set, set_alias, ◌▸◌}
use f_arm.Mnemonic.{Code, Mnemonic}
use f_arm.Operand.{Operand}
use f_arm.Register.{RegWidth}

-- By `(sf, op, s)`.
unfoldable pub addsub_carry_code : ℕ → ℕ → ℕ → Code
addsub_carry_code zero zero zero = Code.adc32
addsub_carry_code (suc zero) zero zero = Code.adc64
addsub_carry_code zero zero (suc zero) = Code.adcs32
addsub_carry_code (suc zero) zero (suc zero) = Code.adcs64
addsub_carry_code zero (suc zero) zero = Code.sbc32
addsub_carry_code (suc zero) (suc zero) zero = Code.sbc64
addsub_carry_code zero (suc zero) (suc zero) = Code.sbcs32
addsub_carry_code _ _ _ = Code.sbcs64

unfoldable pub decode_addsub_carry : ℕ → Instruction → Instruction
decode_addsub_carry word out₀ =
    let sf = bit word 31 in
    let op = bit word 30 in
    let s = bit word 29 in
    let opcode2 = bits word 10 6 in
    let rm = bits word 16 5 in
    let rn = bits word 5 5 in
    let rd = bits word 0 5 in
    if opcode2 != 0
    then out₀
    else let w = width_of sf in
      let out = set out₀ (addsub_carry_code sf op s) in
      if op == 1 && rn == 31
      then set_alias out (if s == 1 then Mnemonic.ngcs else Mnemonic.ngc)
        ▸ reg false w rd
        ▸ reg false w rm
      else (out ▸ reg false w rd ▸ reg false w rn ▸ reg false w rm)

unfoldable pub decode_addsub_pt : ℕ → FeatureSet → Instruction → Instruction
decode_addsub_pt word features out =
    if not (has features Feature.cpa)
    then out
    else let sf = bit word 31 in
      let op = bit word 30 in
      let s = bit word 29 in
      if sf == 0 || s == 1
      then out
      else let rm = bits word 16 5 in
        let amt = bits word 10 3 in
        let rn = bits word 5 5 in
        let rd = bits word 0 5 in
        set out (if op == 0 then Code.addpt else Code.subpt)
        ▸ reg true RegWidth.x64 rd
        ▸ reg true RegWidth.x64 rn
        ▸ reg_shifted RegWidth.x64 rm ShiftType.lsl amt

unfoldable pub decode_rmif : ℕ → Instruction → Instruction
decode_rmif word out =
    if bit word 31 != 1 || bit word 30 != 0 || bit word 29 != 1 || bit word 4 != 0
    then out
    else let imm6 = bits word 15 6 in
      let rn = bits word 5 5 in
      let mask = bits word 0 4 in
      set out Code.rmif
      ▸ reg false RegWidth.x64 rn
      ▸ Operand.imm_unsigned imm6
      ▸ Operand.imm_unsigned mask

unfoldable pub decode_setf : ℕ → Instruction → Instruction
decode_setf word out =
    if bit word 31 != 0 || bit word 30 != 0 || bit word 29 != 1
    then out
    else if bits word 15 6 != 0 || bit word 4 != 0 || bits word 0 4 != 0b1101
    then out
    else let sz = bit word 14 in
      let rn = bits word 5 5 in
      set out (if sz == 0 then Code.setf8 else Code.setf16) ▸ reg false RegWidth.w32 rn

-- By `(op, imm_form, sf)`.
unfoldable pub cond_compare_code : ℕ → ℕ → ℕ → Code
cond_compare_code zero zero zero = Code.ccmn_reg32
cond_compare_code zero zero (suc zero) = Code.ccmn_reg64
cond_compare_code zero (suc zero) zero = Code.ccmn_imm32
cond_compare_code zero (suc zero) (suc zero) = Code.ccmn_imm64
cond_compare_code (suc zero) zero zero = Code.ccmp_reg32
cond_compare_code (suc zero) zero (suc zero) = Code.ccmp_reg64
cond_compare_code (suc zero) (suc zero) zero = Code.ccmp_imm32
cond_compare_code _ _ _ = Code.ccmp_imm64

unfoldable pub decode_cond_compare : ℕ → Instruction → Instruction
decode_cond_compare word out₀ =
    let sf = bit word 31 in
    let op = bit word 30 in
    let s = bit word 29 in
    let imm_form = bit word 11 in
    let o2 = bit word 10 in
    let o3 = bit word 4 in
    let rm = bits word 16 5 in
    let cond = bits word 12 4 in
    let rn = bits word 5 5 in
    let nzcv = bits word 0 4 in
    if s != 1 || o2 != 0 || o3 != 0
    then out₀
    else let w = width_of sf in
      let out = set out₀ (cond_compare_code op imm_form sf) in
      out
      ▸ reg false w rn
      ▸ (if imm_form == 1 then Operand.imm_unsigned rm else reg false w rm)
      ▸ Operand.imm_unsigned nzcv
      ▸ Operand.cond (condition_from_bits cond)

-- By `(sf, op, o2)`.
unfoldable pub cond_select_code : ℕ → ℕ → ℕ → Code
cond_select_code zero zero zero = Code.csel32
cond_select_code (suc zero) zero zero = Code.csel64
cond_select_code zero zero (suc zero) = Code.csinc32
cond_select_code (suc zero) zero (suc zero) = Code.csinc64
cond_select_code zero (suc zero) zero = Code.csinv32
cond_select_code (suc zero) (suc zero) zero = Code.csinv64
cond_select_code zero (suc zero) (suc zero) = Code.csneg32
cond_select_code _ _ _ = Code.csneg64

unfoldable pub decode_cond_select : ℕ → Instruction → Instruction
decode_cond_select word out₀ =
    let sf = bit word 31 in
    let op = bit word 30 in
    let s = bit word 29 in
    let o1 = bit word 11 in
    let o2 = bit word 10 in
    let rm = bits word 16 5 in
    let cond = bits word 12 4 in
    let rn = bits word 5 5 in
    let rd = bits word 0 5 in
    if s != 0 || o1 != 0
    then out₀
    else let w = width_of sf in
      let out = set out₀ (cond_select_code sf op o2) in
      let c = condition_from_bits cond in
      let cond_ok = bit_and cond 0b1110 != 0b1110 in
      let is_csinc = op == 0 && o2 == 1 in
      let is_csinv = op == 1 && o2 == 0 in
      let is_csneg = op == 1 && o2 == 1 in
      if (is_csinc || is_csinv) && rm == 31 && rn == 31 && cond_ok
      then set_alias out (if is_csinc then Mnemonic.cset else Mnemonic.csetm)
        ▸ reg false w rd
        ▸ Operand.cond (invert c)
      else if (is_csinc || is_csinv || is_csneg) && rm == rn && cond_ok
      then set_alias out
          (if is_csinc then Mnemonic.cinc else if is_csinv then Mnemonic.cinv else Mnemonic.cneg)
        ▸ reg false w rd
        ▸ reg false w rn
        ▸ Operand.cond (invert c)
      else (out ▸ reg false w rd ▸ reg false w rn ▸ reg false w rm ▸ Operand.cond c)
