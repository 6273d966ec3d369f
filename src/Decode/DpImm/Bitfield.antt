-- ===== src/Decode/DpImm/Bitfield.antt =====
-- src/decode/dp_imm.rs: the operand helpers, the bitfield class with its aliases, and extract.
use f_arm.Base.{ℕ, zero, suc, ◌+◌, ◌-◌, ◌%◌, bit_and, ltb, ◌==◌, ◌!=◌, if◌then◌else◌}
use f_arm.Base.{Bool, false, ◌&&◌, ◌||◌, Option, none, some}
use f_arm.Decode.Bits.{bit, bits}
use f_arm.Instruction.{Instruction, set, set_alias, ◌▸◌}
use f_arm.Mnemonic.{Code, Mnemonic}
use f_arm.Operand.{Operand}
use f_arm.Register.{RegWidth}
use f_arm.Register.Resolve.{gp_register}

unfoldable pub reg : Bool → RegWidth → ℕ → Operand
reg use_sp width n =
    Operand.reg (gp_register use_sp width (bit_and n 0x1f)) none none none none none

unfoldable pub width_of : ℕ → RegWidth
width_of sf = if bit_and sf 1 == 1 then RegWidth.x64 else RegWidth.w32

-- The sign extension that an SBFM with `immr == 0` is.
unfoldable pub sbfm_extension : ℕ → ℕ → Option Mnemonic
sbfm_extension datasize imms =
    if imms == 7
    then some Mnemonic.sxtb
    else if imms == 15
    then some Mnemonic.sxth
    else if imms == 31 && datasize == 64
    then some Mnemonic.sxtw
    else none

-- The operands `Rd, Rn, #a` and `Rd, Rn, #a, #b` that most aliases have.
abbrev pub one_imm : Instruction → RegWidth → ℕ → ℕ → ℕ → Instruction
one_imm out w rd rn a = out ▸ reg false w rd ▸ reg false w rn ▸ Operand.imm_unsigned a

abbrev pub two_imms : Instruction → RegWidth → ℕ → ℕ → ℕ → ℕ → Instruction
two_imms out w rd rn a b = one_imm out w rd rn a ▸ Operand.imm_unsigned b

unfoldable pub emit_sbfm_alias : Instruction → RegWidth → ℕ → ℕ → ℕ → ℕ → ℕ → Instruction
unfolding sbfm_extension
emit_sbfm_alias out w datasize immr imms rn rd =
    let max = datasize - 1 in
    let rest : Instruction =
      if imms == max
      then one_imm (set_alias out Mnemonic.asr) w rd rn immr
      else if ltb imms immr
      then two_imms (set_alias out Mnemonic.sbfiz) w rd rn ((datasize - immr) % datasize) (imms + 1)
      else two_imms (set_alias out Mnemonic.sbfx) w rd rn immr (imms - immr + 1) in
    elim (if immr == 0 then sbfm_extension datasize imms else none) [
      | some m ↦ set_alias out m ▸ reg false w rd ▸ reg false RegWidth.w32 rn
      | none ↦ rest
    ]

-- The zero extension that a 32-bit UBFM with `immr == 0` is.
unfoldable pub ubfm_extension : ℕ → Option Mnemonic
ubfm_extension imms =
    if imms == 7 then some Mnemonic.uxtb else if imms == 15 then some Mnemonic.uxth else none

unfoldable pub emit_ubfm_alias : Instruction → RegWidth → ℕ → ℕ → ℕ → ℕ → ℕ → Instruction
unfolding ubfm_extension
emit_ubfm_alias out w datasize immr imms rn rd =
    let max = datasize - 1 in
    let rest : Instruction =
      if imms != max && imms + 1 == immr
      then one_imm (set_alias out Mnemonic.lsl) w rd rn (max - imms)
      else if imms == max
      then one_imm (set_alias out Mnemonic.lsr) w rd rn immr
      else if ltb imms immr
      then two_imms (set_alias out Mnemonic.ubfiz) w rd rn ((datasize - immr) % datasize) (imms + 1)
      else two_imms (set_alias out Mnemonic.ubfx) w rd rn immr (imms - immr + 1) in
    elim (if immr == 0 && datasize == 32 then ubfm_extension imms else none) [
      | some m ↦ set_alias out m ▸ reg false w rd ▸ reg false RegWidth.w32 rn
      | none ↦ rest
    ]

unfoldable pub emit_bfm_alias : Instruction → RegWidth → ℕ → ℕ → ℕ → ℕ → ℕ → Instruction
emit_bfm_alias out w datasize immr imms rn rd =
    if ltb imms immr
    then (let lsb = (datasize - immr) % datasize in
        let width = imms + 1 in
        if rn == 31
        then set_alias out Mnemonic.bfc
          ▸ reg false w rd
          ▸ Operand.imm_unsigned lsb
          ▸ Operand.imm_unsigned width
        else two_imms (set_alias out Mnemonic.bfi) w rd rn lsb width)
    else two_imms (set_alias out Mnemonic.bfxil) w rd rn immr (imms - immr + 1)

-- By `(sf, opc)`.
unfoldable pub bitfield_code : ℕ → ℕ → Code
bitfield_code zero zero = Code.sbfm32
bitfield_code (suc zero) zero = Code.sbfm64
bitfield_code zero (suc zero) = Code.bfm32
bitfield_code (suc zero) (suc zero) = Code.bfm64
bitfield_code zero _ = Code.ubfm32
bitfield_code _ _ = Code.ubfm64

unfoldable pub decode_bitfield : ℕ → Instruction → Instruction
unfolding bitfield_code
decode_bitfield word out₀ =
    let sf = bit word 31 in
    let opc = bits word 29 2 in
    let n = bit word 22 in
    let immr = bits word 16 6 in
    let imms = bits word 10 6 in
    let rn = bits word 5 5 in
    let rd = bits word 0 5 in
    if opc == 3
    then out₀
    else if n != sf
    then out₀
    else if sf == 0 && (bit immr 5 == 1 || bit imms 5 == 1)
    then out₀
    else let w = width_of sf in
      let datasize : ℕ = if sf == 1 then 64 else 32 in
      let out = set out₀ (bitfield_code sf opc) in
      if opc == 0
      then emit_sbfm_alias out w datasize immr imms rn rd
      else if opc == 1
      then emit_bfm_alias out w datasize immr imms rn rd
      else emit_ubfm_alias out w datasize immr imms rn rd

unfoldable pub decode_extract : ℕ → Instruction → Instruction
decode_extract word out₀ =
    let sf = bit word 31 in
    let op21 = bits word 29 2 in
    let n = bit word 22 in
    let o0 = bit word 21 in
    let rm = bits word 16 5 in
    let imms = bits word 10 6 in
    let rn = bits word 5 5 in
    let rd = bits word 0 5 in
    if op21 != 0 || o0 != 0
    then out₀
    else if n != sf
    then out₀
    else if sf == 0 && bit imms 5 == 1
    then out₀
    else let w = width_of sf in
      let out = set out₀ (if sf == 1 then Code.extr64 else Code.extr32) in
      if rn == rm
      then one_imm (set_alias out Mnemonic.ror) w rd rn imms
      else (out ▸ reg false w rd ▸ reg false w rn ▸ reg false w rm ▸ Operand.imm_unsigned imms)
