-- ===== src/Decode/BranchSys/Compare.antt =====
-- src/decode/branch_sys.rs: the branches that compare a register with a register or a number.
use f_arm.Base.{ℕ, ◌==◌, ◌!=◌, if◌then◌else◌, ◌&&◌, not, false, Option, none, some}
use f_arm.Decode.Bits.{bit, bits}
use f_arm.Decode.BranchSys.Fields.{branch_target}
use f_arm.Decode.DpImm.Bitfield.{reg, width_of}
use f_arm.Features.{Feature, FeatureSet, has}
use f_arm.Instruction.{Instruction, set, ◌▸◌}
use f_arm.Mnemonic.{Code}
use f_arm.Operand.{Operand}
use f_arm.Register.{RegWidth}

-- The codes by the condition at one size: word, byte and halfword.
unfoldable pub word_code : ℕ → Option Code
word_code cc =
    if cc == 0b000
    then some Code.cbgt
    else if cc == 0b001
    then some Code.cbge
    else if cc == 0b010
    then some Code.cbhi
    else if cc == 0b011
    then some Code.cbhs
    else if cc == 0b110
    then some Code.cbeq
    else if cc == 0b111
    then some Code.cbne
    else none

unfoldable pub byte_code : ℕ → Option Code
byte_code cc =
    if cc == 0b000
    then some Code.cbbgt
    else if cc == 0b001
    then some Code.cbbge
    else if cc == 0b010
    then some Code.cbbhi
    else if cc == 0b011
    then some Code.cbbhs
    else if cc == 0b110
    then some Code.cbbeq
    else if cc == 0b111
    then some Code.cbbne
    else none

unfoldable pub half_code : ℕ → Option Code
half_code cc =
    if cc == 0b000
    then some Code.cbhgt
    else if cc == 0b001
    then some Code.cbhge
    else if cc == 0b010
    then some Code.cbhhi
    else if cc == 0b011
    then some Code.cbhhs
    else if cc == 0b110
    then some Code.cbheq
    else if cc == 0b111
    then some Code.cbhne
    else none

-- By `(size, cc)`, the byte and halfword arms only where `sf` is 0.
unfoldable pub register_code : ℕ → ℕ → ℕ → Option Code
register_code sf size cc =
    if size == 0b00
    then word_code cc
    else if size == 0b10 && sf == 0
    then byte_code cc
    else if size == 0b11 && sf == 0
    then half_code cc
    else none

unfoldable pub immediate_code : ℕ → Option Code
immediate_code cc =
    if cc == 0b000
    then some Code.cbgt
    else if cc == 0b001
    then some Code.cblt
    else if cc == 0b010
    then some Code.cbhi
    else if cc == 0b011
    then some Code.cblo
    else if cc == 0b110
    then some Code.cbeq
    else if cc == 0b111
    then some Code.cbne
    else none

-- A selector without a code leaves `out` as it is.
unfoldable pub emit_cmpbr : Option Code → (rt compared target : Operand) → Instruction → Instruction
emit_cmpbr none rt compared target out = out
emit_cmpbr (some code) rt compared target out = set out code ▸ rt ▸ compared ▸ target

unfoldable pub decode_cmpbr_register : ℕ → ℕ → Instruction → Instruction
unfolding branch_target
decode_cmpbr_register word ip out =
    let sf = bit word 31 in
    let cc = bits word 21 3 in
    let size = bits word 14 2 in
    let rt = bits word 0 5 in
    let target = Operand.label (branch_target ip (bits word 5 9) 11) in
    let w = if size == 0b00 && sf == 1 then RegWidth.x64 else RegWidth.w32 in
    let rm = bits word 16 5 in
    emit_cmpbr (register_code sf size cc) (reg false w rt) (reg false w rm) target out

unfoldable pub decode_cmpbr_immediate : ℕ → ℕ → Instruction → Instruction
unfolding branch_target
decode_cmpbr_immediate word ip out =
    let sf = bit word 31 in
    let cc = bits word 21 3 in
    let rt = bits word 0 5 in
    let target = Operand.label (branch_target ip (bits word 5 9) 11) in
    if bit word 14 != 0
    then out
    else let w = width_of sf in
      let imm6 = bits word 15 6 in
      emit_cmpbr (immediate_code cc) (reg false w rt) (Operand.imm_unsigned imm6) target out

unfoldable pub decode_cmpbr : ℕ → ℕ → FeatureSet → Instruction → Instruction
unfolding decode_cmpbr_register decode_cmpbr_immediate
decode_cmpbr word ip features out =
    if not (has features Feature.cmpbr)
    then out
    else let imm = bit word 24 in
      if imm == 0 then decode_cmpbr_register word ip out else decode_cmpbr_immediate word ip out
