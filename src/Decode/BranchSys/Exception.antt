-- ===== src/Decode/BranchSys/Exception.antt =====
-- src/decode/branch_sys.rs: exception generation.
use f_arm.Base.{ℕ, ◌==◌, ◌!=◌, if◌then◌else◌, ◌&&◌, bit_and}
use f_arm.Decode.Bits.{bits}
use f_arm.Decode.BranchSys.Fields.{sysop}
use f_arm.Features.{Feature, FeatureSet, has}
use f_arm.Instruction.{Instruction, set, ◌▸◌}
use f_arm.Mnemonic.{Code}
use f_arm.Operand.{Operand}

unfoldable pub push_optional_imm : ℕ → Instruction → Instruction
push_optional_imm imm16 out = if imm16 != 0 then (out ▸ Operand.imm_unsigned imm16) else out

unfoldable pub decode_tenter : ℕ → Instruction → Instruction
decode_tenter imm16 out =
    if bit_and imm16 0xef80 == 0
    then (let tenter = set out Code.tenter ▸ Operand.imm_unsigned (bit_and imm16 0x7f) in
        if bit_and imm16 0x1000 != 0 then (tenter ▸ sysop "nb") else tenter)
    else out

unfoldable pub decode_exception : ℕ → FeatureSet → Instruction → Instruction
decode_exception word features out =
    let opc = bits word 21 3 in
    let imm16 = bits word 5 16 in
    let op2 = bits word 2 3 in
    let ll = bits word 0 2 in
    if op2 != 0
    then out
    else let imm = Operand.imm_unsigned imm16 in
      if opc == 0b000 && ll == 0b01
      then (set out Code.svc ▸ imm)
      else if opc == 0b000 && ll == 0b10
      then (set out Code.hvc ▸ imm)
      else if opc == 0b000 && ll == 0b11
      then (set out Code.smc ▸ imm)
      else if opc == 0b001 && ll == 0b00
      then (set out Code.brk ▸ imm)
      else if opc == 0b010 && ll == 0b00
      then (set out Code.hlt ▸ imm)
      else if opc == 0b011 && ll == 0b00 && has features Feature.tme
      then (set out Code.tcancel ▸ imm)
      else if opc == 0b111 && ll == 0b00 && has features Feature.tev
      then decode_tenter imm16 out
      else if opc == 0b101 && ll == 0b01
      then push_optional_imm imm16 (set out Code.dcps1)
      else if opc == 0b101 && ll == 0b10
      then push_optional_imm imm16 (set out Code.dcps2)
      else if opc == 0b101 && ll == 0b11
      then push_optional_imm imm16 (set out Code.dcps3)
      else out
