-- ===== src/Decode/BranchSys/Immediate.antt =====
-- src/decode/branch_sys.rs: the branches to a label, but the ones that compare two operands.
use f_arm.Base.{ℕ, ◌==◌, ◌!=◌, if◌then◌else◌, ◌||◌, not, false, bit_and, bit_or, shl32}
use f_arm.Decode.Bits.{bit, bits}
use f_arm.Decode.BranchSys.Fields.{branch_target, push_sppc_label}
use f_arm.Decode.DpImm.Bitfield.{reg, width_of}
use f_arm.Enums.{condition_from_bits}
use f_arm.Features.{Feature, FeatureSet, has}
use f_arm.Instruction.{Instruction, set, ◌▸◌}
use f_arm.Mnemonic.{Code}
use f_arm.Operand.{Operand}

unfoldable pub decode_uncond_branch_imm : ℕ → ℕ → Instruction → Instruction
unfolding branch_target
decode_uncond_branch_imm word ip out =
    let op = bits word 29 3 in
    let imm26 = bits word 0 26 in
    set out (if bit_and op 0b100 != 0 then Code.bl_imm else Code.buncond)
    ▸ Operand.label (branch_target ip imm26 28)

unfoldable pub decode_ret_sppc : ℕ → FeatureSet → Instruction → Instruction
unfolding push_sppc_label
decode_ret_sppc word features out =
    if not (has features Feature.pauth_lr)
    then out
    else if bits word 22 2 != 0 || bits word 0 5 != 0b11111
    then out
    else push_sppc_label word
        (set out (if bit word 21 == 1 then Code.retabsppc else Code.retaasppc))

unfoldable pub decode_auti_sppc : ℕ → Instruction → Instruction
unfolding push_sppc_label
decode_auti_sppc word out =
    push_sppc_label word (set out (if bit word 21 == 1 then Code.autibsppc else Code.autiasppc))

-- `Condition::from_u4` is `Condition::from_bits`.
unfoldable pub decode_cond_branch : ℕ → FeatureSet → Instruction → Instruction
unfolding decode_ret_sppc branch_target
decode_cond_branch word features out =
    if bit word 24 != 0
    then decode_ret_sppc word features out
    else let imm19 = bits word 5 19 in
      let cond = condition_from_bits (bits word 0 4) in
      if bit word 4 != 0
      then (if not (has features Feature.hbc)
          then out
          else (set out Code.bc_cond
              ▸ Operand.cond cond
              ▸ Operand.label (branch_target out.ip imm19 21)))
      else (set out Code.bcond ▸ Operand.cond cond ▸ Operand.label (branch_target out.ip imm19 21))

-- By `(op, sf)`.
unfoldable pub compare_branch_code : ℕ → ℕ → Code
compare_branch_code op sf =
    if op == 0
    then (if sf == 0 then Code.cbz32 else Code.cbz64)
    else if op == 1
    then (if sf == 0 then Code.cbnz32 else Code.cbnz64)
    else Code.cbnz64

unfoldable pub decode_compare_branch : ℕ → ℕ → Instruction → Instruction
unfolding compare_branch_code branch_target
decode_compare_branch word ip out =
    let sf = bit word 31 in
    let op = bit word 24 in
    let imm19 = bits word 5 19 in
    let rt = bits word 0 5 in
    let w = width_of sf in
    set out (compare_branch_code op sf) ▸ reg false w rt ▸ Operand.label (branch_target ip imm19 21)

unfoldable pub decode_test_branch : ℕ → ℕ → Instruction → Instruction
unfolding branch_target
decode_test_branch word ip out =
    let b5 = bit word 31 in
    let op = bit word 24 in
    let b40 = bits word 19 5 in
    let imm14 = bits word 5 14 in
    let rt = bits word 0 5 in
    let bitpos = bit_or (shl32 b5 5) b40 in
    let w = width_of b5 in
    set out (if op == 1 then Code.tbnz else Code.tbz)
    ▸ reg false w rt
    ▸ Operand.imm_unsigned bitpos
    ▸ Operand.label (branch_target ip imm14 16)
