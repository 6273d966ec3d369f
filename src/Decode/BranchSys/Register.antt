-- ===== src/Decode/BranchSys/Register.antt =====
-- src/decode/branch_sys.rs: the branches to a register, and the returns.
use f_arm.Base.{ℕ, ◌==◌, ◌!=◌, if◌then◌else◌, ◌&&◌, true, false}
use f_arm.Decode.Bits.{bits}
use f_arm.Decode.BranchSys.Fields.{xreg}
use f_arm.Features.{Feature, FeatureSet, has}
use f_arm.Instruction.{Instruction, set, ◌▸◌}
use f_arm.Mnemonic.{Code}

-- The match on `(opc, op3, op4)`, by `op3`: the plain forms, `op3 = 000000`.
unfoldable pub decode_plain_branch_reg : ℕ → Instruction → Instruction
unfolding xreg
decode_plain_branch_reg word out =
    let opc = bits word 21 4 in
    let rn = bits word 5 5 in
    let op4 = bits word 0 5 in
    if op4 != 0b00000
    then out
    else if opc == 0b0000
    then (set out Code.br ▸ xreg false rn)
    else if opc == 0b0001
    then (set out Code.blr ▸ xreg false rn)
    else if opc == 0b0010
    then (if rn != 30 then (set out Code.ret ▸ xreg false rn) else set out Code.ret)
    else if opc == 0b0100 && rn == 0b11111
    then set out Code.eret
    else if opc == 0b0101 && rn == 0b11111
    then set out Code.drps
    else out

-- The authenticated forms: key A at `op3 = 000010`, key B at `op3 = 000011`.
unfoldable pub decode_key_a_branch_reg : ℕ → FeatureSet → Instruction → Instruction
unfolding xreg
decode_key_a_branch_reg word features out =
    let opc = bits word 21 4 in
    let rn = bits word 5 5 in
    let op4 = bits word 0 5 in
    let pauth = has features Feature.p_auth in
    let pauthlr = has features Feature.pauth_lr in
    if opc == 0b0000 && op4 == 0b11111 && pauth
    then (set out Code.braaz ▸ xreg false rn)
    else if opc == 0b0001 && op4 == 0b11111 && pauth
    then (set out Code.blraaz ▸ xreg false rn)
    else if opc == 0b0010 && op4 == 0b11111 && pauth && rn == 0b11111
    then set out Code.retaa
    else if opc == 0b0010 && pauthlr && rn == 0b11111 && op4 != 0b11111
    then (set out Code.retaasppcr ▸ xreg false op4)
    else if opc == 0b0100 && op4 == 0b11111 && pauth && rn == 0b11111
    then set out Code.eretaa
    else if opc == 0b1000 && pauth
    then (set out Code.braa ▸ xreg false rn ▸ xreg true op4)
    else if opc == 0b1001 && pauth
    then (set out Code.blraa ▸ xreg false rn ▸ xreg true op4)
    else out

unfoldable pub decode_key_b_branch_reg : ℕ → FeatureSet → Instruction → Instruction
unfolding xreg
decode_key_b_branch_reg word features out =
    let opc = bits word 21 4 in
    let rn = bits word 5 5 in
    let op4 = bits word 0 5 in
    let pauth = has features Feature.p_auth in
    let pauthlr = has features Feature.pauth_lr in
    if opc == 0b0000 && op4 == 0b11111 && pauth
    then (set out Code.brabz ▸ xreg false rn)
    else if opc == 0b0001 && op4 == 0b11111 && pauth
    then (set out Code.blrabz ▸ xreg false rn)
    else if opc == 0b0010 && op4 == 0b11111 && pauth && rn == 0b11111
    then set out Code.retab
    else if opc == 0b0010 && pauthlr && rn == 0b11111 && op4 != 0b11111
    then (set out Code.retabsppcr ▸ xreg false op4)
    else if opc == 0b0100 && op4 == 0b11111 && pauth && rn == 0b11111
    then set out Code.eretab
    else if opc == 0b1000 && pauth
    then (set out Code.brab ▸ xreg false rn ▸ xreg true op4)
    else if opc == 0b1001 && pauth
    then (set out Code.blrab ▸ xreg false rn ▸ xreg true op4)
    else out

unfoldable pub decode_uncond_branch_reg : ℕ → FeatureSet → Instruction → Instruction
decode_uncond_branch_reg word features out =
    let op2 = bits word 16 5 in
    let op3 = bits word 10 6 in
    if op2 != 0b11111
    then out
    else if op3 == 0b000000
    then decode_plain_branch_reg word out
    else if op3 == 0b000010
    then decode_key_a_branch_reg word features out
    else if op3 == 0b000011
    then decode_key_b_branch_reg word features out
    else out
