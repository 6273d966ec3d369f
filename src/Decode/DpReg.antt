-- ===== src/Decode/DpReg.antt =====
-- src/decode/dp_reg.rs: the decoder of the register data-processing group.
pub mod Shifted
pub mod Flags
pub mod Source3
pub mod Source2
pub mod Source1
pub mod Laws
use f_arm.Base.{ℕ, bit_and, ◌==◌, if◌then◌else◌}
use f_arm.Decode.Bits.{bit, bits}
use f_arm.Decode.DpReg.Flags.{decode_addsub_carry, decode_addsub_pt, decode_rmif, decode_setf}
use f_arm.Decode.DpReg.Flags.{decode_cond_compare, decode_cond_select}
use f_arm.Decode.DpReg.Shifted.{decode_logical_shifted, decode_addsub_shifted}
use f_arm.Decode.DpReg.Shifted.{decode_addsub_extended}
use f_arm.Decode.DpReg.Source1.{decode_dp_1source}
use f_arm.Decode.DpReg.Source2.{decode_dp_2source}
use f_arm.Decode.DpReg.Source3.{decode_dp_3source}
use f_arm.Features.{FeatureSet}
use f_arm.Instruction.{Instruction}

-- The slot `op2 == 000`, on `op3 = word<15:10>`.
unfoldable pub decode_op3 : ℕ → FeatureSet → Instruction → Instruction
decode_op3 word features out =
    let op3 = bits word 10 6 in
    if op3 == 0
    then decode_addsub_carry word out
    else if bit_and op3 0x1f == 1
    then decode_rmif word out
    else if bit_and op3 0xf == 2
    then decode_setf word out
    else if bits word 13 3 == 0b001
    then decode_addsub_pt word features out
    else out

-- The class `op28_24 == 11010`, on `op2 = word<23:21>`.
unfoldable pub decode_op2 : ℕ → FeatureSet → Instruction → Instruction
unfolding decode_op3
decode_op2 word features out =
    let op2 = bits word 21 3 in
    if op2 == 0b000
    then decode_op3 word features out
    else if op2 == 0b010
    then decode_cond_compare word out
    else if op2 == 0b100
    then decode_cond_select word out
    else if op2 == 0b110
    then (if bit word 30 == 1
        then decode_dp_1source word features out
        else decode_dp_2source word features out)
    else out

unfoldable pub decode : ℕ → ℕ → FeatureSet → Instruction → Instruction
unfolding decode_op2
decode word ip features out =
    let op28_24 = bits word 24 5 in
    if op28_24 == 0b01010
    then decode_logical_shifted word out
    else if op28_24 == 0b01011
    then (if bit word 21 == 0
        then decode_addsub_shifted word out
        else decode_addsub_extended word out)
    else if op28_24 == 0b11010
    then decode_op2 word features out
    else if op28_24 == 0b11011
    then decode_dp_3source word out
    else out
