-- ===== src/Decode/DpReg/Source2.antt =====
-- src/decode/dp_reg.rs: data-processing with two sources.
use f_arm.Base.{ℕ, zero, suc, bit_and, leb, ◌==◌, ◌!=◌, if◌then◌else◌}
use f_arm.Base.{true, false, not, ◌&&◌, ◌||◌}
use f_arm.Decode.Bits.{bit, bits}
use f_arm.Decode.DpImm.Bitfield.{reg, width_of}
use f_arm.Features.{Feature, FeatureSet, has}
use f_arm.Instruction.{Instruction, set, set_alias, ◌▸◌}
use f_arm.Mnemonic.{Code, Mnemonic}
use f_arm.Register.{RegWidth}

unfoldable pub push_rrr : Instruction → RegWidth → ℕ → ℕ → ℕ → Instruction
push_rrr out w rd rn rm = out ▸ reg false w rd ▸ reg false w rn ▸ reg false w rm

-- By `(c, sz)`.
unfoldable pub crc32_code : ℕ → ℕ → Code
crc32_code zero zero = Code.crc32b
crc32_code zero (suc zero) = Code.crc32h
crc32_code zero (suc (suc zero)) = Code.crc32w
crc32_code zero (suc (suc (suc _))) = Code.crc32x
crc32_code (suc _) zero = Code.crc32cb
crc32_code (suc _) (suc zero) = Code.crc32ch
crc32_code (suc _) (suc (suc zero)) = Code.crc32cw
crc32_code (suc _) (suc (suc (suc _))) = Code.crc32cx

unfoldable pub decode_crc32 : ℕ → ℕ → ℕ → ℕ → ℕ → Instruction → Instruction
unfolding crc32_code
decode_crc32 sf opcode rd rn rm out =
    let c = bit opcode 2 in
    let sz = bit_and opcode 0b11 in
    if (if sz == 0b11 then sf != 1 else (sf != 0))
    then out
    else let rm_w = if sz == 0b11 then RegWidth.x64 else RegWidth.w32 in
      set out (crc32_code c sz)
      ▸ reg false RegWidth.w32 rd
      ▸ reg false RegWidth.w32 rn
      ▸ reg false rm_w rm

-- The rows of the match on `(sf, opcode)` of the register forms of minimum and maximum.
unfoldable pub minmax_reg_code : ℕ → ℕ → Code
minmax_reg_code sf opcode =
    if opcode == 0b011000
    then (if sf == 0 then Code.smax_reg32 else Code.smax_reg64)
    else if opcode == 0b011001
    then (if sf == 0 then Code.umax_reg32 else Code.umax_reg64)
    else if opcode == 0b011010
    then (if sf == 0 then Code.smin_reg32 else Code.smin_reg64)
    else if sf == 0
    then Code.umin_reg32
    else Code.umin_reg64

-- The arms of the match on `opcode` from `IRG` on.
unfoldable pub decode_dp_2source_gated : ℕ → FeatureSet → Instruction → Instruction
unfolding push_rrr minmax_reg_code decode_crc32
decode_dp_2source_gated word features out =
    let sf = bit word 31 in
    let opcode = bits word 10 6 in
    let rm = bits word 16 5 in
    let rn = bits word 5 5 in
    let rd = bits word 0 5 in
    let w = width_of sf in
    let x = RegWidth.x64 in
    if opcode == 0b000100
    then (if sf != 1 || not (has features Feature.mte)
        then out
        else let irg = set out Code.irg_dp ▸ reg true x rd ▸ reg true x rn in
          if rm != 31 then (irg ▸ reg false x rm) else irg)
    else if opcode == 0b000101
    then (if sf != 1 || not (has features Feature.mte)
        then out
        else set out Code.gmi_dp ▸ reg false x rd ▸ reg true x rn ▸ reg false x rm)
    else if opcode == 0b001100
    then (if sf != 1 || not (has features Feature.p_auth)
        then out
        else set out Code.pacga ▸ reg false x rd ▸ reg false x rn ▸ reg true x rm)
    else if leb 0b010000 opcode && leb opcode 0b010111
    then decode_crc32 sf opcode rd rn rm out
    else if leb 0b011000 opcode && leb opcode 0b011011
    then (if not (has features Feature.cssc)
        then out
        else push_rrr (set out (minmax_reg_code sf opcode)) w rd rn rm)
    else out

-- The match on `opcode`, for `S == 0` and an opcode that is not `SUBP`.
unfoldable pub decode_dp_2source_opcode : ℕ → FeatureSet → Instruction → Instruction
unfolding push_rrr
decode_dp_2source_opcode word features out =
    let sf = bit word 31 in
    let opcode = bits word 10 6 in
    let rm = bits word 16 5 in
    let rn = bits word 5 5 in
    let rd = bits word 0 5 in
    let w = width_of sf in
    if opcode == 0b000010
    then push_rrr (set out (if sf == 1 then Code.udiv64 else Code.udiv32)) w rd rn rm
    else if opcode == 0b000011
    then push_rrr (set out (if sf == 1 then Code.sdiv64 else Code.sdiv32)) w rd rn rm
    else if opcode == 0b001000
    then (let out = set out (if sf == 1 then Code.lslv64 else Code.lslv32) in
        push_rrr (set_alias out Mnemonic.lsl) w rd rn rm)
    else if opcode == 0b001001
    then (let out = set out (if sf == 1 then Code.lsrv64 else Code.lsrv32) in
        push_rrr (set_alias out Mnemonic.lsr) w rd rn rm)
    else if opcode == 0b001010
    then (let out = set out (if sf == 1 then Code.asrv64 else Code.asrv32) in
        push_rrr (set_alias out Mnemonic.asr) w rd rn rm)
    else if opcode == 0b001011
    then (let out = set out (if sf == 1 then Code.rorv64 else Code.rorv32) in
        push_rrr (set_alias out Mnemonic.ror) w rd rn rm)
    else decode_dp_2source_gated word features out

unfoldable pub decode_dp_2source : ℕ → FeatureSet → Instruction → Instruction
unfolding decode_dp_2source_opcode
decode_dp_2source word features out =
    let sf = bit word 31 in
    let s = bit word 29 in
    let rm = bits word 16 5 in
    let rn = bits word 5 5 in
    let rd = bits word 0 5 in
    if bits word 10 6 == 0b000000
    then (if sf != 1
        then out
        else if not (has features Feature.mte)
        then out
        else set out (if s == 1 then Code.subps_dp else Code.subp_dp)
          ▸ reg false RegWidth.x64 rd
          ▸ reg true RegWidth.x64 rn
          ▸ reg true RegWidth.x64 rm)
    else if s != 0
    then out
    else decode_dp_2source_opcode word features out
