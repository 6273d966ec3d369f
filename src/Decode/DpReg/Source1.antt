-- ===== src/Decode/DpReg/Source1.antt =====
-- src/decode/dp_reg.rs: data-processing with one source, and pointer authentication.
use f_arm.Base.{ℕ, ◌==◌, ◌!=◌, if◌then◌else◌, Bool, true, false, not, ◌&&◌, ◌||◌}
use f_arm.Base.{Option, none, some}
use f_arm.Decode.Bits.{bit, bits}
use f_arm.Decode.DpImm.Bitfield.{reg, width_of}
use f_arm.Features.{Feature, FeatureSet, has}
use f_arm.Instruction.{Instruction, set, ◌▸◌}
use f_arm.Mnemonic.{Code}
use f_arm.Register.{RegWidth}

-- The rows of the match on `(sf, opcode)`; `none` is an early return.
unfoldable pub dp_1source_code : ℕ → ℕ → FeatureSet → Option Code
dp_1source_code sf opcode features =
    let by_sf : Code → Code → Code = λ w x. if sf == 0 then w else x in
    if opcode == 0b000000
    then some (by_sf Code.rbit32 Code.rbit64)
    else if opcode == 0b000001
    then some (by_sf Code.rev1632 Code.rev1664)
    else if opcode == 0b000010
    then some (by_sf Code.rev32_bit Code.rev3264)
    else if sf == 1 && opcode == 0b000011
    then some Code.rev64_bit
    else if opcode == 0b000100
    then some (by_sf Code.clz32 Code.clz64)
    else if opcode == 0b000101
    then some (by_sf Code.cls32 Code.cls64)
    else if opcode == 0b000110 || opcode == 0b000111 || opcode == 0b001000
    then (if not (has features Feature.cssc)
        then none
        else if opcode == 0b000110
        then some (by_sf Code.ctz32 Code.ctz64)
        else if opcode == 0b000111
        then some (by_sf Code.cnt32 Code.cnt64)
        else some (by_sf Code.abs32 Code.abs64))
    else none

unfoldable pub decode_dp_1source_basic : ℕ → ℕ → ℕ → ℕ → FeatureSet → Instruction → Instruction
decode_dp_1source_basic sf opcode rn rd features out =
    let w = width_of sf in
    elim (dp_1source_code sf opcode features) [
      | none ↦ out
      | some code ↦ set out code ▸ reg false w rd ▸ reg false w rn
    ]

-- The rows of the match on `(opcode, rn)` of the forms on the link register.
unfoldable pub pauth_lr_code : ℕ → ℕ → Option Code
pauth_lr_code opcode rn =
    if opcode == 0b101000 && rn == 31
    then some Code.paciasppc
    else if opcode == 0b101001 && rn == 31
    then some Code.pacibsppc
    else if opcode == 0b100000 && rn == 31
    then some Code.pacnbiasppc
    else if opcode == 0b100001 && rn == 31
    then some Code.pacnbibsppc
    else if opcode == 0b100100
    then some Code.autiasppcr
    else if opcode == 0b100101
    then some Code.autibsppcr
    else none

-- The rows of the match on `opcode`, with the flag of a zero source.
unfoldable pub pauth_code : ℕ → Option (Code × Bool)
pauth_code opcode =
    if opcode == 0b000000
    then some (Code.pacia_dp, false)
    else if opcode == 0b000001
    then some (Code.pacib_dp, false)
    else if opcode == 0b000010
    then some (Code.pacda_dp, false)
    else if opcode == 0b000011
    then some (Code.pacdb_dp, false)
    else if opcode == 0b000100
    then some (Code.autia_dp, false)
    else if opcode == 0b000101
    then some (Code.autib_dp, false)
    else if opcode == 0b000110
    then some (Code.autda_dp, false)
    else if opcode == 0b000111
    then some (Code.autdb_dp, false)
    else if opcode == 0b001000
    then some (Code.paciza_dp, true)
    else if opcode == 0b001001
    then some (Code.pacizb_dp, true)
    else if opcode == 0b001010
    then some (Code.pacdza_dp, true)
    else if opcode == 0b001011
    then some (Code.pacdzb_dp, true)
    else if opcode == 0b001100
    then some (Code.autiza_dp, true)
    else if opcode == 0b001101
    then some (Code.autizb_dp, true)
    else if opcode == 0b001110
    then some (Code.autdza_dp, true)
    else if opcode == 0b001111
    then some (Code.autdzb_dp, true)
    else if opcode == 0b010000
    then some (Code.xpaci_dp, true)
    else if opcode == 0b010001
    then some (Code.xpacd_dp, true)
    else none

-- `matches!(code, Code::Autiasppcr | Code::Autibsppcr)`
unfoldable pub has_modifier : Code → Bool
has_modifier Code.autiasppcr = true
has_modifier Code.autibsppcr = true
has_modifier _ = false

unfoldable pub push_pauth_lr : Code → ℕ → Instruction → Instruction
unfolding has_modifier
push_pauth_lr code rn out₀ =
    let out = set out₀ code in if has_modifier code then (out ▸ reg false RegWidth.x64 rn) else out

-- From the check of `FEAT_PAuth` on.
unfoldable pub decode_pauth_plain : ℕ → ℕ → ℕ → FeatureSet → Instruction → Instruction
decode_pauth_plain opcode rn rd features out =
    if not (has features Feature.p_auth) then out else elim (pauth_code opcode) [
      | none ↦ out
      | some (code, z) ↦
          let pushed = set out code ▸ reg false RegWidth.x64 rd in
          if z && rn != 31
          then out
          else if not z
          then (pushed ▸ reg true RegWidth.x64 rn)
          else pushed
    ]

unfoldable pub decode_dp_1source_pauth : ℕ → ℕ → ℕ → ℕ → FeatureSet → Instruction → Instruction
decode_dp_1source_pauth sf opcode rn rd features out =
    if sf != 1
    then out
    else if has features Feature.pauth_lr && rd == 30
    then elim (pauth_lr_code opcode rn) [
      | some code ↦ push_pauth_lr code rn out
      | none ↦ decode_pauth_plain opcode rn rd features out
    ]
    else decode_pauth_plain opcode rn rd features out

unfoldable pub decode_dp_1source : ℕ → FeatureSet → Instruction → Instruction
decode_dp_1source word features out =
    let sf = bit word 31 in
    let s = bit word 29 in
    let opcode2 = bits word 16 5 in
    let opcode = bits word 10 6 in
    let rn = bits word 5 5 in
    let rd = bits word 0 5 in
    if s != 0
    then out
    else if opcode2 == 0b00000
    then decode_dp_1source_basic sf opcode rn rd features out
    else if opcode2 == 0b00001
    then decode_dp_1source_pauth sf opcode rn rd features out
    else out
