-- ===== src/Decode/DpReg/Source3.antt =====
-- src/decode/dp_reg.rs: data-processing with three sources.
use f_arm.Base.{ℕ, zero, suc, ◌==◌, ◌!=◌, if◌then◌else◌, Bool, true, false, Option, none, some}
use f_arm.Decode.Bits.{bit, bits}
use f_arm.Decode.DpImm.Bitfield.{reg, width_of}
use f_arm.Instruction.{Instruction, set, set_alias, ◌▸◌}
use f_arm.Mnemonic.{Code, Mnemonic}
use f_arm.Register.{RegWidth}

pub data Dp3Kind : Type 0 where
  madd_sub widen_madd_sub high_mul pt_madd_sub : Dp3Kind

-- By `(sf, op31, o0)`; `none` is its early return.
unfoldable pub dp_3source_code : ℕ → ℕ → ℕ → Option (Code × Dp3Kind)
dp_3source_code zero zero zero = some (Code.madd32, Dp3Kind.madd_sub)
dp_3source_code (suc zero) zero zero = some (Code.madd64, Dp3Kind.madd_sub)
dp_3source_code zero zero (suc zero) = some (Code.msub32, Dp3Kind.madd_sub)
dp_3source_code (suc zero) zero (suc zero) = some (Code.msub64, Dp3Kind.madd_sub)
dp_3source_code (suc zero) (suc zero) zero = some (Code.smaddl, Dp3Kind.widen_madd_sub)
dp_3source_code (suc zero) (suc zero) (suc zero) = some (Code.smsubl, Dp3Kind.widen_madd_sub)
dp_3source_code (suc zero) (suc (suc (suc zero))) zero = some (Code.maddpt, Dp3Kind.pt_madd_sub)
dp_3source_code (suc zero) (suc (suc (suc zero))) (suc zero) =
    some (Code.msubpt, Dp3Kind.pt_madd_sub)
dp_3source_code (suc zero) (suc (suc zero)) zero = some (Code.smulh, Dp3Kind.high_mul)
dp_3source_code (suc zero) (suc (suc (suc (suc (suc zero))))) zero =
    some (Code.umaddl, Dp3Kind.widen_madd_sub)
dp_3source_code (suc zero) (suc (suc (suc (suc (suc zero))))) (suc zero) =
    some (Code.umsubl, Dp3Kind.widen_madd_sub)
dp_3source_code (suc zero) (suc (suc (suc (suc (suc (suc zero)))))) zero =
    some (Code.umulh, Dp3Kind.high_mul)
dp_3source_code _ _ _ = none

-- By `(is_signed, is_msub)`.
unfoldable pub widen_alias : Bool → Bool → Mnemonic
widen_alias true false = Mnemonic.smull
widen_alias true true = Mnemonic.smnegl
widen_alias false false = Mnemonic.umull
widen_alias false true = Mnemonic.umnegl

-- The operands by kind, pushed onto the instruction whose code is set.
unfoldable pub push_dp_3source : Dp3Kind → ℕ → Instruction → Instruction
unfolding widen_alias
push_dp_3source kind word out =
    let sf = bit word 31 in
    let op31 = bits word 21 3 in
    let o0 = bit word 15 in
    let rm = bits word 16 5 in
    let ra = bits word 10 5 in
    let rn = bits word 5 5 in
    let rd = bits word 0 5 in
    let w = width_of sf in
    let x = RegWidth.x64 in
    let is_msub = o0 == 1 in
    let is_signed = op31 == 0b001 in
    elim kind [
      | Dp3Kind.high_mul ↦ out ▸ reg false x rd ▸ reg false x rn ▸ reg false x rm
      | Dp3Kind.madd_sub ↦
          if ra == 31
          then set_alias out (if is_msub then Mnemonic.mneg else Mnemonic.mul)
            ▸ reg false w rd
            ▸ reg false w rn
            ▸ reg false w rm
          else (out ▸ reg false w rd ▸ reg false w rn ▸ reg false w rm ▸ reg false w ra)
      | Dp3Kind.widen_madd_sub ↦
          if ra == 31
          then set_alias out (widen_alias is_signed is_msub)
            ▸ reg false x rd
            ▸ reg false RegWidth.w32 rn
            ▸ reg false RegWidth.w32 rm
          else (out
              ▸ reg false x rd
              ▸ reg false RegWidth.w32 rn
              ▸ reg false RegWidth.w32 rm
              ▸ reg false x ra)
      | Dp3Kind.pt_madd_sub ↦
          out ▸ reg false x rd ▸ reg false x rn ▸ reg false x rm ▸ reg false x ra
    ]

unfoldable pub decode_dp_3source : ℕ → Instruction → Instruction
decode_dp_3source word out =
    if bits word 29 2 != 0
    then out
    else elim (dp_3source_code (bit word 31) (bits word 21 3) (bit word 15)) [
      | none ↦ out
      | some (code, kind) ↦ push_dp_3source kind word (set out code)
    ]
