-- ===== src/Decode/DpImm.antt =====
-- src/decode/dp_imm.rs: the decoder of the immediate data-processing group. An early `return`
-- is a branch that leaves `out` as it is.
pub mod Bitfield
use f_arm.Base.{ℕ, zero, suc, ◌+◌, ◌-◌, ◌*◌, ◌%◌, bit_and, bit_or, ◌==◌, ◌!=◌, if◌then◌else◌}
use f_arm.Base.{Bool, true, false, not, ◌&&◌, ◌||◌, Option, none, some, ℤ}
use f_arm.Base.{shl32, shl64, not64, wrapping_add, as_u8, as_u16, as_u32, i64_as_u64}
use f_arm.Decode.BranchSys.Immediate.{decode_auti_sppc}
use f_arm.Decode.Bits.{bit, bits, sign_extend, decode_bit_masks, move_wide_preferred}
use f_arm.Decode.DpImm.Bitfield.{reg, width_of, decode_bitfield, decode_extract}
use f_arm.Features.{Feature, FeatureSet, has}
use f_arm.Instruction.{Instruction, set, set_alias, ◌▸◌}
use f_arm.Mnemonic.{Code, Mnemonic}
use f_arm.Operand.{Operand}
use f_arm.Register.{RegWidth}

unfoldable pub decode_pc_rel : ℕ → ℕ → Instruction → Instruction
decode_pc_rel word ip out =
    let op = bit word 31 in
    let rd = bits word 0 5 in
    let immlo = bits word 29 2 in
    let immhi = bits word 5 19 in
    let imm21 = bit_or (shl32 immhi 2) immlo in
    let target : ℕ =
      if op == 1
      then wrapping_add (bit_and ip (not64 0xfff)) (i64_as_u64 (sign_extend (shl64 imm21 12) 33))
      else wrapping_add ip (i64_as_u64 (sign_extend imm21 21)) in
    set out (if op == 1 then Code.adrp else Code.adr)
    ▸ reg false RegWidth.x64 rd
    ▸ Operand.label target

-- The encoding identity of an add or subtract, by `(sf, op, s)`.
unfoldable pub addsub_code : ℕ → ℕ → ℕ → Code
addsub_code zero zero zero = Code.add_imm32
addsub_code (suc zero) zero zero = Code.add_imm64
addsub_code zero zero (suc zero) = Code.adds_imm32
addsub_code (suc zero) zero (suc zero) = Code.adds_imm64
addsub_code zero (suc zero) zero = Code.sub_imm32
addsub_code (suc zero) (suc zero) zero = Code.sub_imm64
addsub_code zero (suc zero) (suc zero) = Code.subs_imm32
addsub_code _ _ _ = Code.subs_imm64

unfoldable pub decode_addsub_imm : ℕ → Instruction → Instruction
unfolding addsub_code
decode_addsub_imm word out₀ =
    let sf = bit word 31 in
    let op = bit word 30 in
    let s = bit word 29 in
    let sh = bit word 22 in
    let imm12 = bits word 10 12 in
    let rn = bits word 5 5 in
    let rd = bits word 0 5 in
    let w = width_of sf in
    let imm_op = Operand.imm_shifted_move (as_u16 imm12) (if sh == 1 then 12 else 0) in
    let out = set out₀ (addsub_code sf op s) in
    let flag_setting = s == 1 in
    let rd_is_31 = rd == 31 in
    let rn_is_31 = rn == 31 in
    if not flag_setting && op == 0 && sh == 0 && imm12 == 0 && (rd_is_31 || rn_is_31)
    then set_alias out Mnemonic.mov ▸ reg true w rd ▸ reg true w rn
    else if flag_setting && rd_is_31
    then set_alias out (if op == 1 then Mnemonic.cmp else Mnemonic.cmn) ▸ reg true w rn ▸ imm_op
    else (out ▸ reg (not flag_setting) w rd ▸ reg true w rn ▸ imm_op)

unfoldable pub decode_addsub_imm_tags : ℕ → FeatureSet → Instruction → Instruction
decode_addsub_imm_tags word features out =
    if not (has features Feature.mte)
    then out
    else let sf = bit word 31 in
      let s = bit word 29 in
      let o2 = bit word 22 in
      if sf != 1 || s != 0 || o2 != 0
      then out
      else let op = bit word 30 in
        let uimm6 = bits word 16 6 in
        let uimm4 = bits word 10 4 in
        let rn = bits word 5 5 in
        let rd = bits word 0 5 in
        set out (if op == 1 then Code.subg_imm else Code.addg_imm)
        ▸ reg true RegWidth.x64 rd
        ▸ reg true RegWidth.x64 rn
        ▸ Operand.imm_unsigned (shl64 uimm6 4)
        ▸ Operand.imm_unsigned uimm4

-- By `(sf, opc)`.
unfoldable pub minmax_code : ℕ → ℕ → Code
minmax_code zero zero = Code.smax_imm32
minmax_code (suc zero) zero = Code.smax_imm64
minmax_code zero (suc zero) = Code.umax_imm32
minmax_code (suc zero) (suc zero) = Code.umax_imm64
minmax_code zero (suc (suc zero)) = Code.smin_imm32
minmax_code (suc zero) (suc (suc zero)) = Code.smin_imm64
minmax_code zero (suc (suc (suc zero))) = Code.umin_imm32
minmax_code _ _ = Code.umin_imm64

unfoldable pub decode_minmax_imm : ℕ → FeatureSet → Instruction → Instruction
unfolding minmax_code
decode_minmax_imm word features out =
    if not (has features Feature.cssc)
    then out
    else if bit word 30 != 0 || bit word 29 != 0 || bits word 20 2 != 0
    then out
    else let sf = bit word 31 in
      let opc = bits word 18 2 in
      let imm8 = bits word 10 8 in
      let rn = bits word 5 5 in
      let rd = bits word 0 5 in
      let w = width_of sf in
      let is_signed = bit opc 0 == 0 in
      set out (minmax_code sf opc)
      ▸ reg false w rd
      ▸ reg false w rn
      ▸ (if is_signed then Operand.imm_signed (sign_extend imm8 8) else Operand.imm_unsigned imm8)

unfoldable pub signed_imm : ℕ → ℕ → ℤ
signed_imm imm datasize = sign_extend imm datasize

-- By `(sf, opc)`.
unfoldable pub logical_code : ℕ → ℕ → Code
logical_code zero zero = Code.and_imm32
logical_code (suc zero) zero = Code.and_imm64
logical_code zero (suc zero) = Code.orr_imm32
logical_code (suc zero) (suc zero) = Code.orr_imm64
logical_code zero (suc (suc zero)) = Code.eor_imm32
logical_code (suc zero) (suc (suc zero)) = Code.eor_imm64
logical_code zero _ = Code.ands_imm32
logical_code _ _ = Code.ands_imm64

unfoldable pub decode_logical_imm : ℕ → Instruction → Instruction
decode_logical_imm word out₀ =
    let sf = bit word 31 in
    let opc = bits word 29 2 in
    let n = bit word 22 in
    let immr = bits word 16 6 in
    let imms = bits word 10 6 in
    let rn = bits word 5 5 in
    let rd = bits word 0 5 in
    if sf == 0 && n == 1
    then out₀
    else let datasize : ℕ = if sf == 1 then 64 else 32 in
      elim (decode_bit_masks n imms immr true datasize) [
        | none ↦ out₀
        | some masks ↦
            let imm : ℕ = if datasize == 32 then as_u32 masks.wmask else masks.wmask in
            let w = width_of sf in
            let out = set out₀ (logical_code sf opc) in
            if opc == 3 && rd == 31
            then set_alias out Mnemonic.tst ▸ reg false w rn ▸ Operand.imm_logical imm
            else if opc == 1 && rn == 31 && not (move_wide_preferred sf n imms immr)
            then set_alias out Mnemonic.mov
              ▸ reg true w rd
              ▸ Operand.imm_signed (signed_imm imm datasize)
            else (out ▸ reg (opc != 3) w rd ▸ reg false w rn ▸ Operand.imm_logical imm)
      ]

-- By `(sf, opc)`.
unfoldable pub move_wide_code : ℕ → ℕ → Code
move_wide_code zero zero = Code.movn32
move_wide_code (suc zero) zero = Code.movn64
move_wide_code zero (suc (suc zero)) = Code.movz32
move_wide_code (suc zero) (suc (suc zero)) = Code.movz64
move_wide_code zero _ = Code.movk32
move_wide_code _ _ = Code.movk64

unfoldable pub decode_move_wide : ℕ → Instruction → Instruction
decode_move_wide word out₀ =
    let sf = bit word 31 in
    let opc = bits word 29 2 in
    let hw = bits word 21 2 in
    let imm16 = bits word 5 16 in
    let rd = bits word 0 5 in
    if opc == 1
    then out₀
    else if sf == 0 && bit_and hw 2 != 0
    then out₀
    else let w = width_of sf in
      let shift = as_u8 (hw * 16) in
      let datasize : ℕ = if sf == 1 then 64 else 32 in
      let out = set out₀ (move_wide_code sf opc) in
      let is_movn = opc == 0 in
      let is_movz = opc == 2 in
      let imm_is_zero_shifted = imm16 == 0 && hw != 0 in
      let is_32_all_ones = sf == 0 && imm16 == 0xffff in
      let canonical = out ▸ reg false w rd ▸ Operand.imm_shifted_move (as_u16 imm16) shift in
      if is_movz && not imm_is_zero_shifted
      then (let val = shl64 imm16 shift in
          set_alias out Mnemonic.mov
          ▸ reg false w rd
          ▸ Operand.imm_signed (signed_imm val datasize))
      else if is_movn && not imm_is_zero_shifted && not is_32_all_ones
      then (let raw = not64 (shl64 imm16 shift) in
          let val : ℕ = if datasize == 32 then bit_and raw 0xffff_ffff else raw in
          set_alias out Mnemonic.mov
          ▸ reg false w rd
          ▸ Operand.imm_signed (signed_imm val datasize))
      else canonical

-- The dispatch on `op1 = word<25:23>`.
unfoldable pub decode_op1 : ℕ → ℕ → ℕ → FeatureSet → Instruction → Instruction
decode_op1 op1 word ip features out =
    if op1 == 0 || op1 == 1
    then decode_pc_rel word ip out
    else if op1 == 2
    then decode_addsub_imm word out
    else if op1 == 3
    then (if bit word 22 == 1
        then decode_minmax_imm word features out
        else decode_addsub_imm_tags word features out)
    else if op1 == 4
    then decode_logical_imm word out
    else if op1 == 5
    then decode_move_wide word out
    else if op1 == 6
    then decode_bitfield word out
    else if op1 == 7
    then decode_extract word out
    else out

unfoldable pub decode : ℕ → ℕ → FeatureSet → Instruction → Instruction
unfolding decode_op1
decode word ip features out =
    if bit_and word 0xffc0001f == 0xf380001f
    then (if has features Feature.pauth_lr then decode_auti_sppc word out else out)
    else decode_op1 (bits word 23 3) word ip features out
