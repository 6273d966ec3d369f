-- ===== src/Encode/DpImm/Arithmetic.antt =====
-- src/encode/dp_imm.rs: PC-relative addresses, add and subtract, tags, minimum and maximum.
use f_arm.Base.{ℕ, bit_and, ltb, ◌==◌, ◌!=◌, if◌then◌else◌}
use f_arm.Base.{Bool, true, false, ◌||◌, ℤ, pos, negsuc}
use f_arm.Base.{asr, is_zero, is_minus_one, shr, shl32, not64, wrapping_sub, ◌or◌}
use f_arm.Base.{as_u32, as_i64, i64_as_u32}
use f_arm.Encode.Arms.{is_compare, is_mov}
use f_arm.Encode.DpImm.Fields.{reg_num, imm_u, is_64}
use f_arm.Encode.Error.{EncodeError, Result, ok, err, ◌>>=◌, ◌>>◌, reject_if}
use f_arm.Instruction.{Instruction, op}
use f_arm.Mnemonic.{Code}
use f_arm.Operand.{Operand}

unfoldable pub label_of : Instruction → ℕ → Result ℕ
label_of insn n = elim (op insn n) [ Operand.label v ↦ ok v | _ ↦ err EncodeError.invalid_operand ]

-- `(x >> 20) != 0 && (x >> 20) != -1`: the value does not fit 21 signed bits.
unfoldable pub too_far : ℤ → Bool
too_far x = elim (is_zero (asr x 20) || is_minus_one (asr x 20)) [ true ↦ false | false ↦ true ]

unfoldable pub pc_rel_imm21 : Bool → ℕ → ℕ → Result ℕ
unfolding too_far
pc_rel_imm21 true ip target =
    if bit_and target 0xfff != 0
    then err EncodeError.invalid_immediate
    else let base = bit_and ip (not64 0xfff) in
      let tgt_page = bit_and target (not64 0xfff) in
      let imm = asr (as_i64 (wrapping_sub tgt_page base)) 12 in
      if too_far imm
      then err EncodeError.invalid_immediate
      else ok (bit_and (i64_as_u32 imm) 0x1f_ffff)
pc_rel_imm21 false ip target =
    let diff = as_i64 (wrapping_sub target ip) in
    if too_far diff
    then err EncodeError.invalid_immediate
    else ok (bit_and (i64_as_u32 diff) 0x1f_ffff)

unfoldable pub is_adrp : Code → Bool
is_adrp Code.adrp = true
is_adrp _ = false

unfoldable pub enc_pc_rel : Instruction → Result ℕ
unfolding reg_num label_of is_adrp
enc_pc_rel insn = do
  rd ← reg_num insn 0
  target ← label_of insn 1
  imm21 ← pc_rel_imm21 (is_adrp insn.code) insn.ip target
  let immlo = bit_and imm21 0x3
  let immhi = bit_and (shr imm21 2) 0x7_ffff
  let op : ℕ = if is_adrp insn.code then 1 else 0
  ok (shl32 op 31 or shl32 immlo 29 or shl32 0b10000 24 or shl32 immhi 5 or rd)

-- `(imm12, sh)`
unfoldable pub imm_shifted : Instruction → ℕ → Result (ℕ × ℕ)
imm_shifted insn n =
    let plain : ℕ → Result (ℕ × ℕ) =
      λ v. if ltb 0xfff v then err EncodeError.invalid_immediate else ok (as_u32 v, 0) in
    elim (op insn n) [
      | Operand.imm_shifted_move imm lsl ↦
          if lsl == 0
          then ok (imm, 0)
          else if lsl == 12
          then ok (imm, 1)
          else err EncodeError.invalid_immediate
      | Operand.imm_unsigned v ↦ plain v
      | Operand.imm_logical v ↦ plain v
      | Operand.imm_signed (pos v) ↦ plain v
      | Operand.imm_signed (negsuc v) ↦ err EncodeError.invalid_immediate
      | _ ↦ err EncodeError.invalid_operand
    ]

-- `(op, s)`
unfoldable pub addsub_op_s : Code → ℕ × ℕ
addsub_op_s Code.add_imm32 = (0, 0)
addsub_op_s Code.add_imm64 = (0, 0)
addsub_op_s Code.adds_imm32 = (0, 1)
addsub_op_s Code.adds_imm64 = (0, 1)
addsub_op_s Code.sub_imm32 = (1, 0)
addsub_op_s Code.sub_imm64 = (1, 0)
addsub_op_s _ = (1, 1)

-- `(rd, rn, imm12, sh)`
unfoldable pub recover_addsub_imm : Instruction → Result (ℕ × ℕ × ℕ × ℕ)
unfolding reg_num imm_shifted
recover_addsub_imm insn =
    let mov : Result (ℕ × ℕ × ℕ × ℕ) = (do
      rd ← reg_num insn 0
      rn ← reg_num insn 1
      ok (rd, rn, 0, 0)) in
    let compare : Result (ℕ × ℕ × ℕ × ℕ) = (do
      rn ← reg_num insn 0
      (imm12, sh) ← imm_shifted insn 1
      ok (31, rn, imm12, sh)) in
    let canonical : Result (ℕ × ℕ × ℕ × ℕ) = (do
      rd ← reg_num insn 0
      rn ← reg_num insn 1
      (imm12, sh) ← imm_shifted insn 2
      ok (rd, rn, imm12, sh)) in
    if is_mov insn.mnemonic then mov else if is_compare insn.mnemonic then compare else canonical

unfoldable pub enc_addsub_imm : Instruction → Result ℕ
enc_addsub_imm insn =
    let sf : ℕ = if is_64 insn.code then 1 else 0 in
    let (op, s) = addsub_op_s insn.code in
    do
      (rd, rn, imm12, sh) ← recover_addsub_imm insn
      reject_if (ltb 0xfff imm12) EncodeError.invalid_immediate
      ok (
          shl32 sf 31
          or shl32 op 30
          or shl32 s 29
          or shl32 0b10001 24
          or shl32 sh 22
          or shl32 imm12 10
          or shl32 rn 5
          or rd)

unfoldable pub is_subg : Code → Bool
is_subg Code.subg_imm = true
is_subg _ = false

unfoldable pub enc_addsub_tags : Instruction → Result ℕ
unfolding reg_num imm_u is_subg
enc_addsub_tags insn = do
  let op : ℕ = if is_subg insn.code then 1 else 0
  rd ← reg_num insn 0
  rn ← reg_num insn 1
  uimm6_scaled ← imm_u insn 2
  uimm4 ← imm_u insn 3
  if bit_and uimm6_scaled 0xf != 0 || ltb 0x3f (shr uimm6_scaled 4) || ltb 0xf uimm4
      then err EncodeError.invalid_immediate
      else ok (
          shl32 1 31
          or shl32 op 30
          or shl32 0b100011 23
          or shl32 (as_u32 (shr uimm6_scaled 4)) 16
          or shl32 (as_u32 uimm4) 10
          or shl32 rn 5
          or rd)

-- `(opc, is_signed)`
unfoldable pub minmax_opc : Code → ℕ × Bool
minmax_opc Code.smax_imm32 = (0, true)
minmax_opc Code.smax_imm64 = (0, true)
minmax_opc Code.umax_imm32 = (1, false)
minmax_opc Code.umax_imm64 = (1, false)
minmax_opc Code.smin_imm32 = (2, true)
minmax_opc Code.smin_imm64 = (2, true)
minmax_opc _ = (3, false)

-- `-128..=255`
unfoldable pub signed_imm8 : ℤ → Result ℕ
signed_imm8 (pos v) =
    if ltb 255 v then err EncodeError.invalid_immediate else ok (bit_and (i64_as_u32 (pos v)) 0xff)
signed_imm8 (negsuc v) =
    if ltb 127 v
    then err EncodeError.invalid_immediate
    else ok (bit_and (i64_as_u32 (negsuc v)) 0xff)

unfoldable pub minmax_imm8 : Instruction → Bool → Result ℕ
unfolding imm_u signed_imm8
minmax_imm8 insn true = elim (op insn 2) [
  | Operand.imm_signed v ↦ signed_imm8 v
  | Operand.imm_unsigned u ↦ signed_imm8 (as_i64 u)
  | Operand.imm_logical u ↦ signed_imm8 (as_i64 u)
  | _ ↦ err EncodeError.invalid_operand
]
minmax_imm8 insn false = do
  v ← imm_u insn 2
  if ltb 0xff v then err EncodeError.invalid_immediate else ok (as_u32 v)

unfoldable pub enc_minmax_imm : Instruction → Result ℕ
unfolding is_64 minmax_opc minmax_imm8 reg_num
enc_minmax_imm insn = do
  let sf : ℕ = if is_64 insn.code then 1 else 0
  rd ← reg_num insn 0
  rn ← reg_num insn 1
  imm8 ← minmax_imm8 insn (minmax_opc insn.code).1
  ok (
      shl32 sf 31
      or shl32 0b100011 23
      or shl32 1 22
      or shl32 (minmax_opc insn.code).0 18
      or shl32 imm8 10
      or shl32 rn 5
      or rd)
