-- ===== src/Encode/DpReg/Sources.antt =====
-- src/encode/dp_reg.rs: data-processing with three and two sources.
use f_arm.Base.{ℕ, leb, if◌then◌else◌, shl32, ◌or◌}
use f_arm.Encode.DpImm.Fields.{reg_num}
use f_arm.Encode.Error.{Result, ok, ◌>>=◌}
use f_arm.Instruction.{Instruction}
use f_arm.Mnemonic.{Code, Mnemonic}

-- `(op31, o0)`
unfoldable pub dp_3source_fields : Code → ℕ × ℕ
dp_3source_fields Code.madd32 = (0b000, 0)
dp_3source_fields Code.madd64 = (0b000, 0)
dp_3source_fields Code.msub32 = (0b000, 1)
dp_3source_fields Code.msub64 = (0b000, 1)
dp_3source_fields Code.smaddl = (0b001, 0)
dp_3source_fields Code.smsubl = (0b001, 1)
dp_3source_fields Code.smulh = (0b010, 0)
dp_3source_fields Code.maddpt = (0b011, 0)
dp_3source_fields Code.msubpt = (0b011, 1)
dp_3source_fields Code.umaddl = (0b101, 0)
dp_3source_fields Code.umsubl = (0b101, 1)
dp_3source_fields _ = (0b110, 0)

unfoldable pub dp_3source_sf : Code → ℕ
dp_3source_sf Code.madd32 = 0
dp_3source_sf Code.msub32 = 0
dp_3source_sf _ = 1

-- The operands `[Rd, Rn, Rm]`.
unfoldable pub three_registers : Instruction → Result (ℕ × ℕ × ℕ)
three_registers insn = do
  rd ← reg_num insn 0
  rn ← reg_num insn 1
  rm ← reg_num insn 2
  ok (rd, rn, rm)

-- `(rd, rn, rm, ra)`
abbrev pub SourceFields : Type 0
SourceFields = ℕ × ℕ × ℕ × ℕ

unfoldable pub without_ra : Instruction → Result SourceFields
unfolding three_registers
without_ra insn = do (rd, rn, rm) ← three_registers insn; ok (rd, rn, rm, 31)

-- The inner match, on `insn.mnemonic()`.
unfoldable pub recover_by_mnemonic : Instruction → Result SourceFields
unfolding three_registers without_ra
recover_by_mnemonic insn =
    let canonical : Result SourceFields = (do
      (rd, rn, rm) ← three_registers insn
      ra ← reg_num insn 3
      ok (rd, rn, rm, ra)) in
    elim insn.mnemonic [
      | Mnemonic.mul ↦ without_ra insn
      | Mnemonic.mneg ↦ without_ra insn
      | Mnemonic.smull ↦ without_ra insn
      | Mnemonic.smnegl ↦ without_ra insn
      | Mnemonic.umull ↦ without_ra insn
      | Mnemonic.umnegl ↦ without_ra insn
      | _ ↦ canonical
    ]

unfoldable pub recover_dp_3source : Instruction → Result SourceFields
recover_dp_3source insn = elim insn.code [
  | Code.smulh ↦ without_ra insn
  | Code.umulh ↦ without_ra insn
  | _ ↦ recover_by_mnemonic insn
]

unfoldable pub enc_dp_3source : Instruction → Result ℕ
enc_dp_3source insn =
    let sf = dp_3source_sf insn.code in
    let (op31, o0) = dp_3source_fields insn.code in
    do
      (rd, rn, rm, ra) ← recover_dp_3source insn
      ok (
          shl32 sf 31
          or shl32 0b11011 24
          or shl32 op31 21
          or shl32 rm 16
          or shl32 o0 15
          or shl32 ra 10
          or shl32 rn 5
          or rd)

-- `(sf, s, opcode)`
unfoldable pub dp_2source_fields : Code → ℕ × ℕ × ℕ
dp_2source_fields Code.udiv32 = (0, 0, 0b000010)
dp_2source_fields Code.udiv64 = (1, 0, 0b000010)
dp_2source_fields Code.sdiv32 = (0, 0, 0b000011)
dp_2source_fields Code.sdiv64 = (1, 0, 0b000011)
dp_2source_fields Code.lslv32 = (0, 0, 0b001000)
dp_2source_fields Code.lslv64 = (1, 0, 0b001000)
dp_2source_fields Code.lsrv32 = (0, 0, 0b001001)
dp_2source_fields Code.lsrv64 = (1, 0, 0b001001)
dp_2source_fields Code.asrv32 = (0, 0, 0b001010)
dp_2source_fields Code.asrv64 = (1, 0, 0b001010)
dp_2source_fields Code.rorv32 = (0, 0, 0b001011)
dp_2source_fields Code.rorv64 = (1, 0, 0b001011)
dp_2source_fields Code.subp_dp = (1, 0, 0b000000)
dp_2source_fields Code.subps_dp = (1, 1, 0b000000)
dp_2source_fields Code.irg_dp = (1, 0, 0b000100)
dp_2source_fields Code.gmi_dp = (1, 0, 0b000101)
dp_2source_fields Code.pacga = (1, 0, 0b001100)
dp_2source_fields Code.crc32b = (0, 0, 0b010000)
dp_2source_fields Code.crc32h = (0, 0, 0b010001)
dp_2source_fields Code.crc32w = (0, 0, 0b010010)
dp_2source_fields Code.crc32x = (1, 0, 0b010011)
dp_2source_fields Code.crc32cb = (0, 0, 0b010100)
dp_2source_fields Code.crc32ch = (0, 0, 0b010101)
dp_2source_fields Code.crc32cw = (0, 0, 0b010110)
dp_2source_fields Code.crc32cx = (1, 0, 0b010111)
dp_2source_fields Code.smax_reg32 = (0, 0, 0b011000)
dp_2source_fields Code.smax_reg64 = (1, 0, 0b011000)
dp_2source_fields Code.umax_reg32 = (0, 0, 0b011001)
dp_2source_fields Code.umax_reg64 = (1, 0, 0b011001)
dp_2source_fields Code.smin_reg32 = (0, 0, 0b011010)
dp_2source_fields Code.smin_reg64 = (1, 0, 0b011010)
dp_2source_fields Code.umin_reg32 = (0, 0, 0b011011)
dp_2source_fields _ = (1, 0, 0b011011)

unfoldable pub recover_dp_2source : Instruction → Result (ℕ × ℕ × ℕ)
unfolding three_registers
recover_dp_2source insn =
    let optional_rm : Result (ℕ × ℕ × ℕ) = (do
      rd ← reg_num insn 0
      rn ← reg_num insn 1
      rm ← (if leb 3 insn.op_count then reg_num insn 2 else ok 31)
      ok (rd, rn, rm)) in
    elim insn.code [ Code.irg_dp ↦ optional_rm | _ ↦ three_registers insn ]

unfoldable pub enc_dp_2source : Instruction → Result ℕ
enc_dp_2source insn =
    let (sf, s, opcode) = dp_2source_fields insn.code in
    do
      (rd, rn, rm) ← recover_dp_2source insn
      ok (
          shl32 sf 31
          or shl32 s 29
          or shl32 0b011010110 21
          or shl32 rm 16
          or shl32 opcode 10
          or shl32 rn 5
          or rd)
