-- ===== src/Encode/DpReg/Source1.antt =====
-- src/encode/dp_reg.rs: data-processing with one source, and pointer authentication.
use f_arm.Base.{ℕ, if◌then◌else◌, Bool, true, false, shl32, ◌or◌, Option, none, some}
use f_arm.Encode.DpImm.Fields.{reg_num}
use f_arm.Encode.DpReg.Fields.{is_64}
use f_arm.Encode.Error.{Result, ok, ◌>>=◌}
use f_arm.Instruction.{Instruction}
use f_arm.Mnemonic.{Code}

unfoldable pub dp_1source_opcode : Code → ℕ
dp_1source_opcode Code.rbit32 = 0b000000
dp_1source_opcode Code.rbit64 = 0b000000
dp_1source_opcode Code.rev1632 = 0b000001
dp_1source_opcode Code.rev1664 = 0b000001
dp_1source_opcode Code.rev32_bit = 0b000010
dp_1source_opcode Code.rev3232 = 0b000010
dp_1source_opcode Code.rev3264 = 0b000010
dp_1source_opcode Code.rev64_bit = 0b000011
dp_1source_opcode Code.clz32 = 0b000100
dp_1source_opcode Code.clz64 = 0b000100
dp_1source_opcode Code.cls32 = 0b000101
dp_1source_opcode Code.cls64 = 0b000101
dp_1source_opcode Code.ctz32 = 0b000110
dp_1source_opcode Code.ctz64 = 0b000110
dp_1source_opcode Code.cnt32 = 0b000111
dp_1source_opcode Code.cnt64 = 0b000111
dp_1source_opcode _ = 0b001000

unfoldable pub enc_dp_1source_basic : Instruction → Result ℕ
enc_dp_1source_basic insn =
    let sf : ℕ = if is_64 insn.code then 1 else 0 in
    let opcode = dp_1source_opcode insn.code in
    do
      rd ← reg_num insn 0
      rn ← reg_num insn 1
      ok (shl32 sf 31 or shl32 1 30 or shl32 0b11010110 21 or shl32 opcode 10 or shl32 rn 5 or rd)

-- `(opcode, rn)` of the forms on the link register.
unfoldable pub pauth_lr_fields : Instruction → Result (Option (ℕ × ℕ))
pauth_lr_fields insn =
    let modifier : ℕ → Result (Option (ℕ × ℕ)) =
      λ opcode. reg_num insn 0 >>= λ rn. ok (some (opcode, rn)) in
    elim insn.code [
      | Code.paciasppc ↦ ok (some (0b101000, 31))
      | Code.pacibsppc ↦ ok (some (0b101001, 31))
      | Code.pacnbiasppc ↦ ok (some (0b100000, 31))
      | Code.pacnbibsppc ↦ ok (some (0b100001, 31))
      | Code.autiasppcr ↦ modifier 0b100100
      | Code.autibsppcr ↦ modifier 0b100101
      | _ ↦ ok none
    ]

-- `(opcode, z)`
unfoldable pub pauth_fields : Code → ℕ × Bool
pauth_fields Code.pacia_dp = (0b000000, false)
pauth_fields Code.pacib_dp = (0b000001, false)
pauth_fields Code.pacda_dp = (0b000010, false)
pauth_fields Code.pacdb_dp = (0b000011, false)
pauth_fields Code.autia_dp = (0b000100, false)
pauth_fields Code.autib_dp = (0b000101, false)
pauth_fields Code.autda_dp = (0b000110, false)
pauth_fields Code.autdb_dp = (0b000111, false)
pauth_fields Code.paciza_dp = (0b001000, true)
pauth_fields Code.pacizb_dp = (0b001001, true)
pauth_fields Code.pacdza_dp = (0b001010, true)
pauth_fields Code.pacdzb_dp = (0b001011, true)
pauth_fields Code.autiza_dp = (0b001100, true)
pauth_fields Code.autizb_dp = (0b001101, true)
pauth_fields Code.autdza_dp = (0b001110, true)
pauth_fields Code.autdzb_dp = (0b001111, true)
pauth_fields Code.xpaci_dp = (0b010000, true)
pauth_fields _ = (0b010001, true)

unfoldable pub enc_pauth_plain : Instruction → Result ℕ
enc_pauth_plain insn =
    let (opcode, z) = pauth_fields insn.code in
    do
      rd ← reg_num insn 0
      rn ← (if z then ok 31 else reg_num insn 1)
      ok (
          shl32 1 31
          or shl32 1 30
          or shl32 0b11010110 21
          or shl32 1 16
          or shl32 opcode 10
          or shl32 rn 5
          or rd)

unfoldable pub enc_dp_1source_pauth : Instruction → Result ℕ
enc_dp_1source_pauth insn = do
  lr ← pauth_lr_fields insn
  (elim lr [
    | none ↦ enc_pauth_plain insn
    | some (opcode, rn) ↦ ok (
        shl32 1 31
        or shl32 1 30
        or shl32 0b11010110 21
        or shl32 1 16
        or shl32 opcode 10
        or shl32 rn 5
        or 0b11110)
  ])
