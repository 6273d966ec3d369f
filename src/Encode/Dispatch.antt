-- ===== src/Encode/Dispatch.antt =====
-- src/encode/mod.rs: the dispatch of the encoder, and the commit of an edited instruction. The
-- groups after the data-processing and branch ones are a parameter, a test and an encoder for each.
pub mod Laws
use f_arm.Base.{ℕ, ◌%◌, ◌/◌, ◌^◌, List, [], ◌∷◌, Bool, true, if◌then◌else◌, bit_and}
use f_arm.Encode.BranchSys
use f_arm.Encode.DpImm
use f_arm.Encode.DpReg
use f_arm.Encode.Error.{EncodeError, Result, ok, err, ◌>>=◌}
use f_arm.Encode.Groups.{is_dp_imm, is_dp_reg, is_branch_sys}
use f_arm.Instruction.{Instruction}
use f_arm.Instruction.Edit.{clear_modified}
use f_arm.Mnemonic.{Code}

-- `is_…` and `encode` of a sibling module.
pub record GroupEncoder : Type 0 where
  pub covers : Code → Bool
  pub encode_group : Instruction → Result ℕ

-- In the order of the match: memory copies, loads and stores, SIMD, SVE, SME, vendor.
abbrev pub GroupEncoders : Type 0
GroupEncoders = List GroupEncoder

unfoldable pub encode_rest : GroupEncoders → Instruction → Result ℕ
encode_rest [] insn = err EncodeError.unsupported
encode_rest (group ∷ groups) insn =
    let rest = encode_rest groups insn in
    if group.covers insn.code then group.encode_group insn else rest

unfoldable pub encode : GroupEncoders → Instruction → Result ℕ
encode groups insn =
    let by_group : Result ℕ =
      if is_dp_imm insn.code
      then f_arm.Encode.DpImm.encode insn
      else if is_dp_reg insn.code
      then f_arm.Encode.DpReg.encode insn
      else if is_branch_sys insn.code
      then f_arm.Encode.BranchSys.encode insn
      else encode_rest groups insn in
    elim insn.code [ Code.invalid ↦ err EncodeError.invalid | _ ↦ by_group ]

-- `u32::to_le_bytes`
unfoldable pub to_le_bytes : ℕ → List ℕ
to_le_bytes word = word % 256 ∷ word / 2 ^ 8 % 256 ∷ word / 2 ^ 16 % 256 ∷ word / 2 ^ 24 % 256 ∷ []

unfoldable pub encode_bytes : GroupEncoders → Instruction → Result (List ℕ)
encode_bytes groups insn = encode groups insn >>= λ word. ok (to_le_bytes word)

-- The result, and the instruction afterwards; a failure leaves it as it was.
unfoldable pub re_encode : GroupEncoders → Instruction → Result ℕ × Instruction
re_encode groups insn = elim (encode groups insn) [
  | err failure ↦ (err failure, insn)
  | ok word ↦ (ok word, clear_modified (record insn { word = word }))
]
