-- ===== src/RoundTrip/Branch/Codes.antt =====
-- The dispatch of `encode` in src/encode/branch_sys.rs on the codes that the class decoders set.
use f_arm.Base.{ℕ, ◌/◌, ◌%◌, ◌^◌, ◌≡◌, ◌⊎◌, arith, true, false, Bool}
use f_arm.Decode.Bits.Laws.{bit_lem}
use f_arm.Decode.BranchSys.Exception.{decode_exception, decode_tenter, push_optional_imm}
use f_arm.Decode.BranchSys.Immediate.{
  decode_uncond_branch_imm, decode_cond_branch, compare_branch_code, decode_compare_branch,
  decode_test_branch,
}
use f_arm.Encode.BranchSys.{encode}
use f_arm.Encode.BranchSys.Compare.{cmpbr_fields, enc_cmpbr}
use f_arm.Encode.BranchSys.Exception.{enc_exception}
use f_arm.Encode.BranchSys.Immediate.{
  enc_cond_branch, sppc_fields, enc_pauth_lr_sppc, enc_uncond_branch_imm, enc_compare_branch,
  enc_test_branch,
}
use f_arm.Encode.BranchSys.Register.{branch_reg_fields, enc_branch_reg}
use f_arm.Encode.Error.{ok}
use f_arm.Features.{FeatureSet}
use f_arm.Instruction.{Instruction, set, push_operand}
use f_arm.Mnemonic.{Code}

-- The codes of an exception.
unfoldable is_exception : Code → Bool
is_exception Code.svc = true
is_exception Code.hvc = true
is_exception Code.smc = true
is_exception Code.brk = true
is_exception Code.hlt = true
is_exception Code.tcancel = true
is_exception Code.tenter = true
is_exception Code.dcps1 = true
is_exception Code.dcps2 = true
is_exception Code.dcps3 = true
is_exception _ = false

-- The encoders that test the code themselves.
module _ (insn : Instruction) (w : ℕ) where
  pub encode-cmpbr : enc_cmpbr insn ≡ ok w → encode insn ≡ ok w
  unfolding encode enc_cmpbr cmpbr_fields
  encode-cmpbr e = ground arith

  pub encode-branch_reg : enc_branch_reg insn ≡ ok w → encode insn ≡ ok w
  unfolding encode enc_branch_reg branch_reg_fields
  encode-branch_reg e = ground arith

  pub encode-sppc : enc_pauth_lr_sppc insn ≡ ok w → encode insn ≡ ok w
  unfolding encode enc_pauth_lr_sppc sppc_fields
  encode-sppc e = ground arith

encode-is_exception :
    (insn : Instruction) → is_exception insn.code ≡ true → encode insn ≡ enc_exception insn
unfolding encode is_exception
encode-is_exception insn c = ground arith

module _ (w ip : ℕ) (features : FeatureSet) (out : Instruction) where
  -- The class decoders leave their codes to the encoders of their classes.
  pub encode-uncond_branch_imm :
      let insn = decode_uncond_branch_imm w ip out in encode insn ≡ enc_uncond_branch_imm insn
  unfolding decode_uncond_branch_imm encode set push_operand
  encode-uncond_branch_imm = ground arith

  pub encode-cond_branch :
      w / 2 ^ 24 % 256 ≡ 0b01010100
      → let insn = decode_cond_branch w features out in
        (insn ≡ out) ⊎ (encode insn ≡ enc_cond_branch insn)
  unfolding decode_cond_branch encode set push_operand
  encode-cond_branch e = ground (arith, bit_lem w 24)

  pub encode-compare_branch :
      let insn = decode_compare_branch w ip out in encode insn ≡ enc_compare_branch insn
  unfolding decode_compare_branch compare_branch_code encode set push_operand
  encode-compare_branch = ground arith

  pub encode-test_branch :
      let insn = decode_test_branch w ip out in encode insn ≡ enc_test_branch insn
  unfolding decode_test_branch encode set push_operand
  encode-test_branch = ground arith

  exception_codes :
      let insn = decode_exception w features out in (insn ≡ out) ⊎ (is_exception insn.code ≡ true)
  unfolding decode_exception decode_tenter push_optional_imm is_exception set push_operand
  exception_codes = ground arith

  pub encode-exception :
      let insn = decode_exception w features out in
      (insn ≡ out) ⊎ (encode insn ≡ enc_exception insn)
  encode-exception =
      ground (arith, exception_codes, encode-is_exception (decode_exception w features out))
