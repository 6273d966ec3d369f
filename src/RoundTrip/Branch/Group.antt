-- ===== src/RoundTrip/Branch/Group.antt =====
-- The whole branch group: `decode` and `encode` of src/decode/branch_sys.rs and
-- src/encode/branch_sys.rs.
use f_arm.Base.{ℕ, ◌/◌, ◌%◌, ◌^◌, ◌<◌, ◌≡◌, ◌≢◌, ◌⊎◌, arith}
use f_arm.Decode.Bits.Laws.{bit_lem, bits_lem}
use f_arm.Decode.BranchSys.{SystemDecoders, decode}
use f_arm.Decode.BranchSys.Immediate.{
  decode_uncond_branch_imm, decode_cond_branch, decode_compare_branch, decode_test_branch,
}
use f_arm.Encode.BranchSys.{encode}
use f_arm.Encode.Error.{ok}
use f_arm.Features.{FeatureSet}
use f_arm.Instruction.{Instruction}
use f_arm.RoundTrip.Branch.Authenticated.{enc-decode_ret_sppc}
use f_arm.RoundTrip.Branch.Codes.{
  encode-cmpbr, encode-branch_reg, encode-sppc, encode-uncond_branch_imm, encode-cond_branch,
  encode-compare_branch, encode-test_branch, encode-exception,
}
use f_arm.RoundTrip.Branch.Compare.{enc-decode_cmpbr}
use f_arm.RoundTrip.Branch.Exception.{enc-decode_exception}
use f_arm.RoundTrip.Branch.Immediate.{
  enc-decode_uncond_branch_imm, enc-decode_cond_branch, enc-decode_compare_branch,
  enc-decode_test_branch,
}
use f_arm.RoundTrip.Branch.Register.{enc-decode_uncond_branch_reg}
use f_arm.Decode.BranchSys.Compare.{decode_cmpbr}
use f_arm.Decode.BranchSys.Exception.{decode_exception}
use f_arm.Decode.BranchSys.Register.{decode_uncond_branch_reg}
use f_arm.Decode.BranchSys.Immediate.{decode_ret_sppc}

module _ (w ip : ℕ) (features : FeatureSet) (out : Instruction) (h : w < 2 ^ 32) (hip : ip < 2 ^ 64)
    (same : out.ip ≡ ip) where
  -- The word is rejected, or comes back.
  abbrev Returns : Instruction → Type 0
  Returns insn = (insn ≡ out) ⊎ (encode insn ≡ ok w)

  register-Returns :
      w / 2 ^ 25 % 128 ≡ 0b1101011 → Returns (decode_uncond_branch_reg w features out)
  register-Returns e = ground (
    arith,
    enc-decode_uncond_branch_reg w features out h e,
    encode-branch_reg (decode_uncond_branch_reg w features out) w,
  )

  exception-Returns : w / 2 ^ 24 % 256 ≡ 0b11010100 → Returns (decode_exception w features out)
  exception-Returns e =
      ground (arith, enc-decode_exception w features out h e, encode-exception w ip features out)

  sppc-Returns : w / 2 ^ 24 % 256 ≡ 0b01010101 → Returns (decode_ret_sppc w features out)
  sppc-Returns e = ground (
    arith,
    enc-decode_ret_sppc w features out h e,
    encode-sppc (decode_ret_sppc w features out) w,
  )

  cond_branch-sppc :
      w / 2 ^ 24 % 256 ≡ 0b01010101
      → decode_cond_branch w features out ≡ decode_ret_sppc w features out
  unfolding decode_cond_branch
  cond_branch-sppc e = ground (arith, bit_lem w 24)

  cond_branch-Returns : w / 2 ^ 25 % 128 ≡ 0b0101010 → Returns (decode_cond_branch w features out)
  cond_branch-Returns e = ground (
    arith,
    bit_lem w 24,
    sppc-Returns,
    cond_branch-sppc,
    enc-decode_cond_branch w features out h,
    encode-cond_branch w ip features out,
  )

  compare_branch-Returns : w / 2 ^ 25 % 64 ≡ 0b011010 → Returns (decode_compare_branch w ip out)
  compare_branch-Returns e = ground (
    arith,
    enc-decode_compare_branch w ip out h e hip same,
    encode-compare_branch w ip features out,
  )

  test_branch-Returns : w / 2 ^ 25 % 64 ≡ 0b011011 → Returns (decode_test_branch w ip out)
  test_branch-Returns e =
      ground
        (arith, enc-decode_test_branch w ip out h e hip same, encode-test_branch w ip features out)

  cmpbr-Returns : w / 2 ^ 25 % 64 ≡ 0b111010 → Returns (decode_cmpbr w ip features out)
  cmpbr-Returns e = ground (
    arith,
    enc-decode_cmpbr w ip features out h e hip same,
    encode-cmpbr (decode_cmpbr w ip features out) w,
  )

  uncond-Returns : w / 2 ^ 26 % 32 ≡ 0b00101 → Returns (decode_uncond_branch_imm w ip out)
  uncond-Returns e = ground (
    arith,
    enc-decode_uncond_branch_imm w ip out h e hip same,
    encode-uncond_branch_imm w ip features out,
  )

-- A 32-bit word outside the system blocks, at a 64-bit address: the decoder of the branch group
-- either leaves the instruction as it was or leaves one that encodes to the word.
pub encode-decode_branch_sys :
    (blocks : SystemDecoders) (w ip : ℕ) (features : FeatureSet) (out : Instruction)
    → w < 2 ^ 32
    → ip < 2 ^ 64
    → out.ip ≡ ip
    → w / 2 ^ 24 ≢ 0xd5
    → (decode blocks w ip features out ≡ out) ⊎ (encode (decode blocks w ip features out) ≡ ok w)
unfolding decode
encode-decode_branch_sys blocks w ip features out h hip same block = ground (
  arith,
  bits_lem w 25 7 (omega arith) (omega arith),
  bits_lem w 24 8 (omega arith) (omega arith),
  bits_lem w 22 10 (omega arith) (omega arith),
  bits_lem w 25 6 (omega arith) (omega arith),
  bits_lem w 26 5 (omega arith) (omega arith),
  register-Returns w ip features out h hip same,
  exception-Returns w ip features out h hip same,
  cond_branch-Returns w ip features out h hip same,
  compare_branch-Returns w ip features out h hip same,
  test_branch-Returns w ip features out h hip same,
  cmpbr-Returns w ip features out h hip same,
  uncond-Returns w ip features out h hip same,
)
