-- ===== src/RoundTrip/Branch/Register.antt =====
-- The branches to a register and the returns: decoded and encoded again.
use f_arm.Base.{ℕ, ◌/◌, ◌%◌, ◌^◌, ◌<◌, ◌≡◌, ◌⊎◌, arith, true, false}
use f_arm.Decode.Bits.{bits}
use f_arm.Decode.BranchSys.Register.{
  decode_plain_branch_reg, decode_key_a_branch_reg, decode_key_b_branch_reg,
  decode_uncond_branch_reg,
}
use f_arm.Encode.BranchSys.Register.{branch_reg_fields, recover_branch_reg, enc_branch_reg}
use f_arm.Encode.Error.{ok}
use f_arm.Features.{FeatureSet}
use f_arm.Instruction.{Instruction, set, push_operand, op}
use f_arm.Register.{RegWidth}
use f_arm.RoundTrip.Branch.Shapes.{branch_reg_packed}
use f_arm.RoundTrip.Reads.{number-field}

module _ (w : ℕ) (features : FeatureSet) (out : Instruction) (h : w < 2 ^ 32)
    (e : w / 2 ^ 25 % 128 ≡ 0b1101011) (h16 : bits w 16 5 ≡ 0b11111) where
  abbrev Returns : Instruction → Type 0
  Returns insn = (insn ≡ out) ⊎ (enc_branch_reg insn ≡ ok w)

  plain-Returns : bits w 10 6 ≡ 0b000000 → Returns (decode_plain_branch_reg w out)
  unfolding decode_plain_branch_reg enc_branch_reg branch_reg_fields recover_branch_reg set
      push_operand op
  plain-Returns h10 =
      ground (arith, number-field w 5 false RegWidth.x64, branch_reg_packed w h e h16)

  key_a-Returns : bits w 10 6 ≡ 0b000010 → Returns (decode_key_a_branch_reg w features out)
  unfolding decode_key_a_branch_reg enc_branch_reg branch_reg_fields recover_branch_reg set
      push_operand op
  key_a-Returns h10 = ground (
    arith,
    number-field w 5 false RegWidth.x64,
    number-field w 0 false RegWidth.x64,
    number-field w 0 true RegWidth.x64,
    branch_reg_packed w h e h16,
  )

  key_b-Returns : bits w 10 6 ≡ 0b000011 → Returns (decode_key_b_branch_reg w features out)
  unfolding decode_key_b_branch_reg enc_branch_reg branch_reg_fields recover_branch_reg set
      push_operand op
  key_b-Returns h10 = ground (
    arith,
    number-field w 5 false RegWidth.x64,
    number-field w 0 false RegWidth.x64,
    number-field w 0 true RegWidth.x64,
    branch_reg_packed w h e h16,
  )

-- A word of the branches to a register, of the returns or of their authenticated forms is left
-- alone or comes back from the encoder, the register that `RET` leaves out included.
pub enc-decode_uncond_branch_reg :
    (w : ℕ) (features : FeatureSet) (out : Instruction)
    → w < 2 ^ 32
    → w / 2 ^ 25 % 128 ≡ 0b1101011
    → (decode_uncond_branch_reg w features out ≡ out)
      ⊎ (enc_branch_reg (decode_uncond_branch_reg w features out) ≡ ok w)
unfolding decode_uncond_branch_reg
enc-decode_uncond_branch_reg w features out h e = ground (
  arith,
  plain-Returns w features out h e,
  key_a-Returns w features out h e,
  key_b-Returns w features out h e,
)
