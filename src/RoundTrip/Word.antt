-- ===== src/RoundTrip/Word.antt =====
-- src/decode/mod.rs and src/encode/mod.rs: a word of the data-processing or branch groups through
-- the decode tree and through the dispatch of the encoder.
use f_arm.Base.{ℕ, ◌/◌, ◌%◌, ◌^◌, ◌<◌, ◌≡◌, ◌≢◌, ◌⊎◌, ◌==◌, arith, refl, bit_and, shr, true}
use f_arm.Base.{if◌then◌else◌}
use f_arm.Base.Bits.{bit_and_mask}
use f_arm.Decode.BranchSys.Immediate.{decode_auti_sppc}
use f_arm.Decode.DpImm.{decode}
use f_arm.Decode.DpReg.{decode as decode_reg}
use f_arm.Decode.Tree.{GroupDecoders, decode_reserved, decode_into}
use f_arm.Encode.BranchSys.{encode as encode_branch}
use f_arm.Encode.BranchSys.Exception.{enc_udf}
use f_arm.Encode.DpReg.{encode as encode_reg}
use f_arm.Encode.Dispatch.{GroupEncoders, encode}
use f_arm.Encode.Dispatch.Laws.{encode-dp_imm, encode-dp_reg, encode-branch_sys}
use f_arm.Encode.Error.{ok}
use f_arm.Features.{FeatureSet}
use f_arm.Instruction.{new_invalid, is_invalid, set, push_operand, op}
use f_arm.RoundTrip.Branch.Authenticated.{auti_bits, enc-decode_auti_sppc}
use f_arm.RoundTrip.Branch.Codes.{encode-sppc}
use f_arm.RoundTrip.Branch.Group.{encode-decode_branch_sys}
use f_arm.RoundTrip.Group.{canonical as canonical_imm}
use f_arm.RoundTrip.Reg.Group.{canonical as canonical_reg, encode-decode_dp_reg}
use f_arm.RoundTrip.Whole.{dispatch-dp_imm, encode-decode_into}

-- The word with the bits that its class ignores made canonical. The branch group ignores none.
unfoldable pub canonical_word : ℕ → ℕ
canonical_word w =
    if w / 2 ^ 26 % 8 == 0b100
    then canonical_imm w
    else if w / 2 ^ 25 % 8 == 0b101
    then canonical_reg w
    else w

-- The tree hands the words of the register group to its decoder, on a reset instruction.
dispatch-dp_reg :
    (groups : GroupDecoders) (w ip : ℕ) (features : FeatureSet)
    → w / 2 ^ 25 % 8 ≡ 0b101
    → decode_into groups w ip features ≡ decode_reg w ip features (new_invalid w ip)
unfolding decode_into
dispatch-dp_reg groups w ip features e = ground (arith, bit_and_mask 4 (shr w 25))

-- On a 32-bit word of the register group the decode tree gives either the invalid instruction or
-- one that encodes to the word in canonical form.
decode_into_reg :
    (groups : GroupDecoders) (w ip : ℕ) (features : FeatureSet)
    → w < 2 ^ 32
    → w / 2 ^ 25 % 8 ≡ 0b101
    → (is_invalid (decode_into groups w ip features) ≡ true)
      ⊎ (encode_reg (decode_into groups w ip features) ≡ ok (canonical_reg w))
unfolding is_invalid new_invalid
decode_into_reg groups w ip features h e = ground (
  arith,
  dispatch-dp_reg groups w ip features e,
  encode-decode_dp_reg w ip features (new_invalid w ip) h,
)

-- The same of the branch group, outside the system blocks.
decode_into_branch :
    (groups : GroupDecoders) (w ip : ℕ) (features : FeatureSet)
    → w < 2 ^ 32
    → ip < 2 ^ 64
    → w / 2 ^ 26 % 8 ≡ 0b101
    → w / 2 ^ 24 ≢ 0xd5
    → (is_invalid (decode_into groups w ip features) ≡ true)
      ⊎ (encode_branch (decode_into groups w ip features) ≡ ok w)
unfolding is_invalid new_invalid decode_into
decode_into_branch groups w ip features h hip e block = ground (
  arith,
  bit_and_mask 4 (shr w 25),
  encode-decode_branch_sys groups.system w ip features (new_invalid w ip) h hip refl block,
)

-- The immediate group hands the PC-relative authentications to the branch group, whose encoder
-- takes them back.
decode_into_sppc :
    (groups : GroupDecoders) (w ip : ℕ) (features : FeatureSet)
    → w < 2 ^ 32
    → ip < 2 ^ 64
    → w / 2 ^ 26 % 8 ≡ 0b100
    → bit_and w 0xffc0_001f ≡ 0xf380_001f
    → (is_invalid (decode_into groups w ip features) ≡ true)
      ⊎ (encode_branch (decode_into groups w ip features) ≡ ok w)
unfolding is_invalid new_invalid decode
decode_into_sppc groups w ip features h hip e sppc = ground (
  arith,
  dispatch-dp_imm groups w ip features e,
  enc-decode_auti_sppc w (new_invalid w ip) h sppc hip,
  encode-sppc (decode_auti_sppc w (new_invalid w ip)) w,
)

sppc-canonical : (w : ℕ) → bit_and w 0xffc0_001f ≡ 0xf380_001f → w < 2 ^ 32 → canonical_word w ≡ w
unfolding canonical_word canonical_imm
sppc-canonical w e h = ground (arith, auti_bits w h e)

-- A word with sixteen zeros above is the reserved `UDF`.
decode_into_udf :
    (groups : GroupDecoders) (w ip : ℕ) (features : FeatureSet)
    → w < 2 ^ 16
    → encode_branch (decode_into groups w ip features) ≡ ok w
unfolding decode_into decode_reserved encode_branch enc_udf set push_operand op new_invalid
decode_into_udf groups w ip features h =
    ground (arith, bit_and_mask 4 (shr w 25), bit_and_mask 16 w)

-- A 32-bit word at a 64-bit address, of the immediate or the register group, of the branch group
-- outside the system blocks, or of `UDF`: the decode tree gives either the invalid instruction or
-- one that the dispatch of the encoder turns into the word in canonical form, whatever the decoders
-- and the encoders of the other groups do.
pub dispatch-decode_into :
    (decoders : GroupDecoders) (encoders : GroupEncoders) (w ip : ℕ) (features : FeatureSet)
    → w < 2 ^ 32
    → ip < 2 ^ 64
    → (w / 2 ^ 26 % 8 ≡ 0b100)
      ⊎ (w / 2 ^ 25 % 8 ≡ 0b101)
      ⊎ ((w / 2 ^ 26 % 8 ≡ 0b101) × (w / 2 ^ 24 ≢ 0xd5))
      ⊎ (w < 2 ^ 16)
    → (is_invalid (decode_into decoders w ip features) ≡ true)
      ⊎ (encode encoders (decode_into decoders w ip features) ≡ ok (canonical_word w))
unfolding canonical_word
dispatch-decode_into decoders encoders w ip features h hip e =
    let insn = decode_into decoders w ip features in
    ground (
      arith,
      encode-decode_into decoders w ip features h hip,
      decode_into_reg decoders w ip features h,
      decode_into_branch decoders w ip features h hip,
      decode_into_sppc decoders w ip features h hip,
      sppc-canonical w,
      decode_into_udf decoders w ip features,
      encode-dp_imm encoders insn (canonical_imm w),
      encode-dp_reg encoders insn (canonical_reg w),
      encode-branch_sys encoders insn w,
    )
