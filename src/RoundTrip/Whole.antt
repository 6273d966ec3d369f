-- ===== src/RoundTrip/Whole.antt =====
-- src/decode/mod.rs: a word of the immediate group through the decode tree and back.
use f_arm.Base.{ℕ, ◌/◌, ◌%◌, ◌^◌, ◌<◌, ◌≡◌, ◌≢◌, ◌⊎◌, arith, bit_and, shr, true}
use f_arm.Base.Bits.{bit_and_mask}
use f_arm.Decode.DpImm.{decode}
use f_arm.Decode.Tree.{GroupDecoders, decode_into}
use f_arm.Encode.DpImm.{encode}
use f_arm.Encode.Error.{ok}
use f_arm.Features.{FeatureSet}
use f_arm.Instruction.{new_invalid, is_invalid}
use f_arm.RoundTrip.Group.{encode-decode_dp_imm, canonical}

-- The tree hands the words of the group to its decoder, on a reset instruction.
pub dispatch-dp_imm :
    (groups : GroupDecoders) (w ip : ℕ) (features : FeatureSet)
    → w / 2 ^ 26 % 8 ≡ 0b100
    → decode_into groups w ip features ≡ decode w ip features (new_invalid w ip)
unfolding decode_into
dispatch-dp_imm groups w ip features e = ground (arith, bit_and_mask 4 (shr w 25))

-- On a 32-bit word of the immediate group, but the PC-relative authentications, at a 64-bit
-- address, the decode tree gives either the invalid instruction or one that encodes to the word in
-- canonical form, whatever the decoders of the other groups do.
pub encode-decode_into :
    (groups : GroupDecoders) (w ip : ℕ) (features : FeatureSet)
    → w < 2 ^ 32
    → ip < 2 ^ 64
    → w / 2 ^ 26 % 8 ≡ 0b100
    → bit_and w 0xffc0_001f ≢ 0xf380_001f
    → (is_invalid (decode_into groups w ip features) ≡ true)
      ⊎ (encode (decode_into groups w ip features) ≡ ok (canonical w))
unfolding is_invalid new_invalid
encode-decode_into groups w ip features h hip e sppc = ground (
  arith,
  dispatch-dp_imm groups w ip features e,
  encode-decode_dp_imm w (new_invalid w ip) features h hip e sppc,
)
