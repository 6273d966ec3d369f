-- ===== src/RoundTrip/Reg/Group.antt =====
-- The whole register group: `decode` and `encode` of src/decode/dp_reg.rs and
-- src/encode/dp_reg.rs.
use f_arm.Base.{ℕ, ◌/◌, ◌%◌, ◌^◌, ◌<◌, ◌≡◌, ◌⊎◌, ◌==◌, arith}
use f_arm.Base.{if◌then◌else◌}
use f_arm.Base.Bits.{bit_and_mask}
use f_arm.Decode.Bits.{bits}
use f_arm.Decode.Bits.Laws.{bit-cases, bits_lem}
use f_arm.Decode.DpReg.{decode, decode_op2, decode_op3}
use f_arm.Encode.DpReg.{encode}
use f_arm.Encode.Error.{ok}
use f_arm.Features.{FeatureSet}
use f_arm.Instruction.{Instruction}
use f_arm.RoundTrip.Reg.Classes.{
  Returns, logical_shifted-Returns, addsub_shifted-Returns, addsub_extended-Returns,
  addsub_carry-Returns, addsub_pt-Returns, rmif-Returns, setf-Returns, cond_compare-Returns,
  cond_select-Returns,
}
use f_arm.RoundTrip.Reg.Source1.{encode-decode_dp_1source}
use f_arm.RoundTrip.Reg.Source2.{encode-decode_dp_2source}
use f_arm.RoundTrip.Reg.Source3.{accumulator, decode_dp_3source-rejects, encode-decode_dp_3source}
use f_arm.RoundTrip.Reg.Sources.{with_ra}

-- The word with the accumulator field of a high multiplication, which nothing reads, set to 31.
unfoldable pub canonical : ℕ → ℕ
canonical w = if w / 2 ^ 24 % 32 == 0b11011 then with_ra w (accumulator w) else w

module _ (w : ℕ) (features : FeatureSet) (out : Instruction) (h : w < 2 ^ 32) where
  op3-Returns : w / 2 ^ 21 % 256 ≡ 0b11010000 → Returns w out (decode_op3 w features out)
  unfolding decode_op3
  op3-Returns e = ground (
    arith,
    bits_lem w 10 6 (omega arith) (omega arith),
    bit_and_mask 5 (bits w 10 6),
    bit_and_mask 4 (bits w 10 6),
    addsub_carry-Returns w out h e,
    rmif-Returns w out h e,
    setf-Returns w out h e,
    addsub_pt-Returns w out features h e,
  )

  op2-Returns : w / 2 ^ 24 % 32 ≡ 0b11010 → Returns w out (decode_op2 w features out)
  unfolding decode_op2
  op2-Returns e = ground (
    arith,
    bit-cases w 30,
    bits_lem w 21 3 (omega arith) (omega arith),
    op3-Returns,
    cond_compare-Returns w out h,
    cond_select-Returns w out h,
    encode-decode_dp_1source w features out h,
    encode-decode_dp_2source w features out h,
  )

-- On a 32-bit word of the register group the decoder either leaves the instruction as it was or
-- leaves one that encodes to the word in canonical form.
pub encode-decode_dp_reg :
    (w ip : ℕ) (features : FeatureSet) (out : Instruction)
    → w < 2 ^ 32
    → (decode w ip features out ≡ out) ⊎ (encode (decode w ip features out) ≡ ok (canonical w))
unfolding decode canonical
encode-decode_dp_reg w ip features out h = ground (
  arith,
  bit-cases w 21,
  bits_lem w 24 5 (omega arith) (omega arith),
  logical_shifted-Returns w out h,
  addsub_shifted-Returns w out h,
  addsub_extended-Returns w out h,
  op2-Returns w features out h,
  decode_dp_3source-rejects w out,
  encode-decode_dp_3source w out h,
)
