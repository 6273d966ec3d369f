-- ===== src/RoundTrip/Reg/Classes.antt =====
-- The classes of src/decode/dp_reg.rs below the dispatch: each word is rejected or comes back.
use f_arm.Base.{ℕ, ◌/◌, ◌%◌, ◌^◌, ◌<◌, ◌≤◌, ◌≡◌, ◌⊎◌, arith, true}
use f_arm.Decode.Bits.{bit, bits}
use f_arm.Decode.Bits.Laws.{bit-cases}
use f_arm.Decode.DpReg.Flags.{
  addsub_carry_code, decode_addsub_carry, decode_addsub_pt, decode_rmif, decode_setf,
  cond_compare_code, decode_cond_compare, cond_select_code, decode_cond_select,
}
use f_arm.Decode.DpReg.Shifted.{
  logical_shifted_code, decode_logical_shifted, addsub_shifted_code, decode_addsub_shifted,
  addsub_extended_code, decode_addsub_extended,
}
use f_arm.Encode.DpReg.{encode}
use f_arm.Encode.DpReg.Flags.{
  enc_addsub_carry, enc_addsub_pt, enc_rmif, enc_setf, enc_cond_compare, enc_cond_select,
}
use f_arm.Encode.DpReg.Shifted.{enc_logical_shifted, enc_addsub_shifted, enc_addsub_extended}
use f_arm.Encode.Error.{ok}
use f_arm.Features.{Feature, FeatureSet, has}
use f_arm.Instruction.{Instruction, set, set_alias, push_operand}
use f_arm.RoundTrip.Bitfield.{bit_five}
use f_arm.RoundTrip.Reads.{bits-lt}
use f_arm.RoundTrip.Reg.Conditional.{
  enc-decode_cond_compare, cond_select-code, enc-decode_cond_select,
}
use f_arm.RoundTrip.Reg.Extended.{addsub_extended-code, enc-decode_addsub_extended}
use f_arm.RoundTrip.Reg.Flags.{
  enc-decode_addsub_carry, enc-decode_addsub_pt, enc-decode_rmif, enc-decode_setf,
}
use f_arm.RoundTrip.Reg.Shifted.{
  logical_shifted-code, enc-decode_logical_shifted, addsub_shifted-code, enc-decode_addsub_shifted,
}

module _ (insn : Instruction) (a b c : ℕ) where
  encode-logical_shifted :
      insn.code ≡ logical_shifted_code a b c → encode insn ≡ enc_logical_shifted insn
  unfolding logical_shifted_code encode
  encode-logical_shifted e = ground arith

  encode-addsub_shifted :
      insn.code ≡ addsub_shifted_code a b c → encode insn ≡ enc_addsub_shifted insn
  unfolding addsub_shifted_code encode
  encode-addsub_shifted e = ground arith

  encode-addsub_extended :
      insn.code ≡ addsub_extended_code a b c → encode insn ≡ enc_addsub_extended insn
  unfolding addsub_extended_code encode
  encode-addsub_extended e = ground arith

  encode-addsub_carry : insn.code ≡ addsub_carry_code a b c → encode insn ≡ enc_addsub_carry insn
  unfolding addsub_carry_code encode
  encode-addsub_carry e = ground arith

  encode-cond_compare : insn.code ≡ cond_compare_code a b c → encode insn ≡ enc_cond_compare insn
  unfolding cond_compare_code encode
  encode-cond_compare e = ground arith

  encode-cond_select : insn.code ≡ cond_select_code a b c → encode insn ≡ enc_cond_select insn
  unfolding cond_select_code encode
  encode-cond_select e = ground arith

module _ (w : ℕ) (out : Instruction) where
  -- The word is rejected, or comes back.
  abbrev pub Returns : Instruction → Type 0
  Returns insn = (insn ≡ out) ⊎ (encode insn ≡ ok w)

  logical_shifted-rejects : bit w 31 ≡ 0 → 32 ≤ bits w 10 6 → decode_logical_shifted w out ≡ out
  unfolding decode_logical_shifted
  logical_shifted-rejects h31 h10 = ground (arith, bits-lt w 10 6, bit_five (bits w 10 6))

  pub logical_shifted-Returns :
      w < 2 ^ 32 → w / 2 ^ 24 % 32 ≡ 0b01010 → Returns (decode_logical_shifted w out)
  logical_shifted-Returns h e = ground (
    arith,
    bit-cases w 31,
    logical_shifted-rejects,
    encode-logical_shifted (decode_logical_shifted w out) (bit w 31) (bits w 29 2) (bit w 21),
    logical_shifted-code w out,
    enc-decode_logical_shifted w out h e,
  )

  addsub_shifted-rejects :
      (bits w 22 2 ≡ 3) ⊎ ((bit w 31 ≡ 0) × (32 ≤ bits w 10 6)) → decode_addsub_shifted w out ≡ out
  unfolding decode_addsub_shifted
  addsub_shifted-rejects k = ground (arith, bits-lt w 10 6, bit_five (bits w 10 6))

  pub addsub_shifted-Returns :
      w < 2 ^ 32 → w / 2 ^ 24 % 32 ≡ 0b01011 → bit w 21 ≡ 0 → Returns (decode_addsub_shifted w out)
  addsub_shifted-Returns h e h21 = ground (
    arith,
    bit-cases w 31,
    bits-lt w 22 2,
    addsub_shifted-rejects,
    encode-addsub_shifted (decode_addsub_shifted w out) (bit w 31) (bit w 30) (bit w 29),
    addsub_shifted-code w out,
    enc-decode_addsub_shifted w out h e h21,
  )

  addsub_extended-rejects :
      (0 < bits w 22 2) ⊎ (4 < bits w 10 3) → decode_addsub_extended w out ≡ out
  unfolding decode_addsub_extended
  addsub_extended-rejects k = ground arith

  pub addsub_extended-Returns :
      w < 2 ^ 32 → w / 2 ^ 24 % 32 ≡ 0b01011 → bit w 21 ≡ 1 → Returns (decode_addsub_extended w out)
  addsub_extended-Returns h e h21 = ground (
    arith,
    addsub_extended-rejects,
    encode-addsub_extended (decode_addsub_extended w out) (bit w 31) (bit w 30) (bit w 29),
    addsub_extended-code w out,
    enc-decode_addsub_extended w out h e h21,
  )

  addsub_carry-code :
      bits w 10 6 ≡ 0
      → (decode_addsub_carry w out).code ≡ addsub_carry_code (bit w 31) (bit w 30) (bit w 29)
  unfolding decode_addsub_carry set set_alias push_operand
  addsub_carry-code h10 = ground arith

  pub addsub_carry-Returns :
      w < 2 ^ 32
      → w / 2 ^ 21 % 256 ≡ 0b11010000
      → bits w 10 6 ≡ 0
      → Returns (decode_addsub_carry w out)
  addsub_carry-Returns h e h10 = ground (
    arith,
    encode-addsub_carry (decode_addsub_carry w out) (bit w 31) (bit w 30) (bit w 29),
    addsub_carry-code,
    enc-decode_addsub_carry w out h e h10,
  )

  addsub_pt-cases :
      (features : FeatureSet)
      → (decode_addsub_pt w features out ≡ out)
        ⊎ ((encode (decode_addsub_pt w features out)
              ≡ enc_addsub_pt (decode_addsub_pt w features out))
            × (has features Feature.cpa ≡ true)
            × (bit w 31 ≡ 1)
            × (bit w 29 ≡ 0))
  unfolding decode_addsub_pt set push_operand encode
  addsub_pt-cases features = ground (arith, bit-cases w 31, bit-cases w 29, bit-cases w 30)

  pub addsub_pt-Returns :
      (features : FeatureSet)
      → w < 2 ^ 32
      → w / 2 ^ 21 % 256 ≡ 0b11010000
      → bits w 13 3 ≡ 1
      → Returns (decode_addsub_pt w features out)
  addsub_pt-Returns features h e h13 =
      ground (arith, addsub_pt-cases features, enc-decode_addsub_pt w features out h e)

  rmif-cases :
      (decode_rmif w out ≡ out)
      ⊎ ((encode (decode_rmif w out) ≡ enc_rmif (decode_rmif w out))
          × (bit w 31 ≡ 1)
          × (bit w 30 ≡ 0)
          × (bit w 29 ≡ 1)
          × (bit w 4 ≡ 0))
  unfolding decode_rmif set push_operand encode
  rmif-cases = ground arith

  pub rmif-Returns :
      w < 2 ^ 32 → w / 2 ^ 21 % 256 ≡ 0b11010000 → w / 2 ^ 10 % 32 ≡ 1 → Returns (decode_rmif w out)
  rmif-Returns h e h10 = ground (arith, rmif-cases, enc-decode_rmif w out h e)

  setf-cases :
      (decode_setf w out ≡ out)
      ⊎ ((encode (decode_setf w out) ≡ enc_setf (decode_setf w out))
          × (bit w 31 ≡ 0)
          × (bit w 30 ≡ 0)
          × (bit w 29 ≡ 1)
          × (bits w 15 6 ≡ 0)
          × (bit w 4 ≡ 0)
          × (bits w 0 4 ≡ 0b1101))
  unfolding decode_setf set push_operand encode
  setf-cases = ground arith

  pub setf-Returns :
      w < 2 ^ 32 → w / 2 ^ 21 % 256 ≡ 0b11010000 → w / 2 ^ 10 % 16 ≡ 2 → Returns (decode_setf w out)
  setf-Returns h e h10 = ground (arith, setf-cases, enc-decode_setf w out h e)

  cond_compare-cases :
      (decode_cond_compare w out ≡ out)
      ⊎ (((decode_cond_compare w out).code ≡ cond_compare_code (bit w 30) (bit w 11) (bit w 31))
          × (bit w 29 ≡ 1)
          × (bit w 10 ≡ 0)
          × (bit w 4 ≡ 0))
  unfolding decode_cond_compare set push_operand
  cond_compare-cases = ground arith

  pub cond_compare-Returns :
      w < 2 ^ 32 → w / 2 ^ 21 % 256 ≡ 0b11010010 → Returns (decode_cond_compare w out)
  cond_compare-Returns h e = ground (
    arith,
    cond_compare-cases,
    encode-cond_compare (decode_cond_compare w out) (bit w 30) (bit w 11) (bit w 31),
    enc-decode_cond_compare w out h e,
  )

  cond_select-rejects : (bit w 29 ≡ 1) ⊎ (bit w 11 ≡ 1) → decode_cond_select w out ≡ out
  unfolding decode_cond_select
  cond_select-rejects k = ground arith

  pub cond_select-Returns :
      w < 2 ^ 32 → w / 2 ^ 21 % 256 ≡ 0b11010100 → Returns (decode_cond_select w out)
  cond_select-Returns h e = ground (
    arith,
    bit-cases w 29,
    bit-cases w 11,
    cond_select-rejects,
    encode-cond_select (decode_cond_select w out) (bit w 31) (bit w 30) (bit w 10),
    cond_select-code w out,
    enc-decode_cond_select w out h e,
  )
