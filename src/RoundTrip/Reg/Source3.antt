-- ===== src/RoundTrip/Reg/Source3.antt =====
-- Data-processing with three sources: decoded and encoded again.
use f_arm.Base.{ℕ, ◌/◌, ◌%◌, ◌^◌, ◌<◌, ◌≡◌, ◌⊎◌, ◌==◌, ◌||◌, arith, false}
use f_arm.Base.{if◌then◌else◌, none}
use f_arm.Decode.Bits.{bit, bits}
use f_arm.Decode.Bits.Laws.{bit-cases}
use f_arm.Decode.DpImm.Bitfield.{reg, width_of}
use f_arm.Decode.DpReg.Source3.{Dp3Kind, dp_3source_code, push_dp_3source, decode_dp_3source}
use f_arm.Encode.DpImm.Fields.{reg_num}
use f_arm.Encode.DpReg.{encode}
use f_arm.Encode.DpReg.Sources.{
  dp_3source_sf, dp_3source_fields, recover_by_mnemonic, recover_dp_3source, enc_dp_3source,
}
use f_arm.Encode.Error.{ok}
use f_arm.Instruction.{Instruction, set, set_alias, push_operand, op}
use f_arm.Mnemonic.{Code}
use f_arm.Register.{RegWidth}
use f_arm.RoundTrip.Reads.{bits-lt, number-field}
use f_arm.RoundTrip.Reg.Sources.{dp_3source_packed, with_ra}

-- The accumulator field that the encoder gives: the high multiplications have none.
unfoldable pub accumulator : ℕ → ℕ
accumulator w = if bits w 21 3 == 0b010 || bits w 21 3 == 0b110 then 31 else bits w 10 5

module _ (w : ℕ) (out : Instruction) (h29 : bits w 29 2 ≡ 0) where
  -- The word has no row in the match, and is left alone.
  abbrev Unallocated : Type 0
  Unallocated =
      (dp_3source_code (bit w 31) (bits w 21 3) (bit w 15) ≡ none) × (decode_dp_3source w out ≡ out)

  dp_3source-fields :
      Unallocated
      ⊎ ((dp_3source_sf (decode_dp_3source w out).code ≡ bit w 31)
          × (dp_3source_fields (decode_dp_3source w out).code ≡ (bits w 21 3, bit w 15)))
  unfolding decode_dp_3source push_dp_3source dp_3source_code set set_alias push_operand
      dp_3source_sf dp_3source_fields
  dp_3source-fields = ground (arith, bit-cases w 31, bit-cases w 15, bits-lt w 21 3)

  push_madd_sub-reads :
      (c : Code)
      → (c ≡ Code.madd32) ⊎ (c ≡ Code.madd64) ⊎ (c ≡ Code.msub32) ⊎ (c ≡ Code.msub64)
      → recover_dp_3source (push_dp_3source Dp3Kind.madd_sub w (set out c))
        ≡ ok (bits w 0 5, bits w 5 5, bits w 16 5, bits w 10 5)
  unfolding push_dp_3source recover_dp_3source recover_by_mnemonic reg_num set set_alias
      push_operand op reg
  push_madd_sub-reads c hc = ground (
    arith,
    number-field w 16 false (width_of (bit w 31)),
    number-field w 5 false (width_of (bit w 31)),
    number-field w 0 false (width_of (bit w 31)),
    number-field w 10 false (width_of (bit w 31)),
  )

  push_widen_madd_sub-reads :
      (c : Code)
      → (c ≡ Code.smaddl) ⊎ (c ≡ Code.smsubl) ⊎ (c ≡ Code.umaddl) ⊎ (c ≡ Code.umsubl)
      → recover_dp_3source (push_dp_3source Dp3Kind.widen_madd_sub w (set out c))
        ≡ ok (bits w 0 5, bits w 5 5, bits w 16 5, bits w 10 5)
  unfolding push_dp_3source recover_dp_3source recover_by_mnemonic reg_num set set_alias
      push_operand op reg
  push_widen_madd_sub-reads c hc = ground (
    arith,
    number-field w 16 false RegWidth.w32,
    number-field w 5 false RegWidth.w32,
    number-field w 0 false RegWidth.x64,
    number-field w 10 false RegWidth.x64,
  )

  push_pt_madd_sub-reads :
      (c : Code)
      → (c ≡ Code.maddpt) ⊎ (c ≡ Code.msubpt)
      → recover_dp_3source (push_dp_3source Dp3Kind.pt_madd_sub w (set out c))
        ≡ ok (bits w 0 5, bits w 5 5, bits w 16 5, bits w 10 5)
  unfolding push_dp_3source recover_dp_3source recover_by_mnemonic reg_num set set_alias
      push_operand op reg
  push_pt_madd_sub-reads c hc = ground (
    arith,
    number-field w 16 false RegWidth.x64,
    number-field w 5 false RegWidth.x64,
    number-field w 0 false RegWidth.x64,
    number-field w 10 false RegWidth.x64,
  )

  push_high_mul-reads :
      (c : Code)
      → (c ≡ Code.smulh) ⊎ (c ≡ Code.umulh)
      → recover_dp_3source (push_dp_3source Dp3Kind.high_mul w (set out c))
        ≡ ok (bits w 0 5, bits w 5 5, bits w 16 5, 31)
  unfolding push_dp_3source recover_dp_3source recover_by_mnemonic reg_num set set_alias
      push_operand op reg
  push_high_mul-reads c hc = ground (
    arith,
    number-field w 16 false RegWidth.x64,
    number-field w 5 false RegWidth.x64,
    number-field w 0 false RegWidth.x64,
  )

  dp_3source-reads :
      Unallocated
      ⊎ (recover_dp_3source (decode_dp_3source w out)
          ≡ ok (bits w 0 5, bits w 5 5, bits w 16 5, accumulator w))
  unfolding decode_dp_3source dp_3source_code accumulator
  dp_3source-reads = ground (
    arith,
    bit-cases w 31,
    bit-cases w 15,
    bits-lt w 21 3,
    push_madd_sub-reads Code.madd32,
    push_madd_sub-reads Code.madd64,
    push_madd_sub-reads Code.msub32,
    push_madd_sub-reads Code.msub64,
    push_widen_madd_sub-reads Code.smaddl,
    push_widen_madd_sub-reads Code.smsubl,
    push_widen_madd_sub-reads Code.umaddl,
    push_widen_madd_sub-reads Code.umsubl,
    push_pt_madd_sub-reads Code.maddpt,
    push_pt_madd_sub-reads Code.msubpt,
    push_high_mul-reads Code.smulh,
    push_high_mul-reads Code.umulh,
  )

  encode-dp_3source :
      Unallocated ⊎ (encode (decode_dp_3source w out) ≡ enc_dp_3source (decode_dp_3source w out))
  unfolding decode_dp_3source push_dp_3source dp_3source_code set set_alias push_operand encode
  encode-dp_3source = ground (arith, bit-cases w 31, bit-cases w 15, bits-lt w 21 3)

pub decode_dp_3source-rejects :
    (w : ℕ) (out : Instruction) → 0 < bits w 29 2 → decode_dp_3source w out ≡ out
unfolding decode_dp_3source
decode_dp_3source-rejects w out h29 = ground arith

accumulator-lt : (w : ℕ) → accumulator w < 32
unfolding accumulator
accumulator-lt w = ground (arith, bits-lt w 10 5)

-- A word of the three-source class either has no row in the match on its operation fields, and is
-- left alone by the decoder, or comes back from the encoder, through the `MUL`, `MNEG`, `SMULL`, `SMNEGL`, `UMULL` and `UMNEGL` aliases too, but
-- for the accumulator field of the high multiplications, which comes back as 31.
pub encode-decode_dp_3source :
    (w : ℕ) (out : Instruction)
    → w < 2 ^ 32
    → w / 2 ^ 24 % 32 ≡ 0b11011
    → bits w 29 2 ≡ 0
    → ((dp_3source_code (bit w 31) (bits w 21 3) (bit w 15) ≡ none)
        × (decode_dp_3source w out ≡ out))
      ⊎ (encode (decode_dp_3source w out) ≡ ok (with_ra w (accumulator w)))
unfolding enc_dp_3source
encode-decode_dp_3source w out h e h29 = ground (
  arith,
  encode-dp_3source w out h29,
  dp_3source-fields w out h29,
  dp_3source-reads w out h29,
  dp_3source_packed w (accumulator w) h (accumulator-lt w) e h29,
)
