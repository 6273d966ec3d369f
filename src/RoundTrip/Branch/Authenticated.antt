-- ===== src/RoundTrip/Branch/Authenticated.antt =====
-- The returns and authentications relative to the program counter: decoded and encoded again.
use f_arm.Base.{
  ℕ, ◌+◌, ◌*◌, ◌/◌, ◌%◌, ◌^◌, ◌<◌, ◌≡◌, ◌⊎◌, ◌∙◌, arith, refl, ap, bit_and, bit_or, wrapping_sub,
  shl64, shl32, shr, ◌or◌,
}
use f_arm.Base.Bits.{
  bit_and_mask, bit_or_add, bit_or_split, bit_or-zero, bit_and_high, bit_and_split,
}
use f_arm.Decode.Bits.{bits}
use f_arm.Decode.Bits.Laws.{bit-cases, bit_lem, bits_lem}
use f_arm.Decode.BranchSys.Immediate.{decode_ret_sppc, decode_auti_sppc}
use f_arm.Encode.BranchSys.Immediate.{sppc_fields, enc_pauth_lr_sppc}
use f_arm.Encode.Error.{ok}
use f_arm.Features.{FeatureSet}
use f_arm.Instruction.{Instruction, set, push_operand, op}

-- The five set bits at the end of the word stay below the other fields.
or_above : (a b c : ℕ) → b ≡ c * 2 ^ 5 → bit_or (a * 2 ^ 5 + 31) b ≡ bit_or a c * 2 ^ 5 + 31
or_above a b c e =
    ap (bit_or (a * 2 ^ 5 + 31)) (omega (arith, e))
    ∙ bit_or_split 5 a 31 c 0 (omega arith) (omega arith)
    ∙ omega (arith, bit_or-zero 31)

-- The fixed bits of the four forms stand at both ends of the word.
sppc_sum :
    (base m imm16 : ℕ)
    → base % 2 ^ 22 ≡ 31
    → m < 2
    → imm16 < 2 ^ 16
    → (base or shl32 m 21 or shl32 imm16 5) ≡ base + m * 2 ^ 21 + imm16 * 2 ^ 5
sppc_sum base m imm16 e h k =
    let top : ℕ = base / 2 ^ 22 in
    let key : bit_or base (shl32 m 21) ≡ (top * 2 + m) * 2 ^ 16 * 2 ^ 5 + 31 =
      ap (λ t. bit_or t (shl32 m 21)) (omega (arith, e))
      ∙ or_above (top * 2 ^ 17) (shl32 m 21) (m * 2 ^ 16) (omega arith)
      ∙ omega (arith, bit_or_add 17 top (m * 2 ^ 16) (omega arith)) in
    ap (λ t. bit_or t (shl32 imm16 5)) key
    ∙ or_above ((top * 2 + m) * 2 ^ 16) (shl32 imm16 5) imm16 (omega arith)
    ∙ omega (arith, e, bit_or_add 16 (top * 2 + m) imm16 k)

-- The distance from a label behind back to the field.
sppc_distance :
    (ip imm16 : ℕ)
    → ip < 2 ^ 64
    → imm16 < 2 ^ 16
    → (wrapping_sub ip (wrapping_sub ip (shl64 imm16 2)) ≡ imm16 * 4)
      × (bit_and (imm16 * 4) 0b11 ≡ 0)
      × (shr (imm16 * 4) 2 ≡ imm16)
sppc_distance ip imm16 h k = (omega arith, bit_and_mask 2 (imm16 * 4) ∙ omega arith, omega arith)

-- A `RETAASPPC` or `RETABSPPC` slot at a 64-bit address is left alone, or comes back from the
-- encoder.
pub enc-decode_ret_sppc :
    (w : ℕ) (features : FeatureSet) (out : Instruction)
    → w < 2 ^ 32
    → w / 2 ^ 24 % 256 ≡ 0b01010101
    → out.ip < 2 ^ 64
    → (decode_ret_sppc w features out ≡ out)
      ⊎ (enc_pauth_lr_sppc (decode_ret_sppc w features out) ≡ ok w)
unfolding decode_ret_sppc enc_pauth_lr_sppc set push_operand op sppc_fields
enc-decode_ret_sppc w features out h e hip = ground (
  arith,
  bit-cases w 21,
  bit_lem w 21,
  bits_lem w 22 2 (omega arith) (omega arith),
  bits_lem w 0 5 (omega arith) (omega arith),
  bits_lem w 5 16 (omega arith) (omega arith),
  sppc_distance out.ip (bits w 5 16) hip,
  sppc_sum 0x5500_001f 0 (bits w 5 16) refl,
  sppc_sum 0x5500_001f 1 (bits w 5 16) refl,
)

-- The mask reads the two ends of the word.
pub auti_bits :
    (w : ℕ)
    → w < 2 ^ 32
    → bit_and w 0xffc0_001f ≡ 0xf380_001f
    → (w / 2 ^ 22 ≡ 0b11_1100_1110) × (w % 32 ≡ 31)
auti_bits w h e =
    let split : bit_and w 0xffc0_001f
        ≡ bit_and (w / 2 ^ 22 * 2 ^ 17 + w / 32 % 2 ^ 17) (1023 * 2 ^ 17) * 32
          + bit_and (w % 32) 31 =
      ap (λ t. bit_and t 0xffc0_001f) (omega arith)
      ∙ bit_and_split 5 (w / 2 ^ 22 * 2 ^ 17 + w / 32 % 2 ^ 17) (w % 32) (1023 * 2 ^ 17) 31
          (omega arith) (omega arith) in
    omega (
      arith,
      e,
      split,
      bit_and_high 17 10 (w / 2 ^ 22 * 2 ^ 17 + w / 32 % 2 ^ 17) (omega arith),
      bit_and_mask 5 (w % 32),
    )

-- An `AUTIASPPC` or `AUTIBSPPC` word at a 64-bit address comes back from the encoder of the branch
-- group.
pub enc-decode_auti_sppc :
    (w : ℕ) (out : Instruction)
    → w < 2 ^ 32
    → bit_and w 0xffc0_001f ≡ 0xf380_001f
    → out.ip < 2 ^ 64
    → enc_pauth_lr_sppc (decode_auti_sppc w out) ≡ ok w
unfolding decode_auti_sppc enc_pauth_lr_sppc set push_operand op sppc_fields
enc-decode_auti_sppc w out h e hip = ground (
  arith,
  bit-cases w 21,
  bit_lem w 21,
  bits_lem w 5 16 (omega arith) (omega arith),
  auti_bits w h e,
  sppc_distance out.ip (bits w 5 16) hip,
  sppc_sum 0xf380_001f 0 (bits w 5 16) refl,
  sppc_sum 0xf380_001f 1 (bits w 5 16) refl,
)
