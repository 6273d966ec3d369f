-- ===== src/RoundTrip/Branch/Exception.antt =====
-- Exception generation and `UDF`: decoded and encoded again.
use f_arm.Base.{
  ℕ, ◌+◌, ◌*◌, ◌/◌, ◌%◌, ◌^◌, ◌<◌, ◌≡◌, ◌⊎◌, ◌∙◌, arith, true, false, ap, ap₂, bit_and, bit_or,
}
use f_arm.Base.Bits.{
  bit_and_mask, bit_and_split, bit_and-zero, bit_and_high, bit_or_split, bit_or-zero, zero-bit_or,
}
use f_arm.Decode.Bits.{bits}
use f_arm.Decode.BranchSys.Exception.{decode_exception, decode_tenter, push_optional_imm}
use f_arm.Encode.BranchSys.Exception.{
  exception_fields, is_dcps, is_tenter, recover_exception_imm, enc_exception,
}
use f_arm.Encode.Error.{ok}
use f_arm.Features.{FeatureSet}
use f_arm.Instruction.{Instruction, set, push_operand, op, ◌▸◌}
use f_arm.Mnemonic.{Code}
use f_arm.Operand.{Operand}
use f_arm.RoundTrip.Branch.Shapes.{exception_packed}
use f_arm.RoundTrip.Reads.{bits-lt}

-- The bits of the immediate of `TENTER` that are not reserved, and the mask that reads them.
tenter_imm :
    (n : ℕ)
    → n < 2 ^ 16
    → bit_and n 0xef80 ≡ 0
    → (bit_and n 0x7f ≡ n % 128)
      × (bit_and n 0x1000 ≡ n / 4096 % 2 * 4096)
      × (n ≡ n / 4096 % 2 * 4096 + n % 128)
tenter_imm n h e =
    let s7 : bit_and n 0xef80 ≡ bit_and (n / 128) 0x1df * 128 =
      ap (λ t. bit_and t 0xef80) (omega arith)
      ∙ bit_and_split 7 (n / 128) (n % 128) 0x1df 0 (omega arith) (omega arith)
      ∙ omega (arith, bit_and-zero (n % 128)) in
    let s5 : bit_and (n / 128) 0x1df ≡ bit_and (n / 4096) 0xe * 32 + n / 128 % 32 =
      ap (λ t. bit_and t 0x1df) (omega arith)
      ∙ bit_and_split 5 (n / 4096) (n / 128 % 32) 0xe 31 (omega arith) (omega arith)
      ∙ omega (arith, bit_and_mask 5 (n / 128 % 32)) in
    let s1 : bit_and (n / 4096) 0xe ≡ n / 8192 * 2 =
      bit_and_high 1 3 (n / 4096) (omega arith) ∙ omega arith in
    let s12 : bit_and n 0x1000 ≡ n / 4096 % 2 * 4096 =
      ap (λ t. bit_and t 0x1000) (omega arith)
      ∙ bit_and_split 12 (n / 4096) (n % 4096) 1 0 (omega arith) (omega arith)
      ∙ omega (arith, bit_and-zero (n % 4096), bit_and_mask 1 (n / 4096)) in
    (bit_and_mask 7 n, s12, omega (arith, e, s7, s5, s1))

-- The two parts that the encoder joins.
tenter_joined : (m b : ℕ) → m < 128 → b < 2 → bit_or m (b * 4096) ≡ b * 4096 + m
tenter_joined m b h k =
    ap₂ (λ (s t : ℕ). bit_or s t) (omega arith) (omega arith)
    ∙ bit_or_split 7 0 m (b * 32) 0 h (omega arith)
    ∙ omega (arith, bit_or-zero m, zero-bit_or (b * 32))

module _ (w : ℕ) (out : Instruction) (h : w < 2 ^ 32) (e : w / 2 ^ 24 % 256 ≡ 0b11010100)
    (h2 : bits w 2 3 ≡ 0) where
  abbrev Returns : Instruction → Type 0
  Returns insn = (insn ≡ out) ⊎ (enc_exception insn ≡ ok w)

  tenter-Returns : bits w 21 3 ≡ 0b111 → bits w 0 2 ≡ 0 → Returns (decode_tenter (bits w 5 16) out)
  unfolding decode_tenter enc_exception exception_fields is_dcps is_tenter recover_exception_imm set
      push_operand op
  tenter-Returns h21 h0 = ground (
    arith,
    bits-lt w 5 16,
    tenter_imm (bits w 5 16),
    bit_and_mask 7 (bits w 5 16 % 128),
    tenter_joined (bits w 5 16 % 128) 0,
    tenter_joined (bits w 5 16 % 128) 1,
    exception_packed w h e h2,
  )

  imm-Returns :
      (c : Code)
      → exception_fields c ≡ (bits w 21 3, bits w 0 2)
      → is_dcps c ≡ false
      → is_tenter c ≡ false
      → enc_exception (set out c ▸ Operand.imm_unsigned (bits w 5 16)) ≡ ok w
  unfolding enc_exception recover_exception_imm set push_operand op
  imm-Returns c f d t = ground (arith, bits-lt w 5 16, exception_packed w h e h2)

  optional-Returns :
      (c : Code)
      → exception_fields c ≡ (bits w 21 3, bits w 0 2)
      → is_dcps c ≡ true
      → is_tenter c ≡ false
      → enc_exception (push_optional_imm (bits w 5 16) (set out c)) ≡ ok w
  unfolding enc_exception recover_exception_imm push_optional_imm set push_operand op
  optional-Returns c f d t = ground (arith, bits-lt w 5 16, exception_packed w h e h2)

-- An exception-generating word is left alone or comes back from the encoder, the immediate that
-- `DCPS` leaves out and the modifier of `TENTER` included.
pub enc-decode_exception :
    (w : ℕ) (features : FeatureSet) (out : Instruction)
    → w < 2 ^ 32
    → w / 2 ^ 24 % 256 ≡ 0b11010100
    → (decode_exception w features out ≡ out)
      ⊎ (enc_exception (decode_exception w features out) ≡ ok w)
unfolding decode_exception exception_fields is_dcps is_tenter
enc-decode_exception w features out h e = ground (
  arith,
  tenter-Returns w out h e,
  λ (h2 : bits w 2 3 ≡ 0). imm-Returns w out h e h2 Code.svc,
  λ (h2 : bits w 2 3 ≡ 0). imm-Returns w out h e h2 Code.hvc,
  λ (h2 : bits w 2 3 ≡ 0). imm-Returns w out h e h2 Code.smc,
  λ (h2 : bits w 2 3 ≡ 0). imm-Returns w out h e h2 Code.brk,
  λ (h2 : bits w 2 3 ≡ 0). imm-Returns w out h e h2 Code.hlt,
  λ (h2 : bits w 2 3 ≡ 0). imm-Returns w out h e h2 Code.tcancel,
  λ (h2 : bits w 2 3 ≡ 0). optional-Returns w out h e h2 Code.dcps1,
  λ (h2 : bits w 2 3 ≡ 0). optional-Returns w out h e h2 Code.dcps2,
  λ (h2 : bits w 2 3 ≡ 0). optional-Returns w out h e h2 Code.dcps3,
)
