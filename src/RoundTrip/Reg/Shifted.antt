-- ===== src/RoundTrip/Reg/Shifted.antt =====
-- Logical, add and subtract with a shifted or an extended register: decoded and encoded again.
use f_arm.RoundTrip.Arms.{mov-arm, mvn-arm, tst-arm}
use f_arm.Encode.Arms.{is_mov, is_mvn, is_tst}
use f_arm.Mnemonic.Names.{mnemonic}
use f_arm.Base.{ℕ, ◌/◌, ◌%◌, ◌^◌, ◌<◌, ◌≡◌, ◌⊎◌, ◌==◌, arith, false}
use f_arm.Decode.Bits.{bit, bits}
use f_arm.Decode.Bits.Laws.{bit-cases}
use f_arm.Decode.DpImm.Bitfield.{reg, width_of}
use f_arm.Decode.DpReg.Shifted.{
  logical_shifted_code, decode_logical_shifted, addsub_shifted_code, decode_addsub_shifted,
  reg_shifted,
}
use f_arm.Encode.DpImm.Fields.{reg_num}
use f_arm.Encode.DpReg.Fields.{is_64, recover_shift, reg_with_shift}
use f_arm.Encode.DpReg.Shifted.{
  logical_shifted_fields, enc_logical_shifted, recover_logical_shifted, addsub_shifted_fields,
  enc_addsub_shifted, recover_addsub_shifted,
}
use f_arm.Encode.Error.{ok}
use f_arm.Instruction.{Instruction, set, set_alias, push_operand, op}
use f_arm.RoundTrip.Bitfield.{bit_five}
use f_arm.RoundTrip.Reads.{bit-lt, bits-lt, number-field}
use f_arm.RoundTrip.Reg.Operands.{shift_fields-folded_shift, is_lsl-cases}
use f_arm.RoundTrip.Reg.Shapes.{logical_shifted_packed, addsub_shifted_packed}

logical_shifted_code_fields :
    (sf opc n : ℕ)
    → sf < 2
    → opc < 4
    → n < 2
    → (is_64 (logical_shifted_code sf opc n) ≡ (sf == 1))
      × (logical_shifted_fields (logical_shifted_code sf opc n) ≡ (opc, n))
unfolding logical_shifted_code is_64 logical_shifted_fields
logical_shifted_code_fields sf opc n h0 h1 h2 = ground arith

logical_shifted_code-arm :
    (sf opc n : ℕ)
    → (is_mov (mnemonic (logical_shifted_code sf opc n)) ≡ false)
      × (is_mvn (mnemonic (logical_shifted_code sf opc n)) ≡ false)
      × (is_tst (mnemonic (logical_shifted_code sf opc n)) ≡ false)
unfolding logical_shifted_code is_mov is_mvn is_tst mnemonic
logical_shifted_code-arm sf opc n = ground arith

module _ (w : ℕ) (out : Instruction) (hs : (bit w 31 ≡ 1) ⊎ (bits w 10 6 < 32)) where
  pub logical_shifted-code :
      (decode_logical_shifted w out).code ≡ logical_shifted_code (bit w 31) (bits w 29 2) (bit w 21)
  unfolding decode_logical_shifted set set_alias push_operand
  logical_shifted-code = ground (arith, bits-lt w 10 6, bit_five (bits w 10 6))

  logical_shifted-reads :
      recover_logical_shifted (decode_logical_shifted w out) (bit w 31)
      ≡ ok (bits w 0 5, bits w 5 5, bits w 16 5, bits w 22 2, bits w 10 6)
  unfolding decode_logical_shifted recover_logical_shifted recover_shift reg_num reg_with_shift set
      set_alias push_operand op reg reg_shifted
  logical_shifted-reads = ground (
    arith,
    logical_shifted_code-arm (bit w 31) (bits w 29 2) (bit w 21),
    mov-arm,
    mvn-arm,
    tst-arm,
    bit-cases w 31,
    bit-cases w 21,
    bits-lt w 29 2,
    bits-lt w 22 2,
    bits-lt w 10 6,
    bit_five (bits w 10 6),
    number-field w 16 false (width_of (bit w 31)),
    number-field w 5 false (width_of (bit w 31)),
    number-field w 0 false (width_of (bit w 31)),
    is_lsl-cases (bits w 22 2),
    shift_fields-folded_shift (bits w 22 2) (bits w 10 6) (bit w 31),
  )

-- An allocated word of the shifted-register logical class comes back from the encoder, through
-- the `MOV`, `MVN` and `TST` aliases too.
pub enc-decode_logical_shifted :
    (w : ℕ) (out : Instruction)
    → w < 2 ^ 32
    → w / 2 ^ 24 % 32 ≡ 0b01010
    → (bit w 31 ≡ 1) ⊎ (bits w 10 6 < 32)
    → enc_logical_shifted (decode_logical_shifted w out) ≡ ok w
unfolding enc_logical_shifted
enc-decode_logical_shifted w out h e hs = ground (
  arith,
  bit-cases w 31,
  bit-lt w 21,
  bits-lt w 29 2,
  logical_shifted-code w out hs,
  logical_shifted-reads w out hs,
  logical_shifted_code_fields (bit w 31) (bits w 29 2) (bit w 21),
  logical_shifted_packed w h e,
)

addsub_shifted_code_fields :
    (sf op s : ℕ)
    → sf < 2
    → op < 2
    → s < 2
    → (is_64 (addsub_shifted_code sf op s) ≡ (sf == 1))
      × (addsub_shifted_fields (addsub_shifted_code sf op s) ≡ (op, s))
unfolding addsub_shifted_code is_64 addsub_shifted_fields
addsub_shifted_code_fields sf op s h0 h1 h2 = ground arith

module _ (w : ℕ) (out : Instruction) (h22 : bits w 22 2 < 3)
    (hs : (bit w 31 ≡ 1) ⊎ (bits w 10 6 < 32)) where
  pub addsub_shifted-code :
      (decode_addsub_shifted w out).code ≡ addsub_shifted_code (bit w 31) (bit w 30) (bit w 29)
  unfolding decode_addsub_shifted set set_alias push_operand
  addsub_shifted-code = ground (arith, bits-lt w 10 6, bit_five (bits w 10 6))

  addsub_shifted-reads :
      recover_addsub_shifted (decode_addsub_shifted w out) (bit w 31)
      ≡ ok (bits w 0 5, bits w 5 5, bits w 16 5, bits w 22 2, bits w 10 6)
  unfolding decode_addsub_shifted recover_addsub_shifted recover_shift reg_num reg_with_shift set
      set_alias push_operand op reg reg_shifted addsub_shifted_code
  addsub_shifted-reads = ground (
    arith,
    bit-cases w 31,
    bit-cases w 30,
    bit-cases w 29,
    bits-lt w 10 6,
    bit_five (bits w 10 6),
    number-field w 16 false (width_of (bit w 31)),
    number-field w 5 false (width_of (bit w 31)),
    number-field w 0 false (width_of (bit w 31)),
    shift_fields-folded_shift (bits w 22 2) (bits w 10 6) (bit w 31),
  )

-- An allocated word of the shifted-register add and subtract class comes back from the encoder,
-- through the `CMP`, `CMN`, `NEG` and `NEGS` aliases too.
pub enc-decode_addsub_shifted :
    (w : ℕ) (out : Instruction)
    → w < 2 ^ 32
    → w / 2 ^ 24 % 32 ≡ 0b01011
    → bit w 21 ≡ 0
    → bits w 22 2 < 3
    → (bit w 31 ≡ 1) ⊎ (bits w 10 6 < 32)
    → enc_addsub_shifted (decode_addsub_shifted w out) ≡ ok w
unfolding enc_addsub_shifted
enc-decode_addsub_shifted w out h e h21 h22 hs = ground (
  arith,
  bit-cases w 31,
  bit-lt w 30,
  bit-lt w 29,
  addsub_shifted-code w out h22 hs,
  addsub_shifted-reads w out h22 hs,
  addsub_shifted_code_fields (bit w 31) (bit w 30) (bit w 29),
  addsub_shifted_packed w h e h21,
)
