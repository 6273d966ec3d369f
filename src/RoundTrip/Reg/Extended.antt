-- ===== src/RoundTrip/Reg/Extended.antt =====
-- Add and subtract with an extended register: decoded and encoded again.
use f_arm.RoundTrip.Arms.{cmp-arm, cmn-arm}
use f_arm.Base.{ℕ, ◌/◌, ◌%◌, ◌^◌, ◌<◌, ◌≡◌, ◌==◌, arith, true, false}
use f_arm.Base.{Bool, ◌&&◌, ◌||◌, if◌then◌else◌, bit_and}
use f_arm.Decode.Bits.{bit, bits}
use f_arm.Decode.Bits.Laws.{bit-cases}
use f_arm.Decode.DpImm.Bitfield.{reg, width_of}
use f_arm.Decode.DpReg.Shifted.{addsub_extended_code, decode_addsub_extended}
use f_arm.Decode.DpReg.Shifted.{build_extended_rm}
use f_arm.Encode.Arms.{is_compare}
use f_arm.Encode.DpImm.Fields.{reg_num}
use f_arm.Encode.DpReg.Fields.{is_64, recover_extended_rm}
use f_arm.Encode.DpReg.Shifted.{
  addsub_extended_fields, enc_addsub_extended, recover_addsub_extended,
}
use f_arm.Encode.Error.{ok}
use f_arm.Instruction.{Instruction, set, set_alias, push_operand, op}
use f_arm.Mnemonic.Names.{mnemonic}
use f_arm.Register.{RegWidth}
use f_arm.RoundTrip.Reads.{bit-lt, bits-lt, number-field}
use f_arm.RoundTrip.Reg.Operands.{extended_decorations-fields}
use f_arm.RoundTrip.Reg.Shapes.{addsub_extended_packed}

addsub_extended_code_fields :
    (sf op s : ℕ)
    → sf < 2
    → op < 2
    → s < 2
    → (is_64 (addsub_extended_code sf op s) ≡ (sf == 1))
      × (addsub_extended_fields (addsub_extended_code sf op s) ≡ (op, s))
unfolding addsub_extended_code is_64 addsub_extended_fields
addsub_extended_code_fields sf op s h0 h1 h2 = ground arith

addsub_extended_code-arm :
    (sf op s : ℕ) → is_compare (mnemonic (addsub_extended_code sf op s)) ≡ false
unfolding addsub_extended_code is_compare mnemonic
addsub_extended_code-arm sf op s = ground arith

module _ (w : ℕ) (out : Instruction) (h22 : bits w 22 2 ≡ 0) (h10 : bits w 10 3 < 5) where
  pub addsub_extended-code :
      (decode_addsub_extended w out).code ≡ addsub_extended_code (bit w 31) (bit w 30) (bit w 29)
  unfolding decode_addsub_extended set set_alias push_operand
  addsub_extended-code = ground arith

  abbrev default_option : ℕ
  default_option = if bit w 31 == 1 then 3 else 2

  abbrev rm_width : RegWidth
  rm_width = if bit w 31 == 1 && bit_and (bits w 13 3) 3 == 3 then RegWidth.x64 else RegWidth.w32

  abbrev sp_involved : Bool
  sp_involved =
      if bit w 29 == 1 && bits w 0 5 == 31
      then bits w 5 5 == 31
      else (bits w 0 5 == 31 || bits w 5 5 == 31)

  addsub_extended-reads :
      recover_addsub_extended (decode_addsub_extended w out) default_option
      ≡ ok (bits w 0 5, bits w 5 5, bits w 16 5, bits w 13 3, bits w 10 3)
  unfolding decode_addsub_extended recover_addsub_extended recover_extended_rm reg_num set set_alias
      push_operand op reg build_extended_rm
  addsub_extended-reads = ground (
    arith,
    addsub_extended_code-arm (bit w 31) (bit w 30) (bit w 29),
    cmp-arm,
    cmn-arm,
    bit-cases w 31,
    bit-cases w 30,
    bit-cases w 29,
    number-field w 16 false rm_width,
    number-field w 5 true (width_of (bit w 31)),
    number-field w 0 true (width_of (bit w 31)),
    number-field w 0 false (width_of (bit w 31)),
    extended_decorations-fields (bits w 13 3) (bits w 10 3) default_option sp_involved
        (bits-lt w 13 3 (omega arith) (omega arith)) (bits-lt w 10 3 (omega arith) (omega arith)),
  )

-- An allocated word of the extended-register add and subtract class comes back from the encoder,
-- through the `CMP` and `CMN` aliases and the plain `LSL` spelling of an extend too.
pub enc-decode_addsub_extended :
    (w : ℕ) (out : Instruction)
    → w < 2 ^ 32
    → w / 2 ^ 24 % 32 ≡ 0b01011
    → bit w 21 ≡ 1
    → bits w 22 2 ≡ 0
    → bits w 10 3 < 5
    → enc_addsub_extended (decode_addsub_extended w out) ≡ ok w
unfolding enc_addsub_extended
enc-decode_addsub_extended w out h e h21 h22 h10 = ground (
  arith,
  bit-cases w 31,
  bit-lt w 30,
  bit-lt w 29,
  addsub_extended-code w out h22 h10,
  addsub_extended-reads w out h22 h10,
  addsub_extended_code_fields (bit w 31) (bit w 30) (bit w 29),
  addsub_extended_packed w h e h21 h22,
)
