-- ===== src/RoundTrip/Reg/Operands.antt =====
-- The decorations of a register operand: what the decoder writes and the encoder reads.
use f_arm.Base.{ℕ, ◌<◌, ◌≡◌, ◌≢◌, ◌⊎◌, ◌&&◌, ◌==◌, arith, Bool, true}
use f_arm.Base.{false}
use f_arm.Decode.DpReg.Shifted.{folded_shift, extended_decorations, is_lsl}
use f_arm.Encode.DpReg.Fields.{shift_fields, amount_or_zero, option_or}
use f_arm.Encode.Error.{ok}
use f_arm.Enums.{shift_from_bits, extend_from_bits}
use f_arm.Enums.Laws.{as_bits-extend_from_bits}
use f_arm.Base.Bits.{bit_and_mask}
use f_arm.RoundTrip.Bitfield.{bit_and_32}

-- A shift field and its amount come back from the decoration, `LSL #0` folded away too.
pub shift_fields-folded_shift :
    (sh imm6 sf : ℕ)
    → sh < 4
    → imm6 < 64
    → (sf ≡ 1) ⊎ (imm6 < 32)
    → shift_fields (folded_shift (shift_from_bits sh) imm6) sf ≡ ok (sh, imm6)
unfolding shift_from_bits folded_shift shift_fields
shift_fields-folded_shift sh imm6 sf h0 h1 hs = ground (arith, bit_and_mask 2 sh, bit_and_32 imm6)

-- The two cases of the test for a left shift.
pub is_lsl-cases :
    (sh : ℕ)
    → sh < 4
    → ((sh ≡ 0) × (is_lsl (shift_from_bits sh) ≡ true))
      ⊎ ((sh ≢ 0) × (is_lsl (shift_from_bits sh) ≡ false))
unfolding is_lsl shift_from_bits
is_lsl-cases sh h = ground (arith, bit_and_mask 2 sh)

-- An extend option and its amount come back from the decorations, where the plain spelling is only
-- used for the default option.
pub extended_decorations-fields :
    (option imm3 default_option : ℕ) (involved : Bool)
    → option < 8
    → imm3 < 8
    → let decorations =
        extended_decorations
          (extend_from_bits option)
          imm3
          (option == default_option && involved) in
      (option_or (decorations.1) default_option ≡ option) × (amount_or_zero (decorations.0) ≡ imm3)
unfolding extended_decorations option_or amount_or_zero
extended_decorations-fields option imm3 default_option involved h0 h1 =
    ground (arith, as_bits-extend_from_bits option h0)
