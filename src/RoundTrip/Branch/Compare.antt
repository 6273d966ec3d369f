-- ===== src/RoundTrip/Branch/Compare.antt =====
-- The branches that compare: decoded and encoded again.
use f_arm.Base.{
  ℕ, ◌/◌, ◌%◌, ◌^◌, ◌<◌, ◌≡◌, ◌⊎◌, ◌==◌, arith, false, Option, none, some, inl, inr, refl, sym, ◌∙◌,
  zero, suc, ◌&&◌, if◌then◌else◌, bit_and,
}
use f_arm.Decode.Bits.{bit, bits}
use f_arm.Decode.Bits.Laws.{bit-cases}
use f_arm.Decode.BranchSys.Compare.{
  word_code, byte_code, half_code, register_code, immediate_code, emit_cmpbr, decode_cmpbr_register,
  decode_cmpbr_immediate, decode_cmpbr,
}
use f_arm.Decode.BranchSys.Fields.{branch_target}
use f_arm.Decode.DpImm.Bitfield.{reg, width_of}
use f_arm.Encode.BranchSys.Compare.{cmpbr_fields, register_width, enc_cmpbr, ok_or, as_bit}
use f_arm.Encode.BranchSys.Fields.{is_x_reg}
use f_arm.Encode.Error.{Result, ok, err}
use f_arm.Features.{FeatureSet}
use f_arm.Instruction.{Instruction, set, push_operand, op}
use f_arm.Mnemonic.{Code}
use f_arm.Operand.{Operand}
use f_arm.Register.{RegWidth}
use f_arm.Register.Laws.{bits_of, width_bits-gp_register}
use f_arm.RoundTrip.Branch.Labels.{rel_imm-target_9}
use f_arm.RoundTrip.Branch.Shapes.{cmpbr_register_packed, cmpbr_immediate_packed}
use f_arm.RoundTrip.Reads.{bits-lt, number-field}

-- The conditions of the two forms of a code.
unfoldable reg_cc_of : Result (ℕ × Option ℕ × Option ℕ) → Option ℕ
reg_cc_of (ok (size, reg_cc, imm_cc)) = reg_cc
reg_cc_of (err failure) = none

unfoldable imm_cc_of : Result (ℕ × Option ℕ × Option ℕ) → Option ℕ
imm_cc_of (ok (size, reg_cc, imm_cc)) = imm_cc
imm_cc_of (err failure) = none

word_code_fields :
    (cond : ℕ) (c : Code)
    → word_code cond ≡ some c
    → cmpbr_fields c ≡ ok (0b00, some cond, imm_cc_of (cmpbr_fields c))
unfolding word_code cmpbr_fields imm_cc_of
word_code_fields cond c e = ground arith

byte_code_fields :
    (cond : ℕ) (c : Code)
    → byte_code cond ≡ some c
    → cmpbr_fields c ≡ ok (0b10, some cond, imm_cc_of (cmpbr_fields c))
unfolding byte_code cmpbr_fields imm_cc_of
byte_code_fields cond c e = ground arith

half_code_fields :
    (cond : ℕ) (c : Code)
    → half_code cond ≡ some c
    → cmpbr_fields c ≡ ok (0b11, some cond, imm_cc_of (cmpbr_fields c))
unfolding half_code cmpbr_fields imm_cc_of
half_code_fields cond c e = ground arith

absurd_code : {A : Type 0} {c : Code} → ◌≡◌ {A = Option Code} none (some c) → A
absurd_code e = cc

narrow_only : (sf size cond : ℕ) → 0 < size → register_code (suc sf) size cond ≡ none
unfolding register_code
narrow_only sf size cond h = ground arith

no_size : (sf size cond : ℕ) → register_code sf (suc (suc (suc (suc size)))) cond ≡ none
unfolding register_code
no_size sf size cond = ground arith

register_code_fields :
    (sf size cond : ℕ) (c : Code)
    → register_code sf size cond ≡ some c
    → (cmpbr_fields c ≡ ok (size, some cond, imm_cc_of (cmpbr_fields c))) × ((size ≡ 0) ⊎ (sf ≡ 0))
unfolding register_code
register_code_fields sf zero cond c e = (word_code_fields cond c e, inl refl)
register_code_fields sf (suc zero) cond c e = absurd_code e
register_code_fields zero (suc (suc zero)) cond c e = (byte_code_fields cond c e, inr refl)
register_code_fields (suc sf) (suc (suc zero)) cond c e =
    absurd_code (sym (narrow_only sf (suc (suc zero)) cond (omega arith)) ∙ e)
register_code_fields zero (suc (suc (suc zero))) cond c e = (half_code_fields cond c e, inr refl)
register_code_fields (suc sf) (suc (suc (suc zero))) cond c e =
    absurd_code (sym (narrow_only sf (suc (suc (suc zero))) cond (omega arith)) ∙ e)
register_code_fields sf (suc (suc (suc (suc size)))) cond c e =
    absurd_code (sym (no_size sf size cond) ∙ e)

immediate_code_fields :
    (cond : ℕ) (c : Code)
    → immediate_code cond ≡ some c
    → cmpbr_fields c ≡ ok (0, reg_cc_of (cmpbr_fields c), some cond)
unfolding immediate_code cmpbr_fields reg_cc_of
immediate_code_fields cond c e = ground arith

module _ (w ip : ℕ) (out : Instruction) (h : w < 2 ^ 32) (e : w / 2 ^ 25 % 64 ≡ 0b111010)
    (hip : ip < 2 ^ 64) (same : out.ip ≡ ip) where
  abbrev target : Operand
  target = Operand.label (branch_target ip (bits w 5 9) 11)

  abbrev rm_width : RegWidth
  rm_width = if bits w 14 2 == 0 && bit w 31 == 1 then RegWidth.x64 else RegWidth.w32

  abbrev Returns : Instruction → Type 0
  Returns insn = (insn ≡ out) ⊎ (enc_cmpbr insn ≡ ok w)

  register-emitted :
      bit w 24 ≡ 0
      → (found : Option Code) → register_code (bit w 31) (bits w 14 2) (bits w 21 3) ≡ found
      → Returns (
          emit_cmpbr found
            (reg false rm_width (bits w 0 5))
            (reg false rm_width (bits w 16 5))
            target
            out)
  unfolding emit_cmpbr enc_cmpbr register_width is_x_reg as_bit ok_or set push_operand op reg
      bits_of
  register-emitted h24 none found = inl refl
  register-emitted h24 (some c) found = ground (
    arith,
    bit-cases w 31,
    bits-lt w 5 9,
    register_code_fields (bit w 31) (bits w 14 2) (bits w 21 3) c,
    number-field w 0 false rm_width,
    number-field w 16 false rm_width,
    width_bits-gp_register false rm_width (bit_and (bits w 0 5) 0x1f),
    width_bits-gp_register false rm_width (bit_and (bits w 16 5) 0x1f),
    rel_imm-target_9 ip (bits w 5 9) hip,
    cmpbr_register_packed w h e h24,
  )

  immediate-emitted :
      bit w 24 ≡ 1
      → bit w 14 ≡ 0
      → (found : Option Code) → immediate_code (bits w 21 3) ≡ found
      → Returns (
          emit_cmpbr found
            (reg false (width_of (bit w 31)) (bits w 0 5))
            (Operand.imm_unsigned (bits w 15 6))
            target
            out)
  unfolding width_of emit_cmpbr enc_cmpbr is_x_reg as_bit ok_or set push_operand op reg bits_of
  immediate-emitted h24 h14 none found = inl refl
  immediate-emitted h24 h14 (some c) found = ground (
    arith,
    bit-cases w 31,
    bits-lt w 5 9,
    bits-lt w 15 6,
    immediate_code_fields (bits w 21 3) c,
    number-field w 0 false (width_of (bit w 31)),
    width_bits-gp_register false (width_of (bit w 31)) (bit_and (bits w 0 5) 0x1f),
    rel_imm-target_9 ip (bits w 5 9) hip,
    cmpbr_immediate_packed w h e h24 h14,
  )

  register-Returns : bit w 24 ≡ 0 → Returns (decode_cmpbr_register w ip out)
  unfolding decode_cmpbr_register
  register-Returns h24 =
      register-emitted h24 (register_code (bit w 31) (bits w 14 2) (bits w 21 3)) refl

  immediate-Returns : bit w 24 ≡ 1 → Returns (decode_cmpbr_immediate w ip out)
  unfolding decode_cmpbr_immediate
  immediate-Returns h24 =
      ground (
        arith,
        λ (h14 : bit w 14 ≡ 0). immediate-emitted h24 h14 (immediate_code (bits w 21 3)) refl,
      )

-- A compare-and-branch word at a 64-bit address, with a register or a number, is left alone or
-- comes back from the encoder, which finds the form and the width in the operands.
pub enc-decode_cmpbr :
    (w ip : ℕ) (features : FeatureSet) (out : Instruction)
    → w < 2 ^ 32
    → w / 2 ^ 25 % 64 ≡ 0b111010
    → ip < 2 ^ 64
    → out.ip ≡ ip
    → (decode_cmpbr w ip features out ≡ out) ⊎ (enc_cmpbr (decode_cmpbr w ip features out) ≡ ok w)
unfolding decode_cmpbr
enc-decode_cmpbr w ip features out h e hip same = ground (
  arith,
  bit-cases w 24,
  register-Returns w ip out h e hip same,
  immediate-Returns w ip out h e hip same,
)
