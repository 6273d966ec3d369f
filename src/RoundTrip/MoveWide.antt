-- ===== src/RoundTrip/MoveWide.antt =====
-- Wide moves: decoded and encoded again.
use f_arm.Base.{ℕ, ◌*◌, ◌-◌, ◌/◌, ◌%◌, ◌^◌, ◌<◌, ◌≡◌, ◌≢◌, ◌⊎◌, ◌∙◌, ◌==◌, arith, bit_and}
use f_arm.Base.{i64_as_u64, not64, ap, refl, zero, suc, false}
use f_arm.Base.Bits.{bit_and_mask}
use f_arm.Decode.Bits.{bit, bits, sign_extend}
use f_arm.Decode.Bits.Laws.{bit-cases}
use f_arm.Decode.DpImm.{decode_move_wide, move_wide_code, signed_imm}
use f_arm.Decode.DpImm.Bitfield.{reg, width_of}
use f_arm.Encode.DpImm.Constant.{
  enc_move_wide, factor_loop, factor_movz, factor_movn, move_wide_opc,
}
use f_arm.Encode.DpImm.Fields.{reg_num, imm_u, is_64}
use f_arm.Encode.Error.{ok}
use f_arm.Instruction.{Instruction, set, set_alias, push_operand, op}
use f_arm.Register.{RegWidth}
use f_arm.RoundTrip.Fields.{move_wide_sum}
use f_arm.RoundTrip.Lanes.{
  factor_lane_32, factor_lane_64, materialized_32, materialized_64, lane, lane_32, lane_64,
}
use f_arm.RoundTrip.Reads.{bits-lt, number-field, move_wide_word}

pub bit_two : (n : ℕ) → n < 4 → bit_and n 2 ≡ n / 2 * 2
bit_two zero h = refl
bit_two (suc zero) h = refl
bit_two (suc (suc zero)) h = refl
bit_two (suc (suc (suc zero))) h = refl
bit_two (suc (suc (suc (suc n)))) h = absurd (omega arith)

move_wide_code_fields :
    (sf opc : ℕ)
    → sf < 2
    → opc < 4
    → opc ≢ 1
    → (is_64 (move_wide_code sf opc) ≡ (sf == 1)) × (move_wide_opc (move_wide_code sf opc) ≡ opc)
unfolding move_wide_code is_64 move_wide_opc
move_wide_code_fields sf opc h0 h1 h2 = ground arith

-- A value that `MOVZ` makes, and the complement that `MOVN` makes, give the field back.
module _ (imm16 hw : ℕ) (h : imm16 < 2 ^ 16) (nz : (imm16 ≢ 0) ⊎ (hw ≡ 0)) where
  movz_32 :
      hw < 2
      → factor_movz (bit_and (i64_as_u64 (sign_extend (lane imm16 hw) 32)) 0xffff_ffff) 32
        ≡ ok (imm16, hw)
  unfolding factor_movz
  movz_32 k =
      let (e, lt) = lane_32 imm16 hw h k in
      ap (λ v. factor_loop 2 v 0) (materialized_32 (lane imm16 hw) lt ∙ e)
      ∙ factor_lane_32 imm16 h hw k nz

  movz_64 : hw < 4 → factor_movz (i64_as_u64 (sign_extend (lane imm16 hw) 64)) 64 ≡ ok (imm16, hw)
  unfolding factor_movz
  movz_64 k =
      let (e, lt) = lane_64 imm16 hw h k in
      ap (λ v. factor_loop 4 v 0) (materialized_64 (lane imm16 hw) lt ∙ e)
      ∙ factor_lane_64 imm16 h hw k nz

  movn_32 :
      hw < 2
      → factor_movn
          (bit_and
            (i64_as_u64 (sign_extend (bit_and (not64 (lane imm16 hw)) 0xffff_ffff) 32))
            0xffff_ffff)
          32
        ≡ ok (imm16, hw)
  unfolding factor_movn
  movn_32 k =
      let (e, lt) = lane_32 imm16 hw h k in
      let v = bit_and (not64 (lane imm16 hw)) 0xffff_ffff in
      let low : v ≡ 2 ^ 32 - 1 - lane imm16 hw =
        bit_and_mask 32 (not64 (lane imm16 hw)) ∙ omega arith in
      let same = materialized_32 v (omega arith) ∙ low in
      ap (λ x. factor_loop 2 (bit_and (not64 x) 0xffff_ffff) 0) same
      ∙ ap (λ x. factor_loop 2 x 0)
          (bit_and_mask 32 (not64 (2 ^ 32 - 1 - lane imm16 hw)) ∙ omega arith)
      ∙ factor_lane_32 imm16 h hw k nz

  movn_64 :
      hw < 4 → factor_movn (i64_as_u64 (sign_extend (not64 (lane imm16 hw)) 64)) 64 ≡ ok (imm16, hw)
  unfolding factor_movn
  movn_64 k =
      let (e, lt) = lane_64 imm16 hw h k in
      ap (λ x. factor_loop 4 (not64 x) 0) (materialized_64 (not64 (lane imm16 hw)) (omega arith))
      ∙ ap (λ x. factor_loop 4 x 0) (omega arith)
      ∙ factor_lane_64 imm16 h hw k nz

-- An allocated wide-move word comes back from the encoder, through the `MOV` alias too.
pub enc-decode_move_wide :
    (w : ℕ) (out : Instruction)
    → w < 2 ^ 32
    → w / 2 ^ 23 % 64 ≡ 0b100101
    → bits w 29 2 ≢ 1
    → (bit w 31 ≡ 1) ⊎ (bits w 21 2 < 2)
    → enc_move_wide (decode_move_wide w out) ≡ ok w
unfolding decode_move_wide enc_move_wide set set_alias push_operand op reg width_of reg_num imm_u
    signed_imm
enc-decode_move_wide w out h e hopc hhw = ground (
  arith,
  bit-cases w 31,
  bits-lt w 0 5,
  bits-lt w 5 16,
  bits-lt w 21 2,
  bits-lt w 29 2,
  bit_two (bits w 21 2),
  number-field w 0 false RegWidth.w32,
  number-field w 0 false RegWidth.x64,
  move_wide_code_fields (bit w 31) (bits w 29 2),
  movz_32 (bits w 5 16) (bits w 21 2),
  movz_64 (bits w 5 16) (bits w 21 2),
  movn_32 (bits w 5 16) (bits w 21 2),
  movn_64 (bits w 5 16) (bits w 21 2),
  move_wide_word w h e,
  move_wide_sum (bit w 31) (bits w 29 2) (bits w 21 2) (bits w 5 16) (bits w 0 5),
)
