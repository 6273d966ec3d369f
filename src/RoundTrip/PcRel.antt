-- ===== src/RoundTrip/PcRel.antt =====
-- `ADR` and `ADRP`: the label, and the immediate recovered from it.
use f_arm.Base.{
  ℕ, ◌+◌, ◌*◌, ◌-◌, ◌/◌, ◌%◌, ◌^◌, ◌<◌, ◌≤◌, ◌≡◌, ◌∙◌, arith, true, false, bit_and, bit_or,
}
use f_arm.Base.{
  wrapping_add, i64_as_u64, shl32, shl64, not64, u64_max, as_i64, pos, negsuc, asr, ℤ, wrapping_sub,
  i64_as_u32, if◌then◌else◌, ap,
}
use f_arm.Base.Bits.{bit_and_mask, bit_and_high, or_field}
use f_arm.Decode.Bits.{bit, bits, sign_extend}
use f_arm.Decode.Bits.Laws.{bit-cases}
use f_arm.Decode.DpImm.{decode_pc_rel}
use f_arm.Decode.DpImm.Bitfield.{reg}
use f_arm.Encode.DpImm.Arithmetic.{too_far, enc_pc_rel, pc_rel_imm21}
use f_arm.Encode.Error.{Result, ok, err, EncodeError}
use f_arm.Instruction.{Instruction, set, push_operand, op}
use f_arm.Register.{RegWidth}
use native.Mathlib.Decide.{dec_lt}
use f_arm.RoundTrip.Fields.{pc_rel_sum}
use f_arm.RoundTrip.Reads.{bits-lt, number-field, pc_rel_word}

-- The two halves of the signed range.
pub as_i64_pos : (n : ℕ) → n < 2 ^ 63 → as_i64 n ≡ pos n
as_i64_pos n h = ground arith

pub as_i64_neg : (n : ℕ) → 2 ^ 63 ≤ n → as_i64 n ≡ negsuc (u64_max - n)
as_i64_neg n h = ground arith

pub sign_extend_21 :
    (v : ℕ)
    → v < 2 ^ 21
    → i64_as_u64 (sign_extend v 21) ≡ (v + 2 ^ 64 - v / 2 ^ 20 * 2 ^ 21) % 2 ^ 64
unfolding sign_extend
sign_extend_21 v h = elim (dec_lt v (2 ^ 20)) [
  | yes p ↦ rw (as_i64_pos (shl64 v 43) (omega arith)) (omega arith)
  | no p ↦ rw (as_i64_neg (shl64 v 43) (omega arith)) (omega arith)
]

sign_extend_33 :
    (v : ℕ)
    → v < 2 ^ 33
    → i64_as_u64 (sign_extend v 33) ≡ (v + 2 ^ 64 - v / 2 ^ 32 * 2 ^ 33) % 2 ^ 64
unfolding sign_extend
sign_extend_33 v h = elim (dec_lt v (2 ^ 32)) [
  | yes p ↦ rw (as_i64_pos (shl64 v 31) (omega arith)) (omega arith)
  | no p ↦ rw (as_i64_neg (shl64 v 31) (omega arith)) (omega arith)
]

-- Values that fit 21 signed bits, forwards and backwards.
near_pos : (d : ℕ) → d < 2 ^ 20 → too_far (pos d) ≡ false
unfolding too_far
near_pos d h = ground arith

near_neg : (d : ℕ) → d < 2 ^ 20 → too_far (negsuc d) ≡ false
unfolding too_far
near_neg d h = ground arith

-- The last step of both forms, for a value that fits.
abbrev low_21 : ℤ → Result ℕ
low_21 z =
    if too_far z then err EncodeError.invalid_immediate else ok (bit_and (i64_as_u32 z) 0x1f_ffff)

low_21_pos : (d : ℕ) → d < 2 ^ 20 → low_21 (pos d) ≡ ok d
low_21_pos d h = rw (near_pos d h, bit_and_mask 21 (i64_as_u32 (pos d))) (ap ok (omega arith))

low_21_neg : (d : ℕ) → d < 2 ^ 20 → low_21 (negsuc d) ≡ ok (2 ^ 21 - 1 - d)
low_21_neg d h = rw (near_neg d h, bit_and_mask 21 (i64_as_u32 (negsuc d))) (ap ok (omega arith))

adr_difference :
    (ip imm21 : ℕ)
    → ip < 2 ^ 64
    → imm21 < 2 ^ 21
    → wrapping_sub (wrapping_add ip (i64_as_u64 (sign_extend imm21 21))) ip
      ≡ (imm21 + 2 ^ 64 - imm21 / 2 ^ 20 * 2 ^ 21) % 2 ^ 64
adr_difference ip imm21 h k = rw (sign_extend_21 imm21 k) (omega arith)

pub adr_inverse :
    (ip imm21 : ℕ)
    → ip < 2 ^ 64
    → imm21 < 2 ^ 21
    → pc_rel_imm21 false ip (wrapping_add ip (i64_as_u64 (sign_extend imm21 21))) ≡ ok imm21
unfolding pc_rel_imm21
adr_inverse ip imm21 h k = elim (dec_lt imm21 (2 ^ 20)) [
  | yes p ↦
      let e : as_i64 d ≡ pos imm21 =
        as_i64_pos d (omega (arith, eq)) ∙ ap pos (omega (arith, eq)) in
      rw e (low_21_pos imm21 p)
  | no p ↦
      let e : as_i64 d ≡ negsuc (2 ^ 21 - 1 - imm21) =
        as_i64_neg d (omega (arith, eq)) ∙ ap negsuc (omega (arith, eq)) in
      rw e (low_21_neg (2 ^ 21 - 1 - imm21) (omega arith) ∙ ap ok (omega arith))
]
  where
    d : ℕ
    d = wrapping_sub (wrapping_add ip (i64_as_u64 (sign_extend imm21 21))) ip

    eq : d ≡ (imm21 + 2 ^ 64 - imm21 / 2 ^ 20 * 2 ^ 21) % 2 ^ 64
    eq = adr_difference ip imm21 h k

-- The target of an `ADRP`, and its page number.
abbrev pub adrp_target : (ip imm21 : ℕ) → ℕ
adrp_target ip imm21 =
    wrapping_add (bit_and ip (not64 0xfff)) (i64_as_u64 (sign_extend (shl64 imm21 12) 33))

-- The page of a 64-bit address.
page : (ip : ℕ) → ip < 2 ^ 64 → bit_and ip (not64 0xfff) ≡ ip / 4096 * 4096
page ip h = bit_and_high 12 52 ip (omega arith)

adrp_page :
    (ip imm21 : ℕ)
    → ip < 2 ^ 64
    → imm21 < 2 ^ 21
    → adrp_target ip imm21 ≡ (ip / 4096 + imm21 + 2 ^ 52 - imm21 / 2 ^ 20 * 2 ^ 21) % 2 ^ 52 * 4096
adrp_page ip imm21 h k = rw (page ip h, sign_extend_33 (shl64 imm21 12) (omega arith)) (omega arith)

page_difference :
    (ip t p : ℕ)
    → ip < 2 ^ 64
    → p < 2 ^ 52
    → t ≡ p * 4096
    → wrapping_sub (bit_and t (not64 0xfff)) (bit_and ip (not64 0xfff))
      ≡ (p + 2 ^ 52 - ip / 4096) % 2 ^ 52 * 4096
page_difference ip t p h k e = rw (page t (omega arith), page ip h) (omega arith)

pub adrp_inverse :
    (ip imm21 : ℕ)
    → ip < 2 ^ 64
    → imm21 < 2 ^ 21
    → pc_rel_imm21 true ip (adrp_target ip imm21) ≡ ok imm21
unfolding pc_rel_imm21
adrp_inverse ip imm21 h k = elim (dec_lt imm21 (2 ^ 20)) [
  | yes p ↦
      let e : asr (as_i64 d) 12 ≡ pos imm21 =
        rw (as_i64_pos d (omega (arith, eq))) (ap pos (omega (arith, eq))) in
      rw (aligned, e) (low_21_pos imm21 p)
  | no p ↦
      let e : asr (as_i64 d) 12 ≡ negsuc (2 ^ 21 - 1 - imm21) =
        rw (as_i64_neg d (omega (arith, eq))) (ap negsuc (omega (arith, eq))) in
      rw (aligned, e) (low_21_neg (2 ^ 21 - 1 - imm21) (omega arith) ∙ ap ok (omega arith))
]
  where
    t : ℕ
    t = adrp_target ip imm21

    d : ℕ
    d = wrapping_sub (bit_and t (not64 0xfff)) (bit_and ip (not64 0xfff))

    aligned : bit_and t 0xfff ≡ 0
    aligned = bit_and_mask 12 t ∙ omega (arith, adrp_page ip imm21 h k)

    eq : d ≡ (imm21 + 2 ^ 52 - imm21 / 2 ^ 20 * 2 ^ 21) % 2 ^ 52 * 4096
    eq =
        page_difference ip t ((ip / 4096 + imm21 + 2 ^ 52 - imm21 / 2 ^ 20 * 2 ^ 21) % 2 ^ 52) h
          (omega arith) (adrp_page ip imm21 h k)
        ∙ omega arith

imm21_eq :
    (immhi immlo : ℕ)
    → immhi < 2 ^ 19
    → immlo < 4
    → bit_or (shl32 immhi 2) immlo ≡ immhi * 4 + immlo
imm21_eq immhi immlo h k = or_field 2 (shl32 immhi 2) immlo (omega arith) k ∙ omega arith

-- An `ADR` or `ADRP` word at a 64-bit address comes back from the encoder, which recovers the
-- immediate from the absolute label.
pub enc-decode_pc_rel :
    (w ip : ℕ) (out : Instruction)
    → w < 2 ^ 32
    → w / 2 ^ 24 % 32 ≡ 0b10000
    → ip < 2 ^ 64
    → out.ip ≡ ip
    → enc_pc_rel (decode_pc_rel w ip out) ≡ ok w
unfolding decode_pc_rel enc_pc_rel set push_operand op reg
enc-decode_pc_rel w ip out h e hip same = ground (
  arith,
  bit-cases w 31,
  bits-lt w 0 5,
  bits-lt w 29 2,
  bits-lt w 5 19,
  number-field w 0 false RegWidth.x64,
  imm21_eq (bits w 5 19) (bits w 29 2),
  adr_inverse ip (bits w 5 19 * 4 + bits w 29 2) hip,
  adrp_inverse ip (bits w 5 19 * 4 + bits w 29 2) hip,
  bit_and_mask 2 (bits w 5 19 * 4 + bits w 29 2),
  bit_and_mask 19 ((bits w 5 19 * 4 + bits w 29 2) / 4),
  pc_rel_word w h e,
  pc_rel_sum (bit w 31) (bits w 29 2) (bits w 5 19) (bits w 0 5),
)
