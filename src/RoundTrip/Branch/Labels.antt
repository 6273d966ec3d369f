-- ===== src/RoundTrip/Branch/Labels.antt =====
-- The target of a branch, and the field that the encoder recovers from it.
use f_arm.Base.{
  ℕ, ◌+◌, ◌-◌, ◌*◌, ◌/◌, ◌%◌, ◌^◌, ◌<◌, ◌≡◌, ◌∙◌, arith, refl, ap, ap₂, false, ltb, if◌then◌else◌,
  bit_and,
}
use f_arm.Base.{
  wrapping_sub, i64_as_u64, i64_as_u32, as_i64, asr, pos, negsuc, shl32, shl64, u64_max,
}
use f_arm.Base.Bits.{bit_and_mask}
use f_arm.Decode.Bits.{sign_extend}
use f_arm.Decode.BranchSys.Fields.{branch_target}
use f_arm.Encode.BranchSys.Fields.{overflows, rel_imm}
use f_arm.Encode.Error.{ok}
use f_arm.RoundTrip.PcRel.{as_i64_pos, as_i64_neg, sign_extend_21}
use native.Mathlib.Decide.{dec_lt}
use native.Mathlib.Nat.{div-eq_of_lt, mod-eq_of_lt}

-- A number of `bits` signed bits does not overflow, forwards and backwards.
overflows_pos : (d bits : ℕ) → d < 2 ^ (bits - 1) → overflows (pos d) bits ≡ false
unfolding overflows
overflows_pos d bits h = ground (arith, div-eq_of_lt {n = d} {m = 2 ^ (bits - 1)} h)

overflows_neg : (d bits : ℕ) → d < 2 ^ (bits - 1) → overflows (negsuc d) bits ≡ false
unfolding overflows
overflows_neg d bits h = ground (arith, div-eq_of_lt {n = d} {m = 2 ^ (bits - 1)} h)

-- The two tests and the mask, on a signed offset of `d` granules.
read_pos :
    (d bits : ℕ)
    → d < 2 ^ 32
    → d < 2 ^ (bits - 1)
    → 2 ^ bits < 2 ^ 32
    → 0 < 2 ^ bits
    → (bit_and (i64_as_u64 (pos (4 * d))) (shl64 1 2 - 1) ≡ 0)
      × (overflows (asr (pos (4 * d)) 2) bits ≡ false)
      × (bit_and (i64_as_u32 (asr (pos (4 * d)) 2)) (shl32 1 bits - 1) ≡ d % 2 ^ bits)
read_pos d bits h k small some = (
  bit_and_mask 2 (4 * d % 2 ^ 64) ∙ omega arith,
  ap (λ t. overflows (pos t) bits) (omega arith) ∙ overflows_pos d bits k,
  ap₂ (λ (a b : ℕ). bit_and a b) (omega arith) (omega arith) ∙ bit_and_mask bits d,
)

read_neg :
    (d bits : ℕ)
    → d < 2 ^ 32
    → d < 2 ^ (bits - 1)
    → 2 ^ bits < 2 ^ 32
    → 0 < 2 ^ bits
    → (bit_and (i64_as_u64 (negsuc (4 * d + 3))) (shl64 1 2 - 1) ≡ 0)
      × (overflows (asr (negsuc (4 * d + 3)) 2) bits ≡ false)
      × (bit_and (i64_as_u32 (asr (negsuc (4 * d + 3)) 2)) (shl32 1 bits - 1)
          ≡ (2 ^ 32 - 1 - d) % 2 ^ bits)
read_neg d bits h k small some = (
  bit_and_mask 2 (u64_max - (4 * d + 3) % 2 ^ 64) ∙ omega arith,
  ap (λ t. overflows (negsuc t) bits) (omega arith) ∙ overflows_neg d bits k,
  ap₂ (λ (a b : ℕ). bit_and a b) (omega arith) (omega arith) ∙ bit_and_mask bits (2 ^ 32 - 1 - d),
)

module _ (target ip bits d : ℕ) (near : d < 2 ^ (bits - 1)) (small : 2 ^ bits < 2 ^ 32)
    (some : 0 < 2 ^ bits) (bound : d < 2 ^ 32) where
  -- A target that lies `4 * d` bytes ahead.
  rel_imm-forward : wrapping_sub target ip ≡ 4 * d → rel_imm target ip bits 2 ≡ ok (d % 2 ^ bits)
  unfolding rel_imm
  rel_imm-forward e =
      let e' : as_i64 (wrapping_sub target ip) ≡ pos (4 * d) =
        as_i64_pos (wrapping_sub target ip) (omega arith) ∙ ap pos e in
      rw e' (ground (arith, read_pos d bits bound near small some))

  -- A target that lies `4 * (d + 1)` bytes behind.
  rel_imm-backward :
      wrapping_sub target ip ≡ 2 ^ 64 - 4 * (d + 1)
      → rel_imm target ip bits 2 ≡ ok ((2 ^ 32 - 1 - d) % 2 ^ bits)
  unfolding rel_imm
  rel_imm-backward e =
      let e' : as_i64 (wrapping_sub target ip) ≡ negsuc (4 * d + 3) =
        as_i64_neg (wrapping_sub target ip) (omega arith) ∙ ap negsuc (omega arith) in
      rw e' (ground (arith, read_neg d bits bound near small some))

-- A target is taken back to its field, where the extension of the field is the signed offset.
module _ (ip imm bits half : ℕ) (hip : ip < 2 ^ 64) (inside : imm < 2 * half)
    (small : half < 2 ^ 31) (top : 2 ^ (bits - 1) ≡ half) (whole : 2 ^ bits ≡ 2 * half) where
  abbrev Offset : Type 0
  Offset =
      i64_as_u64 (sign_extend (shl64 imm 2) (bits + 2))
      ≡ (if ltb imm half then 4 * imm else 2 ^ 64 + 4 * imm - 8 * half)

  rel_imm-branch_target :
      Offset
      → (2 ^ 32 - 1 - (2 * half - 1 - imm)) % (2 * half) ≡ imm
      → rel_imm (branch_target ip imm (bits + 2)) ip bits 2 ≡ ok imm
  unfolding branch_target
  rel_imm-branch_target e turn = elim (dec_lt imm half) [
    | yes h ↦
        rel_imm-forward (branch_target ip imm (bits + 2)) ip bits imm (omega (arith, top))
          (omega (arith, whole)) (omega (arith, whole)) (omega arith) (ground (arith, e))
        ∙ ap ok
            (ground (arith, whole, mod-eq_of_lt {n = imm} {m = 2 ^ bits} (omega (arith, whole))))
    | no h ↦
        rel_imm-backward (branch_target ip imm (bits + 2)) ip bits (2 * half - 1 - imm)
          (omega (arith, top)) (omega (arith, whole)) (omega (arith, whole)) (omega arith)
          (ground (arith, e))
        ∙ ap ok (ap (λ (m : ℕ). (2 ^ 32 - 1 - (2 * half - 1 - imm)) % m) whole ∙ turn)
  ]

-- The four widths of an offset, in granules.
pub sign_extend_28 :
    (v : ℕ)
    → v < 2 ^ 28
    → i64_as_u64 (sign_extend v 28) ≡ (v + 2 ^ 64 - v / 2 ^ 27 * 2 ^ 28) % 2 ^ 64
unfolding sign_extend
sign_extend_28 v h = elim (dec_lt v (2 ^ 27)) [
  | yes p ↦ rw (as_i64_pos (shl64 v 36) (omega arith)) (omega arith)
  | no p ↦ rw (as_i64_neg (shl64 v 36) (omega arith)) (omega arith)
]

pub sign_extend_16 :
    (v : ℕ)
    → v < 2 ^ 16
    → i64_as_u64 (sign_extend v 16) ≡ (v + 2 ^ 64 - v / 2 ^ 15 * 2 ^ 16) % 2 ^ 64
unfolding sign_extend
sign_extend_16 v h = elim (dec_lt v (2 ^ 15)) [
  | yes p ↦ rw (as_i64_pos (shl64 v 48) (omega arith)) (omega arith)
  | no p ↦ rw (as_i64_neg (shl64 v 48) (omega arith)) (omega arith)
]

pub sign_extend_11 :
    (v : ℕ)
    → v < 2 ^ 11
    → i64_as_u64 (sign_extend v 11) ≡ (v + 2 ^ 64 - v / 2 ^ 10 * 2 ^ 11) % 2 ^ 64
unfolding sign_extend
sign_extend_11 v h = elim (dec_lt v (2 ^ 10)) [
  | yes p ↦ rw (as_i64_pos (shl64 v 53) (omega arith)) (omega arith)
  | no p ↦ rw (as_i64_neg (shl64 v 53) (omega arith)) (omega arith)
]

module _ (ip imm : ℕ) (hip : ip < 2 ^ 64) where
  pub rel_imm-target_26 : imm < 2 ^ 26 → rel_imm (branch_target ip imm 28) ip 26 2 ≡ ok imm
  rel_imm-target_26 h =
      rel_imm-branch_target ip imm 26 (2 ^ 25) hip h (omega arith) refl refl
        (ground (arith, sign_extend_28 (shl64 imm 2))) (omega arith)

  pub rel_imm-target_19 : imm < 2 ^ 19 → rel_imm (branch_target ip imm 21) ip 19 2 ≡ ok imm
  rel_imm-target_19 h =
      rel_imm-branch_target ip imm 19 (2 ^ 18) hip h (omega arith) refl refl
        (ground (arith, sign_extend_21 (shl64 imm 2))) (omega arith)

  pub rel_imm-target_14 : imm < 2 ^ 14 → rel_imm (branch_target ip imm 16) ip 14 2 ≡ ok imm
  rel_imm-target_14 h =
      rel_imm-branch_target ip imm 14 (2 ^ 13) hip h (omega arith) refl refl
        (ground (arith, sign_extend_16 (shl64 imm 2))) (omega arith)

  pub rel_imm-target_9 : imm < 2 ^ 9 → rel_imm (branch_target ip imm 11) ip 9 2 ≡ ok imm
  rel_imm-target_9 h =
      rel_imm-branch_target ip imm 9 (2 ^ 8) hip h (omega arith) refl refl
        (ground (arith, sign_extend_11 (shl64 imm 2))) (omega arith)
