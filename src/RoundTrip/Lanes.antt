-- ===== src/RoundTrip/Lanes.antt =====
-- The 16-bit lane of a wide move, materialized and factored.
use f_arm.Base.{ℕ, zero, suc, ◌+◌, ◌*◌, ◌-◌, ◌/◌, ◌%◌, ◌^◌, ◌<◌, ◌≤◌, ◌≡◌, ◌≢◌, ◌∙◌, arith, bit_and}
use f_arm.Base.{i64_as_u64, shl64, as_u8, ◌⊎◌, ap₂}
use f_arm.Base.Bits.{bit_and_mask, bit_and_split}
use f_arm.Decode.Bits.{sign_extend}
use f_arm.Encode.DpImm.Constant.{factor_loop}
use f_arm.Encode.Error.{ok}
use f_arm.RoundTrip.PcRel.{as_i64_pos, as_i64_neg}
use native.Mathlib.Decide.{dec_lt}
use native.Mathlib.Nat.{one-le-pow, div-add-mod, mod-eq_of_lt}

-- The materialized value, cut to its data size, comes back through `i64`.
pub materialized_32 : (v : ℕ) → v < 2 ^ 32 → bit_and (i64_as_u64 (sign_extend v 32)) 0xffff_ffff ≡ v
unfolding sign_extend
materialized_32 v h = bit_and_mask 32 (i64_as_u64 (sign_extend v 32)) ∙ low
  where
    low : i64_as_u64 (sign_extend v 32) % 2 ^ 32 ≡ v
    low = elim (dec_lt v (2 ^ 31)) [
      | yes p ↦ rw (as_i64_pos (shl64 v 32) (omega arith)) (omega arith)
      | no p ↦ rw (as_i64_neg (shl64 v 32) (omega arith)) (omega arith)
    ]

pub materialized_64 : (v : ℕ) → v < 2 ^ 64 → i64_as_u64 (sign_extend v 64) ≡ v
unfolding sign_extend
materialized_64 v h = elim (dec_lt v (2 ^ 63)) [
  | yes p ↦ rw (as_i64_pos v p) (omega arith)
  | no p ↦ rw (as_i64_neg v (omega arith)) (omega arith)
]

-- A mask with 16 zeros from bit `s` on keeps what lies around them.
hole :
    (s k m v mask : ℕ)
    → mask ≡ (2 ^ m - 1) * 2 ^ k + (2 ^ s - 1)
    → 2 ^ s ≤ 2 ^ k
    → v / 2 ^ k < 2 ^ m
    → bit_and v mask ≡ v / 2 ^ k * 2 ^ k + v % 2 ^ k % 2 ^ s
hole s k m v mask e h fits =
    ap₂ bit_and parts e
    ∙ bit_and_split k (v / 2 ^ k) (v % 2 ^ k) (2 ^ m - 1) (2 ^ s - 1) low
        (omega (arith, one-le-pow s 2))
    ∙ ap₂ (λ (a b : ℕ). a * 2 ^ k + b) high (bit_and_mask s (v % 2 ^ k))
  where
    parts : v ≡ v / 2 ^ k * 2 ^ k + v % 2 ^ k
    parts = omega (arith, div-add-mod v (2 ^ k))

    low : v % 2 ^ k < 2 ^ k
    low = omega (arith, one-le-pow k 2)

    high : bit_and (v / 2 ^ k) (2 ^ m - 1) ≡ v / 2 ^ k
    high = bit_and_mask m (v / 2 ^ k) ∙ mod-eq_of_lt fits

module _ (v : ℕ) (h : v < 2 ^ 64) where
  hole_0 : bit_and v 0xffff_ffff_ffff_0000 ≡ v / 2 ^ 16 * 2 ^ 16
  hole_0 =
      hole 0 16 48 v 0xffff_ffff_ffff_0000 (omega arith) (omega arith) (omega arith) ∙ omega arith

  hole_1 : bit_and v 0xffff_ffff_0000_ffff ≡ v / 2 ^ 32 * 2 ^ 32 + v % 2 ^ 16
  hole_1 =
      hole 16 32 32 v 0xffff_ffff_0000_ffff (omega arith) (omega arith) (omega arith) ∙ omega arith

  hole_2 : bit_and v 0xffff_0000_ffff_ffff ≡ v / 2 ^ 48 * 2 ^ 48 + v % 2 ^ 32
  hole_2 =
      hole 32 48 16 v 0xffff_0000_ffff_ffff (omega arith) (omega arith) (omega arith) ∙ omega arith

  hole_3 : bit_and v 0x0000_ffff_ffff_ffff ≡ v % 2 ^ 48
  hole_3 = bit_and_mask 48 v

-- The lane below 4 at which a value of 16 bits stands is the first that holds all of it.
module _ (imm16 : ℕ) (h : imm16 < 2 ^ 16) where
  pub factor_lane_32 :
      (hw : ℕ)
      → hw < 2
      → (imm16 ≢ 0) ⊎ (hw ≡ 0)
      → factor_loop 2 (imm16 * 2 ^ (hw * 16)) 0 ≡ ok (imm16, hw)
  unfolding factor_loop
  factor_lane_32 zero k nz = ground (arith, hole_0 imm16 (omega arith), bit_and_mask 16 imm16)
  factor_lane_32 (suc zero) k nz = ground (
    arith,
    hole_0 (imm16 * 2 ^ 16) (omega arith),
    hole_1 (imm16 * 2 ^ 16) (omega arith),
    bit_and_mask 16 imm16,
  )
  factor_lane_32 (suc (suc n)) k nz = absurd (omega arith)

  pub factor_lane_64 :
      (hw : ℕ)
      → hw < 4
      → (imm16 ≢ 0) ⊎ (hw ≡ 0)
      → factor_loop 4 (imm16 * 2 ^ (hw * 16)) 0 ≡ ok (imm16, hw)
  unfolding factor_loop
  factor_lane_64 zero k nz = ground (arith, hole_0 imm16 (omega arith), bit_and_mask 16 imm16)
  factor_lane_64 (suc zero) k nz = ground (
    arith,
    hole_0 (imm16 * 2 ^ 16) (omega arith),
    hole_1 (imm16 * 2 ^ 16) (omega arith),
    bit_and_mask 16 imm16,
  )
  factor_lane_64 (suc (suc zero)) k nz = ground (
    arith,
    hole_0 (imm16 * 2 ^ 32) (omega arith),
    hole_1 (imm16 * 2 ^ 32) (omega arith),
    hole_2 (imm16 * 2 ^ 32) (omega arith),
    bit_and_mask 16 imm16,
  )
  factor_lane_64 (suc (suc (suc zero))) k nz = ground (
    arith,
    hole_0 (imm16 * 2 ^ 48) (omega arith),
    hole_1 (imm16 * 2 ^ 48) (omega arith),
    hole_2 (imm16 * 2 ^ 48) (omega arith),
    hole_3 (imm16 * 2 ^ 48) (omega arith),
    bit_and_mask 16 imm16,
  )
  factor_lane_64 (suc (suc (suc (suc n)))) k nz = absurd (omega arith)

-- `(imm16 as u64) << shift`, with the shift of lane `hw`.
abbrev pub lane : ℕ → ℕ → ℕ
lane imm16 hw = shl64 imm16 (as_u8 (hw * 16))

pub lane_32 :
    (imm16 hw : ℕ)
    → imm16 < 2 ^ 16
    → hw < 2
    → (lane imm16 hw ≡ imm16 * 2 ^ (hw * 16)) × (lane imm16 hw < 2 ^ 32)
lane_32 imm16 zero h k = omega arith
lane_32 imm16 (suc zero) h k = omega arith
lane_32 imm16 (suc (suc n)) h k = absurd (omega arith)

pub lane_64 :
    (imm16 hw : ℕ)
    → imm16 < 2 ^ 16
    → hw < 4
    → (lane imm16 hw ≡ imm16 * 2 ^ (hw * 16)) × (lane imm16 hw < 2 ^ 64)
lane_64 imm16 zero h k = omega arith
lane_64 imm16 (suc zero) h k = omega arith
lane_64 imm16 (suc (suc zero)) h k = omega arith
lane_64 imm16 (suc (suc (suc zero))) h k = omega arith
lane_64 imm16 (suc (suc (suc (suc n)))) h k = absurd (omega arith)
