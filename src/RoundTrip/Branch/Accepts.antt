-- ===== src/RoundTrip/Branch/Accepts.antt =====
-- src/encode/branch_sys.rs: the labels that `rel_imm` accepts.
use f_arm.Base.{
  ℕ, ◌+◌, ◌-◌, ◌*◌, ◌/◌, ◌%◌, ◌^◌, ◌<◌, ◌≤◌, ◌≡◌, ◌∙◌, ◌↔◌, arith, refl, ap, sym, bit_and,
  if◌then◌else◌,
}
use f_arm.Base.{wrapping_sub, i64_as_u64, as_i64, pos, negsuc, shl32, shl64, u64_max, ltb}
use f_arm.Base.Bits.{bit_and_mask}
use f_arm.Decode.Bits.{sign_extend}
use f_arm.Decode.BranchSys.Fields.{branch_target}
use f_arm.Encode.BranchSys.Fields.{overflows, rel_imm}
use f_arm.Encode.Error.{ok}
use f_arm.RoundTrip.PcRel.{as_i64_pos, as_i64_neg, sign_extend_21}
use f_arm.RoundTrip.Branch.Labels.{
  sign_extend_28, sign_extend_16, sign_extend_11, rel_imm-target_26, rel_imm-target_19,
  rel_imm-target_14, rel_imm-target_9,
}
use native.Mathlib.Decide.{dec_lt}
use native.Mathlib.Nat.{mod-eq_of_lt, div-lt_iff_lt-mul}

module _ (target ip bits imm d : ℕ) where
  -- An accepted target ahead.
  read_forward :
      as_i64 (wrapping_sub target ip) ≡ pos d
      → d < 2 ^ 63
      → rel_imm target ip bits 2 ≡ ok imm
      → (d % 4 ≡ 0)
        × (d / 4 / 2 ^ (bits - 1) ≡ 0)
        × (bit_and (d / 4 % 2 ^ 32) (shl32 1 bits - 1) ≡ imm)
  unfolding rel_imm overflows
  read_forward e h = rw e (ground (arith, bit_and_mask 2 (d % 2 ^ 64)))

  -- An accepted target behind.
  read_backward :
      as_i64 (wrapping_sub target ip) ≡ negsuc d
      → d < 2 ^ 63
      → rel_imm target ip bits 2 ≡ ok imm
      → (d % 4 ≡ 3)
        × (d / 4 / 2 ^ (bits - 1) ≡ 0)
        × (bit_and (2 ^ 32 - 1 - d / 4 % 2 ^ 32) (shl32 1 bits - 1) ≡ imm)
  unfolding rel_imm overflows
  read_backward e h = rw e (ground (arith, bit_and_mask 2 (u64_max - d % 2 ^ 64)))

module _ (target ip bits half imm : ℕ) (small : half < 2 ^ 31) (top : 2 ^ (bits - 1) ≡ half)
    (whole : 2 ^ bits ≡ 2 * half) (some : 0 < half)
    (turn : (v : ℕ) → v < half → (2 ^ 32 - 1 - v) % (2 * half) ≡ 2 * half - 1 - v) where
  -- A quotient that vanishes, and a field that the mask leaves whole.
  below : (q : ℕ) → q / 2 ^ (bits - 1) ≡ 0 → q < half
  below q e =
      let h : q < 1 * 2 ^ (bits - 1) =
        (div-lt_iff_lt-mul {k = 2 ^ (bits - 1)} {x = q} {y = 1} (omega (arith, top))).0
          (omega (arith, e)) in
      omega (arith, h, top)

  masked : (v : ℕ) → v < 2 * half → bit_and v (shl32 1 bits - 1) ≡ v
  masked v h =
      ap (λ (m : ℕ). bit_and v (m - 1)) (omega (arith, whole))
      ∙ bit_and_mask bits v
      ∙ mod-eq_of_lt {n = v} {m = 2 ^ bits} (omega (arith, whole))

  high_masked : (v : ℕ) → v < half → bit_and (2 ^ 32 - 1 - v) (shl32 1 bits - 1) ≡ 2 * half - 1 - v
  high_masked v h =
      ap (λ (m : ℕ). bit_and (2 ^ 32 - 1 - v) (m - 1)) (omega (arith, whole))
      ∙ bit_and_mask bits (2 ^ 32 - 1 - v)
      ∙ ap (λ (m : ℕ). (2 ^ 32 - 1 - v) % m) whole
      ∙ turn v h

  forward :
      wrapping_sub target ip < 2 ^ 63
      → rel_imm target ip bits 2 ≡ ok imm
      → (wrapping_sub target ip ≡ 4 * imm) × (imm < half)
  forward h e =
      let d = wrapping_sub target ip in
      let (aligned, near, field) = read_forward target ip bits imm d (as_i64_pos d h) h e in
      let near' : d / 4 < half = below (d / 4) near in
      let read = masked (d / 4 % 2 ^ 32) (omega arith) in (omega arith, omega arith)

  backward :
      2 ^ 63 ≤ wrapping_sub target ip
      → rel_imm target ip bits 2 ≡ ok imm
      → (wrapping_sub target ip + 8 * half ≡ 2 ^ 64 + 4 * imm) × (half ≤ imm) × (imm < 2 * half)
  backward h e =
      let d = wrapping_sub target ip in
      let (aligned, near, field) =
        read_backward target ip bits imm (u64_max - d) (as_i64_neg d h) (omega arith) e in
      let near' : (u64_max - d) / 4 < half = below ((u64_max - d) / 4) near in
      let q = (u64_max - d) / 4 % 2 ^ 32 in
      let read = high_masked q (omega arith) in (omega arith, omega arith, omega arith)

  -- An accepted field leads to the label, where its extension is the signed offset.
  sound :
      target < 2 ^ 64
      → ip < 2 ^ 64
      → (imm < 2 * half
          → i64_as_u64 (sign_extend (shl64 imm 2) (bits + 2))
            ≡ (if ltb imm half then 4 * imm else 2 ^ 64 + 4 * imm - 8 * half))
      → rel_imm target ip bits 2 ≡ ok imm
      → (imm < 2 * half) × (branch_target ip imm (bits + 2) ≡ target)
  unfolding branch_target
  sound ht hip offset e = elim (dec_lt (wrapping_sub target ip) (2 ^ 63)) [
    | yes h ↦ let (d, near) = forward h e in ground (arith, offset)
    | no h ↦ let (d, far, near) = backward (omega arith) e in ground (arith, offset)
  ]

-- The fields that hold a label, in bits.
pub data FieldWidth : ℕ → Type 0 where
  branch : FieldWidth 26
  conditional : FieldWidth 19
  test : FieldWidth 14
  compare : FieldWidth 9

-- A label is accepted and gives the field `imm` exactly where `imm` fits the field and the decoder
-- puts the target of `imm` at the label, for each of the four widths and 64-bit addresses.
pub rel_imm_lem :
    {bits : ℕ} (width : FieldWidth bits) (target ip imm : ℕ)
    → target < 2 ^ 64
    → ip < 2 ^ 64
    → (rel_imm target ip bits 2 ≡ ok imm)
      ↔ ((imm < 2 ^ bits) × (branch_target ip imm (bits + 2) ≡ target))
rel_imm_lem FieldWidth.branch target ip imm ht hip = (
  sound target ip 26 (2 ^ 25) imm (omega arith) refl refl (omega arith) (λ v h. omega arith) ht hip
      (λ h. ground (arith, sign_extend_28 (shl64 imm 2))),
  λ (h, e). ap (λ t. rel_imm t ip 26 2) (sym e) ∙ rel_imm-target_26 ip imm hip h,
)
rel_imm_lem FieldWidth.conditional target ip imm ht hip = (
  sound target ip 19 (2 ^ 18) imm (omega arith) refl refl (omega arith) (λ v h. omega arith) ht hip
      (λ h. ground (arith, sign_extend_21 (shl64 imm 2))),
  λ (h, e). ap (λ t. rel_imm t ip 19 2) (sym e) ∙ rel_imm-target_19 ip imm hip h,
)
rel_imm_lem FieldWidth.test target ip imm ht hip = (
  sound target ip 14 (2 ^ 13) imm (omega arith) refl refl (omega arith) (λ v h. omega arith) ht hip
      (λ h. ground (arith, sign_extend_16 (shl64 imm 2))),
  λ (h, e). ap (λ t. rel_imm t ip 14 2) (sym e) ∙ rel_imm-target_14 ip imm hip h,
)
rel_imm_lem FieldWidth.compare target ip imm ht hip = (
  sound target ip 9 (2 ^ 8) imm (omega arith) refl refl (omega arith) (λ v h. omega arith) ht hip
      (λ h. ground (arith, sign_extend_11 (shl64 imm 2))),
  λ (h, e). ap (λ t. rel_imm t ip 9 2) (sym e) ∙ rel_imm-target_9 ip imm hip h,
)
