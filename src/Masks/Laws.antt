-- ===== src/Masks/Laws.antt =====
-- The table, read for any fields of `decode_bit_masks` and `encode_bit_masks`.
use f_arm.Base.{ℕ, ◌+◌, ◌-◌, ◌%◌, ◌<◌, ◌≤◌, ◌≡◌, ◌⊎◌, ◌↔◌, inl, inr, arith, subst}
use f_arm.Base.{true, Option, none, some, all_below_sound}
use f_arm.Decode.Bits.{BitMasks, decode_bit_masks}
use f_arm.Encode.Bits.{encode_bit_masks, cut_wmask}
use f_arm.Masks.Table.{element_size, is_reserved, described, gives, entry, rows}
use f_arm.Masks.Wide.{wide_0, wide_16, wide_32, wide_48}
use f_arm.Masks.Narrow.{narrow_0, narrow_16, narrow_32, narrow_48}
use f_arm.Masks.Word.{word_0, word_16, word_32, word_48}
use native.Mathlib.Decide.{dec_lt}

-- A 64-bit immediate with either `N`, or a 32-bit one with `N = 0`.
abbrev pub IsForm : ℕ → ℕ → Type 0
IsForm ds n = ((ds ≡ 64) × (n < 2)) ⊎ ((ds ≡ 32) × (n ≡ 0))

rows-entry :
    (ds n base k immr : ℕ)
    → rows ds n base ≡ true
    → k < 16
    → immr < 64
    → entry ds n (base + k) immr ≡ true
rows-entry ds n base k immr h hk hr =
    all_below_sound 64 (entry ds n (base + k)) immr (all_below_sound 16 _ k h hk) hr

module _ (ds n : ℕ) (r0 : rows ds n 0 ≡ true) (r1 : rows ds n 16 ≡ true) (r2 : rows ds n 32 ≡ true)
    (r3 : rows ds n 48 ≡ true) where
  four_rows : (imms immr : ℕ) → imms < 64 → immr < 64 → entry ds n imms immr ≡ true
  four_rows imms immr h hr = elim (dec_lt imms 16) [
    | yes p ↦ at 0 r0 (omega arith) (omega arith)
    | no p ↦ elim (dec_lt imms 32) [
      | yes q ↦ at 16 r1 (omega arith) (omega arith)
      | no q ↦ elim (dec_lt imms 48) [
        | yes s ↦ at 32 r2 (omega arith) (omega arith)
        | no s ↦ at 48 r3 (omega arith) (omega arith)
      ]
    ]
  ]
    where
      at :
          (base : ℕ)
          → rows ds n base ≡ true
          → base ≤ imms
          → imms < base + 16
          → entry ds n imms immr ≡ true
      at base row lo hi =
          subst (λ x. entry ds n x immr ≡ true) (omega arith)
            (rows-entry ds n base (imms - base) immr row (omega arith) hr)

entry-true :
    (ds n imms immr : ℕ) → IsForm ds n → imms < 64 → immr < 64 → entry ds n imms immr ≡ true
entry-true ds n imms immr (inl (e, h)) hs hr = elim (dec_lt n 1) [
  | yes p ↦
      let zero_eq : n ≡ 0 = omega arith in
      rw (e, zero_eq) (four_rows 64 0 narrow_0 narrow_16 narrow_32 narrow_48 imms immr hs hr)
  | no p ↦
      let one_eq : n ≡ 1 = omega arith in
      rw (e, one_eq) (four_rows 64 1 wide_0 wide_16 wide_32 wide_48 imms immr hs hr)
]
entry-true ds n imms immr (inr (e, h)) hs hr =
    rw (e, h) (four_rows 32 0 word_0 word_16 word_32 word_48 imms immr hs hr)

gives-eq :
    (o : Option (ℕ × ℕ × ℕ)) (n immr imms : ℕ)
    → gives o n immr imms ≡ true
    → o ≡ some (n, immr, imms)
unfolding gives
gives-eq none n immr imms h = cc
gives-eq (some (n', immr', imms')) n immr imms h = ground arith

module _ (ds n imms immr : ℕ) (form : IsForm ds n) (hs : imms < 64) (hr : immr < 64) where
  -- Where fields of a logical immediate decode, encoding the value gives the fields back, the
  -- rotation reduced modulo the element size.
  pub encode-decode_bit_masks :
      (m : BitMasks)
      → decode_bit_masks n imms immr true ds ≡ some m
      → encode_bit_masks (cut_wmask ds m) ds ≡ some (n, immr % element_size n imms, imms)
  unfolding entry
  encode-decode_bit_masks m e = ground (
    arith,
    entry-true ds n imms immr form hs hr,
    gives-eq (encode_bit_masks (cut_wmask ds m) ds) n (immr % element_size n imms) imms,
  )

  -- Where fields of a logical immediate decode, the value is the described one.
  pub decode_bit_masks-described :
      (m : BitMasks)
      → decode_bit_masks n imms immr true ds ≡ some m
      → cut_wmask ds m
        ≡ described ds
            (element_size n imms)
            (imms % element_size n imms)
            (immr % element_size n imms)
  unfolding entry
  decode_bit_masks-described m e = ground (arith, entry-true ds n imms immr form hs hr)

  -- Fields of a logical immediate are rejected exactly where they are reserved: an element of ones
  -- alone, or no element size.
  pub decode_bit_masks_reserved :
      (decode_bit_masks n imms immr true ds ≡ none) ↔ (is_reserved n imms ≡ true)
  unfolding entry
  decode_bit_masks_reserved = ground (arith, entry-true ds n imms immr form hs hr)
