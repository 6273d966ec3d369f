-- ===== src/Masks/Table.antt =====
-- Every field triple of a logical immediate, checked by evaluation against a description that
-- does not mention rotation, replication or the search.
use f_arm.Base.{ℕ, zero, suc, ◌+◌, ◌-◌, ◌%◌, ◌^◌, Bool, true, false, not, ◌&&◌, ◌||◌}
use f_arm.Base.{◌==◌, leb, ltb, if◌then◌else◌, Option, none, some, all_below}
use f_arm.Decode.Bits.{decode_bit_masks}
use f_arm.Encode.Bits.{encode_bit_masks, cut_wmask}

-- The element size that `N:imms` selects.
unfoldable pub element_size : ℕ → ℕ → ℕ
element_size n imms =
    if n == 1
    then 64
    else if ltb imms 32
    then 32
    else if ltb imms 48
    then 16
    else if ltb imms 56
    then 8
    else if ltb imms 60
    then 4
    else 2

-- The fields that name no immediate: an element of ones alone, or no element size at all.
abbrev pub is_reserved : ℕ → ℕ → Bool
is_reserved n imms =
    imms % element_size n imms == element_size n imms - 1 || (n == 0 && leb 62 imms)

-- The `count` low bits of the number whose bit `i` is set where `(i + r) % e ≤ s`.
unfoldable pub described : ℕ → ℕ → ℕ → ℕ → ℕ
described zero e s r = 0
described (suc i) e s r = described i e s r + (if leb ((i + r) % e) s then 2 ^ i else 0)

unfoldable pub gives : Option (ℕ × ℕ × ℕ) → ℕ → ℕ → ℕ → Bool
gives none n immr imms = false
gives (some (n', immr', imms')) n immr imms = n' == n && immr' == immr && imms' == imms

unfoldable pub entry : ℕ → ℕ → ℕ → ℕ → Bool
entry ds n imms immr =
    let e = element_size n imms in
    elim (decode_bit_masks n imms immr true ds) [
      | none ↦ is_reserved n imms
      | some m ↦
          let v = cut_wmask ds m in
          not (is_reserved n imms)
          && v == described ds e (imms % e) (immr % e)
          && gives (encode_bit_masks v ds) n (immr % e) imms
    ]

-- Sixteen rows of the table, each over all values of `immr`.
abbrev pub rows : ℕ → ℕ → ℕ → Bool
rows ds n base = all_below 16 (λ k. all_below 64 (entry ds n (base + k)))
