-- ===== src/Decode/Bits/Laws.antt =====
-- The primitives of src/decode/bits.rs as arithmetic.
use f_arm.Base.{ℕ, ◌/◌, ◌%◌, ◌^◌, ◌<◌, ◌≡◌, arith, ◌⊎◌}
use f_arm.Base.Bits.{bit_and_mask}
use f_arm.Decode.Bits.{bits, bit}

-- A field narrower than the word is a remainder.
pub bits_lem :
    (w lsb width : ℕ) → 2 ^ width < 2 ^ 32 → width < 32 → bits w lsb width ≡ w / 2 ^ lsb % 2 ^ width
unfolding bits
bits_lem w lsb width h k = ground (arith, bit_and_mask width (w / 2 ^ lsb))

pub bit_lem : (w at : ℕ) → bit w at ≡ w / 2 ^ at % 2
unfolding bit
bit_lem w at = bit_and_mask 1 (w / 2 ^ at)

pub bit-cases : (w at : ℕ) → (bit w at ≡ 0) ⊎ (bit w at ≡ 1)
bit-cases w at = ground (arith, bit_lem w at)
