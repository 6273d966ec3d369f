-- ===== src/Decode/Bits.antt =====
-- src/decode/bits.rs: the bit-field primitives, the sign extension and the logical immediate.
pub mod Laws
use f_arm.Base.{ℕ, zero, suc, ◌+◌, ◌-◌, ◌/◌, ◌%◌, bit_and, bit_or, ltb, leb, ◌==◌, ◌!=◌}
use f_arm.Base.{if◌then◌else◌, Bool, true, false, not, ◌&&◌, ◌||◌, Option, none, some}
use f_arm.Base.{ℤ, pos, negsuc, sub_ℕ, asr, shr, shl32, shl64, not32, wrapping_sub, as_u32, as_i64}
use f_arm.Base.{u32_max, u64_max}

unfoldable pub bits : ℕ → ℕ → ℕ → ℕ
bits word lsb width =
    if width == 0
    then 0
    else let mask = if leb 32 width then u32_max else shl32 1 width - 1 in
      bit_and (shr word lsb) mask

unfoldable pub bit : ℕ → ℕ → ℕ
bit word at = bit_and (shr word at) 1

unfoldable pub bits64 : ℕ → ℕ → ℕ → ℕ
bits64 value lsb width =
    if width == 0
    then 0
    else let mask = if leb 64 width then u64_max else shl64 1 width - 1 in
      bit_and (shr value lsb) mask

unfoldable pub sign_extend : ℕ → ℕ → ℤ
sign_extend value bits =
    if bits == 0 || leb 64 bits
    then as_i64 value
    else let shift = 64 - bits in asr (as_i64 (shl64 value shift)) shift

-- `u64::leading_zeros`, counted from the top bit down; the first argument is the bits left to test.
unfoldable pub leading_zeros : ℕ → ℕ → ℕ
leading_zeros zero value = 0
leading_zeros (suc left) value =
    let rest = leading_zeros left value in if bit_and (shr value left) 1 == 1 then 0 else 1 + rest

unfoldable pub highest_set_bit : ℕ → ℤ
unfolding leading_zeros
highest_set_bit value = if value == 0 then negsuc 0 else sub_ℕ 63 (leading_zeros 64 value)

-- `while shift < to { acc |= unit << shift; shift += from }`, on fuel.
unfoldable pub replicate_loop : ℕ → ℕ → ℕ → ℕ → ℕ → ℕ → ℕ
replicate_loop zero unit from to acc shift = acc
replicate_loop (suc fuel) unit from to acc shift =
    let rest = replicate_loop fuel unit from to (bit_or acc (shl64 unit shift)) (shift + from) in
    if ltb shift to then rest else acc

-- `from` is at least 1 where the loop runs, so `to` rounds are enough.
unfoldable pub replicate : ℕ → ℕ → ℕ → ℕ
unfolding replicate_loop bits64
replicate value from to =
    if from == 0 || ltb 64 from || to == 0 || ltb 64 to || ltb to from
    then value
    else let unit = bits64 value 0 from in bits64 (replicate_loop to unit from to 0 0) 0 to

pub record BitMasks : Type 0 where
  pub wmask : ℕ
  pub tmask : ℕ

unfoldable pub ones : ℕ → ℕ
ones n = if n == 0 then 0 else if leb 64 n then u64_max else shl64 1 n - 1

unfoldable pub ror : ℕ → ℕ → ℕ → ℕ
unfolding bits64
ror x shift width =
    let x' = bits64 x 0 width in
    if shift == 0 then x' else bits64 (bit_or (shr x' shift) (shl64 x' (width - shift))) 0 width

-- The body of `decode_bit_masks` from `let len = len as u32` on.
unfoldable pub masks_of_len : ℕ → ℕ → ℕ → Bool → ℕ → Option BitMasks
unfolding ones ror replicate bits64
masks_of_len len imms immr immediate m =
    let levels = as_u32 (ones len) in
    if immediate && bit_and imms levels == levels
    then none
    else let s = bit_and imms levels in
      let r = bit_and immr levels in
      let diff = wrapping_sub s r in
      let esize = shl32 1 len in
      let d = bits64 diff 0 len in
      let welem = ones (s + 1) in
      let telem = ones (d + 1) in
      let welem_ror = ror welem (r % esize) esize in
      some (record { wmask = replicate welem_ror esize m; tmask = replicate telem esize m })

unfoldable pub decode_bit_masks : ℕ → ℕ → ℕ → Bool → ℕ → Option BitMasks
unfolding highest_set_bit masks_of_len
decode_bit_masks imm_n imms immr immediate m =
    let imms' = bit_and imms 0x3f in
    let immr' = bit_and immr 0x3f in
    let concat = bit_or (shl32 (bit_and imm_n 1) 6) (bit_and (not32 imms') 0x3f) in
    elim (highest_set_bit concat) [
      | negsuc _ ↦ none
      | pos zero ↦ none
      | pos (suc n) ↦ masks_of_len (suc n) imms' immr' immediate m
    ]

-- `(-r).rem_euclid(16)` is `(16 - r % 16) % 16`.
unfoldable pub move_wide_preferred : ℕ → ℕ → ℕ → ℕ → Bool
unfolding bit
move_wide_preferred sf imm_n imms immr =
    let sf' = bit_and sf 1 in
    let imm_n' = bit_and imm_n 1 in
    let s = bit_and imms 0x3f in
    let r = bit_and immr 0x3f in
    let width : ℕ = if sf' == 1 then 64 else 32 in
    if sf' == 1 && imm_n' != 1
    then false
    else if sf' == 0 && not (imm_n' == 0 && bit s 5 == 0)
    then false
    else if ltb s 16
    then leb ((16 - r % 16) % 16) (15 - s)
    else if leb (width - 15) s
    then leb (r % 16) (s - (width - 15))
    else false
