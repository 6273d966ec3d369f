-- ===== src/Encode/Bits.antt =====
-- src/encode/bits.rs: the inverse of the logical immediate. Loops run on fuel: the element size
-- doubles from 2 up to 64, so six rounds are enough, and a rotation is below the element size.
use f_arm.Base.{ℕ, zero, suc, ◌+◌, ◌-◌, ◌%◌, bit_and, bit_or, ltb, leb, ◌==◌, if◌then◌else◌}
use f_arm.Base.{Bool, true, ◌&&◌, ◌||◌, Option, none, some, shr, shl32, shl64, u64_max, as_u32}
use f_arm.Decode.Bits.{BitMasks, decode_bit_masks}

unfoldable pub mask : ℕ → ℕ
mask width = if leb 64 width then u64_max else shl64 1 width - 1

-- `while shift < datasize { acc |= elem << shift; shift += esize }`
unfoldable pub replicates_loop : ℕ → ℕ → ℕ → ℕ → ℕ → ℕ → ℕ
replicates_loop zero elem esize datasize acc shift = acc
replicates_loop (suc fuel) elem esize datasize acc shift =
    let rest =
      replicates_loop fuel elem esize datasize (bit_or acc (shl64 elem shift)) (shift + esize) in
    if ltb shift datasize then rest else acc

unfoldable pub replicates : ℕ → ℕ → ℕ → ℕ → Bool
unfolding replicates_loop
replicates elem esize datasize value = replicates_loop datasize elem esize datasize 0 0 == value

unfoldable pub ror_elem : ℕ → ℕ → ℕ → ℕ
unfolding mask
ror_elem x shift width =
    let x' = bit_and x (mask width) in
    if shift == 0
    then x'
    else bit_and (bit_or (shr x' shift) (shl64 x' (width - shift))) (mask width)

-- `u64::count_ones`, over the digits from the lowest of those that are left.
unfoldable pub count_ones : ℕ → ℕ → ℕ
count_ones zero value = 0
count_ones (suc left) value = bit_and value 1 + count_ones left (shr value 1)

-- `while r < esize { … r += 1 }`, with the rounds that are left.
unfoldable pub find_rotation : ℕ → ℕ → ℕ → ℕ → ℕ → Option ℕ
unfolding ror_elem
find_rotation zero ones elem esize r = none
find_rotation (suc left) ones elem esize r =
    let rest = find_rotation left ones elem esize (r + 1) in
    if ror_elem ones r esize == elem then some r else rest

unfoldable pub encode_element : ℕ → ℕ → Option (ℕ × ℕ)
unfolding find_rotation count_ones mask
encode_element elem₀ esize =
    let elem' = bit_and elem₀ (mask esize) in
    if elem' == 0 || elem' == mask esize
    then none
    else let count = count_ones 64 elem' in
      elim (find_rotation esize (mask count) elem' esize 0) [
        | none ↦ none
        | some r ↦ some (r, count - 1)
      ]

unfoldable pub pack_n_imms : ℕ → ℕ → ℕ × ℕ
unfolding mask
pack_n_imms len s =
    if len == 6
    then (1, bit_and s 0x3f)
    else (let high_ones = shl32 (shr 0x3f (len + 1)) (len + 1) in
        let imms = bit_or high_ones (bit_and s (as_u32 (mask len))) in (0, bit_and imms 0x3f))

-- `u32::trailing_zeros` of an element size, over the digits that are left.
unfoldable pub trailing_zeros : ℕ → ℕ → ℕ
trailing_zeros zero value = 0
trailing_zeros (suc left) value =
    let rest = trailing_zeros left (shr value 1) in if bit_and value 1 == 1 then 0 else 1 + rest

-- `wmask`, cut to the data size.
unfoldable pub cut_wmask : ℕ → BitMasks → ℕ
cut_wmask datasize m = if datasize == 32 then bit_and m.wmask 0xffff_ffff else m.wmask

-- The guard on one candidate: the fields are returned if they decode to `value`.
unfoldable pub confirm : ℕ → ℕ → ℕ → ℕ → ℕ → Option (ℕ × ℕ × ℕ)
confirm value datasize n immr imms = elim (decode_bit_masks n imms immr true datasize) [
  | none ↦ none
  | some m ↦ if cut_wmask datasize m == value then some (n, immr, imms) else none
]

-- One round of the loop; `none` goes on to the next element size.
unfoldable pub try_esize : ℕ → ℕ → ℕ → Option (ℕ × ℕ × ℕ)
try_esize value datasize esize =
    if datasize % esize == 0 && replicates (bit_and value (mask esize)) esize datasize value
    then elim (encode_element (bit_and value (mask esize)) esize) [
      | none ↦ none
      | some (immr, imms) ↦
          let (n, imms_field) = pack_n_imms (trailing_zeros 32 esize) imms in
          confirm value datasize n immr imms_field
    ]
    else none

unfoldable pub esize_loop : ℕ → ℕ → ℕ → ℕ → Option (ℕ × ℕ × ℕ)
esize_loop zero value datasize esize = none
esize_loop (suc fuel) value datasize esize =
    let rest = esize_loop fuel value datasize (shl32 esize 1) in
    if leb esize datasize
    then elim (try_esize value datasize esize) [ some fields ↦ some fields | none ↦ rest ]
    else none

unfoldable pub encode_bit_masks : ℕ → ℕ → Option (ℕ × ℕ × ℕ)
encode_bit_masks value₀ datasize₀ =
    let datasize : ℕ = if datasize₀ == 32 then 32 else 64 in
    let value : ℕ = if datasize == 32 then bit_and value₀ 0xffff_ffff else value₀ in
    let full : ℕ = if datasize == 64 then u64_max else 0xffff_ffff in
    if value == 0 || value == full then none else esize_loop 6 value datasize 2
