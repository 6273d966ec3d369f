-- ===== src/Masks/Narrow.antt =====
-- The rows of the table at data size 64 with `N = 0`.
use f_arm.Base.{◌≡◌, refl, true, all_below}
use f_arm.Decode.Bits.{decode_bit_masks}
use f_arm.Encode.Bits.{
  encode_bit_masks, esize_loop, try_esize, replicates, encode_element, pack_n_imms, trailing_zeros,
  confirm, mask, cut_wmask,
}
use f_arm.Masks.Table.{element_size, described, gives, entry, rows}

pub narrow_0 : rows 64 0 0 ≡ true
unfolding entry element_size all_below described gives decode_bit_masks encode_bit_masks esize_loop
    try_esize replicates encode_element pack_n_imms trailing_zeros confirm mask cut_wmask
narrow_0 = refl

pub narrow_16 : rows 64 0 16 ≡ true
unfolding entry element_size all_below described gives decode_bit_masks encode_bit_masks esize_loop
    try_esize replicates encode_element pack_n_imms trailing_zeros confirm mask cut_wmask
narrow_16 = refl

pub narrow_32 : rows 64 0 32 ≡ true
unfolding entry element_size all_below described gives decode_bit_masks encode_bit_masks esize_loop
    try_esize replicates encode_element pack_n_imms trailing_zeros confirm mask cut_wmask
narrow_32 = refl

pub narrow_48 : rows 64 0 48 ≡ true
unfolding entry element_size all_below described gives decode_bit_masks encode_bit_masks esize_loop
    try_esize replicates encode_element pack_n_imms trailing_zeros confirm mask cut_wmask
narrow_48 = refl
