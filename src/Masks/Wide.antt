-- ===== src/Masks/Wide.antt =====
-- The rows of the table at data size 64 with `N = 1`.
use f_arm.Base.{◌≡◌, refl, true, all_below}
use f_arm.Decode.Bits.{decode_bit_masks}
use f_arm.Encode.Bits.{
  encode_bit_masks, esize_loop, try_esize, replicates, encode_element, pack_n_imms, trailing_zeros,
  confirm, mask, cut_wmask,
}
use f_arm.Masks.Table.{element_size, described, gives, entry, rows}

pub wide_0 : rows 64 1 0 ≡ true
unfolding entry element_size all_below described gives decode_bit_masks encode_bit_masks esize_loop
    try_esize replicates encode_element pack_n_imms trailing_zeros confirm mask cut_wmask
wide_0 = refl

pub wide_16 : rows 64 1 16 ≡ true
unfolding entry element_size all_below described gives decode_bit_masks encode_bit_masks esize_loop
    try_esize replicates encode_element pack_n_imms trailing_zeros confirm mask cut_wmask
wide_16 = refl

pub wide_32 : rows 64 1 32 ≡ true
unfolding entry element_size all_below described gives decode_bit_masks encode_bit_masks esize_loop
    try_esize replicates encode_element pack_n_imms trailing_zeros confirm mask cut_wmask
wide_32 = refl

pub wide_48 : rows 64 1 48 ≡ true
unfolding entry element_size all_below described gives decode_bit_masks encode_bit_masks esize_loop
    try_esize replicates encode_element pack_n_imms trailing_zeros confirm mask cut_wmask
wide_48 = refl
