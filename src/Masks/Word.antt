-- ===== src/Masks/Word.antt =====
-- The rows of the table at data size 32 with `N = 0`.
use f_arm.Base.{◌≡◌, refl, true, all_below}
use f_arm.Decode.Bits.{decode_bit_masks}
use f_arm.Encode.Bits.{
  encode_bit_masks, esize_loop, try_esize, replicates, encode_element, pack_n_imms, trailing_zeros,
  confirm, mask, cut_wmask,
}
use f_arm.Masks.Table.{element_size, described, gives, entry, rows}

pub word_0 : rows 32 0 0 ≡ true
unfolding entry element_size all_below described gives decode_bit_masks encode_bit_masks esize_loop
    try_esize replicates encode_element pack_n_imms trailing_zeros confirm mask cut_wmask
word_0 = refl

pub word_16 : rows 32 0 16 ≡ true
unfolding entry element_size all_below described gives decode_bit_masks encode_bit_masks esize_loop
    try_esize replicates encode_element pack_n_imms trailing_zeros confirm mask cut_wmask
word_16 = refl

pub word_32 : rows 32 0 32 ≡ true
unfolding entry element_size all_below described gives decode_bit_masks encode_bit_masks esize_loop
    try_esize replicates encode_element pack_n_imms trailing_zeros confirm mask cut_wmask
word_32 = refl

pub word_48 : rows 32 0 48 ≡ true
unfolding entry element_size all_below described gives decode_bit_masks encode_bit_masks esize_loop
    try_esize replicates encode_element pack_n_imms trailing_zeros confirm mask cut_wmask
word_48 = refl
