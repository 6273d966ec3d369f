-- ===== src/Tests/Witnesses.antt =====
-- The theorems at concrete words, values and streams.
use f_arm.Base.{ℕ, ◌/◌, ◌%◌, ◌^◌, ◌+◌, ◌≡◌, ◌⊎◌, ◌↔◌, inl, inr, refl, arith, true, false}
use f_arm.Base.{List, [], ◌∷◌, length, none, some, leb, if◌then◌else◌}
use f_arm.Decode.Bits.{BitMasks, bit, bits, decode_bit_masks}
use f_arm.Decode.BranchSys.{SystemDecoders}
use f_arm.Decode.DpImm.{decode, decode_pc_rel, decode_logical_imm, decode_move_wide}
use f_arm.Decode.DpImm.Bitfield.{decode_bitfield}
use f_arm.Decode.Tree.{GroupDecoders, decode_into as decode_word}
use f_arm.Decoder.{Decoder, DecoderOptions, can_decode, new, decode_into, set_position, drain}
use f_arm.Decoder.Laws.{
  Synced, decode_all, decode_into-end, decode_into-Synced, drain-new, length-drain,
  set_position-Synced,
}
use f_arm.Encode.Bits.{
  encode_bit_masks, cut_wmask, esize_loop, try_esize, replicates, encode_element, pack_n_imms,
  trailing_zeros, confirm, mask,
}
use f_arm.Encode.DpImm.{encode}
use f_arm.Encode.DpImm.Arithmetic.{enc_pc_rel}
use f_arm.Encode.DpImm.Bitfield.{enc_bitfield}
use f_arm.Encode.DpImm.Constant.{enc_logical_imm, enc_move_wide}
use f_arm.Encode.Error.{ok}
use f_arm.Error.{DecodeError}
use f_arm.Features.{all_features}
use f_arm.Instruction.{Instruction, is_invalid, no_operands}
use f_arm.Instruction.Decoded.{decode-WellFormed}
use f_arm.Instruction.Laws.{WellFormed}
use f_arm.Masks.Described.{decode_bit_masks-digit}
use f_arm.Masks.Laws.{encode-decode_bit_masks, decode_bit_masks_reserved}
use f_arm.Masks.Search.{Names, encode_bit_masks_sound, encode_bit_masks_complete}
use f_arm.Masks.Table.{element_size, is_reserved}
use f_arm.Mnemonic.{Code, Mnemonic}
use f_arm.RoundTrip.Bitfield.{enc-decode_bitfield}
use f_arm.RoundTrip.Group.{canonical, encode-decode_dp_imm}
use f_arm.RoundTrip.Logical.{with_rotation, enc-decode_logical}
use f_arm.RoundTrip.MoveWide.{enc-decode_move_wide}
use f_arm.RoundTrip.PcRel.{enc-decode_pc_rel}
use f_arm.RoundTrip.Whole.{encode-decode_into}

-- System blocks and group decoders that allocate nothing.
abbrev pub no_system : SystemDecoders
no_system = record {
  system = λ word features out. out;
  system_pair = λ word features out. out;
  tchange = λ word features out. out;
}

abbrev pub no_groups : GroupDecoders
no_groups = record {
  apple = λ word features out. out;
  sme = λ word ip features out. out;
  sve = λ word ip features out. out;
  system = no_system;
  ldst = λ word ip features out. out;
  simd_fp = λ word ip features out. out;
}

abbrev pub blank : Instruction
blank = record {
  word = 0;
  ip = 0x1000;
  code = Code.invalid;
  mnemonic = Mnemonic.invalid;
  op_count = 0;
  flags = 0;
  operands = no_operands;
}

abbrev options : DecoderOptions
options = record { features = all_features }

-- `add w0, w1, #1`, two bytes of the next word.
abbrev stream : List ℕ
stream = 0x20 ∷ 0x04 ∷ 0x00 ∷ 0x11 ∷ 0x1f ∷ 0x20 ∷ []

abbrev start : Decoder
start = record {
  bytes = stream;
  pos = 0;
  ip = 0x1000;
  options = options;
  last_error = DecodeError.none;
}

encode-decode_into_example :
    (is_invalid (decode_word no_groups 0x1100_0420 0x1000 all_features) ≡ true)
    ⊎ (encode (decode_word no_groups 0x1100_0420 0x1000 all_features) ≡ ok (canonical 0x1100_0420))
encode-decode_into_example =
    encode-decode_into no_groups 0x1100_0420 0x1000 all_features (omega arith) (omega arith)
      (omega arith) (omega arith)

encode-decode_dp_imm_example :
    (decode 0xd344_fc20 0x1000 all_features blank ≡ blank)
    ⊎ (encode (decode 0xd344_fc20 0x1000 all_features blank) ≡ ok (canonical 0xd344_fc20))
encode-decode_dp_imm_example =
    encode-decode_dp_imm 0xd344_fc20 blank all_features (omega arith) (omega arith) (omega arith)
      (omega arith)

encode_bit_masks_sound_example : Names 64 0xff (1, 0, 7)
unfolding encode_bit_masks esize_loop try_esize replicates encode_element pack_n_imms trailing_zeros
    confirm mask cut_wmask decode_bit_masks
encode_bit_masks_sound_example =
    encode_bit_masks_sound 64 0xff (1, 0, 7) (inr refl) (omega arith) refl

encode_bit_masks_complete_example : ¬ Names 32 5 (0, 0, 7)
unfolding encode_bit_masks esize_loop try_esize replicates encode_element pack_n_imms trailing_zeros
    confirm mask cut_wmask decode_bit_masks
encode_bit_masks_complete_example =
    encode_bit_masks_complete 32 5 (0, 0, 7) (inr (refl, refl)) (omega arith) (omega arith) refl

abbrev low_byte : BitMasks
low_byte = record { wmask = 0xff; tmask = 0xff }

encode-decode_bit_masks_example :
    encode_bit_masks (cut_wmask 64 low_byte) 64 ≡ some (1, 0 % element_size 1 7, 7)
unfolding decode_bit_masks
encode-decode_bit_masks_example =
    encode-decode_bit_masks 64 1 7 0 (inl (refl, omega arith)) (omega arith) (omega arith) low_byte
      refl

decode_bit_masks-digit_example :
    cut_wmask 64 low_byte / 2 ^ 5 % 2
    ≡ (if leb ((5 + 0 % element_size 1 7) % element_size 1 7) (7 % element_size 1 7) then 1 else 0)
unfolding decode_bit_masks
decode_bit_masks-digit_example =
    decode_bit_masks-digit 64 1 7 0 (inl (refl, omega arith)) (omega arith) (omega arith) low_byte
      refl 5 (omega arith)

decode_bit_masks_reserved_example :
    (decode_bit_masks 1 63 0 true 64 ≡ none) ↔ (is_reserved 1 63 ≡ true)
decode_bit_masks_reserved_example =
    decode_bit_masks_reserved 64 1 63 0 (inl (refl, omega arith)) (omega arith) (omega arith)

enc-decode_logical_example :
    enc_logical_imm (decode_logical_imm 0x9240_1c00 blank)
    ≡ ok (
        with_rotation 0x9240_1c00
          (bits 0x9240_1c00 16 6 % element_size (bit 0x9240_1c00 22) (bits 0x9240_1c00 10 6)))
unfolding bit bits decode_bit_masks
enc-decode_logical_example =
    enc-decode_logical 0x9240_1c00 blank low_byte (omega arith) (omega arith) (inl refl) refl

enc-decode_bitfield_example : enc_bitfield (decode_bitfield 0x9344_fc20 blank) ≡ ok 0x9344_fc20
unfolding bit bits
enc-decode_bitfield_example =
    enc-decode_bitfield 0x9344_fc20 blank (omega arith) (omega arith) (omega arith) refl (inl refl)

enc-decode_move_wide_example : enc_move_wide (decode_move_wide 0xd2a0_0020 blank) ≡ ok 0xd2a0_0020
unfolding bit bits
enc-decode_move_wide_example =
    enc-decode_move_wide 0xd2a0_0020 blank (omega arith) (omega arith) (omega arith) (inl refl)

enc-decode_pc_rel_example : enc_pc_rel (decode_pc_rel 0x9000_0000 0x1000 blank) ≡ ok 0x9000_0000
enc-decode_pc_rel_example =
    enc-decode_pc_rel 0x9000_0000 0x1000 blank (omega arith) (omega arith) (omega arith) refl

drain-new_example :
    (drain 2 no_groups (new stream 0x1000 options)).0
    ≡ decode_all no_groups all_features stream 0x1000
drain-new_example = drain-new no_groups stream 0x1000 2 options (omega arith)

length-drain_example : length (drain 2 no_groups (new stream 0x1000 options)).0 ≡ 6 / 4
length-drain_example = length-drain no_groups stream 0x1000 2 options (omega arith)

decode_into-end_example :
    ((decode_into no_groups start).1.last_error ≡ DecodeError.end_of_instruction)
    ↔ (can_decode start ≡ false)
decode_into-end_example = decode_into-end no_groups start

decode_into-Synced_example : Synced 0x1000 (decode_into no_groups start).1
unfolding Synced
decode_into-Synced_example = decode_into-Synced no_groups 0x1000 start refl

set_position-Synced_example : Synced 0x1000 (set_position start 0xffff_ffff_ffff_ffff)
unfolding Synced
set_position-Synced_example =
    set_position-Synced 0x1000 0xffff_ffff_ffff_ffff start (omega arith) (omega arith) refl

decode-WellFormed_example : WellFormed (decode 0xd344_fc20 0x1000 all_features blank)
unfolding WellFormed
decode-WellFormed_example =
    decode-WellFormed 0xd344_fc20 0x1000 all_features blank (refl, omega arith)
