-- ===== src/Tests/Registers.antt =====
-- The theorems on the register group at the words of the repository's tests.
use f_arm.Base.{◌≡◌, ◌⊎◌, inl, inr, refl, arith, true, [], none}
use f_arm.Decode.Bits.{bit, bits}
use f_arm.Decode.DpReg.{decode}
use f_arm.Decode.DpReg.Flags.{decode_cond_select}
use f_arm.Decode.DpReg.Shifted.{
  decode_logical_shifted, decode_addsub_shifted, decode_addsub_extended,
}
use f_arm.Decode.DpReg.Source1.{decode_dp_1source}
use f_arm.Decode.DpReg.Source2.{decode_dp_2source}
use f_arm.Decode.DpReg.Source3.{decode_dp_3source, dp_3source_code}
use f_arm.Decode.Tree.{decode_into}
use f_arm.Encode.Dispatch.{encode as encode_word}
use f_arm.Encode.DpReg.{encode}
use f_arm.Encode.DpReg.Flags.{enc_cond_select}
use f_arm.Encode.DpReg.Shifted.{enc_logical_shifted, enc_addsub_shifted, enc_addsub_extended}
use f_arm.Encode.Error.{ok}
use f_arm.Features.{all_features}
use f_arm.Instruction.{is_invalid}
use f_arm.RoundTrip.Reg.Conditional.{enc-decode_cond_select}
use f_arm.RoundTrip.Reg.Extended.{enc-decode_addsub_extended}
use f_arm.RoundTrip.Reg.Group.{canonical, encode-decode_dp_reg}
use f_arm.RoundTrip.Reg.Shifted.{enc-decode_logical_shifted, enc-decode_addsub_shifted}
use f_arm.RoundTrip.Reg.Source1.{encode-decode_dp_1source}
use f_arm.RoundTrip.Reg.Source2.{encode-decode_dp_2source}
use f_arm.RoundTrip.Reg.Source3.{accumulator, encode-decode_dp_3source}
use f_arm.RoundTrip.Reg.Sources.{with_ra}
use f_arm.RoundTrip.Word.{canonical_word, dispatch-decode_into}
use f_arm.Tests.Witnesses.{blank, no_groups}

-- and x3, x21, x7, ror #0x39
dispatch-decode_into_example :
    (is_invalid (decode_into no_groups 0x8ac7_e6a3 0x1000 all_features) ≡ true)
    ⊎ (encode_word [] (decode_into no_groups 0x8ac7_e6a3 0x1000 all_features)
        ≡ ok (canonical_word 0x8ac7_e6a3))
dispatch-decode_into_example =
    dispatch-decode_into no_groups [] 0x8ac7_e6a3 0x1000 all_features (omega arith) (omega arith)
      (inr (inl refl))

-- cset x4, hi
encode-decode_dp_reg_example :
    (decode 0x9a9f_97e4 0x1000 all_features blank ≡ blank)
    ⊎ (encode (decode 0x9a9f_97e4 0x1000 all_features blank) ≡ ok (canonical 0x9a9f_97e4))
encode-decode_dp_reg_example =
    encode-decode_dp_reg 0x9a9f_97e4 0x1000 all_features blank (omega arith)

enc-decode_logical_shifted_example :
    enc_logical_shifted (decode_logical_shifted 0x8ac7_e6a3 blank) ≡ ok 0x8ac7_e6a3
unfolding bit
enc-decode_logical_shifted_example =
    enc-decode_logical_shifted 0x8ac7_e6a3 blank (omega arith) refl (inl refl)

-- cmp x5, x0, asr #0xc
enc-decode_addsub_shifted_example :
    enc_addsub_shifted (decode_addsub_shifted 0xeb80_30bf blank) ≡ ok 0xeb80_30bf
unfolding bit bits
enc-decode_addsub_shifted_example =
    enc-decode_addsub_shifted 0xeb80_30bf blank (omega arith) refl refl (omega arith) (inl refl)

-- add sp, x28, w16, uxtw #0x3
enc-decode_addsub_extended_example :
    enc_addsub_extended (decode_addsub_extended 0x8b30_4f9f blank) ≡ ok 0x8b30_4f9f
unfolding bit bits
enc-decode_addsub_extended_example =
    enc-decode_addsub_extended 0x8b30_4f9f blank (omega arith) refl refl refl (omega arith)

enc-decode_cond_select_example :
    enc_cond_select (decode_cond_select 0x9a9f_97e4 blank) ≡ ok 0x9a9f_97e4
unfolding bit
enc-decode_cond_select_example =
    enc-decode_cond_select 0x9a9f_97e4 blank (omega arith) refl refl refl

-- mul x4, x1, x5
encode-decode_dp_3source_example :
    ((dp_3source_code (bit 0x9b05_7c24 31) (bits 0x9b05_7c24 21 3) (bit 0x9b05_7c24 15) ≡ none)
      × (decode_dp_3source 0x9b05_7c24 blank ≡ blank))
    ⊎ (encode (decode_dp_3source 0x9b05_7c24 blank)
        ≡ ok (with_ra 0x9b05_7c24 (accumulator 0x9b05_7c24)))
unfolding bits
encode-decode_dp_3source_example =
    encode-decode_dp_3source 0x9b05_7c24 blank (omega arith) refl refl

-- udiv x25, x14, xzr
encode-decode_dp_2source_example :
    (decode_dp_2source 0x9adf_09d9 all_features blank ≡ blank)
    ⊎ (encode (decode_dp_2source 0x9adf_09d9 all_features blank) ≡ ok 0x9adf_09d9)
unfolding bit
encode-decode_dp_2source_example =
    encode-decode_dp_2source 0x9adf_09d9 all_features blank (omega arith) refl refl

-- pacia x12, x24
encode-decode_dp_1source_example :
    (decode_dp_1source 0xdac1_030c all_features blank ≡ blank)
    ⊎ (encode (decode_dp_1source 0xdac1_030c all_features blank) ≡ ok 0xdac1_030c)
unfolding bit
encode-decode_dp_1source_example =
    encode-decode_dp_1source 0xdac1_030c all_features blank (omega arith) refl refl
