-- ===== src/RoundTrip/Bitfield.antt =====
-- Bitfield moves with their aliases, and extract: decoded and encoded again.
use f_arm.Base.{ℕ, ◌+◌, ◌*◌, ◌-◌, ◌/◌, ◌%◌, ◌^◌, ◌<◌, ◌≡◌, ◌==◌, ◌⊎◌, arith, false, bit_and}
use f_arm.Base.Bits.{bit_and_mask, bit_and_split, bit_and-zero}
use f_arm.Decode.Bits.{bit, bits}
use f_arm.Decode.Bits.Laws.{bit-cases, bit_lem}
use f_arm.Decode.DpImm.Bitfield.{bitfield_code, reg, width_of, decode_bitfield, decode_extract}
use f_arm.Decode.DpImm.Bitfield.{emit_sbfm_alias, emit_bfm_alias, emit_ubfm_alias}
use f_arm.Encode.DpImm.Bitfield.{bitfield_opc, recover_bitfield_fields, enc_bitfield, enc_extract}
use f_arm.Encode.DpImm.Fields.{reg_num, is_64}
use f_arm.Encode.Error.{ok}
use f_arm.Instruction.{Instruction, set, set_alias, push_operand, op}
use f_arm.Mnemonic.{Code}
use f_arm.Register.{RegWidth}
use f_arm.RoundTrip.Fields.{extract_sum, masks_sum}
use f_arm.Register.Laws.{number-gp_register}
use f_arm.Register.Number.{number}
use f_arm.Register.Resolve.{gp_register}
use f_arm.RoundTrip.Reads.{bits-lt, number-field, extract_word, masks_word}

-- Bit 5 of a 6-bit field, as the decoder and as the encoder test it.
pub bit_five : (n : ℕ) → n < 64 → bit n 5 ≡ n / 32
bit_five n h = omega (arith, bit_lem n 5)

pub bit_and_32 : (n : ℕ) → n < 32 → bit_and n 0b100000 ≡ 0
bit_and_32 n h = ground (arith, bit_and_split 5 0 n 1 0, bit_and-zero n)

-- An allocated extract word comes back from the encoder, through the `ROR` alias too.
pub enc-decode_extract :
    (w : ℕ) (out : Instruction)
    → w < 2 ^ 32
    → w / 2 ^ 23 % 64 ≡ 0b100111
    → bits w 29 2 ≡ 0
    → bit w 21 ≡ 0
    → bit w 22 ≡ bit w 31
    → (bit w 31 ≡ 1) ⊎ (bits w 10 6 < 32)
    → enc_extract (decode_extract w out) ≡ ok w
unfolding decode_extract enc_extract set set_alias push_operand op reg width_of
enc-decode_extract w out h e h29 h21 hn hs = ground (
  arith,
  bit-cases w 31,
  bits-lt w 0 5,
  bits-lt w 5 5,
  bits-lt w 16 5,
  bits-lt w 10 6,
  bit_five (bits w 10 6),
  bit_and_32 (bits w 10 6),
  number-field w 16 false RegWidth.w32,
  number-field w 16 false RegWidth.x64,
  number-field w 5 false RegWidth.w32,
  number-field w 5 false RegWidth.x64,
  number-field w 0 false RegWidth.w32,
  number-field w 0 false RegWidth.x64,
  extract_word w h e h29 h21,
  extract_sum (bit w 31) (bit w 22) (bits w 16 5) (bits w 10 6) (bits w 5 5) (bits w 0 5),
)

-- What the encoder reads from a bitfield instruction of data size `ds`.
pub record Reads (insn : Instruction) (c : Code) (ds rd rn immr imms : ℕ) : Type 0 where
  pub same_code : insn.code ≡ c
  same_rd : reg_num insn 0 ≡ ok rd
  same_fields : recover_bitfield_fields insn ds (ds - 1) ≡ ok (rn, immr, imms)

module _ (out : Instruction) (c : Code) (width : RegWidth) (ds immr imms rn rd : ℕ) (hn : rn < 32)
    (hd : rd < 32) (hr : immr < ds) (hs : imms < ds) (size : (ds ≡ 32) ⊎ (ds ≡ 64)) where
  reg_number : (n : ℕ) (w : RegWidth) → n < 32 → number (gp_register false w (bit_and n 0x1f)) ≡ n
  reg_number n w h = ground (arith, number-gp_register false w (bit_and n 0x1f), bit_and_mask 5 n)

  emit_sbfm-Reads :
      Reads (emit_sbfm_alias (set out c) width ds immr imms rn rd) c ds rd rn immr imms
  unfolding emit_sbfm_alias recover_bitfield_fields set set_alias push_operand op reg
  emit_sbfm-Reads =
      ground (arith, reg_number rd width, reg_number rn width, reg_number rn RegWidth.w32)

  emit_bfm-Reads : Reads (emit_bfm_alias (set out c) width ds immr imms rn rd) c ds rd rn immr imms
  unfolding emit_bfm_alias recover_bitfield_fields set set_alias push_operand op reg
  emit_bfm-Reads = ground (arith, reg_number rd width, reg_number rn width)

  emit_ubfm-Reads :
      Reads (emit_ubfm_alias (set out c) width ds immr imms rn rd) c ds rd rn immr imms
  unfolding emit_ubfm_alias recover_bitfield_fields set set_alias push_operand op reg
  emit_ubfm-Reads =
      ground (arith, reg_number rd width, reg_number rn width, reg_number rn RegWidth.w32)

bitfield_code_fields :
    (sf opc : ℕ)
    → sf < 2
    → opc < 3
    → (is_64 (bitfield_code sf opc) ≡ (sf == 1)) × (bitfield_opc (bitfield_code sf opc) ≡ opc)
unfolding bitfield_code is_64 bitfield_opc
bitfield_code_fields sf opc h0 h1 = ground arith

enc-Reads :
    (insn : Instruction) (sf opc rd rn immr imms : ℕ)
    → sf < 2
    → opc < 3
    → rd < 32
    → rn < 32
    → immr < 32 + 32 * sf
    → imms < 32 + 32 * sf
    → Reads insn (bitfield_code sf opc) (32 + 32 * sf) rd rn immr imms
    → enc_bitfield insn
      ≡ ok (
          sf * 2 ^ 31
          + opc * 2 ^ 29
          + 0b100110 * 2 ^ 23
          + sf * 2 ^ 22
          + immr * 2 ^ 16
          + imms * 2 ^ 10
          + rn * 2 ^ 5
          + rd)
unfolding enc_bitfield
enc-Reads insn sf opc rd rn immr imms h0 h1 h2 h3 h4 h5 r =
    ground (arith, bitfield_code_fields sf opc, masks_sum sf opc 0b100110 sf immr imms rn rd)

module _ (w : ℕ) (out : Instruction) (hn : bit w 22 ≡ bit w 31)
    (hs : (bit w 31 ≡ 1) ⊎ ((bits w 16 6 < 32) × (bits w 10 6 < 32))) where
  abbrev ds : ℕ
  ds = 32 + 32 * bit w 31

  pub decode_bitfield-Reads :
      bits w 29 2 < 3
      → Reads
          (decode_bitfield w out)
          (bitfield_code (bit w 31) (bits w 29 2))
          ds
          (bits w 0 5)
          (bits w 5 5)
          (bits w 16 6)
          (bits w 10 6)
  unfolding decode_bitfield
  decode_bitfield-Reads h29 =
      let c = bitfield_code (bit w 31) (bits w 29 2) in
      let width = width_of (bit w 31) in
      ground (
        arith,
        bit-cases w 31,
        bits-lt w 0 5,
        bits-lt w 5 5,
        bits-lt w 16 6,
        bits-lt w 10 6,
        bit_five (bits w 10 6),
        bit_five (bits w 16 6),
        emit_sbfm-Reads out c width ds (bits w 16 6) (bits w 10 6) (bits w 5 5) (bits w 0 5),
        emit_bfm-Reads out c width ds (bits w 16 6) (bits w 10 6) (bits w 5 5) (bits w 0 5),
        emit_ubfm-Reads out c width ds (bits w 16 6) (bits w 10 6) (bits w 5 5) (bits w 0 5),
      )

-- An allocated bitfield word comes back from the encoder, through each of the shift, extend,
-- insert and extract aliases too.
pub enc-decode_bitfield :
    (w : ℕ) (out : Instruction)
    → w < 2 ^ 32
    → w / 2 ^ 23 % 64 ≡ 0b100110
    → bits w 29 2 < 3
    → bit w 22 ≡ bit w 31
    → (bit w 31 ≡ 1) ⊎ ((bits w 16 6 < 32) × (bits w 10 6 < 32))
    → enc_bitfield (decode_bitfield w out) ≡ ok w
enc-decode_bitfield w out h e h29 hn hs = ground (
  arith,
  bit-cases w 31,
  bits-lt w 0 5,
  bits-lt w 5 5,
  bits-lt w 16 6,
  bits-lt w 10 6,
  masks_word w 0b100110 h e,
  enc-Reads (decode_bitfield w out) (bit w 31) (bits w 29 2) (bits w 0 5) (bits w 5 5) (bits w 16 6)
      (bits w 10 6),
  decode_bitfield-Reads w out hn hs h29,
)
