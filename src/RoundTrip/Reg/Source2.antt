-- ===== src/RoundTrip/Reg/Source2.antt =====
-- Data-processing with two sources: decoded and encoded again.
use f_arm.Base.{
  ℕ, ◌+◌, ◌*◌, ◌/◌, ◌%◌, ◌^◌, ◌<◌, ◌≡◌, ◌≤◌, ◌⊎◌, ◌==◌, arith, true, false, bit_and, Bool,
  if◌then◌else◌, ◌!=◌, refl,
}
use f_arm.Base.Bits.{bit_and_mask}
use f_arm.Decode.Bits.{bit, bits}
use f_arm.Decode.Bits.Laws.{bit-cases, bit_lem}
use f_arm.Decode.DpImm.Bitfield.{reg, width_of}
use f_arm.Decode.DpReg.Source2.{
  push_rrr, crc32_code, decode_crc32, minmax_reg_code, decode_dp_2source_gated,
  decode_dp_2source_opcode, decode_dp_2source,
}
use f_arm.Encode.DpImm.Fields.{reg_num}
use f_arm.Encode.DpReg.{encode}
use f_arm.Encode.DpReg.Sources.{
  dp_2source_fields, three_registers, recover_dp_2source, enc_dp_2source,
}
use f_arm.Encode.Error.{ok}
use f_arm.Features.{FeatureSet}
use f_arm.Instruction.{Instruction, set, set_alias, push_operand, op, ◌▸◌}
use f_arm.Mnemonic.{Code, Mnemonic}
use f_arm.Register.{RegWidth}
use f_arm.RoundTrip.Reads.{number-field}
use f_arm.RoundTrip.Reg.Sources.{dp_2source_packed}

-- Whether the third operand may be missing.
unfoldable has_optional : Code → Bool
has_optional Code.irg_dp = true
has_optional _ = false

-- The codes of the class.
unfoldable is_dp_2source : Code → Bool
is_dp_2source Code.udiv32 = true
is_dp_2source Code.udiv64 = true
is_dp_2source Code.sdiv32 = true
is_dp_2source Code.sdiv64 = true
is_dp_2source Code.lslv32 = true
is_dp_2source Code.lslv64 = true
is_dp_2source Code.lsrv32 = true
is_dp_2source Code.lsrv64 = true
is_dp_2source Code.asrv32 = true
is_dp_2source Code.asrv64 = true
is_dp_2source Code.rorv32 = true
is_dp_2source Code.rorv64 = true
is_dp_2source Code.crc32b = true
is_dp_2source Code.crc32h = true
is_dp_2source Code.crc32w = true
is_dp_2source Code.crc32x = true
is_dp_2source Code.crc32cb = true
is_dp_2source Code.crc32ch = true
is_dp_2source Code.crc32cw = true
is_dp_2source Code.crc32cx = true
is_dp_2source Code.subp_dp = true
is_dp_2source Code.subps_dp = true
is_dp_2source Code.irg_dp = true
is_dp_2source Code.gmi_dp = true
is_dp_2source Code.pacga = true
is_dp_2source Code.smax_reg32 = true
is_dp_2source Code.smax_reg64 = true
is_dp_2source Code.smin_reg32 = true
is_dp_2source Code.smin_reg64 = true
is_dp_2source Code.umax_reg32 = true
is_dp_2source Code.umax_reg64 = true
is_dp_2source Code.umin_reg32 = true
is_dp_2source Code.umin_reg64 = true
is_dp_2source _ = false

-- The two tests of a checksum opcode, on the opcodes of that class.
crc32_opcode :
    (opcode : ℕ)
    → opcode < 64
    → (bit opcode 2 ≡ opcode / 4 % 2) × (bit_and opcode 0b11 ≡ opcode % 4)
crc32_opcode opcode h = (bit_lem opcode 2, bit_and_mask 2 opcode)

minmax_reg_code_fields :
    (sf opcode : ℕ)
    → sf < 2
    → 24 ≤ opcode
    → opcode < 28
    → (dp_2source_fields (minmax_reg_code sf opcode) ≡ (sf, 0, opcode))
      × (has_optional (minmax_reg_code sf opcode) ≡ false)
      × (is_dp_2source (minmax_reg_code sf opcode) ≡ true)
unfolding minmax_reg_code dp_2source_fields has_optional is_dp_2source
minmax_reg_code_fields sf opcode h0 h1 h2 = ground arith

crc32_code_fields :
    (c sz : ℕ)
    → c < 2
    → sz < 4
    → (dp_2source_fields (crc32_code c sz) ≡ ((if sz == 3 then 1 else 0), 0, 16 + 4 * c + sz))
      × (has_optional (crc32_code c sz) ≡ false)
      × (is_dp_2source (crc32_code c sz) ≡ true)
unfolding crc32_code dp_2source_fields has_optional is_dp_2source
crc32_code_fields c sz h0 h1 = ground arith

gated_code_fields :
    (dp_2source_fields Code.irg_dp ≡ (1, 0, 0b000100))
    × (dp_2source_fields Code.gmi_dp ≡ (1, 0, 0b000101))
    × (dp_2source_fields Code.pacga ≡ (1, 0, 0b001100))
    × (has_optional Code.gmi_dp ≡ false)
    × (has_optional Code.pacga ≡ false)
    × (is_dp_2source Code.irg_dp ≡ true)
    × (is_dp_2source Code.gmi_dp ≡ true)
    × (is_dp_2source Code.pacga ≡ true)
unfolding dp_2source_fields has_optional is_dp_2source
gated_code_fields = (refl, refl, refl, refl, refl, refl, refl, refl)

module _ (w : ℕ) (out : Instruction) where
  -- What the encoder reads from an instruction that stands for the word.
  abbrev Reads : Instruction → Code → Type 0
  Reads insn c =
      (insn.code ≡ c) × (recover_dp_2source insn ≡ ok (bits w 0 5, bits w 5 5, bits w 16 5))

  three_registers-Reads :
      (c : Code) (sp_d sp_n sp_m : Bool) (d n m : RegWidth)
      → has_optional c ≡ false
      → Reads
          (set out c ▸ reg sp_d d (bits w 0 5) ▸ reg sp_n n (bits w 5 5) ▸ reg sp_m m (bits w 16 5))
          c
  unfolding set push_operand recover_dp_2source three_registers reg_num op reg has_optional
  three_registers-Reads c sp_d sp_n sp_m d n m h =
      ground (arith, number-field w 16 sp_m m, number-field w 5 sp_n n, number-field w 0 sp_d d)

  three_registers-alias :
      (c : Code) (a : Mnemonic) (d n m : RegWidth)
      → has_optional c ≡ false
      → Reads
          (set_alias (set out c) a
            ▸ reg false d (bits w 0 5)
            ▸ reg false n (bits w 5 5)
            ▸ reg false m (bits w 16 5))
          c
  unfolding set set_alias push_operand recover_dp_2source three_registers reg_num op reg
      has_optional
  three_registers-alias c a d n m h =
      ground (arith, number-field w 16 false m, number-field w 5 false n, number-field w 0 false d)

  crc32-Reads :
      bit w 29 ≡ 0
      → 16 ≤ bits w 10 6
      → bits w 10 6 < 24
      → let insn =
          decode_crc32 (bit w 31) (bits w 10 6) (bits w 0 5) (bits w 5 5) (bits w 16 5) out in
        (insn ≡ out)
        ⊎ ((dp_2source_fields insn.code ≡ (bit w 31, bit w 29, bits w 10 6))
            × (recover_dp_2source insn ≡ ok (bits w 0 5, bits w 5 5, bits w 16 5))
            × (is_dp_2source insn.code ≡ true))
  unfolding decode_crc32
  crc32-Reads h29 h0 h1 =
      let c = crc32_code (bit (bits w 10 6) 2) (bit_and (bits w 10 6) 3) in
      ground (
        arith,
        bit-cases w 31,
        crc32_opcode (bits w 10 6),
        crc32_code_fields (bit (bits w 10 6) 2) (bit_and (bits w 10 6) 3),
        three_registers-Reads c false false false RegWidth.w32 RegWidth.w32 RegWidth.w32,
        three_registers-Reads c false false false RegWidth.w32 RegWidth.w32 RegWidth.x64,
      )

  irg-Reads :
      let irg =
        set out Code.irg_dp
        ▸ reg true RegWidth.x64 (bits w 0 5)
        ▸ reg true RegWidth.x64 (bits w 5 5) in
      let insn = if bits w 16 5 != 31 then irg ▸ reg false RegWidth.x64 (bits w 16 5) else irg in
      Reads insn Code.irg_dp
  unfolding set push_operand recover_dp_2source three_registers reg_num op reg
  irg-Reads = ground (
    arith,
    number-field w 16 false RegWidth.x64,
    number-field w 5 true RegWidth.x64,
    number-field w 0 true RegWidth.x64,
  )

  -- What the encoder reads back, where the word is not rejected.
  abbrev Returns : Instruction → Type 0
  Returns insn =
      (insn ≡ out)
      ⊎ ((dp_2source_fields insn.code ≡ (bit w 31, bit w 29, bits w 10 6))
          × (recover_dp_2source insn ≡ ok (bits w 0 5, bits w 5 5, bits w 16 5))
          × (is_dp_2source insn.code ≡ true))

  gated-Returns :
      (features : FeatureSet) → bit w 29 ≡ 0 → Returns (decode_dp_2source_gated w features out)
  unfolding decode_dp_2source_gated push_rrr
  gated-Returns features h29 = ground (
    arith,
    gated_code_fields,
    bit-cases w 31,
    crc32-Reads h29,
    irg-Reads,
    minmax_reg_code_fields (bit w 31) (bits w 10 6),
    three_registers-Reads (minmax_reg_code (bit w 31) (bits w 10 6)) false false false
        (width_of (bit w 31)) (width_of (bit w 31)) (width_of (bit w 31)),
    three_registers-Reads Code.gmi_dp false true false RegWidth.x64 RegWidth.x64 RegWidth.x64,
    three_registers-Reads Code.pacga false false true RegWidth.x64 RegWidth.x64 RegWidth.x64,
  )

  opcode-Returns :
      (features : FeatureSet) → bit w 29 ≡ 0 → Returns (decode_dp_2source_opcode w features out)
  unfolding decode_dp_2source_opcode push_rrr dp_2source_fields has_optional is_dp_2source
  opcode-Returns features h29 = ground (
    arith,
    bit-cases w 31,
    gated-Returns features h29,
    three_registers-Reads Code.udiv32 false false false (width_of (bit w 31)) (width_of (bit w 31))
        (width_of (bit w 31)) refl,
    three_registers-Reads Code.udiv64 false false false (width_of (bit w 31)) (width_of (bit w 31))
        (width_of (bit w 31)) refl,
    three_registers-Reads Code.sdiv32 false false false (width_of (bit w 31)) (width_of (bit w 31))
        (width_of (bit w 31)) refl,
    three_registers-Reads Code.sdiv64 false false false (width_of (bit w 31)) (width_of (bit w 31))
        (width_of (bit w 31)) refl,
    three_registers-alias Code.lslv32 Mnemonic.lsl (width_of (bit w 31)) (width_of (bit w 31))
        (width_of (bit w 31)) refl,
    three_registers-alias Code.lslv64 Mnemonic.lsl (width_of (bit w 31)) (width_of (bit w 31))
        (width_of (bit w 31)) refl,
    three_registers-alias Code.lsrv32 Mnemonic.lsr (width_of (bit w 31)) (width_of (bit w 31))
        (width_of (bit w 31)) refl,
    three_registers-alias Code.lsrv64 Mnemonic.lsr (width_of (bit w 31)) (width_of (bit w 31))
        (width_of (bit w 31)) refl,
    three_registers-alias Code.asrv32 Mnemonic.asr (width_of (bit w 31)) (width_of (bit w 31))
        (width_of (bit w 31)) refl,
    three_registers-alias Code.asrv64 Mnemonic.asr (width_of (bit w 31)) (width_of (bit w 31))
        (width_of (bit w 31)) refl,
    three_registers-alias Code.rorv32 Mnemonic.ror (width_of (bit w 31)) (width_of (bit w 31))
        (width_of (bit w 31)) refl,
    three_registers-alias Code.rorv64 Mnemonic.ror (width_of (bit w 31)) (width_of (bit w 31))
        (width_of (bit w 31)) refl,
  )

  decode_dp_2source-Returns : (features : FeatureSet) → Returns (decode_dp_2source w features out)
  unfolding decode_dp_2source dp_2source_fields has_optional is_dp_2source
  decode_dp_2source-Returns features = ground (
    arith,
    bit-cases w 31,
    bit-cases w 29,
    opcode-Returns features,
    three_registers-Reads Code.subp_dp false true true RegWidth.x64 RegWidth.x64 RegWidth.x64 refl,
    three_registers-Reads Code.subps_dp false true true RegWidth.x64 RegWidth.x64 RegWidth.x64 refl,
  )

encode-is_dp_2source :
    (insn : Instruction) → is_dp_2source insn.code ≡ true → encode insn ≡ enc_dp_2source insn
unfolding encode is_dp_2source
encode-is_dp_2source insn c = ground arith

-- A word of the two-source class either is left alone by the decoder or comes back from the
-- encoder, through the aliases of the variable shifts and the optional operand of `IRG` too.
pub encode-decode_dp_2source :
    (w : ℕ) (features : FeatureSet) (out : Instruction)
    → w < 2 ^ 32
    → w / 2 ^ 21 % 256 ≡ 0b11010110
    → bit w 30 ≡ 0
    → (decode_dp_2source w features out ≡ out) ⊎ (encode (decode_dp_2source w features out) ≡ ok w)
unfolding enc_dp_2source
encode-decode_dp_2source w features out h e h30 = ground (
  arith,
  encode-is_dp_2source (decode_dp_2source w features out),
  decode_dp_2source-Returns w out features,
  dp_2source_packed w h e h30,
)
