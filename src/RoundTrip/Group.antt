-- ===== src/RoundTrip/Group.antt =====
-- The whole group: `decode` and `encode` of src/decode/dp_imm.rs and src/encode/dp_imm.rs.
use f_arm.Base.{ℕ, ◌+◌, ◌*◌, ◌/◌, ◌%◌, ◌^◌, ◌<◌, ◌≡◌, ◌≢◌, ◌⊎◌, ◌∙◌, inl, inr, arith, bit_and}
use f_arm.Base.{◌==◌, ◌&&◌, if◌then◌else◌, true, some, none, refl, subst, zero, suc}
use f_arm.Base.{Option}
use f_arm.Decode.Bits.{BitMasks, bit, bits, decode_bit_masks}
use f_arm.Decode.Bits.Laws.{bit-cases, bits_lem}
use f_arm.Decode.DpImm.{
  decode, decode_op1, decode_addsub_imm, decode_addsub_imm_tags, decode_minmax_imm,
  decode_logical_imm, decode_move_wide, decode_pc_rel,
}
use f_arm.Decode.DpImm.Bitfield.{decode_bitfield, decode_extract}
use f_arm.Encode.DpImm.{encode}
use f_arm.Encode.Error.{ok}
use f_arm.Features.{FeatureSet}
use f_arm.Instruction.{Instruction}
use f_arm.Masks.Table.{element_size}
use f_arm.RoundTrip.AddSub.{
  decode_addsub-code, enc-decode_addsub, enc-decode_tags, enc-decode_minmax,
}
use f_arm.RoundTrip.Bitfield.{enc-decode_bitfield, enc-decode_extract, decode_bitfield-Reads}
use f_arm.RoundTrip.Codes.{
  encode-addsub, encode-minmax, encode-logical, encode-move_wide, encode-bitfield, encode-pc_rel,
  decode_move_wide-cases, decode_tags-cases, decode_minmax-cases, decode_extract-cases,
  decode_bitfield-cases, decode_logical-rejects, decode_logical-narrow, decode_logical-code,
}
use f_arm.RoundTrip.Logical.{enc-decode_logical, with_rotation}
use f_arm.RoundTrip.MoveWide.{enc-decode_move_wide}
use f_arm.RoundTrip.PcRel.{enc-decode_pc_rel}

-- The word with the bits that its class ignores made canonical.
unfoldable pub canonical : ℕ → ℕ
canonical w =
    let class = w / 2 ^ 23 % 64 in
    if class == 0b100100
    then with_rotation w (bits w 16 6 % element_size (bit w 22) (bits w 10 6))
    else if class == 0b100011 && bit w 22 == 0
    then w / 2 ^ 16 * 2 ^ 16 + w % 2 ^ 14
    else w

-- Either the decoder rejects the word, or the encoder gives `expected`.
Returns : Instruction → Instruction → ℕ → Type 0
Returns out insn expected = (insn ≡ out) ⊎ (encode insn ≡ ok expected)

module _ (w : ℕ) (out : Instruction) (features : FeatureSet) (h : w < 2 ^ 32) where
  pc_rel-Returns :
      w / 2 ^ 24 % 32 ≡ 0b10000 → out.ip < 2 ^ 64 → Returns out (decode_pc_rel w out.ip out) w
  unfolding Returns
  pc_rel-Returns e k = inr (encode-pc_rel w out ∙ enc-decode_pc_rel w out.ip out h e k refl)

  addsub-Returns : w / 2 ^ 23 % 64 ≡ 0b100010 → Returns out (decode_addsub_imm w out) w
  unfolding Returns
  addsub-Returns e = inr (
      encode-addsub (decode_addsub_imm w out) (bit w 31) (bit w 30) (bit w 29)
        (decode_addsub-code w out)
      ∙ enc-decode_addsub w out h e)

  tags-Returns :
      w / 2 ^ 23 % 64 ≡ 0b100011
      → Returns out (decode_addsub_imm_tags w features out) (w / 2 ^ 16 * 2 ^ 16 + w % 2 ^ 14)
  unfolding Returns
  tags-Returns e = elim (decode_tags-cases w out features) [
    | inl same ↦ inl same
    | inr (c, hf, h31, h29, h22) ↦ inr (c ∙ enc-decode_tags w features out h e hf h31 h29 h22)
  ]

  minmax-Returns :
      w / 2 ^ 23 % 64 ≡ 0b100011 → bit w 22 ≡ 1 → Returns out (decode_minmax_imm w features out) w
  unfolding Returns
  minmax-Returns e h22 = elim (decode_minmax-cases w out features) [
    | inl same ↦ inl same
    | inr (c, hf, h30, h29, h20) ↦ inr (
        encode-minmax (decode_minmax_imm w features out) (bit w 31) (bits w 18 2) c
        ∙ enc-decode_minmax w features out h e h22 hf h30 h29 h20)
  ]

  move_wide-Returns : w / 2 ^ 23 % 64 ≡ 0b100101 → Returns out (decode_move_wide w out) w
  unfolding Returns
  move_wide-Returns e = elim (decode_move_wide-cases w out) [
    | inl same ↦ inl same
    | inr (c, hopc, hw) ↦ inr (
        encode-move_wide (decode_move_wide w out) (bit w 31) (bits w 29 2) c
        ∙ enc-decode_move_wide w out h e hopc hw)
  ]

  bitfield-Returns : w / 2 ^ 23 % 64 ≡ 0b100110 → Returns out (decode_bitfield w out) w
  unfolding Returns
  bitfield-Returns e = elim (decode_bitfield-cases w out) [
    | inl same ↦ inl same
    | inr (h29, hn, hs) ↦ inr (
        encode-bitfield (decode_bitfield w out) (bit w 31) (bits w 29 2)
          (decode_bitfield-Reads w out hn hs h29).same_code
        ∙ enc-decode_bitfield w out h e h29 hn hs)
  ]

  extract-Returns : w / 2 ^ 23 % 64 ≡ 0b100111 → Returns out (decode_extract w out) w
  unfolding Returns
  extract-Returns e = elim (decode_extract-cases w out) [
    | inl same ↦ inl same
    | inr (c, h29, h21, hn, hs) ↦ inr (c ∙ enc-decode_extract w out h e h29 h21 hn hs)
  ]

  logical_valid-Returns :
      w / 2 ^ 23 % 64 ≡ 0b100100
      → (bit w 31 ≡ 1) ⊎ (bit w 22 ≡ 0)
      → Returns out
          (decode_logical_imm w out)
          (with_rotation w (bits w 16 6 % element_size (bit w 22) (bits w 10 6)))
  unfolding Returns
  logical_valid-Returns e hn =
      go (decode_bit_masks (bit w 22) (bits w 10 6) (bits w 16 6) true (32 + 32 * bit w 31)) refl
    where
      go :
          (o : Option BitMasks)
          → decode_bit_masks (bit w 22) (bits w 10 6) (bits w 16 6) true (32 + 32 * bit w 31) ≡ o
          → (decode_logical_imm w out ≡ out)
            ⊎ (encode (decode_logical_imm w out)
                ≡ ok (with_rotation w (bits w 16 6 % element_size (bit w 22) (bits w 10 6))))
      go none k = inl (decode_logical-rejects w out k)
      go (some m) k = inr (
          encode-logical (decode_logical_imm w out) (bit w 31) (bits w 29 2)
            (decode_logical-code w out m k hn)
          ∙ enc-decode_logical w out m h e hn k)

  logical-Returns :
      w / 2 ^ 23 % 64 ≡ 0b100100
      → Returns out
          (decode_logical_imm w out)
          (with_rotation w (bits w 16 6 % element_size (bit w 22) (bits w 10 6)))
  unfolding Returns
  logical-Returns e = elim (bit-cases w 31) [
    | inr one ↦ logical_valid-Returns e (inl one)
    | inl zero_sf ↦ elim (bit-cases w 22) [
      | inl zero_n ↦ logical_valid-Returns e (inr zero_n)
      | inr one ↦ inl (decode_logical-narrow w out zero_sf one)
    ]
  ]

  canonical_tags :
      w / 2 ^ 23 % 64 ≡ 0b100011 → bit w 22 ≡ 0 → w / 2 ^ 16 * 2 ^ 16 + w % 2 ^ 14 ≡ canonical w
  unfolding canonical
  canonical_tags e zero_bit = ground arith

  canonical_minmax : w / 2 ^ 23 % 64 ≡ 0b100011 → bit w 22 ≡ 1 → w ≡ canonical w
  unfolding canonical
  canonical_minmax e one = ground arith

  canonical_logical :
      w / 2 ^ 23 % 64 ≡ 0b100100
      → with_rotation w (bits w 16 6 % element_size (bit w 22) (bits w 10 6)) ≡ canonical w
  unfolding canonical
  canonical_logical e = ground arith

  plain : (c : ℕ) → w / 2 ^ 23 % 64 ≡ c → c ≢ 0b100100 → c ≢ 0b100011 → w ≡ canonical w
  unfolding canonical
  plain c e n4 n3 = ground arith

  Returns-ap : (insn : Instruction) (a b : ℕ) → a ≡ b → Returns out insn a → Returns out insn b
  Returns-ap insn a b e r = subst (λ x. Returns out insn x) e r

  group-Returns :
      (op1 : ℕ)
      → op1 < 8
      → w / 2 ^ 23 % 64 ≡ 32 + op1
      → out.ip < 2 ^ 64
      → Returns out (decode_op1 op1 w out.ip features out) (canonical w)
  unfolding decode_op1
  group-Returns zero h8 e hip =
      Returns-ap (decode_pc_rel w out.ip out) w (canonical w)
        (plain 32 (omega arith) (omega arith) (omega arith)) (pc_rel-Returns (omega arith) hip)
  group-Returns (suc zero) h8 e hip =
      Returns-ap (decode_pc_rel w out.ip out) w (canonical w)
        (plain 33 (omega arith) (omega arith) (omega arith)) (pc_rel-Returns (omega arith) hip)
  group-Returns (suc (suc zero)) h8 e hip =
      Returns-ap (decode_addsub_imm w out) w (canonical w)
        (plain 34 (omega arith) (omega arith) (omega arith)) (addsub-Returns (omega arith))
  group-Returns (suc (suc (suc zero))) h8 e hip = elim (bit-cases w 22) [
    | inl zero_bit ↦ rw zero_bit (
        Returns-ap (decode_addsub_imm_tags w features out) (w / 2 ^ 16 * 2 ^ 16 + w % 2 ^ 14)
          (canonical w) (canonical_tags (omega arith) zero_bit) (tags-Returns (omega arith)))
    | inr one ↦ rw one (
        Returns-ap (decode_minmax_imm w features out) w (canonical w)
          (canonical_minmax (omega arith) one) (minmax-Returns (omega arith) one))
  ]
  group-Returns (suc (suc (suc (suc zero)))) h8 e hip =
      Returns-ap (decode_logical_imm w out)
        (with_rotation w (bits w 16 6 % element_size (bit w 22) (bits w 10 6))) (canonical w)
        (canonical_logical (omega arith)) (logical-Returns (omega arith))
  group-Returns (suc (suc (suc (suc (suc zero))))) h8 e hip =
      Returns-ap (decode_move_wide w out) w (canonical w)
        (plain 37 (omega arith) (omega arith) (omega arith)) (move_wide-Returns (omega arith))
  group-Returns (suc (suc (suc (suc (suc (suc zero)))))) h8 e hip =
      Returns-ap (decode_bitfield w out) w (canonical w)
        (plain 38 (omega arith) (omega arith) (omega arith)) (bitfield-Returns (omega arith))
  group-Returns (suc (suc (suc (suc (suc (suc (suc zero))))))) h8 e hip =
      Returns-ap (decode_extract w out) w (canonical w)
        (plain 39 (omega arith) (omega arith) (omega arith)) (extract-Returns (omega arith))
  group-Returns (suc (suc (suc (suc (suc (suc (suc (suc op1)))))))) h8 e hip = absurd (omega arith)

-- On a 32-bit word of the immediate group, but the PC-relative authentications, at a 64-bit
-- address, the decoder either leaves the instruction as it was or leaves one that encodes to the
-- word in canonical form.
pub encode-decode_dp_imm :
    (w : ℕ) (out : Instruction) (features : FeatureSet)
    → w < 2 ^ 32
    → out.ip < 2 ^ 64
    → w / 2 ^ 26 % 8 ≡ 0b100
    → bit_and w 0xffc0_001f ≢ 0xf380_001f
    → (decode w out.ip features out ≡ out)
      ⊎ (encode (decode w out.ip features out) ≡ ok (canonical w))
unfolding decode Returns
encode-decode_dp_imm w out features h hip e sppc =
    ground (arith, bits_lem w 23 3, group-Returns w out features h (bits w 23 3))
