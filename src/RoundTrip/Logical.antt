-- ===== src/RoundTrip/Logical.antt =====
-- Logical immediates: decoded and encoded again, with the rotation that the value can tell apart.
use f_arm.Base.{
  ℕ, ◌+◌, ◌*◌, ◌/◌, ◌%◌, ◌^◌, ◌<◌, ◌≤◌, ◌≡◌, ◌⊎◌, ◌∙◌, inl, inr, arith, refl, subst, ap,
}
use f_arm.Base.{i64_as_u64, true, false, some, ◌==◌, as_u32}
use f_arm.Base.Bits.{bit_and_mask}
use f_arm.Decode.Bits.{BitMasks, bit, bits, sign_extend, decode_bit_masks}
use f_arm.Decode.Bits.Laws.{bit-cases, bit_lem, bits_lem}
use f_arm.Decode.DpImm.{decode_logical_imm, logical_code, signed_imm}
use f_arm.Decode.DpImm.Bitfield.{reg, width_of}
use f_arm.Encode.Bits.{encode_bit_masks, cut_wmask}
use f_arm.Encode.DpImm.Constant.{enc_logical_imm, logical_opc, logical_operands}
use f_arm.Encode.DpImm.Fields.{reg_num, imm_u, is_64}
use f_arm.Encode.Error.{ok}
use f_arm.Instruction.{Instruction, set, set_alias, push_operand, op}
use f_arm.Masks.Described.{described-lt}
use f_arm.Masks.Laws.{IsForm, encode-decode_bit_masks, decode_bit_masks-described}
use f_arm.Masks.Table.{element_size}
use f_arm.Register.{RegWidth}
use f_arm.RoundTrip.Fields.{masks_sum}
use f_arm.RoundTrip.Lanes.{materialized_32, materialized_64}
use f_arm.RoundTrip.Reads.{bits-lt, number-field}

logical_code_fields :
    (sf opc : ℕ)
    → sf < 2
    → opc < 4
    → (is_64 (logical_code sf opc) ≡ (sf == 1)) × (logical_opc (logical_code sf opc) ≡ opc)
unfolding logical_code is_64 logical_opc
logical_code_fields sf opc h0 h1 = ground arith

-- The immediate as the decoder shows it, as the `MOV` alias carries it, and as it is encoded.
module _ (ds n imms immr : ℕ) (form : IsForm ds n) (hs : imms < 64) (hr : immr < 64) (m : BitMasks)
    (k : decode_bit_masks n imms immr true ds ≡ some m) where
  cut-lt : cut_wmask ds m < 2 ^ ds
  cut-lt =
      let e = element_size n imms in
      rw (decode_bit_masks-described ds n imms immr form hs hr m k)
        (described-lt ds e (imms % e) (immr % e))

cut_32 : (m : BitMasks) → as_u32 m.wmask ≡ cut_wmask 32 m
unfolding cut_wmask
cut_32 m = omega (arith, bit_and_mask 32 m.wmask)

cut_64 : (m : BitMasks) → m.wmask ≡ cut_wmask 64 m
unfolding cut_wmask
cut_64 m = refl

-- What the encoder reads back: the immediate itself, or the signed form that `MOV` shows.
Reads : Instruction → ℕ → ℕ → ℕ → ℕ → Type 0
Reads insn ds rd rn v =
    (logical_operands insn ≡ ok (rd, rn, v))
    ⊎ (logical_operands insn ≡ ok (rd, rn, i64_as_u64 (sign_extend v ds)))

decode-Reads_64 :
    (w : ℕ) (out : Instruction) (m : BitMasks)
    → bit w 31 ≡ 1
    → decode_bit_masks (bit w 22) (bits w 10 6) (bits w 16 6) true 64 ≡ some m
    → ((decode_logical_imm w out).code ≡ logical_code 1 (bits w 29 2))
      × Reads (decode_logical_imm w out) 64 (bits w 0 5) (bits w 5 5) (cut_wmask 64 m)
unfolding Reads decode_logical_imm logical_operands logical_code set set_alias push_operand op reg
    width_of reg_num imm_u signed_imm
decode-Reads_64 w out m one k = ground (
  arith,
  cut_64 m,
  bits-lt w 29 2,
  number-field w 5 true RegWidth.x64,
  number-field w 0 true RegWidth.x64,
  number-field w 5 false RegWidth.x64,
  number-field w 0 false RegWidth.x64,
)

decode-Reads_32 :
    (w : ℕ) (out : Instruction) (m : BitMasks)
    → bit w 31 ≡ 0
    → bit w 22 ≡ 0
    → decode_bit_masks (bit w 22) (bits w 10 6) (bits w 16 6) true 32 ≡ some m
    → ((decode_logical_imm w out).code ≡ logical_code 0 (bits w 29 2))
      × Reads (decode_logical_imm w out) 32 (bits w 0 5) (bits w 5 5) (cut_wmask 32 m)
unfolding Reads decode_logical_imm logical_operands logical_code set set_alias push_operand op reg
    width_of reg_num imm_u signed_imm
decode-Reads_32 w out m zero_sf zero_n k = ground (
  arith,
  cut_32 m,
  bits-lt w 29 2,
  number-field w 5 true RegWidth.w32,
  number-field w 0 true RegWidth.w32,
  number-field w 5 false RegWidth.w32,
  number-field w 0 false RegWidth.w32,
)

-- The value that the search is run on, from either form of the operand.
searched_64 :
    (insn : Instruction) (rd rn v opc n immr imms : ℕ)
    → v < 2 ^ 64
    → opc < 4
    → insn.code ≡ logical_code 1 opc
    → Reads insn 64 rd rn v
    → encode_bit_masks v 64 ≡ some (n, immr, imms)
    → n < 2
    → immr < 64
    → imms < 64
    → rn < 32
    → rd < 32
    → enc_logical_imm insn
      ≡ ok (
          1 * 2 ^ 31
          + opc * 2 ^ 29
          + 0b100100 * 2 ^ 23
          + n * 2 ^ 22
          + immr * 2 ^ 16
          + imms * 2 ^ 10
          + rn * 2 ^ 5
          + rd)
unfolding enc_logical_imm Reads
searched_64 insn rd rn v opc n immr imms hv ho hc r found h0 h1 h2 h3 h4 = ground (
  arith,
  materialized_64 v hv,
  logical_code_fields 1 opc,
  masks_sum 1 opc 0b100100 n immr imms rn rd,
)

searched_32 :
    (insn : Instruction) (rd rn v opc n immr imms : ℕ)
    → v < 2 ^ 32
    → opc < 4
    → insn.code ≡ logical_code 0 opc
    → Reads insn 32 rd rn v
    → encode_bit_masks v 32 ≡ some (n, immr, imms)
    → n < 2
    → immr < 64
    → imms < 64
    → rn < 32
    → rd < 32
    → enc_logical_imm insn
      ≡ ok (
          0 * 2 ^ 31
          + opc * 2 ^ 29
          + 0b100100 * 2 ^ 23
          + n * 2 ^ 22
          + immr * 2 ^ 16
          + imms * 2 ^ 10
          + rn * 2 ^ 5
          + rd)
unfolding enc_logical_imm Reads
searched_32 insn rd rn v opc n immr imms hv ho hc r found h0 h1 h2 h3 h4 = ground (
  arith,
  materialized_32 v hv,
  bit_and_mask 32 v,
  logical_code_fields 0 opc,
  masks_sum 0 opc 0b100100 n immr imms rn rd,
)

element_size-bounds : (n imms : ℕ) → (2 ≤ element_size n imms) × (element_size n imms ≤ 64)
unfolding element_size
element_size-bounds n imms = ground arith

-- The word with the rotation field cut to what the element size can tell apart.
unfoldable pub with_rotation : ℕ → ℕ → ℕ
with_rotation w immr = w / 2 ^ 22 * 2 ^ 22 + immr * 2 ^ 16 + w % 2 ^ 16

rotation_word :
    (w sf r : ℕ)
    → w < 2 ^ 32
    → w / 2 ^ 23 % 64 ≡ 0b100100
    → bit w 31 ≡ sf
    → sf * 2 ^ 31
        + bits w 29 2 * 2 ^ 29
        + 0b100100 * 2 ^ 23
        + bit w 22 * 2 ^ 22
        + r * 2 ^ 16
        + bits w 10 6 * 2 ^ 10
        + bits w 5 5 * 2 ^ 5
        + bits w 0 5
      ≡ with_rotation w r
unfolding with_rotation
rotation_word w sf r h e one = omega (
  arith,
  bit_lem w 31,
  bit_lem w 22,
  bits_lem w 29 2 (omega arith) (omega arith),
  bits_lem w 10 6 (omega arith) (omega arith),
  bits_lem w 5 5 (omega arith) (omega arith),
  bits_lem w 0 5 (omega arith) (omega arith),
)

module _ (w : ℕ) (out : Instruction) (m : BitMasks) (h : w < 2 ^ 32)
    (e : w / 2 ^ 23 % 64 ≡ 0b100100) where
  abbrev n : ℕ
  n = bit w 22

  abbrev immr : ℕ
  immr = bits w 16 6

  abbrev imms : ℕ
  imms = bits w 10 6

  reduced : ℕ
  reduced = immr % element_size n imms

  reduced-lt : reduced < 64
  unfolding reduced
  reduced-lt = omega (arith, element_size-bounds n imms, bits-lt w 16 6 (omega arith) (omega arith))

  module _ (ds sf : ℕ) (form : IsForm ds n)
      (k : decode_bit_masks n imms immr true ds ≡ some m) where
    found : encode_bit_masks (cut_wmask ds m) ds ≡ some (n, reduced, imms)
    unfolding reduced
    found =
        encode-decode_bit_masks ds n imms immr form (bits-lt w 10 6 (omega arith) (omega arith))
          (bits-lt w 16 6 (omega arith) (omega arith)) m k

    small : cut_wmask ds m < 2 ^ ds
    small =
        cut-lt ds n imms immr form (bits-lt w 10 6 (omega arith) (omega arith))
          (bits-lt w 16 6 (omega arith) (omega arith)) m k

  enc-decode_64 :
      bit w 31 ≡ 1
      → decode_bit_masks n imms immr true 64 ≡ some m
      → enc_logical_imm (decode_logical_imm w out) ≡ ok (with_rotation w reduced)
  enc-decode_64 one k =
      let form : IsForm 64 n = inl (refl, omega (arith, bit-cases w 22)) in
      let (code_eq, r) = decode-Reads_64 w out m one k in
      searched_64 (decode_logical_imm w out) (bits w 0 5) (bits w 5 5) (cut_wmask 64 m)
        (bits w 29 2) n reduced imms (small 64 1 form k)
        (bits-lt w 29 2 (omega arith) (omega arith)) code_eq r (found 64 1 form k)
        (omega (arith, bit-cases w 22)) reduced-lt (bits-lt w 10 6 (omega arith) (omega arith))
        (bits-lt w 5 5 (omega arith) (omega arith)) (bits-lt w 0 5 (omega arith) (omega arith))
      ∙ ap ok (rotation_word w 1 reduced h e one)

  enc-decode_32 :
      bit w 31 ≡ 0
      → n ≡ 0
      → decode_bit_masks n imms immr true 32 ≡ some m
      → enc_logical_imm (decode_logical_imm w out) ≡ ok (with_rotation w reduced)
  enc-decode_32 zero_sf zero_n k =
      let form : IsForm 32 n = inr (refl, zero_n) in
      let (code_eq, r) = decode-Reads_32 w out m zero_sf zero_n k in
      searched_32 (decode_logical_imm w out) (bits w 0 5) (bits w 5 5) (cut_wmask 32 m)
        (bits w 29 2) n reduced imms (small 32 0 form k)
        (bits-lt w 29 2 (omega arith) (omega arith)) code_eq r (found 32 0 form k)
        (omega (arith, bit-cases w 22)) reduced-lt (bits-lt w 10 6 (omega arith) (omega arith))
        (bits-lt w 5 5 (omega arith) (omega arith)) (bits-lt w 0 5 (omega arith) (omega arith))
      ∙ ap ok (rotation_word w 0 reduced h e zero_sf)

-- A logical-immediate word whose fields decode comes back from the encoder with its rotation
-- field reduced modulo the element size, through the `TST` and `MOV` aliases too.
pub enc-decode_logical :
    (w : ℕ) (out : Instruction) (m : BitMasks)
    → w < 2 ^ 32
    → w / 2 ^ 23 % 64 ≡ 0b100100
    → (bit w 31 ≡ 1) ⊎ (bit w 22 ≡ 0)
    → decode_bit_masks (bit w 22) (bits w 10 6) (bits w 16 6) true (32 + 32 * bit w 31) ≡ some m
    → enc_logical_imm (decode_logical_imm w out)
      ≡ ok (with_rotation w (bits w 16 6 % element_size (bit w 22) (bits w 10 6)))
unfolding reduced
enc-decode_logical w out m h e hn k = elim (bit-cases w 31) [
  | inl zero_sf ↦ enc-decode_32 w out m h e zero_sf (omega arith) (
      subst (λ (t : ℕ). decode_bit_masks (bit w 22) (bits w 10 6) (bits w 16 6) true t ≡ some m)
        (omega arith) k)
  | inr one ↦ enc-decode_64 w out m h e one (
      subst (λ (t : ℕ). decode_bit_masks (bit w 22) (bits w 10 6) (bits w 16 6) true t ≡ some m)
        (omega arith) k)
]
