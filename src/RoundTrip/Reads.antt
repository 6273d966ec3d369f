-- ===== src/RoundTrip/Reads.antt =====
-- What the encoders read back: bounds of the fields, register numbers, and a word as the sum of
-- its fields in the layout of each class.
use f_arm.Base.{ℕ, ◌+◌, ◌*◌, ◌/◌, ◌%◌, ◌^◌, ◌<◌, ◌≡◌, arith, ◌∙◌, Bool, bit_and}
use f_arm.Base.Bits.{bit_and_mask}
use f_arm.Decode.Bits.{bit, bits}
use f_arm.Decode.Bits.Laws.{bit_lem, bits_lem}
use f_arm.Register.Laws.{number-gp_register}
use native.Mathlib.Nat.{one-le-pow}
use f_arm.Register.Number.{number}
use f_arm.Register.Resolve.{gp_register}
use f_arm.Register.{RegWidth}

pub bits-lt : (w lsb width : ℕ) → 2 ^ width < 2 ^ 32 → width < 32 → bits w lsb width < 2 ^ width
bits-lt w lsb width h k = ground (arith, bits_lem w lsb width h k, one-le-pow width 2)

pub bit-lt : (w at : ℕ) → bit w at < 2
bit-lt w at = omega (arith, bit_lem w at)

-- The register operand at the 5-bit field at `lsb` has the field's number.
pub number-field :
    (w lsb : ℕ) (use_sp : Bool) (width : RegWidth)
    → number (gp_register use_sp width (bit_and (bits w lsb 5) 0x1f)) ≡ bits w lsb 5
number-field w lsb use_sp width =
    number-gp_register use_sp width (bit_and (bits w lsb 5) 0x1f)
    ∙ omega (arith, bit_and_mask 5 (bits w lsb 5), bits-lt w lsb 5 (omega arith) (omega arith))

module _ (w : ℕ) where
  -- The bits and fields that the classes share.
  abbrev Field : ℕ → ℕ → Type 0
  Field lsb width = bits w lsb width ≡ w / 2 ^ lsb % 2 ^ width

  rd_eq : Field 0 5
  rd_eq = bits_lem w 0 5 (omega arith) (omega arith)

  rn_eq : Field 5 5
  rn_eq = bits_lem w 5 5 (omega arith) (omega arith)

  opc_eq : Field 29 2
  opc_eq = bits_lem w 29 2 (omega arith) (omega arith)

  imms_eq : Field 10 6
  imms_eq = bits_lem w 10 6 (omega arith) (omega arith)

  pub pc_rel_word :
      w < 2 ^ 32
      → w / 2 ^ 24 % 32 ≡ 0b10000
      → bit w 31 * 2 ^ 31
          + bits w 29 2 * 2 ^ 29
          + 0b10000 * 2 ^ 24
          + bits w 5 19 * 2 ^ 5
          + bits w 0 5
        ≡ w
  pc_rel_word h e =
      omega (arith, bit_lem w 31, opc_eq, bits_lem w 5 19 (omega arith) (omega arith), rd_eq)

  pub addsub_word :
      w < 2 ^ 32
      → w / 2 ^ 23 % 64 ≡ 0b100010
      → bit w 31 * 2 ^ 31
          + bit w 30 * 2 ^ 30
          + bit w 29 * 2 ^ 29
          + 0b10001 * 2 ^ 24
          + bit w 22 * 2 ^ 22
          + bits w 10 12 * 2 ^ 10
          + bits w 5 5 * 2 ^ 5
          + bits w 0 5
        ≡ w
  addsub_word h e = omega (
    arith,
    bit_lem w 31,
    bit_lem w 30,
    bit_lem w 29,
    bit_lem w 22,
    bits_lem w 10 12 (omega arith) (omega arith),
    rn_eq,
    rd_eq,
  )

  -- Bits 15 and 14 of a tagged add or subtract are read by nobody.
  pub tags_word :
      w < 2 ^ 32
      → w / 2 ^ 23 % 64 ≡ 0b100011
      → bit w 31 ≡ 1
      → bit w 29 ≡ 0
      → bit w 22 ≡ 0
      → 1 * 2 ^ 31
          + bit w 30 * 2 ^ 30
          + 0b100011 * 2 ^ 23
          + bits w 16 6 * 2 ^ 16
          + bits w 10 4 * 2 ^ 10
          + bits w 5 5 * 2 ^ 5
          + bits w 0 5
        ≡ w / 2 ^ 16 * 2 ^ 16 + w % 2 ^ 14
  tags_word h e h31 h29 h22 = omega (
    arith,
    bit_lem w 31,
    bit_lem w 30,
    bit_lem w 29,
    bit_lem w 22,
    bits_lem w 16 6 (omega arith) (omega arith),
    bits_lem w 10 4 (omega arith) (omega arith),
    rn_eq,
    rd_eq,
  )

  pub minmax_word :
      w < 2 ^ 32
      → w / 2 ^ 23 % 64 ≡ 0b100011
      → bit w 30 ≡ 0
      → bit w 29 ≡ 0
      → bit w 22 ≡ 1
      → bits w 20 2 ≡ 0
      → bit w 31 * 2 ^ 31
          + 0b100011 * 2 ^ 23
          + 1 * 2 ^ 22
          + bits w 18 2 * 2 ^ 18
          + bits w 10 8 * 2 ^ 10
          + bits w 5 5 * 2 ^ 5
          + bits w 0 5
        ≡ w
  minmax_word h e h30 h29 h22 h20 = omega (
    arith,
    bit_lem w 31,
    bit_lem w 30,
    bit_lem w 29,
    bit_lem w 22,
    bits_lem w 20 2 (omega arith) (omega arith),
    bits_lem w 18 2 (omega arith) (omega arith),
    bits_lem w 10 8 (omega arith) (omega arith),
    rn_eq,
    rd_eq,
  )

  pub move_wide_word :
      w < 2 ^ 32
      → w / 2 ^ 23 % 64 ≡ 0b100101
      → bit w 31 * 2 ^ 31
          + bits w 29 2 * 2 ^ 29
          + 0b100101 * 2 ^ 23
          + bits w 21 2 * 2 ^ 21
          + bits w 5 16 * 2 ^ 5
          + bits w 0 5
        ≡ w
  move_wide_word h e = omega (
    arith,
    bit_lem w 31,
    opc_eq,
    bits_lem w 21 2 (omega arith) (omega arith),
    bits_lem w 5 16 (omega arith) (omega arith),
    rd_eq,
  )

  pub masks_word :
      (group : ℕ)
      → w < 2 ^ 32
      → w / 2 ^ 23 % 64 ≡ group
      → bit w 31 * 2 ^ 31
          + bits w 29 2 * 2 ^ 29
          + group * 2 ^ 23
          + bit w 22 * 2 ^ 22
          + bits w 16 6 * 2 ^ 16
          + bits w 10 6 * 2 ^ 10
          + bits w 5 5 * 2 ^ 5
          + bits w 0 5
        ≡ w
  masks_word group h e = omega (
    arith,
    bit_lem w 31,
    opc_eq,
    bit_lem w 22,
    bits_lem w 16 6 (omega arith) (omega arith),
    imms_eq,
    rn_eq,
    rd_eq,
  )

  pub extract_word :
      w < 2 ^ 32
      → w / 2 ^ 23 % 64 ≡ 0b100111
      → bits w 29 2 ≡ 0
      → bit w 21 ≡ 0
      → bit w 31 * 2 ^ 31
          + 0b00100111 * 2 ^ 23
          + bit w 22 * 2 ^ 22
          + bits w 16 5 * 2 ^ 16
          + bits w 10 6 * 2 ^ 10
          + bits w 5 5 * 2 ^ 5
          + bits w 0 5
        ≡ w
  extract_word h e h29 h21 = omega (
    arith,
    bit_lem w 31,
    opc_eq,
    bit_lem w 22,
    bit_lem w 21,
    bits_lem w 16 5 (omega arith) (omega arith),
    imms_eq,
    rn_eq,
    rd_eq,
  )
