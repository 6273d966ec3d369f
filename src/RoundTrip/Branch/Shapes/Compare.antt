-- ===== src/RoundTrip/Branch/Shapes/Compare.antt =====
-- Chains of `|` over the fields of a word: the branches that compare two operands.
use f_arm.Base.{ℕ, ◌+◌, ◌*◌, ◌/◌, ◌%◌, ◌^◌, ◌<◌, ◌≡◌, arith, ◌∙◌, shl32, ◌or◌}
use f_arm.Decode.Bits.{bit, bits}
use f_arm.Decode.Bits.Laws.{bit_lem, bits_lem}
use f_arm.RoundTrip.Fields.{below, first}
use f_arm.RoundTrip.Reads.{bit-lt, bits-lt}

cmpbr_register_sum :
    (sf cc rm size imm9 rt : ℕ)
    → sf < 2
    → cc < 8
    → rm < 32
    → size < 4
    → imm9 < 512
    → rt < 32
    → (shl32 sf 31
        or shl32 0b111010 25
        or shl32 cc 21
        or shl32 rm 16
        or shl32 size 14
        or shl32 imm9 5
        or rt)
      ≡ sf * 2 ^ 31
        + 0b111010 * 2 ^ 25
        + cc * 2 ^ 21
        + rm * 2 ^ 16
        + size * 2 ^ 14
        + imm9 * 2 ^ 5
        + rt
cmpbr_register_sum sf cc rm size imm9 rt h0 h1 h2 h3 h4 h5 =
    let p0 = below (first (shl32 sf 31)) 31 (shl32 0b111010 25) (omega arith) (omega arith) in
    let p1 = below p0 25 (shl32 cc 21) (omega arith) (omega arith) in
    let p2 = below p1 21 (shl32 rm 16) (omega arith) (omega arith) in
    let p3 = below p2 16 (shl32 size 14) (omega arith) (omega arith) in
    let p4 = below p3 14 (shl32 imm9 5) (omega arith) (omega arith) in
    let p5 = below p4 5 (rt) (omega arith) (omega arith) in p5 ∙ omega arith

pub cmpbr_register_packed :
    (w : ℕ)
    → w < 2 ^ 32
    → w / 2 ^ 25 % 64 ≡ 0b111010
    → bit w 24 ≡ 0
    → (shl32 (bit w 31) 31
        or shl32 0b111010 25
        or shl32 (bits w 21 3) 21
        or shl32 (bits w 16 5) 16
        or shl32 (bits w 14 2) 14
        or shl32 (bits w 5 9) 5
        or bits w 0 5)
      ≡ w
cmpbr_register_packed w h e0 e1 =
    cmpbr_register_sum (bit w 31) (bits w 21 3) (bits w 16 5) (bits w 14 2) (bits w 5 9)
      (bits w 0 5) (bit-lt w 31) (bits-lt w 21 3 (omega arith) (omega arith))
      (bits-lt w 16 5 (omega arith) (omega arith)) (bits-lt w 14 2 (omega arith) (omega arith))
      (bits-lt w 5 9 (omega arith) (omega arith)) (bits-lt w 0 5 (omega arith) (omega arith))
    ∙ omega (
      arith,
      bit_lem w 31,
      bits_lem w 21 3 (omega arith) (omega arith),
      bits_lem w 16 5 (omega arith) (omega arith),
      bits_lem w 14 2 (omega arith) (omega arith),
      bits_lem w 5 9 (omega arith) (omega arith),
      bits_lem w 0 5 (omega arith) (omega arith),
      bit_lem w 24,
    )

cmpbr_immediate_sum :
    (sf cc imm6 imm9 rt : ℕ)
    → sf < 2
    → cc < 8
    → imm6 < 64
    → imm9 < 512
    → rt < 32
    → (shl32 sf 31
        or shl32 0b111010 25
        or shl32 1 24
        or shl32 cc 21
        or shl32 imm6 15
        or shl32 imm9 5
        or rt)
      ≡ sf * 2 ^ 31
        + 0b111010 * 2 ^ 25
        + 1 * 2 ^ 24
        + cc * 2 ^ 21
        + imm6 * 2 ^ 15
        + imm9 * 2 ^ 5
        + rt
cmpbr_immediate_sum sf cc imm6 imm9 rt h0 h1 h2 h3 h4 =
    let p0 = below (first (shl32 sf 31)) 31 (shl32 0b111010 25) (omega arith) (omega arith) in
    let p1 = below p0 25 (shl32 1 24) (omega arith) (omega arith) in
    let p2 = below p1 24 (shl32 cc 21) (omega arith) (omega arith) in
    let p3 = below p2 21 (shl32 imm6 15) (omega arith) (omega arith) in
    let p4 = below p3 15 (shl32 imm9 5) (omega arith) (omega arith) in
    let p5 = below p4 5 (rt) (omega arith) (omega arith) in p5 ∙ omega arith

pub cmpbr_immediate_packed :
    (w : ℕ)
    → w < 2 ^ 32
    → w / 2 ^ 25 % 64 ≡ 0b111010
    → bit w 24 ≡ 1
    → bit w 14 ≡ 0
    → (shl32 (bit w 31) 31
        or shl32 0b111010 25
        or shl32 1 24
        or shl32 (bits w 21 3) 21
        or shl32 (bits w 15 6) 15
        or shl32 (bits w 5 9) 5
        or bits w 0 5)
      ≡ w
cmpbr_immediate_packed w h e0 e1 e2 =
    cmpbr_immediate_sum (bit w 31) (bits w 21 3) (bits w 15 6) (bits w 5 9) (bits w 0 5)
      (bit-lt w 31) (bits-lt w 21 3 (omega arith) (omega arith))
      (bits-lt w 15 6 (omega arith) (omega arith)) (bits-lt w 5 9 (omega arith) (omega arith))
      (bits-lt w 0 5 (omega arith) (omega arith))
    ∙ omega (
      arith,
      bit_lem w 31,
      bits_lem w 21 3 (omega arith) (omega arith),
      bits_lem w 15 6 (omega arith) (omega arith),
      bits_lem w 5 9 (omega arith) (omega arith),
      bits_lem w 0 5 (omega arith) (omega arith),
      bit_lem w 24,
      bit_lem w 14,
    )
