-- ===== src/RoundTrip/Reg/Shapes/Flags.antt =====
-- Chains of `|` over the fields of a word: the flag operations.
use f_arm.Base.{ℕ, ◌+◌, ◌*◌, ◌/◌, ◌%◌, ◌^◌, ◌<◌, ◌≡◌, arith, ◌∙◌, shl32, ◌or◌}
use f_arm.Decode.Bits.{bit, bits}
use f_arm.Decode.Bits.Laws.{bit_lem, bits_lem}
use f_arm.RoundTrip.Fields.{below, first}
use f_arm.RoundTrip.Reads.{bit-lt, bits-lt}

rmif_sum :
    (rotate rn low : ℕ)
    → rotate < 64
    → rn < 32
    → low < 16
    → (shl32 1 31
        or shl32 1 29
        or shl32 0b11010000 21
        or shl32 rotate 15
        or shl32 0b00001 10
        or shl32 rn 5
        or low)
      ≡ 1 * 2 ^ 31
        + 1 * 2 ^ 29
        + 0b11010000 * 2 ^ 21
        + rotate * 2 ^ 15
        + 0b00001 * 2 ^ 10
        + rn * 2 ^ 5
        + low
rmif_sum rotate rn low h0 h1 h2 =
    let p0 = below (first (shl32 1 31)) 31 (shl32 1 29) (omega arith) (omega arith) in
    let p1 = below p0 29 (shl32 0b11010000 21) (omega arith) (omega arith) in
    let p2 = below p1 21 (shl32 rotate 15) (omega arith) (omega arith) in
    let p3 = below p2 15 (shl32 0b00001 10) (omega arith) (omega arith) in
    let p4 = below p3 10 (shl32 rn 5) (omega arith) (omega arith) in
    let p5 = below p4 5 (low) (omega arith) (omega arith) in p5 ∙ omega arith

pub rmif_packed :
    (w : ℕ)
    → w < 2 ^ 32
    → w / 2 ^ 21 % 256 ≡ 0b11010000
    → bit w 31 ≡ 1
    → bit w 30 ≡ 0
    → bit w 29 ≡ 1
    → w / 2 ^ 10 % 32 ≡ 1
    → bit w 4 ≡ 0
    → (shl32 1 31
        or shl32 1 29
        or shl32 0b11010000 21
        or shl32 (bits w 15 6) 15
        or shl32 0b00001 10
        or shl32 (bits w 5 5) 5
        or bits w 0 4)
      ≡ w
rmif_packed w h e0 e1 e2 e3 e4 e5 =
    rmif_sum (bits w 15 6) (bits w 5 5) (bits w 0 4) (bits-lt w 15 6 (omega arith) (omega arith))
      (bits-lt w 5 5 (omega arith) (omega arith)) (bits-lt w 0 4 (omega arith) (omega arith))
    ∙ omega (
      arith,
      bits_lem w 15 6 (omega arith) (omega arith),
      bits_lem w 5 5 (omega arith) (omega arith),
      bits_lem w 0 4 (omega arith) (omega arith),
      bit_lem w 31,
      bit_lem w 30,
      bit_lem w 29,
      bit_lem w 4,
    )

setf_sum :
    (sz rn : ℕ)
    → sz < 2
    → rn < 32
    → (shl32 1 29
        or shl32 0b11010000 21
        or shl32 sz 14
        or shl32 0b000010 10
        or shl32 rn 5
        or 0b01101)
      ≡ 1 * 2 ^ 29 + 0b11010000 * 2 ^ 21 + sz * 2 ^ 14 + 0b000010 * 2 ^ 10 + rn * 2 ^ 5 + 0b01101
setf_sum sz rn h0 h1 =
    let p0 = below (first (shl32 1 29)) 29 (shl32 0b11010000 21) (omega arith) (omega arith) in
    let p1 = below p0 21 (shl32 sz 14) (omega arith) (omega arith) in
    let p2 = below p1 14 (shl32 0b000010 10) (omega arith) (omega arith) in
    let p3 = below p2 10 (shl32 rn 5) (omega arith) (omega arith) in
    let p4 = below p3 5 (0b01101) (omega arith) (omega arith) in p4 ∙ omega arith

pub setf_packed :
    (w : ℕ)
    → w < 2 ^ 32
    → w / 2 ^ 21 % 256 ≡ 0b11010000
    → bit w 31 ≡ 0
    → bit w 30 ≡ 0
    → bit w 29 ≡ 1
    → bits w 15 6 ≡ 0
    → w / 2 ^ 10 % 16 ≡ 2
    → bit w 4 ≡ 0
    → bits w 0 4 ≡ 13
    → (shl32 1 29
        or shl32 0b11010000 21
        or shl32 (bit w 14) 14
        or shl32 0b000010 10
        or shl32 (bits w 5 5) 5
        or 0b01101)
      ≡ w
setf_packed w h e0 e1 e2 e3 e4 e5 e6 e7 =
    setf_sum (bit w 14) (bits w 5 5) (bit-lt w 14) (bits-lt w 5 5 (omega arith) (omega arith))
    ∙ omega (
      arith,
      bit_lem w 14,
      bits_lem w 5 5 (omega arith) (omega arith),
      bit_lem w 31,
      bit_lem w 30,
      bit_lem w 29,
      bit_lem w 4,
      bits_lem w 15 6 (omega arith) (omega arith),
      bits_lem w 0 4 (omega arith) (omega arith),
    )
