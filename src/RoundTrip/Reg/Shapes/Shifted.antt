-- ===== src/RoundTrip/Reg/Shapes/Shifted.antt =====
-- Chains of `|` over the fields of a word: the shifted registers.
use f_arm.Base.{ℕ, ◌+◌, ◌*◌, ◌/◌, ◌%◌, ◌^◌, ◌<◌, ◌≡◌, arith, ◌∙◌, shl32, ◌or◌}
use f_arm.Decode.Bits.{bit, bits}
use f_arm.Decode.Bits.Laws.{bit_lem, bits_lem}
use f_arm.RoundTrip.Fields.{below, first}
use f_arm.RoundTrip.Reads.{bit-lt, bits-lt}

logical_shifted_sum :
    (sf opc sh n rm imm6 rn rd : ℕ)
    → sf < 2
    → opc < 4
    → sh < 4
    → n < 2
    → rm < 32
    → imm6 < 64
    → rn < 32
    → rd < 32
    → (shl32 sf 31
        or shl32 opc 29
        or shl32 0b01010 24
        or shl32 sh 22
        or shl32 n 21
        or shl32 rm 16
        or shl32 imm6 10
        or shl32 rn 5
        or rd)
      ≡ sf * 2 ^ 31
        + opc * 2 ^ 29
        + 0b01010 * 2 ^ 24
        + sh * 2 ^ 22
        + n * 2 ^ 21
        + rm * 2 ^ 16
        + imm6 * 2 ^ 10
        + rn * 2 ^ 5
        + rd
logical_shifted_sum sf opc sh n rm imm6 rn rd h0 h1 h2 h3 h4 h5 h6 h7 =
    let p0 = below (first (shl32 sf 31)) 31 (shl32 opc 29) (omega arith) (omega arith) in
    let p1 = below p0 29 (shl32 0b01010 24) (omega arith) (omega arith) in
    let p2 = below p1 24 (shl32 sh 22) (omega arith) (omega arith) in
    let p3 = below p2 22 (shl32 n 21) (omega arith) (omega arith) in
    let p4 = below p3 21 (shl32 rm 16) (omega arith) (omega arith) in
    let p5 = below p4 16 (shl32 imm6 10) (omega arith) (omega arith) in
    let p6 = below p5 10 (shl32 rn 5) (omega arith) (omega arith) in
    let p7 = below p6 5 (rd) (omega arith) (omega arith) in p7 ∙ omega arith

pub logical_shifted_packed :
    (w : ℕ)
    → w < 2 ^ 32
    → w / 2 ^ 24 % 32 ≡ 0b01010
    → (shl32 (bit w 31) 31
        or shl32 (bits w 29 2) 29
        or shl32 0b01010 24
        or shl32 (bits w 22 2) 22
        or shl32 (bit w 21) 21
        or shl32 (bits w 16 5) 16
        or shl32 (bits w 10 6) 10
        or shl32 (bits w 5 5) 5
        or bits w 0 5)
      ≡ w
logical_shifted_packed w h e0 =
    logical_shifted_sum (bit w 31) (bits w 29 2) (bits w 22 2) (bit w 21) (bits w 16 5)
      (bits w 10 6) (bits w 5 5) (bits w 0 5) (bit-lt w 31)
      (bits-lt w 29 2 (omega arith) (omega arith)) (bits-lt w 22 2 (omega arith) (omega arith))
      (bit-lt w 21) (bits-lt w 16 5 (omega arith) (omega arith))
      (bits-lt w 10 6 (omega arith) (omega arith)) (bits-lt w 5 5 (omega arith) (omega arith))
      (bits-lt w 0 5 (omega arith) (omega arith))
    ∙ omega (
      arith,
      bit_lem w 31,
      bits_lem w 29 2 (omega arith) (omega arith),
      bits_lem w 22 2 (omega arith) (omega arith),
      bit_lem w 21,
      bits_lem w 16 5 (omega arith) (omega arith),
      bits_lem w 10 6 (omega arith) (omega arith),
      bits_lem w 5 5 (omega arith) (omega arith),
      bits_lem w 0 5 (omega arith) (omega arith),
    )

addsub_shifted_sum :
    (sf op s sh rm imm6 rn rd : ℕ)
    → sf < 2
    → op < 2
    → s < 2
    → sh < 4
    → rm < 32
    → imm6 < 64
    → rn < 32
    → rd < 32
    → (shl32 sf 31
        or shl32 op 30
        or shl32 s 29
        or shl32 0b01011 24
        or shl32 sh 22
        or shl32 rm 16
        or shl32 imm6 10
        or shl32 rn 5
        or rd)
      ≡ sf * 2 ^ 31
        + op * 2 ^ 30
        + s * 2 ^ 29
        + 0b01011 * 2 ^ 24
        + sh * 2 ^ 22
        + rm * 2 ^ 16
        + imm6 * 2 ^ 10
        + rn * 2 ^ 5
        + rd
addsub_shifted_sum sf op s sh rm imm6 rn rd h0 h1 h2 h3 h4 h5 h6 h7 =
    let p0 = below (first (shl32 sf 31)) 31 (shl32 op 30) (omega arith) (omega arith) in
    let p1 = below p0 30 (shl32 s 29) (omega arith) (omega arith) in
    let p2 = below p1 29 (shl32 0b01011 24) (omega arith) (omega arith) in
    let p3 = below p2 24 (shl32 sh 22) (omega arith) (omega arith) in
    let p4 = below p3 22 (shl32 rm 16) (omega arith) (omega arith) in
    let p5 = below p4 16 (shl32 imm6 10) (omega arith) (omega arith) in
    let p6 = below p5 10 (shl32 rn 5) (omega arith) (omega arith) in
    let p7 = below p6 5 (rd) (omega arith) (omega arith) in p7 ∙ omega arith

pub addsub_shifted_packed :
    (w : ℕ)
    → w < 2 ^ 32
    → w / 2 ^ 24 % 32 ≡ 0b01011
    → bit w 21 ≡ 0
    → (shl32 (bit w 31) 31
        or shl32 (bit w 30) 30
        or shl32 (bit w 29) 29
        or shl32 0b01011 24
        or shl32 (bits w 22 2) 22
        or shl32 (bits w 16 5) 16
        or shl32 (bits w 10 6) 10
        or shl32 (bits w 5 5) 5
        or bits w 0 5)
      ≡ w
addsub_shifted_packed w h e0 e1 =
    addsub_shifted_sum (bit w 31) (bit w 30) (bit w 29) (bits w 22 2) (bits w 16 5) (bits w 10 6)
      (bits w 5 5) (bits w 0 5) (bit-lt w 31) (bit-lt w 30) (bit-lt w 29)
      (bits-lt w 22 2 (omega arith) (omega arith)) (bits-lt w 16 5 (omega arith) (omega arith))
      (bits-lt w 10 6 (omega arith) (omega arith)) (bits-lt w 5 5 (omega arith) (omega arith))
      (bits-lt w 0 5 (omega arith) (omega arith))
    ∙ omega (
      arith,
      bit_lem w 31,
      bit_lem w 30,
      bit_lem w 29,
      bits_lem w 22 2 (omega arith) (omega arith),
      bits_lem w 16 5 (omega arith) (omega arith),
      bits_lem w 10 6 (omega arith) (omega arith),
      bits_lem w 5 5 (omega arith) (omega arith),
      bits_lem w 0 5 (omega arith) (omega arith),
      bit_lem w 21,
    )
