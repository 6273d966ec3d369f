-- ===== src/RoundTrip/Reg/Shapes/Extended.antt =====
-- Chains of `|` over the fields of a word: extended registers, carries and pointers.
use f_arm.Base.{ℕ, ◌+◌, ◌*◌, ◌/◌, ◌%◌, ◌^◌, ◌<◌, ◌≡◌, arith, ◌∙◌, shl32, ◌or◌}
use f_arm.Decode.Bits.{bit, bits}
use f_arm.Decode.Bits.Laws.{bit_lem, bits_lem}
use f_arm.RoundTrip.Fields.{below, first}
use f_arm.RoundTrip.Reads.{bit-lt, bits-lt}

addsub_extended_sum :
    (sf op s rm option imm3 rn rd : ℕ)
    → sf < 2
    → op < 2
    → s < 2
    → rm < 32
    → option < 8
    → imm3 < 8
    → rn < 32
    → rd < 32
    → (shl32 sf 31
        or shl32 op 30
        or shl32 s 29
        or shl32 0b01011 24
        or shl32 1 21
        or shl32 rm 16
        or shl32 option 13
        or shl32 imm3 10
        or shl32 rn 5
        or rd)
      ≡ sf * 2 ^ 31
        + op * 2 ^ 30
        + s * 2 ^ 29
        + 0b01011 * 2 ^ 24
        + 1 * 2 ^ 21
        + rm * 2 ^ 16
        + option * 2 ^ 13
        + imm3 * 2 ^ 10
        + rn * 2 ^ 5
        + rd
addsub_extended_sum sf op s rm option imm3 rn rd h0 h1 h2 h3 h4 h5 h6 h7 =
    let p0 = below (first (shl32 sf 31)) 31 (shl32 op 30) (omega arith) (omega arith) in
    let p1 = below p0 30 (shl32 s 29) (omega arith) (omega arith) in
    let p2 = below p1 29 (shl32 0b01011 24) (omega arith) (omega arith) in
    let p3 = below p2 24 (shl32 1 21) (omega arith) (omega arith) in
    let p4 = below p3 21 (shl32 rm 16) (omega arith) (omega arith) in
    let p5 = below p4 16 (shl32 option 13) (omega arith) (omega arith) in
    let p6 = below p5 13 (shl32 imm3 10) (omega arith) (omega arith) in
    let p7 = below p6 10 (shl32 rn 5) (omega arith) (omega arith) in
    let p8 = below p7 5 (rd) (omega arith) (omega arith) in p8 ∙ omega arith

pub addsub_extended_packed :
    (w : ℕ)
    → w < 2 ^ 32
    → w / 2 ^ 24 % 32 ≡ 0b01011
    → bit w 21 ≡ 1
    → bits w 22 2 ≡ 0
    → (shl32 (bit w 31) 31
        or shl32 (bit w 30) 30
        or shl32 (bit w 29) 29
        or shl32 0b01011 24
        or shl32 1 21
        or shl32 (bits w 16 5) 16
        or shl32 (bits w 13 3) 13
        or shl32 (bits w 10 3) 10
        or shl32 (bits w 5 5) 5
        or bits w 0 5)
      ≡ w
addsub_extended_packed w h e0 e1 e2 =
    addsub_extended_sum (bit w 31) (bit w 30) (bit w 29) (bits w 16 5) (bits w 13 3) (bits w 10 3)
      (bits w 5 5) (bits w 0 5) (bit-lt w 31) (bit-lt w 30) (bit-lt w 29)
      (bits-lt w 16 5 (omega arith) (omega arith)) (bits-lt w 13 3 (omega arith) (omega arith))
      (bits-lt w 10 3 (omega arith) (omega arith)) (bits-lt w 5 5 (omega arith) (omega arith))
      (bits-lt w 0 5 (omega arith) (omega arith))
    ∙ omega (
      arith,
      bit_lem w 31,
      bit_lem w 30,
      bit_lem w 29,
      bits_lem w 16 5 (omega arith) (omega arith),
      bits_lem w 13 3 (omega arith) (omega arith),
      bits_lem w 10 3 (omega arith) (omega arith),
      bits_lem w 5 5 (omega arith) (omega arith),
      bits_lem w 0 5 (omega arith) (omega arith),
      bit_lem w 21,
      bits_lem w 22 2 (omega arith) (omega arith),
    )

addsub_carry_sum :
    (sf op s rm rn rd : ℕ)
    → sf < 2
    → op < 2
    → s < 2
    → rm < 32
    → rn < 32
    → rd < 32
    → (shl32 sf 31
        or shl32 op 30
        or shl32 s 29
        or shl32 0b11010000 21
        or shl32 rm 16
        or shl32 rn 5
        or rd)
      ≡ sf * 2 ^ 31 + op * 2 ^ 30 + s * 2 ^ 29 + 0b11010000 * 2 ^ 21 + rm * 2 ^ 16 + rn * 2 ^ 5 + rd
addsub_carry_sum sf op s rm rn rd h0 h1 h2 h3 h4 h5 =
    let p0 = below (first (shl32 sf 31)) 31 (shl32 op 30) (omega arith) (omega arith) in
    let p1 = below p0 30 (shl32 s 29) (omega arith) (omega arith) in
    let p2 = below p1 29 (shl32 0b11010000 21) (omega arith) (omega arith) in
    let p3 = below p2 21 (shl32 rm 16) (omega arith) (omega arith) in
    let p4 = below p3 16 (shl32 rn 5) (omega arith) (omega arith) in
    let p5 = below p4 5 (rd) (omega arith) (omega arith) in p5 ∙ omega arith

pub addsub_carry_packed :
    (w : ℕ)
    → w < 2 ^ 32
    → w / 2 ^ 21 % 256 ≡ 0b11010000
    → bits w 10 6 ≡ 0
    → (shl32 (bit w 31) 31
        or shl32 (bit w 30) 30
        or shl32 (bit w 29) 29
        or shl32 0b11010000 21
        or shl32 (bits w 16 5) 16
        or shl32 (bits w 5 5) 5
        or bits w 0 5)
      ≡ w
addsub_carry_packed w h e0 e1 =
    addsub_carry_sum (bit w 31) (bit w 30) (bit w 29) (bits w 16 5) (bits w 5 5) (bits w 0 5)
      (bit-lt w 31) (bit-lt w 30) (bit-lt w 29) (bits-lt w 16 5 (omega arith) (omega arith))
      (bits-lt w 5 5 (omega arith) (omega arith)) (bits-lt w 0 5 (omega arith) (omega arith))
    ∙ omega (
      arith,
      bit_lem w 31,
      bit_lem w 30,
      bit_lem w 29,
      bits_lem w 16 5 (omega arith) (omega arith),
      bits_lem w 5 5 (omega arith) (omega arith),
      bits_lem w 0 5 (omega arith) (omega arith),
      bits_lem w 10 6 (omega arith) (omega arith),
    )

addsub_pt_sum :
    (op rm imm3 rn rd : ℕ)
    → op < 2
    → rm < 32
    → imm3 < 8
    → rn < 32
    → rd < 32
    → (shl32 1 31
        or shl32 op 30
        or shl32 0b11010000 21
        or shl32 rm 16
        or shl32 0b001 13
        or shl32 imm3 10
        or shl32 rn 5
        or rd)
      ≡ 1 * 2 ^ 31
        + op * 2 ^ 30
        + 0b11010000 * 2 ^ 21
        + rm * 2 ^ 16
        + 0b001 * 2 ^ 13
        + imm3 * 2 ^ 10
        + rn * 2 ^ 5
        + rd
addsub_pt_sum op rm imm3 rn rd h0 h1 h2 h3 h4 =
    let p0 = below (first (shl32 1 31)) 31 (shl32 op 30) (omega arith) (omega arith) in
    let p1 = below p0 30 (shl32 0b11010000 21) (omega arith) (omega arith) in
    let p2 = below p1 21 (shl32 rm 16) (omega arith) (omega arith) in
    let p3 = below p2 16 (shl32 0b001 13) (omega arith) (omega arith) in
    let p4 = below p3 13 (shl32 imm3 10) (omega arith) (omega arith) in
    let p5 = below p4 10 (shl32 rn 5) (omega arith) (omega arith) in
    let p6 = below p5 5 (rd) (omega arith) (omega arith) in p6 ∙ omega arith

pub addsub_pt_packed :
    (w : ℕ)
    → w < 2 ^ 32
    → w / 2 ^ 21 % 256 ≡ 0b11010000
    → bit w 31 ≡ 1
    → bit w 29 ≡ 0
    → bits w 13 3 ≡ 1
    → (shl32 1 31
        or shl32 (bit w 30) 30
        or shl32 0b11010000 21
        or shl32 (bits w 16 5) 16
        or shl32 0b001 13
        or shl32 (bits w 10 3) 10
        or shl32 (bits w 5 5) 5
        or bits w 0 5)
      ≡ w
addsub_pt_packed w h e0 e1 e2 e3 =
    addsub_pt_sum (bit w 30) (bits w 16 5) (bits w 10 3) (bits w 5 5) (bits w 0 5) (bit-lt w 30)
      (bits-lt w 16 5 (omega arith) (omega arith)) (bits-lt w 10 3 (omega arith) (omega arith))
      (bits-lt w 5 5 (omega arith) (omega arith)) (bits-lt w 0 5 (omega arith) (omega arith))
    ∙ omega (
      arith,
      bit_lem w 30,
      bits_lem w 16 5 (omega arith) (omega arith),
      bits_lem w 10 3 (omega arith) (omega arith),
      bits_lem w 5 5 (omega arith) (omega arith),
      bits_lem w 0 5 (omega arith) (omega arith),
      bit_lem w 31,
      bit_lem w 29,
      bits_lem w 13 3 (omega arith) (omega arith),
    )
