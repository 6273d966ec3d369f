-- ===== src/RoundTrip/Reg/Sources.antt =====
-- Chains of `|` over the fields of a word that give the word back: two and three sources.
use f_arm.Base.{ℕ, ◌+◌, ◌*◌, ◌/◌, ◌%◌, ◌^◌, ◌<◌, ◌≡◌, arith, ◌∙◌, shl32, ◌or◌}
use f_arm.Decode.Bits.{bit, bits}
use f_arm.Decode.Bits.Laws.{bit_lem, bits_lem}
use f_arm.RoundTrip.Fields.{below, first}
use f_arm.RoundTrip.Reads.{bit-lt, bits-lt}

dp_2source_sum :
    (sf s rm imm6 rn rd : ℕ)
    → sf < 2
    → s < 2
    → rm < 32
    → imm6 < 64
    → rn < 32
    → rd < 32
    → (shl32 sf 31
        or shl32 s 29
        or shl32 0b011010110 21
        or shl32 rm 16
        or shl32 imm6 10
        or shl32 rn 5
        or rd)
      ≡ sf * 2 ^ 31
        + s * 2 ^ 29
        + 0b011010110 * 2 ^ 21
        + rm * 2 ^ 16
        + imm6 * 2 ^ 10
        + rn * 2 ^ 5
        + rd
dp_2source_sum sf s rm imm6 rn rd h0 h1 h2 h3 h4 h5 =
    let p0 = below (first (shl32 sf 31)) 31 (shl32 s 29) (omega arith) (omega arith) in
    let p1 = below p0 29 (shl32 0b011010110 21) (omega arith) (omega arith) in
    let p2 = below p1 21 (shl32 rm 16) (omega arith) (omega arith) in
    let p3 = below p2 16 (shl32 imm6 10) (omega arith) (omega arith) in
    let p4 = below p3 10 (shl32 rn 5) (omega arith) (omega arith) in
    let p5 = below p4 5 (rd) (omega arith) (omega arith) in p5 ∙ omega arith

pub dp_2source_packed :
    (w : ℕ)
    → w < 2 ^ 32
    → w / 2 ^ 21 % 256 ≡ 0b11010110
    → bit w 30 ≡ 0
    → (shl32 (bit w 31) 31
        or shl32 (bit w 29) 29
        or shl32 0b011010110 21
        or shl32 (bits w 16 5) 16
        or shl32 (bits w 10 6) 10
        or shl32 (bits w 5 5) 5
        or bits w 0 5)
      ≡ w
dp_2source_packed w h e0 e1 =
    dp_2source_sum (bit w 31) (bit w 29) (bits w 16 5) (bits w 10 6) (bits w 5 5) (bits w 0 5)
      (bit-lt w 31) (bit-lt w 29) (bits-lt w 16 5 (omega arith) (omega arith))
      (bits-lt w 10 6 (omega arith) (omega arith)) (bits-lt w 5 5 (omega arith) (omega arith))
      (bits-lt w 0 5 (omega arith) (omega arith))
    ∙ omega (
      arith,
      bit_lem w 31,
      bit_lem w 29,
      bits_lem w 16 5 (omega arith) (omega arith),
      bits_lem w 10 6 (omega arith) (omega arith),
      bits_lem w 5 5 (omega arith) (omega arith),
      bits_lem w 0 5 (omega arith) (omega arith),
      bit_lem w 30,
    )

dp_3source_sum :
    (sf op31 rm o0 ra rn rd : ℕ)
    → sf < 2
    → op31 < 8
    → rm < 32
    → o0 < 2
    → ra < 32
    → rn < 32
    → rd < 32
    → (shl32 sf 31
        or shl32 0b11011 24
        or shl32 op31 21
        or shl32 rm 16
        or shl32 o0 15
        or shl32 ra 10
        or shl32 rn 5
        or rd)
      ≡ sf * 2 ^ 31
        + 0b11011 * 2 ^ 24
        + op31 * 2 ^ 21
        + rm * 2 ^ 16
        + o0 * 2 ^ 15
        + ra * 2 ^ 10
        + rn * 2 ^ 5
        + rd
dp_3source_sum sf op31 rm o0 ra rn rd h0 h1 h2 h3 h4 h5 h6 =
    let p0 = below (first (shl32 sf 31)) 31 (shl32 0b11011 24) (omega arith) (omega arith) in
    let p1 = below p0 24 (shl32 op31 21) (omega arith) (omega arith) in
    let p2 = below p1 21 (shl32 rm 16) (omega arith) (omega arith) in
    let p3 = below p2 16 (shl32 o0 15) (omega arith) (omega arith) in
    let p4 = below p3 15 (shl32 ra 10) (omega arith) (omega arith) in
    let p5 = below p4 10 (shl32 rn 5) (omega arith) (omega arith) in
    let p6 = below p5 5 rd (omega arith) (omega arith) in p6 ∙ omega arith

-- The word with `ra` in the field of the accumulator.
unfoldable pub with_ra : ℕ → ℕ → ℕ
with_ra w ra = w / 2 ^ 15 * 2 ^ 15 + ra * 2 ^ 10 + w % 2 ^ 10

pub dp_3source_packed :
    (w ra : ℕ)
    → w < 2 ^ 32
    → ra < 32
    → w / 2 ^ 24 % 32 ≡ 0b11011
    → bits w 29 2 ≡ 0
    → (shl32 (bit w 31) 31
        or shl32 0b11011 24
        or shl32 (bits w 21 3) 21
        or shl32 (bits w 16 5) 16
        or shl32 (bit w 15) 15
        or shl32 ra 10
        or shl32 (bits w 5 5) 5
        or bits w 0 5)
      ≡ with_ra w ra
unfolding with_ra
dp_3source_packed w ra h hra e0 e1 =
    dp_3source_sum (bit w 31) (bits w 21 3) (bits w 16 5) (bit w 15) ra (bits w 5 5) (bits w 0 5)
      (bit-lt w 31) (bits-lt w 21 3 (omega arith) (omega arith))
      (bits-lt w 16 5 (omega arith) (omega arith)) (bit-lt w 15) hra
      (bits-lt w 5 5 (omega arith) (omega arith)) (bits-lt w 0 5 (omega arith) (omega arith))
    ∙ omega (
      arith,
      bit_lem w 31,
      bits_lem w 29 2 (omega arith) (omega arith),
      bits_lem w 21 3 (omega arith) (omega arith),
      bits_lem w 16 5 (omega arith) (omega arith),
      bit_lem w 15,
      bits_lem w 5 5 (omega arith) (omega arith),
      bits_lem w 0 5 (omega arith) (omega arith),
    )
