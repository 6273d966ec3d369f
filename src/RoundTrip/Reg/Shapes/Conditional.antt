-- ===== src/RoundTrip/Reg/Shapes/Conditional.antt =====
-- Chains of `|` over the fields of a word: conditional compare and select.
use f_arm.Base.{ℕ, ◌+◌, ◌*◌, ◌/◌, ◌%◌, ◌^◌, ◌<◌, ◌≡◌, arith, ◌∙◌, shl32, ◌or◌}
use f_arm.Decode.Bits.{bit, bits}
use f_arm.Decode.Bits.Laws.{bit_lem, bits_lem}
use f_arm.RoundTrip.Fields.{below, first}
use f_arm.RoundTrip.Reads.{bit-lt, bits-lt}

cond_compare_sum :
    (sf op rm cond form rn low : ℕ)
    → sf < 2
    → op < 2
    → rm < 32
    → cond < 16
    → form < 2
    → rn < 32
    → low < 16
    → (shl32 sf 31
        or shl32 op 30
        or shl32 0b111010010 21
        or shl32 rm 16
        or shl32 cond 12
        or shl32 form 11
        or shl32 rn 5
        or low)
      ≡ sf * 2 ^ 31
        + op * 2 ^ 30
        + 0b111010010 * 2 ^ 21
        + rm * 2 ^ 16
        + cond * 2 ^ 12
        + form * 2 ^ 11
        + rn * 2 ^ 5
        + low
cond_compare_sum sf op rm cond form rn low h0 h1 h2 h3 h4 h5 h6 =
    let p0 = below (first (shl32 sf 31)) 31 (shl32 op 30) (omega arith) (omega arith) in
    let p1 = below p0 30 (shl32 0b111010010 21) (omega arith) (omega arith) in
    let p2 = below p1 21 (shl32 rm 16) (omega arith) (omega arith) in
    let p3 = below p2 16 (shl32 cond 12) (omega arith) (omega arith) in
    let p4 = below p3 12 (shl32 form 11) (omega arith) (omega arith) in
    let p5 = below p4 11 (shl32 rn 5) (omega arith) (omega arith) in
    let p6 = below p5 5 (low) (omega arith) (omega arith) in p6 ∙ omega arith

pub cond_compare_packed :
    (w : ℕ)
    → w < 2 ^ 32
    → w / 2 ^ 21 % 256 ≡ 0b11010010
    → bit w 29 ≡ 1
    → bit w 10 ≡ 0
    → bit w 4 ≡ 0
    → (shl32 (bit w 31) 31
        or shl32 (bit w 30) 30
        or shl32 0b111010010 21
        or shl32 (bits w 16 5) 16
        or shl32 (bits w 12 4) 12
        or shl32 (bit w 11) 11
        or shl32 (bits w 5 5) 5
        or bits w 0 4)
      ≡ w
cond_compare_packed w h e0 e1 e2 e3 =
    cond_compare_sum (bit w 31) (bit w 30) (bits w 16 5) (bits w 12 4) (bit w 11) (bits w 5 5)
      (bits w 0 4) (bit-lt w 31) (bit-lt w 30) (bits-lt w 16 5 (omega arith) (omega arith))
      (bits-lt w 12 4 (omega arith) (omega arith)) (bit-lt w 11)
      (bits-lt w 5 5 (omega arith) (omega arith)) (bits-lt w 0 4 (omega arith) (omega arith))
    ∙ omega (
      arith,
      bit_lem w 31,
      bit_lem w 30,
      bits_lem w 16 5 (omega arith) (omega arith),
      bits_lem w 12 4 (omega arith) (omega arith),
      bit_lem w 11,
      bits_lem w 5 5 (omega arith) (omega arith),
      bits_lem w 0 4 (omega arith) (omega arith),
      bit_lem w 29,
      bit_lem w 10,
      bit_lem w 4,
    )

cond_select_sum :
    (sf op rm cond o2 rn rd : ℕ)
    → sf < 2
    → op < 2
    → rm < 32
    → cond < 16
    → o2 < 2
    → rn < 32
    → rd < 32
    → (shl32 sf 31
        or shl32 op 30
        or shl32 0b011010100 21
        or shl32 rm 16
        or shl32 cond 12
        or shl32 o2 10
        or shl32 rn 5
        or rd)
      ≡ sf * 2 ^ 31
        + op * 2 ^ 30
        + 0b011010100 * 2 ^ 21
        + rm * 2 ^ 16
        + cond * 2 ^ 12
        + o2 * 2 ^ 10
        + rn * 2 ^ 5
        + rd
cond_select_sum sf op rm cond o2 rn rd h0 h1 h2 h3 h4 h5 h6 =
    let p0 = below (first (shl32 sf 31)) 31 (shl32 op 30) (omega arith) (omega arith) in
    let p1 = below p0 30 (shl32 0b011010100 21) (omega arith) (omega arith) in
    let p2 = below p1 21 (shl32 rm 16) (omega arith) (omega arith) in
    let p3 = below p2 16 (shl32 cond 12) (omega arith) (omega arith) in
    let p4 = below p3 12 (shl32 o2 10) (omega arith) (omega arith) in
    let p5 = below p4 10 (shl32 rn 5) (omega arith) (omega arith) in
    let p6 = below p5 5 (rd) (omega arith) (omega arith) in p6 ∙ omega arith

pub cond_select_packed :
    (w : ℕ)
    → w < 2 ^ 32
    → w / 2 ^ 21 % 256 ≡ 0b11010100
    → bit w 29 ≡ 0
    → bit w 11 ≡ 0
    → (shl32 (bit w 31) 31
        or shl32 (bit w 30) 30
        or shl32 0b011010100 21
        or shl32 (bits w 16 5) 16
        or shl32 (bits w 12 4) 12
        or shl32 (bit w 10) 10
        or shl32 (bits w 5 5) 5
        or bits w 0 5)
      ≡ w
cond_select_packed w h e0 e1 e2 =
    cond_select_sum (bit w 31) (bit w 30) (bits w 16 5) (bits w 12 4) (bit w 10) (bits w 5 5)
      (bits w 0 5) (bit-lt w 31) (bit-lt w 30) (bits-lt w 16 5 (omega arith) (omega arith))
      (bits-lt w 12 4 (omega arith) (omega arith)) (bit-lt w 10)
      (bits-lt w 5 5 (omega arith) (omega arith)) (bits-lt w 0 5 (omega arith) (omega arith))
    ∙ omega (
      arith,
      bit_lem w 31,
      bit_lem w 30,
      bits_lem w 16 5 (omega arith) (omega arith),
      bits_lem w 12 4 (omega arith) (omega arith),
      bit_lem w 10,
      bits_lem w 5 5 (omega arith) (omega arith),
      bits_lem w 0 5 (omega arith) (omega arith),
      bit_lem w 29,
      bit_lem w 11,
    )
