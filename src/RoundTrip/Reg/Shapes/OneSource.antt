-- ===== src/RoundTrip/Reg/Shapes/OneSource.antt =====
-- Chains of `|` over the fields of a word: the classes with one source.
use f_arm.Base.{ℕ, ◌+◌, ◌*◌, ◌/◌, ◌%◌, ◌^◌, ◌<◌, ◌≡◌, arith, ◌∙◌, shl32, ◌or◌}
use f_arm.Decode.Bits.{bit, bits}
use f_arm.Decode.Bits.Laws.{bit_lem, bits_lem}
use f_arm.RoundTrip.Fields.{below, first}
use f_arm.RoundTrip.Reads.{bit-lt, bits-lt}

dp_1source_basic_sum :
    (sf imm6 rn rd : ℕ)
    → sf < 2
    → imm6 < 64
    → rn < 32
    → rd < 32
    → (shl32 sf 31 or shl32 1 30 or shl32 0b11010110 21 or shl32 imm6 10 or shl32 rn 5 or rd)
      ≡ sf * 2 ^ 31 + 1 * 2 ^ 30 + 0b11010110 * 2 ^ 21 + imm6 * 2 ^ 10 + rn * 2 ^ 5 + rd
dp_1source_basic_sum sf imm6 rn rd h0 h1 h2 h3 =
    let p0 = below (first (shl32 sf 31)) 31 (shl32 1 30) (omega arith) (omega arith) in
    let p1 = below p0 30 (shl32 0b11010110 21) (omega arith) (omega arith) in
    let p2 = below p1 21 (shl32 imm6 10) (omega arith) (omega arith) in
    let p3 = below p2 10 (shl32 rn 5) (omega arith) (omega arith) in
    let p4 = below p3 5 (rd) (omega arith) (omega arith) in p4 ∙ omega arith

pub dp_1source_basic_packed :
    (w : ℕ)
    → w < 2 ^ 32
    → w / 2 ^ 21 % 256 ≡ 0b11010110
    → bit w 30 ≡ 1
    → bit w 29 ≡ 0
    → bits w 16 5 ≡ 0
    → (shl32 (bit w 31) 31
        or shl32 1 30
        or shl32 0b11010110 21
        or shl32 (bits w 10 6) 10
        or shl32 (bits w 5 5) 5
        or bits w 0 5)
      ≡ w
dp_1source_basic_packed w h e0 e1 e2 e3 =
    dp_1source_basic_sum (bit w 31) (bits w 10 6) (bits w 5 5) (bits w 0 5) (bit-lt w 31)
      (bits-lt w 10 6 (omega arith) (omega arith)) (bits-lt w 5 5 (omega arith) (omega arith))
      (bits-lt w 0 5 (omega arith) (omega arith))
    ∙ omega (
      arith,
      bit_lem w 31,
      bits_lem w 10 6 (omega arith) (omega arith),
      bits_lem w 5 5 (omega arith) (omega arith),
      bits_lem w 0 5 (omega arith) (omega arith),
      bit_lem w 30,
      bit_lem w 29,
      bits_lem w 16 5 (omega arith) (omega arith),
    )

dp_1source_pauth_sum :
    (imm6 rn rd : ℕ)
    → imm6 < 64
    → rn < 32
    → rd < 32
    → (shl32 1 31
        or shl32 1 30
        or shl32 0b11010110 21
        or shl32 1 16
        or shl32 imm6 10
        or shl32 rn 5
        or rd)
      ≡ 1 * 2 ^ 31 + 1 * 2 ^ 30 + 0b11010110 * 2 ^ 21 + 1 * 2 ^ 16 + imm6 * 2 ^ 10 + rn * 2 ^ 5 + rd
dp_1source_pauth_sum imm6 rn rd h0 h1 h2 =
    let p0 = below (first (shl32 1 31)) 31 (shl32 1 30) (omega arith) (omega arith) in
    let p1 = below p0 30 (shl32 0b11010110 21) (omega arith) (omega arith) in
    let p2 = below p1 21 (shl32 1 16) (omega arith) (omega arith) in
    let p3 = below p2 16 (shl32 imm6 10) (omega arith) (omega arith) in
    let p4 = below p3 10 (shl32 rn 5) (omega arith) (omega arith) in
    let p5 = below p4 5 (rd) (omega arith) (omega arith) in p5 ∙ omega arith

pub dp_1source_pauth_packed :
    (w : ℕ)
    → w < 2 ^ 32
    → w / 2 ^ 21 % 256 ≡ 0b11010110
    → bit w 31 ≡ 1
    → bit w 30 ≡ 1
    → bit w 29 ≡ 0
    → bits w 16 5 ≡ 1
    → (shl32 1 31
        or shl32 1 30
        or shl32 0b11010110 21
        or shl32 1 16
        or shl32 (bits w 10 6) 10
        or shl32 (bits w 5 5) 5
        or bits w 0 5)
      ≡ w
dp_1source_pauth_packed w h e0 e1 e2 e3 e4 =
    dp_1source_pauth_sum (bits w 10 6) (bits w 5 5) (bits w 0 5)
      (bits-lt w 10 6 (omega arith) (omega arith)) (bits-lt w 5 5 (omega arith) (omega arith))
      (bits-lt w 0 5 (omega arith) (omega arith))
    ∙ omega (
      arith,
      bits_lem w 10 6 (omega arith) (omega arith),
      bits_lem w 5 5 (omega arith) (omega arith),
      bits_lem w 0 5 (omega arith) (omega arith),
      bit_lem w 31,
      bit_lem w 30,
      bit_lem w 29,
      bits_lem w 16 5 (omega arith) (omega arith),
    )
