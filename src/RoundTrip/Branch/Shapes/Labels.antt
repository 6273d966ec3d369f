-- ===== src/RoundTrip/Branch/Shapes/Labels.antt =====
-- Chains of `|` over the fields of a word: the branches to a label.
use f_arm.Base.{ℕ, ◌+◌, ◌*◌, ◌/◌, ◌%◌, ◌^◌, ◌<◌, ◌≡◌, arith, ◌∙◌, shl32, ◌or◌}
use f_arm.Decode.Bits.{bit, bits}
use f_arm.Decode.Bits.Laws.{bit_lem, bits_lem}
use f_arm.RoundTrip.Fields.{below, first}
use f_arm.RoundTrip.Reads.{bit-lt, bits-lt}

pub cond_branch_sum :
    (imm19 o0 cond : ℕ)
    → imm19 < 524288
    → o0 < 2
    → cond < 16
    → (shl32 0b0101_0100 24 or shl32 imm19 5 or shl32 o0 4 or cond)
      ≡ 0b0101_0100 * 2 ^ 24 + imm19 * 2 ^ 5 + o0 * 2 ^ 4 + cond
cond_branch_sum imm19 o0 cond h0 h1 h2 =
    let p0 = below (first (shl32 0b0101_0100 24)) 24 (shl32 imm19 5) (omega arith) (omega arith) in
    let p1 = below p0 5 (shl32 o0 4) (omega arith) (omega arith) in
    let p2 = below p1 4 (cond) (omega arith) (omega arith) in p2 ∙ omega arith

pub cond_branch_packed :
    (w : ℕ)
    → w < 2 ^ 32
    → w / 2 ^ 24 % 256 ≡ 0b01010100
    → (shl32 0b0101_0100 24 or shl32 (bits w 5 19) 5 or shl32 (bit w 4) 4 or bits w 0 4) ≡ w
cond_branch_packed w h e0 =
    cond_branch_sum (bits w 5 19) (bit w 4) (bits w 0 4)
      (bits-lt w 5 19 (omega arith) (omega arith)) (bit-lt w 4)
      (bits-lt w 0 4 (omega arith) (omega arith))
    ∙ omega (
      arith,
      bits_lem w 5 19 (omega arith) (omega arith),
      bit_lem w 4,
      bits_lem w 0 4 (omega arith) (omega arith),
    )

pub uncond_branch_imm_sum :
    (sf imm26 : ℕ)
    → sf < 2
    → imm26 < 67108864
    → (shl32 sf 31 or shl32 0b00101 26 or imm26) ≡ sf * 2 ^ 31 + 0b00101 * 2 ^ 26 + imm26
uncond_branch_imm_sum sf imm26 h0 h1 =
    let p0 = below (first (shl32 sf 31)) 31 (shl32 0b00101 26) (omega arith) (omega arith) in
    let p1 = below p0 26 (imm26) (omega arith) (omega arith) in p1 ∙ omega arith

pub uncond_branch_imm_packed :
    (w : ℕ)
    → w < 2 ^ 32
    → w / 2 ^ 26 % 32 ≡ 0b00101
    → (shl32 (bit w 31) 31 or shl32 0b00101 26 or bits w 0 26) ≡ w
uncond_branch_imm_packed w h e0 =
    uncond_branch_imm_sum (bit w 31) (bits w 0 26) (bit-lt w 31)
      (bits-lt w 0 26 (omega arith) (omega arith))
    ∙ omega (arith, bit_lem w 31, bits_lem w 0 26 (omega arith) (omega arith))

pub compare_branch_sum :
    (sf op imm19 rt : ℕ)
    → sf < 2
    → op < 2
    → imm19 < 524288
    → rt < 32
    → (shl32 sf 31 or shl32 0b011010 25 or shl32 op 24 or shl32 imm19 5 or rt)
      ≡ sf * 2 ^ 31 + 0b011010 * 2 ^ 25 + op * 2 ^ 24 + imm19 * 2 ^ 5 + rt
compare_branch_sum sf op imm19 rt h0 h1 h2 h3 =
    let p0 = below (first (shl32 sf 31)) 31 (shl32 0b011010 25) (omega arith) (omega arith) in
    let p1 = below p0 25 (shl32 op 24) (omega arith) (omega arith) in
    let p2 = below p1 24 (shl32 imm19 5) (omega arith) (omega arith) in
    let p3 = below p2 5 (rt) (omega arith) (omega arith) in p3 ∙ omega arith

pub compare_branch_packed :
    (w : ℕ)
    → w < 2 ^ 32
    → w / 2 ^ 25 % 64 ≡ 0b011010
    → (shl32 (bit w 31) 31
        or shl32 0b011010 25
        or shl32 (bit w 24) 24
        or shl32 (bits w 5 19) 5
        or bits w 0 5)
      ≡ w
compare_branch_packed w h e0 =
    compare_branch_sum (bit w 31) (bit w 24) (bits w 5 19) (bits w 0 5) (bit-lt w 31) (bit-lt w 24)
      (bits-lt w 5 19 (omega arith) (omega arith)) (bits-lt w 0 5 (omega arith) (omega arith))
    ∙ omega (
      arith,
      bit_lem w 31,
      bit_lem w 24,
      bits_lem w 5 19 (omega arith) (omega arith),
      bits_lem w 0 5 (omega arith) (omega arith),
    )

pub test_branch_sum :
    (sf op b40 imm14 rt : ℕ)
    → sf < 2
    → op < 2
    → b40 < 32
    → imm14 < 16384
    → rt < 32
    → (shl32 sf 31 or shl32 0b011011 25 or shl32 op 24 or shl32 b40 19 or shl32 imm14 5 or rt)
      ≡ sf * 2 ^ 31 + 0b011011 * 2 ^ 25 + op * 2 ^ 24 + b40 * 2 ^ 19 + imm14 * 2 ^ 5 + rt
test_branch_sum sf op b40 imm14 rt h0 h1 h2 h3 h4 =
    let p0 = below (first (shl32 sf 31)) 31 (shl32 0b011011 25) (omega arith) (omega arith) in
    let p1 = below p0 25 (shl32 op 24) (omega arith) (omega arith) in
    let p2 = below p1 24 (shl32 b40 19) (omega arith) (omega arith) in
    let p3 = below p2 19 (shl32 imm14 5) (omega arith) (omega arith) in
    let p4 = below p3 5 (rt) (omega arith) (omega arith) in p4 ∙ omega arith

pub test_branch_packed :
    (w : ℕ)
    → w < 2 ^ 32
    → w / 2 ^ 25 % 64 ≡ 0b011011
    → (shl32 (bit w 31) 31
        or shl32 0b011011 25
        or shl32 (bit w 24) 24
        or shl32 (bits w 19 5) 19
        or shl32 (bits w 5 14) 5
        or bits w 0 5)
      ≡ w
test_branch_packed w h e0 =
    test_branch_sum (bit w 31) (bit w 24) (bits w 19 5) (bits w 5 14) (bits w 0 5) (bit-lt w 31)
      (bit-lt w 24) (bits-lt w 19 5 (omega arith) (omega arith))
      (bits-lt w 5 14 (omega arith) (omega arith)) (bits-lt w 0 5 (omega arith) (omega arith))
    ∙ omega (
      arith,
      bit_lem w 31,
      bit_lem w 24,
      bits_lem w 19 5 (omega arith) (omega arith),
      bits_lem w 5 14 (omega arith) (omega arith),
      bits_lem w 0 5 (omega arith) (omega arith),
    )
