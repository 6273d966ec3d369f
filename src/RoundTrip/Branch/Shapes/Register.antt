-- ===== src/RoundTrip/Branch/Shapes/Register.antt =====
-- Chains of `|` over the fields of a word: the branches to a register, and exceptions.
use f_arm.Base.{ℕ, ◌+◌, ◌*◌, ◌/◌, ◌%◌, ◌^◌, ◌<◌, ◌≡◌, arith, ◌∙◌, shl32, ◌or◌}
use f_arm.Decode.Bits.{bits}
use f_arm.Decode.Bits.Laws.{bits_lem}
use f_arm.RoundTrip.Fields.{below, first}
use f_arm.RoundTrip.Reads.{bits-lt}

branch_reg_sum :
    (opc op3 rn rt : ℕ)
    → opc < 16
    → op3 < 64
    → rn < 32
    → rt < 32
    → (shl32 0b1101011 25 or shl32 opc 21 or shl32 0b11111 16 or shl32 op3 10 or shl32 rn 5 or rt)
      ≡ 0b1101011 * 2 ^ 25 + opc * 2 ^ 21 + 0b11111 * 2 ^ 16 + op3 * 2 ^ 10 + rn * 2 ^ 5 + rt
branch_reg_sum opc op3 rn rt h0 h1 h2 h3 =
    let p0 = below (first (shl32 0b1101011 25)) 25 (shl32 opc 21) (omega arith) (omega arith) in
    let p1 = below p0 21 (shl32 0b11111 16) (omega arith) (omega arith) in
    let p2 = below p1 16 (shl32 op3 10) (omega arith) (omega arith) in
    let p3 = below p2 10 (shl32 rn 5) (omega arith) (omega arith) in
    let p4 = below p3 5 (rt) (omega arith) (omega arith) in p4 ∙ omega arith

pub branch_reg_packed :
    (w : ℕ)
    → w < 2 ^ 32
    → w / 2 ^ 25 % 128 ≡ 0b1101011
    → bits w 16 5 ≡ 0b11111
    → (shl32 0b1101011 25
        or shl32 (bits w 21 4) 21
        or shl32 0b11111 16
        or shl32 (bits w 10 6) 10
        or shl32 (bits w 5 5) 5
        or bits w 0 5)
      ≡ w
branch_reg_packed w h e0 e1 =
    branch_reg_sum (bits w 21 4) (bits w 10 6) (bits w 5 5) (bits w 0 5)
      (bits-lt w 21 4 (omega arith) (omega arith)) (bits-lt w 10 6 (omega arith) (omega arith))
      (bits-lt w 5 5 (omega arith) (omega arith)) (bits-lt w 0 5 (omega arith) (omega arith))
    ∙ omega (
      arith,
      bits_lem w 21 4 (omega arith) (omega arith),
      bits_lem w 10 6 (omega arith) (omega arith),
      bits_lem w 5 5 (omega arith) (omega arith),
      bits_lem w 0 5 (omega arith) (omega arith),
      bits_lem w 16 5 (omega arith) (omega arith),
    )

exception_sum :
    (cc imm16 ll : ℕ)
    → cc < 8
    → imm16 < 65536
    → ll < 4
    → (shl32 0b1101_0100 24 or shl32 cc 21 or shl32 imm16 5 or ll)
      ≡ 0b1101_0100 * 2 ^ 24 + cc * 2 ^ 21 + imm16 * 2 ^ 5 + ll
exception_sum cc imm16 ll h0 h1 h2 =
    let p0 = below (first (shl32 0b1101_0100 24)) 24 (shl32 cc 21) (omega arith) (omega arith) in
    let p1 = below p0 21 (shl32 imm16 5) (omega arith) (omega arith) in
    let p2 = below p1 5 (ll) (omega arith) (omega arith) in p2 ∙ omega arith

pub exception_packed :
    (w : ℕ)
    → w < 2 ^ 32
    → w / 2 ^ 24 % 256 ≡ 0b11010100
    → bits w 2 3 ≡ 0
    → (shl32 0b1101_0100 24 or shl32 (bits w 21 3) 21 or shl32 (bits w 5 16) 5 or bits w 0 2) ≡ w
exception_packed w h e0 e1 =
    exception_sum (bits w 21 3) (bits w 5 16) (bits w 0 2)
      (bits-lt w 21 3 (omega arith) (omega arith)) (bits-lt w 5 16 (omega arith) (omega arith))
      (bits-lt w 0 2 (omega arith) (omega arith))
    ∙ omega (
      arith,
      bits_lem w 21 3 (omega arith) (omega arith),
      bits_lem w 5 16 (omega arith) (omega arith),
      bits_lem w 0 2 (omega arith) (omega arith),
      bits_lem w 2 3 (omega arith) (omega arith),
    )
