-- ===== src/RoundTrip/Fields.antt =====
-- The chains of `|` that the encoders build, as sums: each field lies below the zeros of what
-- stands left of it.
use f_arm.Base.{ℕ, ◌+◌, ◌*◌, ◌/◌, ◌^◌, ◌<◌, ◌≡◌, refl, arith, ◌∙◌, shl32, ◌or◌, ap, bit_or}
use f_arm.Base.Bits.{or_field}

-- One more field `b` below the `k` zeros of a chain `a` whose sum is `s`.
pub below : {a s : ℕ} → a ≡ s → (k b : ℕ) → s ≡ s / 2 ^ k * 2 ^ k → b < 2 ^ k → bit_or a b ≡ s + b
below {s} e k b z h = ap (λ t. bit_or t b) e ∙ or_field k s b z h

pub first : (a : ℕ) → a ≡ a
first a = refl

pub pc_rel_sum :
    (op immlo immhi rd : ℕ)
    → op < 2
    → immlo < 4
    → immhi < 2 ^ 19
    → rd < 32
    → (shl32 op 31 or shl32 immlo 29 or shl32 0b10000 24 or shl32 immhi 5 or rd)
      ≡ op * 2 ^ 31 + immlo * 2 ^ 29 + 0b10000 * 2 ^ 24 + immhi * 2 ^ 5 + rd
pc_rel_sum op immlo immhi rd h0 h1 h2 h3 =
    let p0 = below (first (shl32 op 31)) 31 (shl32 immlo 29) (omega arith) (omega arith) in
    let p1 = below p0 29 (shl32 0b10000 24) (omega arith) (omega arith) in
    let p2 = below p1 24 (shl32 immhi 5) (omega arith) (omega arith) in
    let p3 = below p2 5 (rd) (omega arith) (omega arith) in p3 ∙ omega arith

pub addsub_sum :
    (sf op s sh imm12 rn rd : ℕ)
    → sf < 2
    → op < 2
    → s < 2
    → sh < 2
    → imm12 < 2 ^ 12
    → rn < 32
    → rd < 32
    → (shl32 sf 31
        or shl32 op 30
        or shl32 s 29
        or shl32 0b10001 24
        or shl32 sh 22
        or shl32 imm12 10
        or shl32 rn 5
        or rd)
      ≡ sf * 2 ^ 31
        + op * 2 ^ 30
        + s * 2 ^ 29
        + 0b10001 * 2 ^ 24
        + sh * 2 ^ 22
        + imm12 * 2 ^ 10
        + rn * 2 ^ 5
        + rd
addsub_sum sf op s sh imm12 rn rd h0 h1 h2 h3 h4 h5 h6 =
    let p0 = below (first (shl32 sf 31)) 31 (shl32 op 30) (omega arith) (omega arith) in
    let p1 = below p0 30 (shl32 s 29) (omega arith) (omega arith) in
    let p2 = below p1 29 (shl32 0b10001 24) (omega arith) (omega arith) in
    let p3 = below p2 24 (shl32 sh 22) (omega arith) (omega arith) in
    let p4 = below p3 22 (shl32 imm12 10) (omega arith) (omega arith) in
    let p5 = below p4 10 (shl32 rn 5) (omega arith) (omega arith) in
    let p6 = below p5 5 (rd) (omega arith) (omega arith) in p6 ∙ omega arith

pub tags_sum :
    (op uimm6 uimm4 rn rd : ℕ)
    → op < 2
    → uimm6 < 64
    → uimm4 < 16
    → rn < 32
    → rd < 32
    → (shl32 1 31
        or shl32 op 30
        or shl32 0b100011 23
        or shl32 uimm6 16
        or shl32 uimm4 10
        or shl32 rn 5
        or rd)
      ≡ 1 * 2 ^ 31
        + op * 2 ^ 30
        + 0b100011 * 2 ^ 23
        + uimm6 * 2 ^ 16
        + uimm4 * 2 ^ 10
        + rn * 2 ^ 5
        + rd
tags_sum op uimm6 uimm4 rn rd h0 h1 h2 h3 h4 =
    let p0 = below (first (shl32 1 31)) 31 (shl32 op 30) (omega arith) (omega arith) in
    let p1 = below p0 30 (shl32 0b100011 23) (omega arith) (omega arith) in
    let p2 = below p1 23 (shl32 uimm6 16) (omega arith) (omega arith) in
    let p3 = below p2 16 (shl32 uimm4 10) (omega arith) (omega arith) in
    let p4 = below p3 10 (shl32 rn 5) (omega arith) (omega arith) in
    let p5 = below p4 5 (rd) (omega arith) (omega arith) in p5 ∙ omega arith

pub minmax_sum :
    (sf opc imm8 rn rd : ℕ)
    → sf < 2
    → opc < 4
    → imm8 < 256
    → rn < 32
    → rd < 32
    → (shl32 sf 31
        or shl32 0b100011 23
        or shl32 1 22
        or shl32 opc 18
        or shl32 imm8 10
        or shl32 rn 5
        or rd)
      ≡ sf * 2 ^ 31
        + 0b100011 * 2 ^ 23
        + 1 * 2 ^ 22
        + opc * 2 ^ 18
        + imm8 * 2 ^ 10
        + rn * 2 ^ 5
        + rd
minmax_sum sf opc imm8 rn rd h0 h1 h2 h3 h4 =
    let p0 = below (first (shl32 sf 31)) 31 (shl32 0b100011 23) (omega arith) (omega arith) in
    let p1 = below p0 23 (shl32 1 22) (omega arith) (omega arith) in
    let p2 = below p1 22 (shl32 opc 18) (omega arith) (omega arith) in
    let p3 = below p2 18 (shl32 imm8 10) (omega arith) (omega arith) in
    let p4 = below p3 10 (shl32 rn 5) (omega arith) (omega arith) in
    let p5 = below p4 5 (rd) (omega arith) (omega arith) in p5 ∙ omega arith

pub move_wide_sum :
    (sf opc hw imm16 rd : ℕ)
    → sf < 2
    → opc < 4
    → hw < 4
    → imm16 < 2 ^ 16
    → rd < 32
    → (shl32 sf 31 or shl32 opc 29 or shl32 0b100101 23 or shl32 hw 21 or shl32 imm16 5 or rd)
      ≡ sf * 2 ^ 31 + opc * 2 ^ 29 + 0b100101 * 2 ^ 23 + hw * 2 ^ 21 + imm16 * 2 ^ 5 + rd
move_wide_sum sf opc hw imm16 rd h0 h1 h2 h3 h4 =
    let p0 = below (first (shl32 sf 31)) 31 (shl32 opc 29) (omega arith) (omega arith) in
    let p1 = below p0 29 (shl32 0b100101 23) (omega arith) (omega arith) in
    let p2 = below p1 23 (shl32 hw 21) (omega arith) (omega arith) in
    let p3 = below p2 21 (shl32 imm16 5) (omega arith) (omega arith) in
    let p4 = below p3 5 (rd) (omega arith) (omega arith) in p4 ∙ omega arith

pub masks_sum :
    (sf opc group n immr imms rn rd : ℕ)
    → sf < 2
    → opc < 4
    → group < 64
    → n < 2
    → immr < 64
    → imms < 64
    → rn < 32
    → rd < 32
    → (shl32 sf 31
        or shl32 opc 29
        or shl32 group 23
        or shl32 n 22
        or shl32 immr 16
        or shl32 imms 10
        or shl32 rn 5
        or rd)
      ≡ sf * 2 ^ 31
        + opc * 2 ^ 29
        + group * 2 ^ 23
        + n * 2 ^ 22
        + immr * 2 ^ 16
        + imms * 2 ^ 10
        + rn * 2 ^ 5
        + rd
masks_sum sf opc group n immr imms rn rd h0 h1 h2 h3 h4 h5 h6 h7 =
    let p0 = below (first (shl32 sf 31)) 31 (shl32 opc 29) (omega arith) (omega arith) in
    let p1 = below p0 29 (shl32 group 23) (omega arith) (omega arith) in
    let p2 = below p1 23 (shl32 n 22) (omega arith) (omega arith) in
    let p3 = below p2 22 (shl32 immr 16) (omega arith) (omega arith) in
    let p4 = below p3 16 (shl32 imms 10) (omega arith) (omega arith) in
    let p5 = below p4 10 (shl32 rn 5) (omega arith) (omega arith) in
    let p6 = below p5 5 (rd) (omega arith) (omega arith) in p6 ∙ omega arith

pub extract_sum :
    (sf n rm imms rn rd : ℕ)
    → sf < 2
    → n < 2
    → rm < 32
    → imms < 64
    → rn < 32
    → rd < 32
    → (shl32 sf 31
        or shl32 0b00100111 23
        or shl32 n 22
        or shl32 rm 16
        or shl32 imms 10
        or shl32 rn 5
        or rd)
      ≡ sf * 2 ^ 31
        + 0b00100111 * 2 ^ 23
        + n * 2 ^ 22
        + rm * 2 ^ 16
        + imms * 2 ^ 10
        + rn * 2 ^ 5
        + rd
extract_sum sf n rm imms rn rd h0 h1 h2 h3 h4 h5 =
    let p0 = below (first (shl32 sf 31)) 31 (shl32 0b00100111 23) (omega arith) (omega arith) in
    let p1 = below p0 23 (shl32 n 22) (omega arith) (omega arith) in
    let p2 = below p1 22 (shl32 rm 16) (omega arith) (omega arith) in
    let p3 = below p2 16 (shl32 imms 10) (omega arith) (omega arith) in
    let p4 = below p3 10 (shl32 rn 5) (omega arith) (omega arith) in
    let p5 = below p4 5 (rd) (omega arith) (omega arith) in p5 ∙ omega arith
