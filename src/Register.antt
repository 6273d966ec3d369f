-- ===== src/Register.antt =====
-- src/register.rs: the registers, and the resolution of a register field.
pub mod Number
pub mod Width
pub mod Resolve
pub mod Views
pub mod Laws
use f_arm.Base.{ℕ}

-- One constructor for each variant, in the order of the source.
pub data Register : Type 0 where
  none w0 w1 w2 w3 w4 w5 w6 w7 w8 w9 w10 w11 w12 w13 w14 w15 w16 w17 w18 w19 w20 w21 : Register
  w22 w23 w24 w25 w26 w27 w28 w29 w30 wzr wsp x0 x1 x2 x3 x4 x5 x6 x7 x8 x9 x10 x11 : Register
  x12 x13 x14 x15 x16 x17 x18 x19 x20 x21 x22 x23 x24 x25 x26 x27 x28 x29 x30 xzr sp : Register
  b0 b1 b2 b3 b4 b5 b6 b7 b8 b9 b10 b11 b12 b13 b14 b15 b16 b17 b18 b19 b20 b21 b22 : Register
  b23 b24 b25 b26 b27 b28 b29 b30 b31 h0 h1 h2 h3 h4 h5 h6 h7 h8 h9 h10 h11 h12 h13 : Register
  h14 h15 h16 h17 h18 h19 h20 h21 h22 h23 h24 h25 h26 h27 h28 h29 h30 h31 s0 s1 s2 s3 : Register
  s4 s5 s6 s7 s8 s9 s10 s11 s12 s13 s14 s15 s16 s17 s18 s19 s20 s21 s22 s23 s24 s25 : Register
  s26 s27 s28 s29 s30 s31 d0 d1 d2 d3 d4 d5 d6 d7 d8 d9 d10 d11 d12 d13 d14 d15 d16 : Register
  d17 d18 d19 d20 d21 d22 d23 d24 d25 d26 d27 d28 d29 d30 d31 q0 q1 q2 q3 q4 q5 q6 q7 : Register
  q8 q9 q10 q11 q12 q13 q14 q15 q16 q17 q18 q19 q20 q21 q22 q23 q24 q25 q26 q27 q28 : Register
  q29 q30 q31 v0 v1 v2 v3 v4 v5 v6 v7 v8 v9 v10 v11 v12 v13 v14 v15 v16 v17 v18 v19 : Register
  v20 v21 v22 v23 v24 v25 v26 v27 v28 v29 v30 v31 z0 z1 z2 z3 z4 z5 z6 z7 z8 z9 z10 : Register
  z11 z12 z13 z14 z15 z16 z17 z18 z19 z20 z21 z22 z23 z24 z25 z26 z27 z28 z29 z30 z31 : Register
  p0 p1 p2 p3 p4 p5 p6 p7 p8 p9 p10 p11 p12 p13 p14 p15 pf0 pf1 pf2 pf3 pf4 pf5 pf6 : Register
  pf7 pf8 pf9 pf10 pf11 pf12 pf13 pf14 pf15 pf16 pf17 pf18 pf19 pf20 pf21 pf22 pf23 : Register
  pf24 pf25 pf26 pf27 pf28 pf29 pf30 pf31 zt0 nzcv ffr za pc : Register

pub data RegWidth : Type 0 where
  w32 x64 : RegWidth
