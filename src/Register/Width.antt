-- ===== src/Register/Width.antt =====
-- `Register::width_bits`: the architectural width of a register view.
use f_arm.Base.{ℕ}
use f_arm.Register.{Register}

unfoldable pub width_bits : Register → ℕ
width_bits Register.none = 0
width_bits Register.w0 = 32
width_bits Register.w1 = 32
width_bits Register.w2 = 32
width_bits Register.w3 = 32
width_bits Register.w4 = 32
width_bits Register.w5 = 32
width_bits Register.w6 = 32
width_bits Register.w7 = 32
width_bits Register.w8 = 32
width_bits Register.w9 = 32
width_bits Register.w10 = 32
width_bits Register.w11 = 32
width_bits Register.w12 = 32
width_bits Register.w13 = 32
width_bits Register.w14 = 32
width_bits Register.w15 = 32
width_bits Register.w16 = 32
width_bits Register.w17 = 32
width_bits Register.w18 = 32
width_bits Register.w19 = 32
width_bits Register.w20 = 32
width_bits Register.w21 = 32
width_bits Register.w22 = 32
width_bits Register.w23 = 32
width_bits Register.w24 = 32
width_bits Register.w25 = 32
width_bits Register.w26 = 32
width_bits Register.w27 = 32
width_bits Register.w28 = 32
width_bits Register.w29 = 32
width_bits Register.w30 = 32
width_bits Register.wzr = 32
width_bits Register.wsp = 32
width_bits Register.x0 = 64
width_bits Register.x1 = 64
width_bits Register.x2 = 64
width_bits Register.x3 = 64
width_bits Register.x4 = 64
width_bits Register.x5 = 64
width_bits Register.x6 = 64
width_bits Register.x7 = 64
width_bits Register.x8 = 64
width_bits Register.x9 = 64
width_bits Register.x10 = 64
width_bits Register.x11 = 64
width_bits Register.x12 = 64
width_bits Register.x13 = 64
width_bits Register.x14 = 64
width_bits Register.x15 = 64
width_bits Register.x16 = 64
width_bits Register.x17 = 64
width_bits Register.x18 = 64
width_bits Register.x19 = 64
width_bits Register.x20 = 64
width_bits Register.x21 = 64
width_bits Register.x22 = 64
width_bits Register.x23 = 64
width_bits Register.x24 = 64
width_bits Register.x25 = 64
width_bits Register.x26 = 64
width_bits Register.x27 = 64
width_bits Register.x28 = 64
width_bits Register.x29 = 64
width_bits Register.x30 = 64
width_bits Register.xzr = 64
width_bits Register.sp = 64
width_bits Register.b0 = 8
width_bits Register.b1 = 8
width_bits Register.b2 = 8
width_bits Register.b3 = 8
width_bits Register.b4 = 8
width_bits Register.b5 = 8
width_bits Register.b6 = 8
width_bits Register.b7 = 8
width_bits Register.b8 = 8
width_bits Register.b9 = 8
width_bits Register.b10 = 8
width_bits Register.b11 = 8
width_bits Register.b12 = 8
width_bits Register.b13 = 8
width_bits Register.b14 = 8
width_bits Register.b15 = 8
width_bits Register.b16 = 8
width_bits Register.b17 = 8
width_bits Register.b18 = 8
width_bits Register.b19 = 8
width_bits Register.b20 = 8
width_bits Register.b21 = 8
width_bits Register.b22 = 8
width_bits Register.b23 = 8
width_bits Register.b24 = 8
width_bits Register.b25 = 8
width_bits Register.b26 = 8
width_bits Register.b27 = 8
width_bits Register.b28 = 8
width_bits Register.b29 = 8
width_bits Register.b30 = 8
width_bits Register.b31 = 8
width_bits Register.h0 = 16
width_bits Register.h1 = 16
width_bits Register.h2 = 16
width_bits Register.h3 = 16
width_bits Register.h4 = 16
width_bits Register.h5 = 16
width_bits Register.h6 = 16
width_bits Register.h7 = 16
width_bits Register.h8 = 16
width_bits Register.h9 = 16
width_bits Register.h10 = 16
width_bits Register.h11 = 16
width_bits Register.h12 = 16
width_bits Register.h13 = 16
width_bits Register.h14 = 16
width_bits Register.h15 = 16
width_bits Register.h16 = 16
width_bits Register.h17 = 16
width_bits Register.h18 = 16
width_bits Register.h19 = 16
width_bits Register.h20 = 16
width_bits Register.h21 = 16
width_bits Register.h22 = 16
width_bits Register.h23 = 16
width_bits Register.h24 = 16
width_bits Register.h25 = 16
width_bits Register.h26 = 16
width_bits Register.h27 = 16
width_bits Register.h28 = 16
width_bits Register.h29 = 16
width_bits Register.h30 = 16
width_bits Register.h31 = 16
width_bits Register.s0 = 32
width_bits Register.s1 = 32
width_bits Register.s2 = 32
width_bits Register.s3 = 32
width_bits Register.s4 = 32
width_bits Register.s5 = 32
width_bits Register.s6 = 32
width_bits Register.s7 = 32
width_bits Register.s8 = 32
width_bits Register.s9 = 32
width_bits Register.s10 = 32
width_bits Register.s11 = 32
width_bits Register.s12 = 32
width_bits Register.s13 = 32
width_bits Register.s14 = 32
width_bits Register.s15 = 32
width_bits Register.s16 = 32
width_bits Register.s17 = 32
width_bits Register.s18 = 32
width_bits Register.s19 = 32
width_bits Register.s20 = 32
width_bits Register.s21 = 32
width_bits Register.s22 = 32
width_bits Register.s23 = 32
width_bits Register.s24 = 32
width_bits Register.s25 = 32
width_bits Register.s26 = 32
width_bits Register.s27 = 32
width_bits Register.s28 = 32
width_bits Register.s29 = 32
width_bits Register.s30 = 32
width_bits Register.s31 = 32
width_bits Register.d0 = 64
width_bits Register.d1 = 64
width_bits Register.d2 = 64
width_bits Register.d3 = 64
width_bits Register.d4 = 64
width_bits Register.d5 = 64
width_bits Register.d6 = 64
width_bits Register.d7 = 64
width_bits Register.d8 = 64
width_bits Register.d9 = 64
width_bits Register.d10 = 64
width_bits Register.d11 = 64
width_bits Register.d12 = 64
width_bits Register.d13 = 64
width_bits Register.d14 = 64
width_bits Register.d15 = 64
width_bits Register.d16 = 64
width_bits Register.d17 = 64
width_bits Register.d18 = 64
width_bits Register.d19 = 64
width_bits Register.d20 = 64
width_bits Register.d21 = 64
width_bits Register.d22 = 64
width_bits Register.d23 = 64
width_bits Register.d24 = 64
width_bits Register.d25 = 64
width_bits Register.d26 = 64
width_bits Register.d27 = 64
width_bits Register.d28 = 64
width_bits Register.d29 = 64
width_bits Register.d30 = 64
width_bits Register.d31 = 64
width_bits Register.q0 = 128
width_bits Register.q1 = 128
width_bits Register.q2 = 128
width_bits Register.q3 = 128
width_bits Register.q4 = 128
width_bits Register.q5 = 128
width_bits Register.q6 = 128
width_bits Register.q7 = 128
width_bits Register.q8 = 128
width_bits Register.q9 = 128
width_bits Register.q10 = 128
width_bits Register.q11 = 128
width_bits Register.q12 = 128
width_bits Register.q13 = 128
width_bits Register.q14 = 128
width_bits Register.q15 = 128
width_bits Register.q16 = 128
width_bits Register.q17 = 128
width_bits Register.q18 = 128
width_bits Register.q19 = 128
width_bits Register.q20 = 128
width_bits Register.q21 = 128
width_bits Register.q22 = 128
width_bits Register.q23 = 128
width_bits Register.q24 = 128
width_bits Register.q25 = 128
width_bits Register.q26 = 128
width_bits Register.q27 = 128
width_bits Register.q28 = 128
width_bits Register.q29 = 128
width_bits Register.q30 = 128
width_bits Register.q31 = 128
width_bits Register.v0 = 128
width_bits Register.v1 = 128
width_bits Register.v2 = 128
width_bits Register.v3 = 128
width_bits Register.v4 = 128
width_bits Register.v5 = 128
width_bits Register.v6 = 128
width_bits Register.v7 = 128
width_bits Register.v8 = 128
width_bits Register.v9 = 128
width_bits Register.v10 = 128
width_bits Register.v11 = 128
width_bits Register.v12 = 128
width_bits Register.v13 = 128
width_bits Register.v14 = 128
width_bits Register.v15 = 128
width_bits Register.v16 = 128
width_bits Register.v17 = 128
width_bits Register.v18 = 128
width_bits Register.v19 = 128
width_bits Register.v20 = 128
width_bits Register.v21 = 128
width_bits Register.v22 = 128
width_bits Register.v23 = 128
width_bits Register.v24 = 128
width_bits Register.v25 = 128
width_bits Register.v26 = 128
width_bits Register.v27 = 128
width_bits Register.v28 = 128
width_bits Register.v29 = 128
width_bits Register.v30 = 128
width_bits Register.v31 = 128
width_bits Register.z0 = 0
width_bits Register.z1 = 0
width_bits Register.z2 = 0
width_bits Register.z3 = 0
width_bits Register.z4 = 0
width_bits Register.z5 = 0
width_bits Register.z6 = 0
width_bits Register.z7 = 0
width_bits Register.z8 = 0
width_bits Register.z9 = 0
width_bits Register.z10 = 0
width_bits Register.z11 = 0
width_bits Register.z12 = 0
width_bits Register.z13 = 0
width_bits Register.z14 = 0
width_bits Register.z15 = 0
width_bits Register.z16 = 0
width_bits Register.z17 = 0
width_bits Register.z18 = 0
width_bits Register.z19 = 0
width_bits Register.z20 = 0
width_bits Register.z21 = 0
width_bits Register.z22 = 0
width_bits Register.z23 = 0
width_bits Register.z24 = 0
width_bits Register.z25 = 0
width_bits Register.z26 = 0
width_bits Register.z27 = 0
width_bits Register.z28 = 0
width_bits Register.z29 = 0
width_bits Register.z30 = 0
width_bits Register.z31 = 0
width_bits Register.p0 = 0
width_bits Register.p1 = 0
width_bits Register.p2 = 0
width_bits Register.p3 = 0
width_bits Register.p4 = 0
width_bits Register.p5 = 0
width_bits Register.p6 = 0
width_bits Register.p7 = 0
width_bits Register.p8 = 0
width_bits Register.p9 = 0
width_bits Register.p10 = 0
width_bits Register.p11 = 0
width_bits Register.p12 = 0
width_bits Register.p13 = 0
width_bits Register.p14 = 0
width_bits Register.p15 = 0
width_bits Register.pf0 = 0
width_bits Register.pf1 = 0
width_bits Register.pf2 = 0
width_bits Register.pf3 = 0
width_bits Register.pf4 = 0
width_bits Register.pf5 = 0
width_bits Register.pf6 = 0
width_bits Register.pf7 = 0
width_bits Register.pf8 = 0
width_bits Register.pf9 = 0
width_bits Register.pf10 = 0
width_bits Register.pf11 = 0
width_bits Register.pf12 = 0
width_bits Register.pf13 = 0
width_bits Register.pf14 = 0
width_bits Register.pf15 = 0
width_bits Register.pf16 = 0
width_bits Register.pf17 = 0
width_bits Register.pf18 = 0
width_bits Register.pf19 = 0
width_bits Register.pf20 = 0
width_bits Register.pf21 = 0
width_bits Register.pf22 = 0
width_bits Register.pf23 = 0
width_bits Register.pf24 = 0
width_bits Register.pf25 = 0
width_bits Register.pf26 = 0
width_bits Register.pf27 = 0
width_bits Register.pf28 = 0
width_bits Register.pf29 = 0
width_bits Register.pf30 = 0
width_bits Register.pf31 = 0
width_bits Register.zt0 = 0
width_bits Register.nzcv = 4
width_bits Register.ffr = 0
width_bits Register.za = 0
width_bits Register.pc = 64
