-- ===== src/Register/Number.antt =====
-- `Register::number`: the number of a register within its file.
use f_arm.Base.{ℕ}
use f_arm.Register.{Register}

unfoldable pub number : Register → ℕ
number Register.none = 0
number Register.w0 = 0
number Register.w1 = 1
number Register.w2 = 2
number Register.w3 = 3
number Register.w4 = 4
number Register.w5 = 5
number Register.w6 = 6
number Register.w7 = 7
number Register.w8 = 8
number Register.w9 = 9
number Register.w10 = 10
number Register.w11 = 11
number Register.w12 = 12
number Register.w13 = 13
number Register.w14 = 14
number Register.w15 = 15
number Register.w16 = 16
number Register.w17 = 17
number Register.w18 = 18
number Register.w19 = 19
number Register.w20 = 20
number Register.w21 = 21
number Register.w22 = 22
number Register.w23 = 23
number Register.w24 = 24
number Register.w25 = 25
number Register.w26 = 26
number Register.w27 = 27
number Register.w28 = 28
number Register.w29 = 29
number Register.w30 = 30
number Register.wzr = 31
number Register.wsp = 31
number Register.x0 = 0
number Register.x1 = 1
number Register.x2 = 2
number Register.x3 = 3
number Register.x4 = 4
number Register.x5 = 5
number Register.x6 = 6
number Register.x7 = 7
number Register.x8 = 8
number Register.x9 = 9
number Register.x10 = 10
number Register.x11 = 11
number Register.x12 = 12
number Register.x13 = 13
number Register.x14 = 14
number Register.x15 = 15
number Register.x16 = 16
number Register.x17 = 17
number Register.x18 = 18
number Register.x19 = 19
number Register.x20 = 20
number Register.x21 = 21
number Register.x22 = 22
number Register.x23 = 23
number Register.x24 = 24
number Register.x25 = 25
number Register.x26 = 26
number Register.x27 = 27
number Register.x28 = 28
number Register.x29 = 29
number Register.x30 = 30
number Register.xzr = 31
number Register.sp = 31
number Register.b0 = 0
number Register.b1 = 1
number Register.b2 = 2
number Register.b3 = 3
number Register.b4 = 4
number Register.b5 = 5
number Register.b6 = 6
number Register.b7 = 7
number Register.b8 = 8
number Register.b9 = 9
number Register.b10 = 10
number Register.b11 = 11
number Register.b12 = 12
number Register.b13 = 13
number Register.b14 = 14
number Register.b15 = 15
number Register.b16 = 16
number Register.b17 = 17
number Register.b18 = 18
number Register.b19 = 19
number Register.b20 = 20
number Register.b21 = 21
number Register.b22 = 22
number Register.b23 = 23
number Register.b24 = 24
number Register.b25 = 25
number Register.b26 = 26
number Register.b27 = 27
number Register.b28 = 28
number Register.b29 = 29
number Register.b30 = 30
number Register.b31 = 31
number Register.h0 = 0
number Register.h1 = 1
number Register.h2 = 2
number Register.h3 = 3
number Register.h4 = 4
number Register.h5 = 5
number Register.h6 = 6
number Register.h7 = 7
number Register.h8 = 8
number Register.h9 = 9
number Register.h10 = 10
number Register.h11 = 11
number Register.h12 = 12
number Register.h13 = 13
number Register.h14 = 14
number Register.h15 = 15
number Register.h16 = 16
number Register.h17 = 17
number Register.h18 = 18
number Register.h19 = 19
number Register.h20 = 20
number Register.h21 = 21
number Register.h22 = 22
number Register.h23 = 23
number Register.h24 = 24
number Register.h25 = 25
number Register.h26 = 26
number Register.h27 = 27
number Register.h28 = 28
number Register.h29 = 29
number Register.h30 = 30
number Register.h31 = 31
number Register.s0 = 0
number Register.s1 = 1
number Register.s2 = 2
number Register.s3 = 3
number Register.s4 = 4
number Register.s5 = 5
number Register.s6 = 6
number Register.s7 = 7
number Register.s8 = 8
number Register.s9 = 9
number Register.s10 = 10
number Register.s11 = 11
number Register.s12 = 12
number Register.s13 = 13
number Register.s14 = 14
number Register.s15 = 15
number Register.s16 = 16
number Register.s17 = 17
number Register.s18 = 18
number Register.s19 = 19
number Register.s20 = 20
number Register.s21 = 21
number Register.s22 = 22
number Register.s23 = 23
number Register.s24 = 24
number Register.s25 = 25
number Register.s26 = 26
number Register.s27 = 27
number Register.s28 = 28
number Register.s29 = 29
number Register.s30 = 30
number Register.s31 = 31
number Register.d0 = 0
number Register.d1 = 1
number Register.d2 = 2
number Register.d3 = 3
number Register.d4 = 4
number Register.d5 = 5
number Register.d6 = 6
number Register.d7 = 7
number Register.d8 = 8
number Register.d9 = 9
number Register.d10 = 10
number Register.d11 = 11
number Register.d12 = 12
number Register.d13 = 13
number Register.d14 = 14
number Register.d15 = 15
number Register.d16 = 16
number Register.d17 = 17
number Register.d18 = 18
number Register.d19 = 19
number Register.d20 = 20
number Register.d21 = 21
number Register.d22 = 22
number Register.d23 = 23
number Register.d24 = 24
number Register.d25 = 25
number Register.d26 = 26
number Register.d27 = 27
number Register.d28 = 28
number Register.d29 = 29
number Register.d30 = 30
number Register.d31 = 31
number Register.q0 = 0
number Register.q1 = 1
number Register.q2 = 2
number Register.q3 = 3
number Register.q4 = 4
number Register.q5 = 5
number Register.q6 = 6
number Register.q7 = 7
number Register.q8 = 8
number Register.q9 = 9
number Register.q10 = 10
number Register.q11 = 11
number Register.q12 = 12
number Register.q13 = 13
number Register.q14 = 14
number Register.q15 = 15
number Register.q16 = 16
number Register.q17 = 17
number Register.q18 = 18
number Register.q19 = 19
number Register.q20 = 20
number Register.q21 = 21
number Register.q22 = 22
number Register.q23 = 23
number Register.q24 = 24
number Register.q25 = 25
number Register.q26 = 26
number Register.q27 = 27
number Register.q28 = 28
number Register.q29 = 29
number Register.q30 = 30
number Register.q31 = 31
number Register.v0 = 0
number Register.v1 = 1
number Register.v2 = 2
number Register.v3 = 3
number Register.v4 = 4
number Register.v5 = 5
number Register.v6 = 6
number Register.v7 = 7
number Register.v8 = 8
number Register.v9 = 9
number Register.v10 = 10
number Register.v11 = 11
number Register.v12 = 12
number Register.v13 = 13
number Register.v14 = 14
number Register.v15 = 15
number Register.v16 = 16
number Register.v17 = 17
number Register.v18 = 18
number Register.v19 = 19
number Register.v20 = 20
number Register.v21 = 21
number Register.v22 = 22
number Register.v23 = 23
number Register.v24 = 24
number Register.v25 = 25
number Register.v26 = 26
number Register.v27 = 27
number Register.v28 = 28
number Register.v29 = 29
number Register.v30 = 30
number Register.v31 = 31
number Register.z0 = 0
number Register.z1 = 1
number Register.z2 = 2
number Register.z3 = 3
number Register.z4 = 4
number Register.z5 = 5
number Register.z6 = 6
number Register.z7 = 7
number Register.z8 = 8
number Register.z9 = 9
number Register.z10 = 10
number Register.z11 = 11
number Register.z12 = 12
number Register.z13 = 13
number Register.z14 = 14
number Register.z15 = 15
number Register.z16 = 16
number Register.z17 = 17
number Register.z18 = 18
number Register.z19 = 19
number Register.z20 = 20
number Register.z21 = 21
number Register.z22 = 22
number Register.z23 = 23
number Register.z24 = 24
number Register.z25 = 25
number Register.z26 = 26
number Register.z27 = 27
number Register.z28 = 28
number Register.z29 = 29
number Register.z30 = 30
number Register.z31 = 31
number Register.p0 = 0
number Register.p1 = 1
number Register.p2 = 2
number Register.p3 = 3
number Register.p4 = 4
number Register.p5 = 5
number Register.p6 = 6
number Register.p7 = 7
number Register.p8 = 8
number Register.p9 = 9
number Register.p10 = 10
number Register.p11 = 11
number Register.p12 = 12
number Register.p13 = 13
number Register.p14 = 14
number Register.p15 = 15
number Register.pf0 = 0
number Register.pf1 = 1
number Register.pf2 = 2
number Register.pf3 = 3
number Register.pf4 = 4
number Register.pf5 = 5
number Register.pf6 = 6
number Register.pf7 = 7
number Register.pf8 = 8
number Register.pf9 = 9
number Register.pf10 = 10
number Register.pf11 = 11
number Register.pf12 = 12
number Register.pf13 = 13
number Register.pf14 = 14
number Register.pf15 = 15
number Register.pf16 = 16
number Register.pf17 = 17
number Register.pf18 = 18
number Register.pf19 = 19
number Register.pf20 = 20
number Register.pf21 = 21
number Register.pf22 = 22
number Register.pf23 = 23
number Register.pf24 = 24
number Register.pf25 = 25
number Register.pf26 = 26
number Register.pf27 = 27
number Register.pf28 = 28
number Register.pf29 = 29
number Register.pf30 = 30
number Register.pf31 = 31
number Register.zt0 = 0
number Register.nzcv = 0
number Register.ffr = 0
number Register.za = 0
number Register.pc = 0
