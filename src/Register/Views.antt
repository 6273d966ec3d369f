-- ===== src/Register/Views.antt =====
-- `Register::as_x` and `Register::as_w`: the two views of a general-purpose register.
use f_arm.Register.{Register}

unfoldable pub as_x : Register → Register
as_x Register.w0 = Register.x0
as_x Register.w1 = Register.x1
as_x Register.w2 = Register.x2
as_x Register.w3 = Register.x3
as_x Register.w4 = Register.x4
as_x Register.w5 = Register.x5
as_x Register.w6 = Register.x6
as_x Register.w7 = Register.x7
as_x Register.w8 = Register.x8
as_x Register.w9 = Register.x9
as_x Register.w10 = Register.x10
as_x Register.w11 = Register.x11
as_x Register.w12 = Register.x12
as_x Register.w13 = Register.x13
as_x Register.w14 = Register.x14
as_x Register.w15 = Register.x15
as_x Register.w16 = Register.x16
as_x Register.w17 = Register.x17
as_x Register.w18 = Register.x18
as_x Register.w19 = Register.x19
as_x Register.w20 = Register.x20
as_x Register.w21 = Register.x21
as_x Register.w22 = Register.x22
as_x Register.w23 = Register.x23
as_x Register.w24 = Register.x24
as_x Register.w25 = Register.x25
as_x Register.w26 = Register.x26
as_x Register.w27 = Register.x27
as_x Register.w28 = Register.x28
as_x Register.w29 = Register.x29
as_x Register.w30 = Register.x30
as_x Register.wzr = Register.xzr
as_x Register.wsp = Register.sp
as_x other = other

unfoldable pub as_w : Register → Register
as_w Register.x0 = Register.w0
as_w Register.x1 = Register.w1
as_w Register.x2 = Register.w2
as_w Register.x3 = Register.w3
as_w Register.x4 = Register.w4
as_w Register.x5 = Register.w5
as_w Register.x6 = Register.w6
as_w Register.x7 = Register.w7
as_w Register.x8 = Register.w8
as_w Register.x9 = Register.w9
as_w Register.x10 = Register.w10
as_w Register.x11 = Register.w11
as_w Register.x12 = Register.w12
as_w Register.x13 = Register.w13
as_w Register.x14 = Register.w14
as_w Register.x15 = Register.w15
as_w Register.x16 = Register.w16
as_w Register.x17 = Register.w17
as_w Register.x18 = Register.w18
as_w Register.x19 = Register.w19
as_w Register.x20 = Register.w20
as_w Register.x21 = Register.w21
as_w Register.x22 = Register.w22
as_w Register.x23 = Register.w23
as_w Register.x24 = Register.w24
as_w Register.x25 = Register.w25
as_w Register.x26 = Register.w26
as_w Register.x27 = Register.w27
as_w Register.x28 = Register.w28
as_w Register.x29 = Register.w29
as_w Register.x30 = Register.w30
as_w Register.xzr = Register.wzr
as_w Register.sp = Register.wsp
as_w other = other
