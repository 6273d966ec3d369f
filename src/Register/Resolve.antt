-- ===== src/Register/Resolve.antt =====
-- `gp_register`: number 31 of a register field is the stack pointer or the zero register.
use f_arm.Base.{ℕ, ◌%◌, ◌==◌, if◌then◌else◌, Bool}
use f_arm.Register.{Register, RegWidth}
use f_arm.Register.Views.{as_w}

-- A number from 31 on falls back to `xzr`.
unfoldable pub gp_x_numbered : ℕ → Register
gp_x_numbered n =
    if n == 0
    then Register.x0
    else if n == 1
    then Register.x1
    else if n == 2
    then Register.x2
    else if n == 3
    then Register.x3
    else if n == 4
    then Register.x4
    else if n == 5
    then Register.x5
    else if n == 6
    then Register.x6
    else if n == 7
    then Register.x7
    else if n == 8
    then Register.x8
    else if n == 9
    then Register.x9
    else if n == 10
    then Register.x10
    else if n == 11
    then Register.x11
    else if n == 12
    then Register.x12
    else if n == 13
    then Register.x13
    else if n == 14
    then Register.x14
    else if n == 15
    then Register.x15
    else if n == 16
    then Register.x16
    else if n == 17
    then Register.x17
    else if n == 18
    then Register.x18
    else if n == 19
    then Register.x19
    else if n == 20
    then Register.x20
    else if n == 21
    then Register.x21
    else if n == 22
    then Register.x22
    else if n == 23
    then Register.x23
    else if n == 24
    then Register.x24
    else if n == 25
    then Register.x25
    else if n == 26
    then Register.x26
    else if n == 27
    then Register.x27
    else if n == 28
    then Register.x28
    else if n == 29
    then Register.x29
    else if n == 30
    then Register.x30
    else Register.xzr

unfoldable pub gp_register : Bool → RegWidth → ℕ → Register
unfolding gp_x_numbered as_w
gp_register use_sp RegWidth.w32 n =
    if n % 32 == 31
    then (if use_sp then Register.wsp else Register.wzr)
    else as_w (gp_x_numbered (n % 32))
gp_register use_sp RegWidth.x64 n =
    if n % 32 == 31 then (if use_sp then Register.sp else Register.xzr) else gp_x_numbered (n % 32)
