-- ===== src/Register/Laws.antt =====
-- src/register.rs: `number` and `width_bits` on what `gp_register` resolves.
use f_arm.Base.{ℕ, ◌%◌, ◌≡◌, refl, arith, Bool, true, false, all_below, all_below_sound, ==_iff}
use f_arm.Base.{◌==◌}
use f_arm.Register.{RegWidth}
use f_arm.Register.Number.{number}
use f_arm.Register.Resolve.{gp_register}
use f_arm.Register.Width.{width_bits}

number_table :
    (use_sp : Bool) (w : RegWidth) → all_below 32 (λ n. number (gp_register use_sp w n) == n) ≡ true
unfolding all_below number gp_register
number_table true RegWidth.w32 = refl
number_table true RegWidth.x64 = refl
number_table false RegWidth.w32 = refl
number_table false RegWidth.x64 = refl

gp_register-mod :
    (use_sp : Bool) (w : RegWidth) (n : ℕ) → gp_register use_sp w n ≡ gp_register use_sp w (n % 32)
unfolding gp_register
gp_register-mod use_sp RegWidth.w32 n = rw (mod_twice n)
  where
    mod_twice : (m : ℕ) → m % 32 % 32 ≡ m % 32
    mod_twice m = omega arith
gp_register-mod use_sp RegWidth.x64 n = rw (mod_twice n)
  where
    mod_twice : (m : ℕ) → m % 32 % 32 ≡ m % 32
    mod_twice m = omega arith

-- The number of the register that `gp_register` finds for a field is the 5 low bits of the field,
-- at both widths, as stack pointer or zero register.
pub number-gp_register :
    (use_sp : Bool) (w : RegWidth) (n : ℕ) → number (gp_register use_sp w n) ≡ n % 32
number-gp_register use_sp w n =
    rw (gp_register-mod use_sp w n)
      ((==_iff _ _).0 (all_below_sound 32 _ (n % 32) (number_table use_sp w) (omega arith)))

-- The bits of a general-purpose view.
unfoldable pub bits_of : RegWidth → ℕ
bits_of RegWidth.w32 = 32
bits_of RegWidth.x64 = 64

width_table :
    (use_sp : Bool) (w : RegWidth)
    → all_below 32 (λ n. width_bits (gp_register use_sp w n) == bits_of w) ≡ true
unfolding all_below width_bits gp_register bits_of
width_table true RegWidth.w32 = refl
width_table true RegWidth.x64 = refl
width_table false RegWidth.w32 = refl
width_table false RegWidth.x64 = refl

-- The view that `gp_register` finds is as wide as asked.
pub width_bits-gp_register :
    (use_sp : Bool) (w : RegWidth) (n : ℕ) → width_bits (gp_register use_sp w n) ≡ bits_of w
width_bits-gp_register use_sp w n =
    rw (gp_register-mod use_sp w n)
      ((==_iff _ _).0 (all_below_sound 32 _ (n % 32) (width_table use_sp w) (omega arith)))
