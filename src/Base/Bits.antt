-- ===== src/Base/Bits.antt =====
-- `&` and `|` as arithmetic: one equation for the lowest digit, then laws for fields at any width.
use Prim.Native.Nat.{ℕ, zero, suc, ◌+◌, ◌-◌, ◌*◌, ◌/◌, ◌%◌, ◌^◌, ◌≤◌, ◌<◌, min, max}
use Prim.Native.Nat.{bit_and, bit_or, digits, bit_and-bitwise, bit_or-bitwise}
use mathlib.Core.Path.{◌≡◌, refl, ap, ◌∙◌, sym}
use native.Mathlib.Nat.{pow-suc, one-le-pow, div-add-mod}
use native.Mathlib.Omega.{arith}

-- Spare fuel changes nothing.
module _ (z : ℕ → ℕ) (f : ℕ → ℕ → ℕ) where
  digits_spare : (n a b : ℕ) → a ≤ n → digits z f (suc n) a b ≡ digits z f n a b
  digits_spare zero zero b h = refl
  digits_spare zero (suc a) b h = absurd (omega arith)
  digits_spare (suc n) zero b h = refl
  digits_spare (suc n) (suc a) b h = omega (arith, digits_spare n (suc a / 2) (b / 2) (omega arith))

  -- `n` is a fuel that exceeds `a` by `k`.
  digits_exact : (k n a b : ℕ) → n ≡ k + a → digits z f n a b ≡ digits z f a a b
  digits_exact zero n a b e = rw (e, zero_add a)
    where
      zero_add : (m : ℕ) → zero + m ≡ m
      zero_add m = omega arith
  digits_exact (suc k) zero a b e = absurd (omega arith)
  digits_exact (suc k) (suc n) a b e =
      digits_spare n a b (omega arith) ∙ digits_exact k n a b (omega arith)

pub bit_or_digit : (a b : ℕ) → bit_or a b ≡ bit_or (a / 2) (b / 2) * 2 + max (a % 2) (b % 2)
bit_or_digit zero b = omega (arith, bit_or-bitwise zero b, bit_or-bitwise zero (b / 2))
bit_or_digit (suc a) b = omega (
  arith,
  bit_or-bitwise (suc a) b,
  bit_or-bitwise (suc a / 2) (b / 2),
  digits_exact (λ c. c) max (a - suc a / 2) a (suc a / 2) (b / 2) (omega arith),
)

pub bit_and_digit : (a b : ℕ) → bit_and a b ≡ bit_and (a / 2) (b / 2) * 2 + min (a % 2) (b % 2)
bit_and_digit zero b = omega (arith, bit_and-bitwise zero b, bit_and-bitwise zero (b / 2))
bit_and_digit (suc a) b = omega (
  arith,
  bit_and-bitwise (suc a) b,
  bit_and-bitwise (suc a / 2) (b / 2),
  digits_exact (λ c. 0) min (a - suc a / 2) a (suc a / 2) (b / 2) (omega arith),
)

double : (q k : ℕ) → q * 2 ^ suc k ≡ 2 * (q * 2 ^ k)
double q k = omega (arith, ap (λ (t : ℕ). q * t) (pow-suc 2 k))

-- An operation that works digit by digit works field by field.
module _ (op f : ℕ → ℕ → ℕ)
    (digit : (a b : ℕ) → op a b ≡ op (a / 2) (b / 2) * 2 + f (a % 2) (b % 2))
    (none : op 0 0 ≡ 0) where
  split_fields :
      (k a b c d : ℕ)
      → b < 2 ^ k
      → d < 2 ^ k
      → op (a * 2 ^ k + b) (c * 2 ^ k + d) ≡ op a c * 2 ^ k + op b d
  split_fields zero a b c d hb hd = ground (arith, none)
  split_fields (suc k) a b c d hb hd = ground (
    arith,
    digit (a * 2 ^ suc k + b) (c * 2 ^ suc k + d),
    digit b d,
    double a k,
    double c k,
    double (op a c) k,
    pow-suc 2 k,
    split_fields k a (b / 2) c (d / 2) (omega (arith, pow-suc 2 k)) (omega (arith, pow-suc 2 k)),
  )

pub bit_and_split :
    (k a b c d : ℕ)
    → b < 2 ^ k
    → d < 2 ^ k
    → bit_and (a * 2 ^ k + b) (c * 2 ^ k + d) ≡ bit_and a c * 2 ^ k + bit_and b d
bit_and_split = split_fields bit_and min bit_and_digit refl

pub bit_or_split :
    (k a b c d : ℕ)
    → b < 2 ^ k
    → d < 2 ^ k
    → bit_or (a * 2 ^ k + b) (c * 2 ^ k + d) ≡ bit_or a c * 2 ^ k + bit_or b d
bit_or_split = split_fields bit_or max bit_or_digit refl

bit_and-zero_below : (n a : ℕ) → a ≤ n → bit_and a 0 ≡ 0
bit_and-zero_below n zero h = refl
bit_and-zero_below zero (suc a) h = absurd (omega arith)
bit_and-zero_below (suc n) (suc a) h =
    omega (arith, bit_and_digit (suc a) 0, bit_and-zero_below n (suc a / 2) (omega arith))

pub bit_and-zero : (a : ℕ) → bit_and a 0 ≡ 0
bit_and-zero a = bit_and-zero_below a a (omega arith)

pub zero-bit_and : (b : ℕ) → bit_and 0 b ≡ 0
zero-bit_and b = bit_and-bitwise 0 b

bit_or-zero_below : (n a : ℕ) → a ≤ n → bit_or a 0 ≡ a
bit_or-zero_below n zero h = refl
bit_or-zero_below zero (suc a) h = absurd (omega arith)
bit_or-zero_below (suc n) (suc a) h =
    omega (arith, bit_or_digit (suc a) 0, bit_or-zero_below n (suc a / 2) (omega arith))

pub bit_or-zero : (a : ℕ) → bit_or a 0 ≡ a
bit_or-zero a = bit_or-zero_below a a (omega arith)

pub zero-bit_or : (b : ℕ) → bit_or 0 b ≡ b
zero-bit_or b = bit_or-bitwise 0 b

-- `|` of a multiple of `2 ^ k` and a number of `k` bits is their sum.
pub bit_or_add : (k q b : ℕ) → b < 2 ^ k → bit_or (q * 2 ^ k) b ≡ q * 2 ^ k + b
bit_or_add k q b h =
    ground (
      arith,
      bit_or_split k q 0 0 b (omega (arith, one-le-pow k 2)) h,
      bit_or-zero q,
      zero-bit_or b,
    )

ones_below : (k a : ℕ) → a < 2 ^ k → bit_and a (2 ^ k - 1) ≡ a
ones_below zero a h = ground (arith, bit_and-zero a)
ones_below (suc k) a h = ground (
  arith,
  bit_and_digit a (2 ^ suc k - 1),
  pow-suc 2 k,
  one-le-pow k 2,
  ones_below k (a / 2) (omega (arith, pow-suc 2 k)),
)

-- A mask of `k` ones keeps the remainder by `2 ^ k`.
pub bit_and_mask : (k a : ℕ) → bit_and a (2 ^ k - 1) ≡ a % 2 ^ k
bit_and_mask k a = ground (
  arith,
  bit_and_split k (a / 2 ^ k) (a % 2 ^ k) 0 (2 ^ k - 1),
  bit_and-zero (a / 2 ^ k),
  ones_below k (a % 2 ^ k),
  one-le-pow k 2,
  div-add-mod a (2 ^ k),
)

-- A mask of `m` ones above `k` zeros drops the `k` low bits of a number of `k + m` bits.
pub bit_and_high :
    (k m a : ℕ) → a / 2 ^ k < 2 ^ m → bit_and a ((2 ^ m - 1) * 2 ^ k) ≡ a / 2 ^ k * 2 ^ k
bit_and_high k m a h = ground (
  arith,
  bit_and_split k (a / 2 ^ k) (a % 2 ^ k) (2 ^ m - 1) 0,
  bit_and-zero (a % 2 ^ k),
  ones_below m (a / 2 ^ k) h,
  one-le-pow k 2,
  div-add-mod a (2 ^ k),
)

-- The form for a chain of shifted fields: what stands left ends in `k` zeros.
pub or_field : (k a b : ℕ) → a ≡ a / 2 ^ k * 2 ^ k → b < 2 ^ k → bit_or a b ≡ a + b
or_field k a b e h =
    ap (λ t. bit_or t b) e ∙ bit_or_add k (a / 2 ^ k) b h ∙ ap (λ (t : ℕ). t + b) (sym e)
