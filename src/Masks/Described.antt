-- ===== src/Masks/Described.antt =====
-- The value of decode_bit_masks in src/decode/bits.rs, bit by bit.
use f_arm.Base.{ℕ, zero, suc, ◌+◌, ◌-◌, ◌*◌, ◌/◌, ◌%◌, ◌^◌, ◌<◌, ◌≡◌, ◌∙◌, arith, ap}
use f_arm.Base.{leb, if◌then◌else◌, true, some}
use f_arm.Decode.Bits.{BitMasks, decode_bit_masks}
use f_arm.Encode.Bits.{cut_wmask}
use f_arm.Masks.Laws.{IsForm, decode_bit_masks-described}
use f_arm.Masks.Table.{element_size, described}
use native.Mathlib.Decide.{dec_lt}
use native.Mathlib.Nat.{pow-suc, one-le-pow, add-mul-div_right, div-eq_of_lt}

pub described-lt : (count e s r : ℕ) → described count e s r < 2 ^ count
unfolding described
described-lt zero e s r = omega arith
described-lt (suc c) e s r = ground (arith, described-lt c e s r, pow-suc 2 c)

-- A higher power of two is an even multiple of a lower one.
pow-add_suc : (k i : ℕ) → 2 ^ (k + suc i) ≡ 2 ^ k * 2 * 2 ^ i
pow-add_suc zero i = ap (λ (t : ℕ). 2 ^ t) (zero-add (suc i)) ∙ omega (arith, pow-suc 2 i)
  where
    zero-add : (n : ℕ) → 0 + n ≡ n
    zero-add n = omega arith
pow-add_suc (suc k) i =
    ap (λ (t : ℕ). 2 ^ t) (suc-add k (suc i))
    ∙ pow-suc 2 (k + suc i)
    ∙ ap (λ (t : ℕ). t * 2) (pow-add_suc k i)
    ∙ grind (arith, pow-suc 2 k)
  where
    suc-add : (m n : ℕ) → suc m + n ≡ suc (m + n)
    suc-add m n = omega arith

pow-above : (c i : ℕ) → i < c → 2 ^ c ≡ 2 ^ (c - suc i) * 2 * 2 ^ i
pow-above c i h = ap (λ (t : ℕ). 2 ^ t) (omega arith) ∙ pow-add_suc (c - suc i) i

-- Adding it leaves the digit as it was.
digit-add : (x c i : ℕ) → i < c → (x + 2 ^ c) / 2 ^ i % 2 ≡ x / 2 ^ i % 2
digit-add x c i h =
    ap (λ (t : ℕ). (x + t) / 2 ^ i % 2) (pow-above c i h)
    ∙ ap (λ (t : ℕ). t % 2)
        (add-mul-div_right x (2 ^ (c - suc i) * 2) (omega (arith, one-le-pow i 2)))
    ∙ omega arith

one_times : (n : ℕ) → n ≡ 1 * n
one_times n = omega arith

top-digit : (x c : ℕ) → x < 2 ^ c → (x + 2 ^ c) / 2 ^ c % 2 ≡ 1
top-digit x c h =
    ap (λ (t : ℕ). (x + t) / 2 ^ c % 2) (one_times (2 ^ c))
    ∙ ap (λ (t : ℕ). t % 2) (add-mul-div_right x 1 (omega (arith, one-le-pow c 2)))
    ∙ ap (λ (t : ℕ). (t + 1) % 2) (div-eq_of_lt h)

described_digit :
    (count e s r i : ℕ)
    → i < count
    → described count e s r / 2 ^ i % 2 ≡ (if leb ((i + r) % e) s then 1 else 0)
unfolding described
described_digit zero e s r i h = absurd (omega arith)
described_digit (suc c) e s r i h = elim (dec_lt i c) [
  | yes p ↦ ground (arith, described_digit c e s r i p, digit-add (described c e s r) c i p)
  | no p ↦
      let same : i ≡ c = omega arith in
      rw same (
        ground (
          arith,
          described-lt c e s r,
          div-eq_of_lt (described-lt c e s r),
          top-digit (described c e s r) c (described-lt c e s r),
        ))
]

-- Where fields of a logical immediate decode, bit `i` of the value is set exactly where `i`,
-- shifted by the rotation modulo the element size, is at most the number of ones less one.
pub decode_bit_masks-digit :
    (ds n imms immr : ℕ)
    → IsForm ds n
    → imms < 64
    → immr < 64
    → (m : BitMasks) → decode_bit_masks n imms immr true ds ≡ some m
    → (i : ℕ) → i < ds
    → cut_wmask ds m / 2 ^ i % 2 ≡ (
        if leb ((i + immr % element_size n imms) % element_size n imms) (imms % element_size n imms)
        then 1
        else 0)
decode_bit_masks-digit ds n imms immr form hs hr m e i h =
    let size = element_size n imms in
    ap (λ (t : ℕ). t / 2 ^ i % 2) (decode_bit_masks-described ds n imms immr form hs hr m e)
    ∙ described_digit ds size (imms % size) (immr % size) i h
