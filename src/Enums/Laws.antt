-- ===== src/Enums/Laws.antt =====
-- src/enums.rs: the fields of conditions, shifts and extends.
use f_arm.Base.{ℕ, ◌<◌, ◌≡◌, refl, arith}
use f_arm.Base.Bits.{bit_and_mask}
use f_arm.Enums.{Condition, condition_from_bits, as_u4, invert, extend_from_bits, as_bits}

pub as_u4-condition_from_bits : (n : ℕ) → n < 16 → as_u4 (condition_from_bits n) ≡ n
unfolding condition_from_bits as_u4
as_u4-condition_from_bits n h = ground (arith, bit_and_mask 4 n)

pub condition_from_bits-as_u4 : (c : Condition) → condition_from_bits (as_u4 c) ≡ c
unfolding condition_from_bits as_u4
condition_from_bits-as_u4 c = ground arith

pub as_u4-lt : (c : Condition) → as_u4 c < 16
unfolding as_u4
as_u4-lt c = ground arith

-- Inverting a condition twice gives the condition back.
pub invert-invert : (c : Condition) → invert (invert c) ≡ c
unfolding invert
invert-invert Condition.eq = refl
invert-invert Condition.ne = refl
invert-invert Condition.cs = refl
invert-invert Condition.cc = refl
invert-invert Condition.mi = refl
invert-invert Condition.pl = refl
invert-invert Condition.vs = refl
invert-invert Condition.vc = refl
invert-invert Condition.hi = refl
invert-invert Condition.ls = refl
invert-invert Condition.ge = refl
invert-invert Condition.lt = refl
invert-invert Condition.gt = refl
invert-invert Condition.le = refl
invert-invert Condition.al = refl
invert-invert Condition.nv = refl

pub as_bits-extend_from_bits : (n : ℕ) → n < 8 → as_bits (extend_from_bits n) ≡ n
unfolding extend_from_bits as_bits
as_bits-extend_from_bits n h = ground (arith, bit_and_mask 3 n)
