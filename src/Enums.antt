-- ===== src/Enums.antt =====
-- src/enums.rs: the enumerations that operands carry.
pub mod Laws
use f_arm.Base.{ℕ, ◌==◌, if◌then◌else◌, bit_and, bit_xor}

pub data Condition : Type 0 where
  eq ne cs cc mi pl vs vc hi ls ge lt gt le al nv : Condition

pub data FlowControl : Type 0 where
  next unconditional_branch conditional_branch indirect_branch call indirect_call return :
      FlowControl
  exception : FlowControl

pub data ShiftType : Type 0 where
  none lsl lsr asr ror msl : ShiftType

pub data ExtendType : Type 0 where
  uxtb uxth uxtw uxtx sxtb sxth sxtw sxtx : ExtendType

pub data VectorArrangement : Type 0 where
  none v8_b v16_b v4_h v8_h v2_s v4_s v1_d v2_d v2_h v4_b v2_b v1_q sb sh ss sd sq :
      VectorArrangement

-- `Condition::from_bits`, which is `Condition::from_u4` too.
unfoldable pub condition_from_bits : ℕ → Condition
condition_from_bits bits =
    let b = bit_and bits 0b1111 in
    if b == 0b0000
    then Condition.eq
    else if b == 0b0001
    then Condition.ne
    else if b == 0b0010
    then Condition.cs
    else if b == 0b0011
    then Condition.cc
    else if b == 0b0100
    then Condition.mi
    else if b == 0b0101
    then Condition.pl
    else if b == 0b0110
    then Condition.vs
    else if b == 0b0111
    then Condition.vc
    else if b == 0b1000
    then Condition.hi
    else if b == 0b1001
    then Condition.ls
    else if b == 0b1010
    then Condition.ge
    else if b == 0b1011
    then Condition.lt
    else if b == 0b1100
    then Condition.gt
    else if b == 0b1101
    then Condition.le
    else if b == 0b1110
    then Condition.al
    else Condition.nv

unfoldable pub as_u4 : Condition → ℕ
as_u4 Condition.eq = 0b0000
as_u4 Condition.ne = 0b0001
as_u4 Condition.cs = 0b0010
as_u4 Condition.cc = 0b0011
as_u4 Condition.mi = 0b0100
as_u4 Condition.pl = 0b0101
as_u4 Condition.vs = 0b0110
as_u4 Condition.vc = 0b0111
as_u4 Condition.hi = 0b1000
as_u4 Condition.ls = 0b1001
as_u4 Condition.ge = 0b1010
as_u4 Condition.lt = 0b1011
as_u4 Condition.gt = 0b1100
as_u4 Condition.le = 0b1101
as_u4 Condition.al = 0b1110
as_u4 Condition.nv = 0b1111

unfoldable pub invert : Condition → Condition
unfolding condition_from_bits as_u4
invert self = condition_from_bits (bit_xor (as_u4 self) 1)

-- `ShiftType::from_bits`
unfoldable pub shift_from_bits : ℕ → ShiftType
shift_from_bits bits =
    let b = bit_and bits 0b11 in
    if b == 0b00
    then ShiftType.lsl
    else if b == 0b01
    then ShiftType.lsr
    else if b == 0b10
    then ShiftType.asr
    else ShiftType.ror

-- `ExtendType::from_bits`
unfoldable pub extend_from_bits : ℕ → ExtendType
extend_from_bits bits =
    let b = bit_and bits 0b111 in
    if b == 0b000
    then ExtendType.uxtb
    else if b == 0b001
    then ExtendType.uxth
    else if b == 0b010
    then ExtendType.uxtw
    else if b == 0b011
    then ExtendType.uxtx
    else if b == 0b100
    then ExtendType.sxtb
    else if b == 0b101
    then ExtendType.sxth
    else if b == 0b110
    then ExtendType.sxtw
    else ExtendType.sxtx

unfoldable pub as_bits : ExtendType → ℕ
as_bits ExtendType.uxtb = 0b000
as_bits ExtendType.uxth = 0b001
as_bits ExtendType.uxtw = 0b010
as_bits ExtendType.uxtx = 0b011
as_bits ExtendType.sxtb = 0b100
as_bits ExtendType.sxth = 0b101
as_bits ExtendType.sxtw = 0b110
as_bits ExtendType.sxtx = 0b111
