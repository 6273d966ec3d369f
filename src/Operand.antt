-- ===== src/Operand.antt =====
-- src/operand.rs: the rich operand. `i64` and `i32` payloads are integers, an `f32` is its bit
-- pattern, and a system register or token is its packed number.
use f_arm.Base.{ℕ, ℤ, List, Option, Bool}
use f_arm.Register.{Register}
use f_arm.Enums.{Condition, ShiftType, ExtendType, VectorArrangement}

pub data MemIndexMode : Type 0 where
  offset pre_index pre_no_offset post_imm post_reg : MemIndexMode

pub data PredQual : Type 0 where
  none zeroing merging : PredQual

pub data SveMemMode : Type 0 where
  scalar_imm_mul_vl scalar_imm scalar_imm_dec vec_imm vec_scalar scalar_vec vec_vec : SveMemMode

pub data SliceIndicator : Type 0 where
  none horizontal vertical : SliceIndicator

pub data Operand : Type 0 where
  none : Operand
  reg :
      (reg : Register) (arr : Option VectorArrangement) (lane : Option ℕ)
      (shift : Option (ShiftType × ℕ)) (extend : Option ExtendType) (pred : Option PredQual)
      → Operand
  imm_unsigned : ℕ → Operand
  imm_signed : ℤ → Operand
  imm_logical : ℕ → Operand
  imm_shifted_move : (imm lsl : ℕ) → Operand
  imm_shifted_msl : (imm msl : ℕ) → Operand
  fp_imm : ℕ → Operand
  shift_amount : ℕ → Operand
  label : ℕ → Operand
  cond : Condition → Operand
  sys_reg : ℕ → Operand
  sys_op : ℕ → Operand
  mem_imm : (base : Register) (imm : ℤ) (mode : MemIndexMode) → Operand
  mem_ext : (base index : Register) (extend : ExtendType) (shift : ℕ) → Operand
  multi_reg :
      (regs : List Register) (count : ℕ) (arr : Option VectorArrangement) (lane : Option ℕ)
      → Operand
  indexed_element :
      (reg : Register) (arr : Option VectorArrangement) (index : Register) (imm : ℤ) → Operand
  sme_tile : (tile : ℕ) (slice : SliceIndicator) → Operand
  impl_spec : List ℕ → Operand
  sve_pattern : ℕ → Operand
  sve_mul : ℕ → Operand
  imm_signed_dec : ℤ → Operand
  sve_mem :
      (base offset : Register) (arr : Option VectorArrangement) (extend : ExtendType) (imm : ℤ)
      (amount : ℕ) (mode : SveMemMode)
      → Operand
  sme_tile_slice :
      (reg : Register) (slice : SliceIndicator) (arr : Option VectorArrangement) (sel : Register)
      (imm : ℤ) (has_imm : Bool)
      → Operand
  reg_bang : Register → Operand
  reg_pair : (first second : Register) → Operand
  sme_za_slice :
      (arr : Option VectorArrangement) (sel : Register) (off span vg tile : ℕ)
      (slice : SliceIndicator)
      → Operand
  sve_vec_group :
      (first : Register) (count : ℕ) (arr : Option VectorArrangement) (range : Bool) (stride : ℕ)
      (lane : Option ℕ)
      → Operand
  pred_counter :
      (reg : Register) (zeroing : Bool) (arr : Option VectorArrangement) (index : Option ℕ)
      → Operand
  vl_mul : ℕ → Operand
  sme_za_mask : (mask : ℕ) (zt0 : Bool) → Operand
  sme_zt0_index : (index : ℕ) (mul_vl : Bool) → Operand
