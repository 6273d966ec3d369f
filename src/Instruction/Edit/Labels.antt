-- ===== src/Instruction/Edit/Labels.antt =====
-- src/instruction.rs: labels under a move, and the encoding of an address that moves along.
use f_arm.Base.{ℕ, ◌^◌, ◌<◌, ◌≤◌, ◌≡◌, arith, false, refl}
use f_arm.Base.{List, get_or, wrapping_add, wrapping_sub, if◌then◌else◌, ltb, length}
use f_arm.Encode.DpImm.Arithmetic.{enc_pc_rel, is_adrp, pc_rel_imm21}
use f_arm.Encode.DpImm.Fields.{reg_num}
use f_arm.Instruction.{Instruction, op}
use f_arm.Instruction.Edit.{relocate, shift_label, map_below, mark_modified}
use f_arm.Instruction.Edit.Slots.{get_or-map_below}
use f_arm.Instruction.Edit.Steps.{Tidy}
use f_arm.Operand.{Operand}
use native.Mathlib.Decide.{dec_lt}

shift_label-none : (delta : ℕ) → shift_label delta Operand.none ≡ Operand.none
unfolding shift_label
shift_label-none delta = refl

module _ (self : Instruction) (ip : ℕ) where
  relocate-operands :
      (relocate self ip).operands
      ≡ map_below self.op_count (shift_label (wrapping_sub ip self.ip)) self.operands
  unfolding relocate mark_modified
  relocate-operands = ground arith

  relocate-op_count : (relocate self ip).op_count ≡ self.op_count
  unfolding relocate mark_modified
  relocate-op_count = ground arith

  relocate-ip : (relocate self ip).ip ≡ ip
  unfolding relocate mark_modified
  relocate-ip = ground arith

  relocate-code : (relocate self ip).code ≡ self.code
  unfolding relocate mark_modified
  relocate-code = ground arith

mapped :
    (n i : ℕ) (f : Operand → Operand) (ops : List Operand)
    → n ≤ length ops
    → f Operand.none ≡ Operand.none
    → (if ltb i n then get_or (map_below n f ops) i Operand.none else Operand.none)
      ≡ f (if ltb i n then get_or ops i Operand.none else Operand.none)
mapped n i f ops h e = elim (dec_lt i n) [
  | yes p ↦ ground (arith, get_or-map_below n f ops i Operand.none)
  | no p ↦ ground arith
]

-- A relocated operand is the old one, a label shifted by the distance of the move.
pub op-relocate :
    (self : Instruction) (ip i : ℕ)
    → Tidy self
    → op (relocate self ip) i ≡ shift_label (wrapping_sub ip self.ip) (op self i)
unfolding op
op-relocate self ip i h =
    rw (relocate-operands self ip, relocate-op_count self ip)
      (mapped self.op_count i (shift_label (wrapping_sub ip self.ip)) self.operands
        (omega (arith, h.slots, h.counted)) (shift_label-none (wrapping_sub ip self.ip)))

-- The distance from the instruction to its label, before and after a move.
distance_kept :
    (t ip ip' : ℕ)
    → t < 2 ^ 64
    → ip < 2 ^ 64
    → ip' < 2 ^ 64
    → wrapping_sub (wrapping_add t (wrapping_sub ip' ip)) ip' ≡ wrapping_sub t ip
distance_kept t ip ip' ht hi hi' = omega arith

reg_num-relocate :
    (self : Instruction) (ip n : ℕ) → Tidy self → reg_num (relocate self ip) n ≡ reg_num self n
unfolding reg_num shift_label
reg_num-relocate self ip n h = ground (arith, op-relocate self ip n h)

-- The immediate of `ADR` only reads the distance.
imm21-distance :
    (ip ip' t t' : ℕ)
    → wrapping_sub t ip ≡ wrapping_sub t' ip'
    → pc_rel_imm21 false ip t ≡ pc_rel_imm21 false ip' t'
unfolding pc_rel_imm21
imm21-distance ip ip' t t' e = rw e refl

-- An `ADR` that is relocated, label and all, keeps its encoding: from a 64-bit address to another,
-- with a 64-bit label.
pub enc_pc_rel-relocate :
    (self : Instruction) (ip t : ℕ)
    → Tidy self
    → is_adrp self.code ≡ false
    → op self 1 ≡ Operand.label t
    → t < 2 ^ 64
    → ip < 2 ^ 64
    → self.ip < 2 ^ 64
    → enc_pc_rel (relocate self ip) ≡ enc_pc_rel self
unfolding enc_pc_rel shift_label
enc_pc_rel-relocate self ip t h c l ht hi hs = ground (
  arith,
  op-relocate self ip 1 h,
  reg_num-relocate self ip 0 h,
  relocate-ip self ip,
  relocate-code self ip,
  imm21-distance self.ip ip t (wrapping_add t (wrapping_sub ip self.ip)),
  distance_kept t self.ip ip ht hs hi,
)
