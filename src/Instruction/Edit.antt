-- ===== src/Instruction/Edit.antt =====
-- src/instruction.rs: the editing operations. One that returns `bool` gives that and the
-- instruction afterwards; a loop over `operands[..op_count]` runs over the slots with the number
-- of them that still count.
pub mod Slots
pub mod Laws
pub mod Steps
pub mod Labels
use f_arm.Base.{ℕ, zero, suc, ◌+◌, ltb, leb, ◌==◌, ◌!=◌, if◌then◌else◌, Bool, true, false}
use f_arm.Base.{
  Option, none, some, List, [], ◌∷◌, set as set_elem, bit_and, bit_or, ℤ, pos, negsuc, ◌^◌,
}
use f_arm.Base.{wrapping_add, wrapping_sub, as_i64}
use f_arm.Enums.{Condition}
use f_arm.Instruction.{Instruction, op, max_operands}
use f_arm.Mnemonic.{Code, Mnemonic}
use f_arm.Mnemonic.Names.{mnemonic}
use f_arm.Operand.{Operand}
use f_arm.Register.{Register}

abbrev pub flag_modified : ℕ
flag_modified = 1

unfoldable pub is_modified : Instruction → Bool
is_modified self = bit_and self.flags flag_modified != 0

unfoldable pub mark_modified : Instruction → Instruction
mark_modified self = record self { flags = bit_or self.flags flag_modified }

-- `flags &= !FLAG_MODIFIED`, on eight bits.
unfoldable pub clear_modified : Instruction → Instruction
clear_modified self = record self { flags = bit_and self.flags 0xfe }

unfoldable pub is_label : Operand → Bool
is_label (Operand.label _) = true
is_label _ = false

unfoldable pub any_below : ℕ → (Operand → Bool) → List Operand → Bool
any_below zero test ops = false
any_below (suc n) test [] = false
any_below (suc n) test (o ∷ ops) = let rest = any_below n test ops in if test o then true else rest

unfoldable pub has_label : Instruction → Bool
has_label self = any_below self.op_count is_label self.operands

unfoldable pub set_ip : Instruction → ℕ → Instruction
set_ip self ip =
    let moved = record self { ip = ip } in if has_label moved then mark_modified moved else moved

unfoldable pub shift_label : ℕ → Operand → Operand
shift_label delta (Operand.label target) = Operand.label (wrapping_add target delta)
shift_label delta o = o

unfoldable pub map_below : ℕ → (Operand → Operand) → List Operand → List Operand
map_below zero f ops = ops
map_below (suc n) f [] = []
map_below (suc n) f (o ∷ ops) = f o ∷ map_below n f ops

unfoldable pub relocate : Instruction → ℕ → Instruction
relocate self ip =
    let delta = wrapping_sub ip self.ip in
    let moved = has_label self in
    let shifted = record self {
      operands = map_below self.op_count (shift_label delta) self.operands;
      ip = ip;
    } in
    if moved then mark_modified shifted else shifted

unfoldable pub set_code : Instruction → Code → Instruction
set_code self code = mark_modified (record self { code = code; mnemonic = mnemonic code })

unfoldable pub set_mnemonic : Instruction → Mnemonic → Instruction
set_mnemonic self m = mark_modified (record self { mnemonic = m })

unfoldable pub set_op : Instruction → ℕ → Operand → Bool × Instruction
set_op self n operand =
    if leb max_operands n
    then (false, self)
    else let written = record self {
      operands = set_elem self.operands n operand;
      op_count = (if leb self.op_count n then n + 1 else self.op_count);
    } in
      (true, mark_modified written)

-- `for op in operands[count..].iter_mut() { *op = Operand::None; }`
unfoldable pub clear_from : ℕ → List Operand → List Operand
clear_from count [] = []
clear_from zero (o ∷ ops) = Operand.none ∷ clear_from zero ops
clear_from (suc count) (o ∷ ops) = o ∷ clear_from count ops

unfoldable pub set_op_count : Instruction → ℕ → Bool × Instruction
set_op_count self count = if ltb max_operands count then (false, self) else (
  true,
  mark_modified (record self { operands = clear_from count self.operands; op_count = count }),
)

unfoldable pub push_op : Instruction → Operand → Bool × Instruction
push_op self operand = if leb max_operands self.op_count then (false, self) else (
  true,
  mark_modified (record self {
    operands = set_elem self.operands self.op_count operand;
    op_count = self.op_count + 1;
  }),
)

-- What a loop does at an operand: write it and stop, stop, or go on.
pub data Visit : Type 0 where
  write : Operand → Visit
  stop skip : Visit

-- The first operand that is not skipped; `none` if nothing is written.
unfoldable pub write_first : ℕ → (Operand → Visit) → List Operand → Option (List Operand)
write_first zero f ops = none
write_first (suc n) f [] = none
write_first (suc n) f (o ∷ ops) =
    let rest = write_first n f ops in
    elim (f o) [
      | Visit.write o' ↦ some (o' ∷ ops)
      | Visit.stop ↦ none
      | Visit.skip ↦ elim rest [ none ↦ none | some ops' ↦ some (o ∷ ops') ]
    ]

-- The end of an edit: nothing was written, or the slots that were, and the mark.
unfoldable pub commit : Instruction → Option (List Operand) → Bool × Instruction
commit self none = (false, self)
commit self (some ops) = (true, mark_modified (record self { operands = ops }))

unfoldable pub edit_first : (Operand → Visit) → Instruction → Bool × Instruction
edit_first f self = commit self (write_first self.op_count f self.operands)

unfoldable pub visit_condition : Condition → Operand → Visit
visit_condition cond (Operand.cond _) = Visit.write (Operand.cond cond)
visit_condition cond _ = Visit.skip

unfoldable pub set_condition : Instruction → Condition → Bool × Instruction
set_condition self cond = edit_first (visit_condition cond) self

unfoldable pub visit_label : ℕ → Operand → Visit
visit_label target (Operand.label _) = Visit.write (Operand.label target)
visit_label target _ = Visit.skip

unfoldable pub set_label : Instruction → ℕ → Bool × Instruction
set_label self target = edit_first (visit_label target) self

unfoldable pub visit_base : Register → Operand → Visit
visit_base reg (Operand.mem_imm _ imm mode) = Visit.write (Operand.mem_imm reg imm mode)
visit_base reg (Operand.mem_ext _ index extend shift) =
    Visit.write (Operand.mem_ext reg index extend shift)
visit_base reg (Operand.sve_mem _ offset arr extend imm amount mode) =
    Visit.write (Operand.sve_mem reg offset arr extend imm amount mode)
visit_base reg _ = Visit.skip

unfoldable pub set_memory_base : Instruction → Register → Bool × Instruction
set_memory_base self reg = edit_first (visit_base reg) self

unfoldable pub visit_index : Register → Operand → Visit
visit_index reg (Operand.mem_ext base _ extend shift) =
    Visit.write (Operand.mem_ext base reg extend shift)
visit_index reg (Operand.sve_mem base _ arr extend imm amount mode) =
    Visit.write (Operand.sve_mem base reg arr extend imm amount mode)
visit_index reg _ = Visit.skip

unfoldable pub set_memory_index : Instruction → Register → Bool × Instruction
set_memory_index self reg = edit_first (visit_index reg) self

-- `i32::try_from` of an `i64`
unfoldable pub fits_i32 : ℤ → Bool
fits_i32 (pos n) = ltb n (2 ^ 31)
fits_i32 (negsuc n) = ltb n (2 ^ 31)

unfoldable pub visit_displacement : ℤ → Operand → Visit
unfolding fits_i32
visit_displacement disp (Operand.mem_imm base _ mode) = Visit.write (Operand.mem_imm base disp mode)
visit_displacement disp (Operand.sve_mem base offset arr extend _ amount mode) =
    if fits_i32 disp
    then Visit.write (Operand.sve_mem base offset arr extend disp amount mode)
    else Visit.stop
visit_displacement disp _ = Visit.skip

unfoldable pub set_memory_displacement64 : Instruction → ℤ → Bool × Instruction
set_memory_displacement64 self disp = edit_first (visit_displacement disp) self

-- The write to one operand, by its shape; `none` is `false`.
unfoldable pub with_register : Register → Operand → Option Operand
with_register r (Operand.reg _ arr lane shift extend pred) =
    some (Operand.reg r arr lane shift extend pred)
with_register r (Operand.reg_bang _) = some (Operand.reg_bang r)
with_register r (Operand.indexed_element _ arr index imm) =
    some (Operand.indexed_element r arr index imm)
with_register r (Operand.pred_counter _ zeroing arr index) =
    some (Operand.pred_counter r zeroing arr index)
with_register r _ = none

unfoldable pub write_at : ℕ → Option Operand → List Operand → Option (List Operand)
write_at n none ops = none
write_at n (some o) ops = some (set_elem ops n o)

-- The guard on the slot, the write to the operand there, and the mark.
unfoldable pub edit_at : (Operand → Option Operand) → ℕ → Instruction → Bool × Instruction
edit_at f n self =
    if leb self.op_count n
    then (false, self)
    else commit self (write_at n (f (op self n)) self.operands)

unfoldable pub set_op_register_unchecked : Instruction → ℕ → Register → Bool × Instruction
set_op_register_unchecked self n reg = edit_at (with_register reg) n self

unfoldable pub with_immediate : ℕ → Operand → Option Operand
with_immediate value (Operand.imm_unsigned _) = some (Operand.imm_unsigned value)
with_immediate value (Operand.imm_logical _) = some (Operand.imm_logical value)
with_immediate value (Operand.label _) = some (Operand.label value)
with_immediate value (Operand.imm_signed _) = some (Operand.imm_signed (as_i64 value))
with_immediate value (Operand.imm_signed_dec _) = some (Operand.imm_signed_dec (as_i64 value))
with_immediate value (Operand.shift_amount _) =
    if ltb value 256 then some (Operand.shift_amount value) else none
with_immediate value (Operand.imm_shifted_move _ lsl) =
    if ltb value 65536 then some (Operand.imm_shifted_move value lsl) else none
with_immediate value (Operand.imm_shifted_msl _ msl) =
    if ltb value 65536 then some (Operand.imm_shifted_msl value msl) else none
with_immediate value _ = none

unfoldable pub set_op_immediate : Instruction → ℕ → ℕ → Bool × Instruction
set_op_immediate self n value = edit_at (with_immediate value) n self
