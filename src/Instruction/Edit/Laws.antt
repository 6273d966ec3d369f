-- ===== src/Instruction/Edit/Laws.antt =====
-- src/instruction.rs: the operand array and the modified flag under the editing operations.
use f_arm.Base.{ℕ, ◌+◌, ◌≡◌, ◌⊎◌, arith, true, false, refl, inl, inr, ◌||◌, Bool}
use f_arm.Base.{bit_and, bit_or, if◌then◌else◌, none, some}
use f_arm.Base.{List, Option, leb, set as set_elem}
use f_arm.Base.Bits.{bit_and_mask, bit_or_digit, bit_and_digit}
use f_arm.Instruction.{Instruction, op}
use f_arm.Instruction.Edit.{
  Visit, is_modified, mark_modified, clear_modified, has_label, set_ip, set_op, set_op_count,
  push_op, edit_first, edit_at, write_first, clear_from, commit, write_at,
}
use f_arm.Operand.{Operand}

pub is_modified-mark_modified : (self : Instruction) → is_modified (mark_modified self) ≡ true
unfolding is_modified mark_modified
is_modified-mark_modified self =
    ground (arith, bit_and_mask 1 (bit_or self.flags 1), bit_or_digit self.flags 1)

pub is_modified-clear_modified : (self : Instruction) → is_modified (clear_modified self) ≡ false
unfolding is_modified clear_modified
is_modified-clear_modified self =
    ground (arith, bit_and_mask 1 (bit_and self.flags 0xfe), bit_and_digit self.flags 0xfe)

-- The result of an edit that either refuses and changes nothing, or is done and marked.
unfoldable pub AllOrNothing : Instruction → Bool × Instruction → Type 0
AllOrNothing self result =
    ((result.0 ≡ false) × (result.1 ≡ self)) ⊎ ((result.0 ≡ true) × (is_modified (result.1) ≡ true))

module _ (self : Instruction) where
  set_op-AllOrNothing : (n : ℕ) (o : Operand) → AllOrNothing self (set_op self n o)
  unfolding AllOrNothing set_op
  set_op-AllOrNothing n o = ground (
    arith,
    is_modified-mark_modified (record self {
      operands = set_elem self.operands n o;
      op_count = (if leb self.op_count n then n + 1 else self.op_count);
    }),
  )

  set_op_count-AllOrNothing : (n : ℕ) → AllOrNothing self (set_op_count self n)
  unfolding AllOrNothing set_op_count
  set_op_count-AllOrNothing n = ground (
    arith,
    is_modified-mark_modified (record self { operands = clear_from n self.operands; op_count = n }),
  )

  push_op-AllOrNothing : (o : Operand) → AllOrNothing self (push_op self o)
  unfolding AllOrNothing push_op
  push_op-AllOrNothing o = ground (
    arith,
    is_modified-mark_modified (record self {
      operands = set_elem self.operands self.op_count o;
      op_count = self.op_count + 1;
    }),
  )

  commit-AllOrNothing : (o : Option (List Operand)) → AllOrNothing self (commit self o)
  unfolding AllOrNothing commit
  commit-AllOrNothing none = inl (refl, refl)
  commit-AllOrNothing (some ops) =
      inr (refl, is_modified-mark_modified (record self { operands = ops }))

  edit_at-AllOrNothing :
      (f : Operand → Option Operand) (n : ℕ) → AllOrNothing self (edit_at f n self)
  unfolding AllOrNothing edit_at
  edit_at-AllOrNothing f n =
      ground (arith, commit-AllOrNothing (write_at n (f (op self n)) self.operands))

  edit_first-AllOrNothing : (f : Operand → Visit) → AllOrNothing self (edit_first f self)
  unfolding edit_first
  edit_first-AllOrNothing f = commit-AllOrNothing (write_first self.op_count f self.operands)

  -- Moving an instruction marks it only where its encoding depends on the address.
  pub is_modified-set_ip :
      (ip : ℕ) → is_modified (set_ip self ip) ≡ (has_label self || is_modified self)
  unfolding set_ip has_label is_modified mark_modified
  is_modified-set_ip ip =
      ground (arith, bit_and_mask 1 (bit_or self.flags 1), bit_or_digit self.flags 1)

-- An edit that answers `false` leaves the instruction as it was, and one that answers `true` marks
-- it as modified: for the whole-operand, count, append, single-slot and first-operand edits.
pub edits-AllOrNothing :
    (self : Instruction) (n : ℕ) (o : Operand) (at : Operand → Option Operand)
    (first : Operand → Visit)
    → AllOrNothing self (set_op self n o)
      × AllOrNothing self (set_op_count self n)
      × AllOrNothing self (push_op self o)
      × AllOrNothing self (edit_at at n self)
      × AllOrNothing self (edit_first first self)
edits-AllOrNothing self n o at first = (
  set_op-AllOrNothing self n o,
  set_op_count-AllOrNothing self n,
  push_op-AllOrNothing self o,
  edit_at-AllOrNothing self at n,
  edit_first-AllOrNothing self first,
)
