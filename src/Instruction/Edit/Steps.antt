-- ===== src/Instruction/Edit/Steps.antt =====
-- src/instruction.rs: sequences of edits, and the operand array along them.
use f_arm.Base.{
  ℕ, zero, suc, [], ◌∷◌, wrapping_sub, ◌+◌, ◌<◌, ◌≤◌, ◌≡◌, ◌==◌, arith, true, false, refl,
  if◌then◌else◌, ltb, leb,
}
use f_arm.Base.{Bool, List, Option, none, some, length, get_or, length-set, set as set_elem}
use f_arm.Instruction.{Instruction, op, max_operands, new_invalid, no_operands}
use f_arm.Instruction.Edit.{
  Visit, mark_modified, clear_modified, has_label, commit, write_at, write_first, map_below,
  shift_label, clear_from,
}
use f_arm.Instruction.Edit
use f_arm.Instruction.Edit.Slots.{
  length-map_below, get_or-map_below, length-clear_from, get_or-clear_from, write_first-Keeps,
  Keeps,
}
use f_arm.Instruction.Laws.{get_or-set}
use native.Mathlib.Decide.{dec_lt}
use f_arm.Mnemonic.Names.{mnemonic}
use f_arm.Mnemonic.{Code, Mnemonic}
use f_arm.Operand.{Operand}

-- Five slots, of which at most five count, and the others are empty.
pub record Tidy (self : Instruction) : Type 0 where
  pub slots : length self.operands ≡ max_operands
  pub counted : self.op_count ≤ max_operands
  pub rest_empty : (i : ℕ) → self.op_count ≤ i → get_or self.operands i Operand.none ≡ Operand.none

-- An edit, as a step from an instruction to the one that it leaves. The setters of conditions,
-- labels, memory operands, registers and immediates are the two general edits.
pub data Step : Instruction → Instruction → Type 0 where
  set_ip : (self : Instruction) (ip : ℕ) → Step self (f_arm.Instruction.Edit.set_ip self ip)
  relocate : (self : Instruction) (ip : ℕ) → Step self (f_arm.Instruction.Edit.relocate self ip)
  set_code :
      (self : Instruction) (code : Code) → Step self (f_arm.Instruction.Edit.set_code self code)
  set_mnemonic :
      (self : Instruction) (m : Mnemonic) → Step self (f_arm.Instruction.Edit.set_mnemonic self m)
  set_op :
      (self : Instruction) (n : ℕ) (o : Operand)
      → Step self ((f_arm.Instruction.Edit.set_op self n o).1)
  set_op_count :
      (self : Instruction) (n : ℕ) → Step self ((f_arm.Instruction.Edit.set_op_count self n).1)
  push_op :
      (self : Instruction) (o : Operand) → Step self ((f_arm.Instruction.Edit.push_op self o).1)
  edit_at :
      (self : Instruction) (f : Operand → Option Operand) (n : ℕ)
      → Step self ((f_arm.Instruction.Edit.edit_at f n self).1)
  edit_first :
      (self : Instruction) (f : Operand → Visit)
      → Step self ((f_arm.Instruction.Edit.edit_first f self).1)
  re_encode :
      (self : Instruction) (word : ℕ) → Step self (clear_modified (record self { word = word }))

pub data Reach (start : Instruction) : Instruction → Type 0 where
  here : Reach start start
  next : {t u : Instruction} → Reach start t → Step t u → Reach start u

-- Fields other than the slots and their number do not matter.
Tidy-same :
    (a b : Instruction) → a.operands ≡ b.operands → a.op_count ≡ b.op_count → Tidy a → Tidy b
Tidy-same a b e k h = record {
  slots = ground (arith, h.slots);
  counted = ground (arith, h.counted);
  rest_empty = λ i le. ground (arith, h.rest_empty i);
}

marked : (self : Instruction) → Tidy self → Tidy (mark_modified self)
unfolding mark_modified
marked self h = Tidy-same self (mark_modified self) refl refl h

-- Each branch of a test is tidy.
choose :
    (b : Bool) (x y : Instruction)
    → (b ≡ true → Tidy x)
    → (b ≡ false → Tidy y)
    → Tidy (if b then x else y)
choose true x y hx hy = hx refl
choose false x y hx hy = hy refl

choose_result :
    (b : Bool) (x y : Bool × Instruction)
    → (b ≡ true → Tidy (x.1))
    → (b ≡ false → Tidy (y.1))
    → Tidy ((if b then x else y).1)
choose_result true x y hx hy = hx refl
choose_result false x y hx hy = hy refl

get_or-past :
    (ops : List Operand) (i : ℕ) → length ops ≤ i → get_or ops i Operand.none ≡ Operand.none
get_or-past [] i le = refl
get_or-past (o ∷ ops) zero le = absurd (omega arith)
get_or-past (o ∷ ops) (suc i) le = get_or-past ops i (omega arith)

none_everywhere : (i : ℕ) → get_or no_operands i Operand.none ≡ Operand.none
none_everywhere zero = refl
none_everywhere (suc zero) = refl
none_everywhere (suc (suc zero)) = refl
none_everywhere (suc (suc (suc zero))) = refl
none_everywhere (suc (suc (suc (suc zero)))) = refl
none_everywhere (suc (suc (suc (suc (suc i))))) = refl

module _ (self : Instruction) (h : Tidy self) where
  set-Tidy :
      (n : ℕ) (o : Operand) (count : ℕ)
      → n < max_operands
      → n < count
      → self.op_count ≤ count
      → count ≤ max_operands
      → Tidy (record self { operands = set_elem self.operands n o; op_count = count })
  set-Tidy n o count hn hc hk hm = record {
    slots = ground (arith, length-set self.operands n o, h.slots);
    counted = hm;
    rest_empty = λ i le.
        ground (arith, get_or-set self.operands n i o Operand.none, h.slots, h.rest_empty i);
  }

  moved-Tidy : (ip : ℕ) → Tidy (record self { ip = ip })
  moved-Tidy ip = Tidy-same self (record self { ip = ip }) refl refl h

  shifted-Tidy :
      (f : Operand → Operand) (ip : ℕ)
      → Tidy (record self { operands = map_below self.op_count f self.operands; ip = ip })
  shifted-Tidy f ip = record {
    slots = ground (arith, length-map_below self.op_count f self.operands, h.slots);
    counted = h.counted;
    rest_empty = λ i le. elim (dec_lt i 5) [
      | yes p ↦ ground (
        arith,
        get_or-map_below self.op_count f self.operands i Operand.none,
        h.slots,
        h.rest_empty i,
      )
      | no p ↦
          get_or-past (map_below self.op_count f self.operands) i
            (ground (arith, length-map_below self.op_count f self.operands, h.slots))
    ];
  }

  cleared-Tidy :
      (n : ℕ)
      → n ≤ max_operands
      → Tidy (record self { operands = clear_from n self.operands; op_count = n })
  cleared-Tidy n hn = record {
    slots = ground (arith, length-clear_from n self.operands, h.slots);
    counted = hn;
    rest_empty = λ i le. ground (arith, get_or-clear_from n self.operands i);
  }

  commit-Tidy :
      (o : Option (List Operand))
      → ((i : ℕ) → Keeps self.op_count self.operands i o)
      → Tidy ((commit self o).1)
  unfolding commit Keeps
  commit-Tidy none k = h
  commit-Tidy (some ops) k =
      let written : Tidy (record self { operands = ops }) = record {
        slots = ground (arith, (k 0).0, h.slots);
        counted = h.counted;
        rest_empty = λ i le. ground (arith, (k i).1, h.rest_empty i);
      } in
      marked (record self { operands = ops }) written

  write_at-Keeps :
      (n : ℕ) (o : Option Operand) (i : ℕ)
      → n < self.op_count
      → Keeps self.op_count self.operands i (write_at n o self.operands)
  unfolding Keeps write_at
  write_at-Keeps n none i hn = tt
  write_at-Keeps n (some o) i hn = (
    length-set self.operands n o,
    λ le. ground (arith, get_or-set self.operands n i o Operand.none, h.slots, h.counted),
  )

-- An edit keeps five slots, at most five that count, and the others empty.
Step-Tidy : {a b : Instruction} → Step a b → Tidy a → Tidy b
unfolding f_arm.Instruction.Edit.set_ip f_arm.Instruction.Edit.relocate
    f_arm.Instruction.Edit.set_code f_arm.Instruction.Edit.set_mnemonic
    f_arm.Instruction.Edit.set_op f_arm.Instruction.Edit.set_op_count f_arm.Instruction.Edit.push_op
    f_arm.Instruction.Edit.edit_at f_arm.Instruction.Edit.edit_first clear_modified
Step-Tidy (set_ip self ip) h =
    let moved = record self { ip = ip } in
    choose (has_label moved) (mark_modified moved) moved (λ e. marked moved (moved-Tidy self h ip))
      (λ e. moved-Tidy self h ip)
Step-Tidy (relocate self ip) h =
    let shifted = record self {
      operands = map_below self.op_count (shift_label (wrapping_sub ip self.ip)) self.operands;
      ip = ip;
    } in
    let tidy = shifted-Tidy self h (shift_label (wrapping_sub ip self.ip)) ip in
    choose (has_label self) (mark_modified shifted) shifted (λ e. marked shifted tidy) (λ e. tidy)
Step-Tidy (set_code self code) h =
    marked (record self { code = code; mnemonic = mnemonic code })
      (Tidy-same self (record self { code = code; mnemonic = mnemonic code }) refl refl h)
Step-Tidy (set_mnemonic self m) h =
    marked (record self { mnemonic = m })
      (Tidy-same self (record self { mnemonic = m }) refl refl h)
Step-Tidy (set_op self n o) h =
    let count : ℕ = if leb self.op_count n then n + 1 else self.op_count in
    let written = record self { operands = set_elem self.operands n o; op_count = count } in
    choose_result (leb max_operands n) (false, self) (true, mark_modified written) (λ e. h)
      (λ e. marked written (ground (arith, set-Tidy self h n o count, h.counted)))
Step-Tidy (set_op_count self n) h =
    let written = record self { operands = clear_from n self.operands; op_count = n } in
    choose_result (ltb max_operands n) (false, self) (true, mark_modified written) (λ e. h)
      (λ e. marked written (ground (arith, cleared-Tidy self h n)))
Step-Tidy (push_op self o) h =
    let written = record self {
      operands = set_elem self.operands self.op_count o;
      op_count = self.op_count + 1;
    } in
    choose_result (leb max_operands self.op_count) (false, self) (true, mark_modified written)
      (λ e. h)
      (λ e.
        marked written
          (ground (arith, set-Tidy self h self.op_count o (self.op_count + 1), h.counted)))
Step-Tidy (edit_at self f n) h =
    let found = write_at n (f (op self n)) self.operands in
    choose_result (leb self.op_count n) (false, self) (commit self found) (λ e. h)
      (λ e.
        commit-Tidy self h found (λ i. write_at-Keeps self h n (f (op self n)) i (ground arith)))
Step-Tidy (edit_first self f) h =
    commit-Tidy self h (write_first self.op_count f self.operands)
      (λ i. write_first-Keeps self.op_count f self.operands i)
Step-Tidy (re_encode self word) h =
    Tidy-same self (clear_modified (record self { word = word })) refl refl h

-- Whatever sequence of edits an instruction goes through, it keeps five slots, at most five that
-- count, and the others empty.
pub Reach-Tidy : {a b : Instruction} → Reach a b → Tidy a → Tidy b
Reach-Tidy here h = h
Reach-Tidy (next r st) h = Step-Tidy st (Reach-Tidy r h)

-- The invalid instruction that a decoder starts from is tidy.
pub new_invalid-Tidy : (word ip : ℕ) → Tidy (new_invalid word ip)
unfolding new_invalid
new_invalid-Tidy word ip = record {
  slots = refl;
  counted = omega arith;
  rest_empty = λ i le. none_everywhere i;
}

-- On a tidy instruction, a write past the count extends the operand list with empty operands in
-- between, and every other operand reads as before.
pub op-set_op :
    (self : Instruction) (n i : ℕ) (o : Operand)
    → Tidy self
    → n < max_operands
    → op ((f_arm.Instruction.Edit.set_op self n o).1) i ≡ (if i == n then o else op self i)
unfolding f_arm.Instruction.Edit.set_op mark_modified op
op-set_op self n i o h hn =
    ground (arith, get_or-set self.operands n i o Operand.none, h.slots, h.counted, h.rest_empty i)
