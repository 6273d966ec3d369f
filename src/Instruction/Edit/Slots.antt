-- ===== src/Instruction/Edit/Slots.antt =====
-- src/instruction.rs: the loops of the editing operations over the operand slots.
use f_arm.Base.{ℕ, zero, suc, ◌<◌, ◌≤◌, ◌≡◌, arith, refl, ltb, if◌then◌else◌, ap}
use f_arm.Base.{List, [], ◌∷◌, length, get_or, Option, none, some, subst}
use f_arm.Instruction.Edit.{Visit, map_below, clear_from, write_first}
use f_arm.Operand.{Operand}

pub length-map_below :
    (n : ℕ) (f : Operand → Operand) (ops : List Operand) → length (map_below n f ops) ≡ length ops
unfolding map_below
length-map_below zero f ops = refl
length-map_below (suc n) f [] = refl
length-map_below (suc n) f (o ∷ ops) = ap suc (length-map_below n f ops)

pub get_or-map_below :
    (n : ℕ) (f : Operand → Operand) (ops : List Operand) (i : ℕ) (d : Operand)
    → i < length ops
    → get_or (map_below n f ops) i d ≡ (if ltb i n then f (get_or ops i d) else get_or ops i d)
unfolding map_below
get_or-map_below zero f ops i d h = ground arith
get_or-map_below (suc n) f [] i d h = absurd (omega arith)
get_or-map_below (suc n) f (o ∷ ops) zero d h = ground arith
get_or-map_below (suc n) f (o ∷ ops) (suc i) d h =
    ground (arith, get_or-map_below n f ops i d (omega arith))

pub length-clear_from :
    (count : ℕ) (ops : List Operand) → length (clear_from count ops) ≡ length ops
unfolding clear_from
length-clear_from zero [] = refl
length-clear_from (suc count) [] = refl
length-clear_from zero (o ∷ ops) = ap suc (length-clear_from zero ops)
length-clear_from (suc count) (o ∷ ops) = ap suc (length-clear_from count ops)

pub get_or-clear_from :
    (count : ℕ) (ops : List Operand) (i : ℕ)
    → get_or (clear_from count ops) i Operand.none
      ≡ (if ltb i count then get_or ops i Operand.none else Operand.none)
unfolding clear_from
get_or-clear_from zero [] i = ground arith
get_or-clear_from (suc count) [] i = ground arith
get_or-clear_from zero (o ∷ ops) zero = ground arith
get_or-clear_from zero (o ∷ ops) (suc i) = ground (arith, get_or-clear_from zero ops i)
get_or-clear_from (suc count) (o ∷ ops) zero = ground arith
get_or-clear_from (suc count) (o ∷ ops) (suc i) = ground (arith, get_or-clear_from count ops i)

-- A result of `write_first` keeps the number of slots, and the slot `i` if it does not count.
unfoldable pub Keeps : ℕ → List Operand → ℕ → Option (List Operand) → Type 0
Keeps n ops i none = Unit {0}
Keeps n ops i (some written) =
    (length written ≡ length ops)
    × (n ≤ i → get_or written i Operand.none ≡ get_or ops i Operand.none)

-- One round of the loop.
unfoldable visit : Visit → Operand → List Operand → Option (List Operand) → Option (List Operand)
visit (Visit.write o') o ops rest = some (o' ∷ ops)
visit Visit.stop o ops rest = none
visit Visit.skip o ops none = none
visit Visit.skip o ops (some ops') = some (o ∷ ops')

visit-Keeps_first :
    (v : Visit) (n : ℕ) (o : Operand) (ops : List Operand) (rest : Option (List Operand))
    → Keeps n ops 0 rest
    → Keeps (suc n) (o ∷ ops) 0 (visit v o ops rest)
unfolding Keeps visit
visit-Keeps_first (Visit.write o') n o ops rest h = ground arith
visit-Keeps_first Visit.stop n o ops rest h = tt
visit-Keeps_first Visit.skip n o ops none h = tt
visit-Keeps_first Visit.skip n o ops (some ops') h = ground arith

visit-Keeps_later :
    (v : Visit) (n : ℕ) (o : Operand) (ops : List Operand) (rest : Option (List Operand)) (i : ℕ)
    → Keeps n ops i rest
    → Keeps (suc n) (o ∷ ops) (suc i) (visit v o ops rest)
unfolding Keeps visit
visit-Keeps_later (Visit.write o') n o ops rest i h = ground arith
visit-Keeps_later Visit.stop n o ops rest i h = tt
visit-Keeps_later Visit.skip n o ops none i h = tt
visit-Keeps_later Visit.skip n o ops (some ops') i h = ground arith

visit_lem :
    (n : ℕ) (f : Operand → Visit) (o : Operand) (ops : List Operand)
    → visit (f o) o ops (write_first n f ops) ≡ write_first (suc n) f (o ∷ ops)
unfolding visit write_first
visit_lem n f o ops = ground arith

pub write_first-Keeps :
    (n : ℕ) (f : Operand → Visit) (ops : List Operand) (i : ℕ) → Keeps n ops i (write_first n f ops)
unfolding write_first Keeps
write_first-Keeps zero f ops i = tt
write_first-Keeps (suc n) f [] i = tt
write_first-Keeps (suc n) f (o ∷ ops) zero =
    subst (Keeps (suc n) (o ∷ ops) 0) (visit_lem n f o ops)
      (visit-Keeps_first (f o) n o ops (write_first n f ops) (write_first-Keeps n f ops 0))
write_first-Keeps (suc n) f (o ∷ ops) (suc i) =
    subst (Keeps (suc n) (o ∷ ops) (suc i)) (visit_lem n f o ops)
      (visit-Keeps_later (f o) n o ops (write_first n f ops) i (write_first-Keeps n f ops i))
