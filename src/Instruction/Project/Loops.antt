-- ===== src/Instruction/Project/Loops.antt =====
-- src/instruction.rs: the loop of a setter and the loop of a projection, over the same operands.
use f_arm.Base.{ℕ, zero, suc, ◌≡◌, ◌⊎◌, arith, refl, Option, none, some, List, [], ◌∷◌, inl, inr}
use f_arm.Instruction.Edit.{Visit, write_first}
use f_arm.Instruction.Project.{find_first}
use f_arm.Operand.{Operand}

-- A setter that writes `o'` where the projection reads something, and skips the rest; from `o'` the
-- projection reads `a`.
module _ {ℓ} {A : Type ℓ} (visit : Operand → Visit) (read : Operand → Option A) (o' : Operand)
    (a : A) (same : read o' ≡ some a)
    (cases : (o : Operand)
      → ((visit o ≡ Visit.skip) × (read o ≡ none)) ⊎ (visit o ≡ Visit.write o')) where
  -- Nothing was written and nothing is read, or what was written is read.
  unfoldable pub Reads : ℕ → List Operand → Option (List Operand) → Type ℓ
  Reads n ops none = find_first n read ops ≡ none
  Reads n ops (some written) = find_first n read written ≡ some a

  skipped :
      (n : ℕ) (o : Operand) (ops : List Operand) (rest : Option (List Operand))
      → write_first n visit ops ≡ rest
      → visit o ≡ Visit.skip
      → read o ≡ none
      → Reads n ops rest
      → Reads (suc n) (o ∷ ops) (write_first (suc n) visit (o ∷ ops))
  unfolding Reads write_first find_first
  skipped n o ops none e k r h = ground arith
  skipped n o ops (some written) e k r h = ground arith

  written :
      (n : ℕ) (o : Operand) (ops : List Operand)
      → visit o ≡ Visit.write o'
      → Reads (suc n) (o ∷ ops) (write_first (suc n) visit (o ∷ ops))
  unfolding Reads write_first find_first
  written n o ops k = ground (arith, same)

  pub write_first-Reads : (n : ℕ) (ops : List Operand) → Reads n ops (write_first n visit ops)
  unfolding Reads write_first find_first
  write_first-Reads zero ops = refl
  write_first-Reads (suc n) [] = refl
  write_first-Reads (suc n) (o ∷ ops) = elim (cases o) [
    | inl (k, r) ↦ skipped n o ops (write_first n visit ops) refl k r (write_first-Reads n ops)
    | inr k ↦ written n o ops k
  ]
