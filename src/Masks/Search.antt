-- ===== src/Masks/Search.antt =====
-- src/encode/bits.rs: the search of `encode_bit_masks`, against `decode_bit_masks`.
use f_arm.Base.{ℕ, zero, suc, ◌%◌, ◌^◌, ◌<◌, ◌≡◌, ◌⊎◌, ◌∙◌, arith, sym}
use f_arm.Base.{true, Option, none, some, ap, refl, bit_and, shl32}
use f_arm.Base.{
  if◌then◌else◌, ◌==◌, ◌&&◌, ◌||◌, leb, Bool, false, Bool-cases, ==_iff, inl, inr, u64_max, subst,
}
use f_arm.Base.Bits.{bit_and_mask}
use f_arm.Decode.Bits.{BitMasks, decode_bit_masks}
use f_arm.Encode.Bits.{
  cut_wmask, confirm, try_esize, esize_loop, encode_bit_masks, encode_element, pack_n_imms,
  trailing_zeros, mask, replicates,
}
use f_arm.Masks.Laws.{IsForm, encode-decode_bit_masks}

abbrev pub Fields : Type 0
Fields = ℕ × ℕ × ℕ

-- The fields `(n, immr, imms)` decode to `value`.
abbrev pub Names : ℕ → ℕ → Fields → Type 0
Names ds value f =
    (m : BitMasks) × (decode_bit_masks f.0 f.2 f.1 true ds ≡ some m) × (cut_wmask ds m ≡ value)

guarded :
    (a b : ℕ) (f g : Fields)
    → (if a == b then some f else none) ≡ some g
    → (a ≡ b) × (some f ≡ some g)
guarded a b f g h = elim (Bool-cases (a == b)) [
  | inl e ↦ ((==_iff a b).0 e, ground arith)
  | inr e ↦ absurd (ground arith)
]

if_some :
    (b : Bool) (o : Option Fields) (f : Fields) → (if b then o else none) ≡ some f → o ≡ some f
if_some true o f h = h
if_some false o f h = absurd (ground arith)

first_some :
    (b : Bool) (o rest : Option Fields) (f : Fields)
    → (if b then (elim o [ some fields ↦ some fields | none ↦ rest ]) else none) ≡ some f
    → (o ≡ some f) ⊎ (rest ≡ some f)
first_some true none rest f h = inr h
first_some true (some g) rest f h = inl h
first_some false o rest f h = absurd (ground arith)

some-inj : {A : Type 0} {x y : A} → some x ≡ some y → x ≡ y
some-inj {x = x} h = ap (λ o. elim o [ none ↦ x | some v ↦ v ]) h

abbrev of_element : ℕ → ℕ → ℕ → Option (ℕ × ℕ) → Option Fields
of_element value ds esize o = elim o [
  | none ↦ none
  | some (immr, imms) ↦
      let (n, imms_field) = pack_n_imms (trailing_zeros 32 esize) imms in
      confirm value ds n immr imms_field
]

module _ (value ds : ℕ) where
  confirm-Names :
      (n immr imms : ℕ) (f : Fields) → confirm value ds n immr imms ≡ some f → Names ds value f
  unfolding confirm
  confirm-Names n immr imms f h = go (decode_bit_masks n imms immr true ds) refl h
    where
      go :
          (o : Option BitMasks)
          → decode_bit_masks n imms immr true ds ≡ o
          → (elim o [
            | none ↦ none
            | some m ↦ if cut_wmask ds m == value then some (n, immr, imms) else none
          ])
            ≡ some f
          → Names ds value f
      go none e k = absurd (ground arith)
      go (some m) e k =
          let (same, fields) = guarded (cut_wmask ds m) value (n, immr, imms) f k in
          subst (λ g. Names ds value g) (some-inj fields) (m, e, same)

  try_esize-Names : (esize : ℕ) (f : Fields) → try_esize value ds esize ≡ some f → Names ds value f
  unfolding try_esize
  try_esize-Names esize f h = go (encode_element (bit_and value (mask esize)) esize) (
      if_some (ds % esize == 0 && replicates (bit_and value (mask esize)) esize ds value)
        (of_element value ds esize (encode_element (bit_and value (mask esize)) esize)) f h)
    where
      go : (o : Option (ℕ × ℕ)) → of_element value ds esize o ≡ some f → Names ds value f
      go none k = absurd (ground arith)
      go (some (r, s)) k =
          let packed = pack_n_imms (trailing_zeros 32 esize) s in
          confirm-Names packed.0 r packed.1 f k

  esize_loop-Names :
      (fuel esize : ℕ) (f : Fields) → esize_loop fuel value ds esize ≡ some f → Names ds value f
  unfolding esize_loop
  esize_loop-Names zero esize f h = absurd (ground arith)
  esize_loop-Names (suc fuel) esize f h =
      elim (first_some (leb esize ds) (try_esize value ds esize)
        (esize_loop fuel value ds (shl32 esize 1)) f h) [
          | inl e ↦ try_esize-Names esize f e
          | inr e ↦ esize_loop-Names fuel (shl32 esize 1) f e
        ]

else_some :
    (b : Bool) (o : Option Fields) (f : Fields) → (if b then none else o) ≡ some f → o ≡ some f
else_some true o f h = absurd (ground arith)
else_some false o f h = h

search_64 : (value : ℕ) (f : Fields) → encode_bit_masks value 64 ≡ some f → Names 64 value f
unfolding encode_bit_masks
search_64 value f e =
    esize_loop-Names value 64 6 2 f
      (else_some (value == 0 || value == u64_max) (esize_loop 6 value 64 2) f e)

search_32 :
    (value : ℕ) (f : Fields)
    → value < 2 ^ 32
    → encode_bit_masks value 32 ≡ some f
    → Names 32 value f
unfolding encode_bit_masks
search_32 value f h e =
    let low = bit_and value 0xffff_ffff in
    subst (λ (v : ℕ). Names 32 v f) (bit_and_mask 32 value ∙ omega arith)
      (esize_loop-Names low 32 6 2 f
        (else_some (low == 0 || low == 0xffff_ffff) (esize_loop 6 low 32 2) f e))

-- Fields that the search finds for a value of the data size decode to that value.
pub encode_bit_masks_sound :
    (ds value : ℕ) (f : Fields)
    → (ds ≡ 32) ⊎ (ds ≡ 64)
    → value < 2 ^ ds
    → encode_bit_masks value ds ≡ some f
    → Names ds value f
encode_bit_masks_sound ds value f (inl e) h k =
    subst (λ (d : ℕ). Names d value f) (sym e)
      (search_32 value f (subst (λ (d : ℕ). value < 2 ^ d) e h)
        (subst (λ (d : ℕ). encode_bit_masks value d ≡ some f) e k))
encode_bit_masks_sound ds value f (inr e) h k =
    subst (λ (d : ℕ). Names d value f) (sym e)
      (search_64 value f (subst (λ (d : ℕ). encode_bit_masks value d ≡ some f) e k))

-- Where the search finds nothing, no fields of a logical immediate decode to the value.
pub encode_bit_masks_complete :
    (ds value : ℕ) (f : Fields)
    → IsForm ds f.0
    → f.1 < 64
    → f.2 < 64
    → encode_bit_masks value ds ≡ none
    → ¬ Names ds value f
encode_bit_masks_complete ds value (n, immr, imms) form hr hs k (m, e, same) = absurd (
    ground (
      arith,
      encode-decode_bit_masks ds n imms immr form hs hr m e,
      ap (λ v. encode_bit_masks v ds) same,
    ))
