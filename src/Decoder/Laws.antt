-- ===== src/Decoder/Laws.antt =====
-- The cursor, the address and the error of the stream decoder, and the stream as a whole.
use f_arm.Base.{ℕ, zero, suc, ◌+◌, ◌-◌, ◌*◌, ◌/◌, ◌%◌, ◌^◌, ◌<◌, ◌≡◌, ◌↔◌, ◌⊎◌, inr, arith}
use f_arm.Base.{leb, true, false, refl, ap, ◌∙◌, wrapping_add}
use f_arm.Base.{List, [], ◌∷◌, length, drop, Option, none, some}
use f_arm.Decode.Tree.{GroupDecoders, decode_into as decode_word}
use f_arm.Error.{DecodeError}
use f_arm.Decoder.{
  Decoder, DecoderOptions, new, from_le_bytes, remaining, window, can_decode, short_tail,
  decode_full, decode_into, set_position, next, collect, drain,
}
use f_arm.Features.{FeatureSet}
use f_arm.Instruction.{Instruction, insn_len}

-- What a stream of bytes at address `ip` holds, by recursion on the bytes.
unfoldable pub decode_all : GroupDecoders → FeatureSet → List ℕ → ℕ → List Instruction
decode_all groups features (b0 ∷ b1 ∷ b2 ∷ b3 ∷ rest) ip =
    decode_word groups (from_le_bytes b0 b1 b2 b3) ip features
    ∷ decode_all groups features rest (wrapping_add ip insn_len)
decode_all groups features _ ip = []

drop-empty : (n : ℕ) → drop {A = ℕ} n [] ≡ []
drop-empty zero = refl
drop-empty (suc n) = refl

suc-add : (m n : ℕ) → suc (m + n) ≡ suc m + n
suc-add m n = omega arith

drop-add : (a b : ℕ) (xs : List ℕ) → drop b (drop a xs) ≡ drop (a + b) xs
drop-add zero b xs = ap (λ n. drop n xs) (zero-add b)
  where
    zero-add : (n : ℕ) → n ≡ 0 + n
    zero-add n = omega arith
drop-add (suc a) b [] = drop-empty b ∙ ap (λ n. drop n []) (suc-add a b)
drop-add (suc a) b (x ∷ xs) = drop-add a b xs ∙ ap (λ n. drop n (x ∷ xs)) (suc-add a b)

length-drop : (n : ℕ) (xs : List ℕ) → length (drop n xs) ≡ length xs - n
length-drop zero xs = omega arith
length-drop (suc n) [] = omega arith
length-drop (suc n) (x ∷ xs) = omega (arith, length-drop n xs)

window-cases :
    (rest : List ℕ)
    → ((window rest ≡ none) × (leb 4 (length rest) ≡ false))
      ⊎ ((word : ℕ) × (window rest ≡ some word) × (leb 4 (length rest) ≡ true))
unfolding window
window-cases [] = ground arith
window-cases (b0 ∷ []) = ground arith
window-cases (b0 ∷ b1 ∷ []) = ground arith
window-cases (b0 ∷ b1 ∷ b2 ∷ []) = ground arith
window-cases (b0 ∷ b1 ∷ b2 ∷ b3 ∷ rest) = inr (from_le_bytes b0 b1 b2 b3, refl, ground arith)

-- `decode_into` leaves the end-of-instruction error exactly where `can_decode` is false.
pub decode_into-end :
    (groups : GroupDecoders) (d : Decoder)
    → ((decode_into groups d).1.last_error ≡ DecodeError.end_of_instruction)
      ↔ (can_decode d ≡ false)
unfolding decode_into can_decode short_tail decode_full
decode_into-end groups d = go (remaining d) refl
  where
    go :
        (o : Option (List ℕ))
        → remaining d ≡ o
        → ((decode_into groups d).1.last_error ≡ DecodeError.end_of_instruction)
          ↔ (can_decode d ≡ false)
    go none e = ground arith
    go (some rest) e = ground (arith, window-cases rest)

remaining-next :
    (d after : Decoder) (b0 b1 b2 b3 : ℕ) (rest : List ℕ)
    → remaining d ≡ some (b0 ∷ b1 ∷ b2 ∷ b3 ∷ rest)
    → after.bytes ≡ d.bytes
    → after.pos ≡ d.pos + 4
    → remaining after ≡ some rest
unfolding remaining
remaining-next d after b0 b1 b2 b3 rest e eb ep =
    rw (eb, ep) (ground (arith, drop-add d.pos 4 d.bytes, length-drop d.pos d.bytes))

next-word :
    (groups : GroupDecoders) (d : Decoder) (b0 b1 b2 b3 : ℕ) (rest : List ℕ)
    → remaining d ≡ some (b0 ∷ b1 ∷ b2 ∷ b3 ∷ rest)
    → next groups d ≡ (
      some (decode_word groups (from_le_bytes b0 b1 b2 b3) d.ip d.options.features),
      (decode_full groups (from_le_bytes b0 b1 b2 b3) d).1,
    )
unfolding next can_decode decode_into decode_full window
next-word groups d b0 b1 b2 b3 rest e = ground arith

next-tail :
    (groups : GroupDecoders) (d : Decoder) (rest : List ℕ)
    → remaining d ≡ some rest
    → length rest < 4
    → next groups d ≡ (none, d)
unfolding next can_decode
next-tail groups d rest e h = ground arith

-- The decoder after a full word, but for its error.
decode_full-after :
    (groups : GroupDecoders) (word : ℕ) (d : Decoder)
    → ((decode_full groups word d).1.bytes ≡ d.bytes)
      × ((rest : List ℕ)
          → decode_all groups
              (decode_full groups word d).1.options.features
              rest
              (decode_full groups word d).1.ip
            ≡ decode_all groups d.options.features rest (wrapping_add d.ip insn_len))
      × ((decode_full groups word d).1.pos ≡ d.pos + 4)
unfolding decode_full
decode_full-after groups word d = (refl, λ rest. refl, refl)

module _ (groups : GroupDecoders) where
  -- With a round for each word and one more, the loop yields what the stream holds.
  drain-decode_all :
      (fuel : ℕ) (d : Decoder) (rest : List ℕ)
      → remaining d ≡ some rest
      → length rest < fuel * 4
      → (drain fuel groups d).0 ≡ decode_all groups d.options.features rest d.ip
  unfolding drain decode_all
  drain-decode_all zero d rest e h = absurd (omega arith)
  drain-decode_all (suc fuel) d [] e h = rw (next-tail groups d [] e (omega arith), drain) refl
  drain-decode_all (suc fuel) d (b0 ∷ []) e h =
      rw (next-tail groups d (b0 ∷ []) e (omega arith), drain) refl
  drain-decode_all (suc fuel) d (b0 ∷ b1 ∷ []) e h =
      rw (next-tail groups d (b0 ∷ b1 ∷ []) e (omega arith), drain) refl
  drain-decode_all (suc fuel) d (b0 ∷ b1 ∷ b2 ∷ []) e h =
      rw (next-tail groups d (b0 ∷ b1 ∷ b2 ∷ []) e (omega arith), drain) refl
  drain-decode_all (suc fuel) d (b0 ∷ b1 ∷ b2 ∷ b3 ∷ rest) e h =
      let word = from_le_bytes b0 b1 b2 b3 in
      let after = (decode_full groups word d).1 in
      let (same, keeps, step) = decode_full-after groups word d in
      ap (λ x. (collect x (drain fuel groups x.1)).0) (next-word groups d b0 b1 b2 b3 rest e)
      ∙ ap (λ xs. decode_word groups word d.ip d.options.features ∷ xs)
          (drain-decode_all fuel after rest (remaining-next d after b0 b1 b2 b3 rest e same step)
              (omega arith)
            ∙ keeps rest)

-- Given a round for each full word and one more, draining a new decoder yields the instructions
-- of the slice word by word, each four bytes further on.
pub drain-new :
    (groups : GroupDecoders) (bytes : List ℕ) (ip fuel : ℕ) (options : DecoderOptions)
    → length bytes < fuel * 4
    → (drain fuel groups (new bytes ip options)).0 ≡ decode_all groups options.features bytes ip
unfolding new remaining
drain-new groups bytes ip fuel options h =
    drain-decode_all groups fuel (new bytes ip options) bytes (ground arith) h

length-decode_all :
    (groups : GroupDecoders) (features : FeatureSet) (bytes : List ℕ) (ip : ℕ)
    → length (decode_all groups features bytes ip) ≡ length bytes / 4
unfolding decode_all
length-decode_all groups features [] ip = omega arith
length-decode_all groups features (b0 ∷ []) ip = omega arith
length-decode_all groups features (b0 ∷ b1 ∷ []) ip = omega arith
length-decode_all groups features (b0 ∷ b1 ∷ b2 ∷ []) ip = omega arith
length-decode_all groups features (b0 ∷ b1 ∷ b2 ∷ b3 ∷ rest) ip =
    omega (arith, length-decode_all groups features rest (wrapping_add ip insn_len))

-- Given a round for each full word and one more, draining a new decoder yields one instruction
-- for each full word of the slice.
pub length-drain :
    (groups : GroupDecoders) (bytes : List ℕ) (ip fuel : ℕ) (options : DecoderOptions)
    → length bytes < fuel * 4
    → length (drain fuel groups (new bytes ip options)).0 ≡ length bytes / 4
length-drain groups bytes ip fuel options h =
    ap (λ xs. length xs) (drain-new groups bytes ip fuel options h)
    ∙ length-decode_all groups options.features bytes ip

-- The address is the base plus the cursor, modulo 2 ^ 64.
unfoldable pub Synced : ℕ → Decoder → Type 0
Synced base d = d.ip ≡ (base + d.pos) % 2 ^ 64

-- Decoding keeps the address in step with the cursor, on a full word and on a short tail.
pub decode_into-Synced :
    (groups : GroupDecoders) (base : ℕ) (d : Decoder)
    → Synced base d
    → Synced base (decode_into groups d).1
unfolding Synced decode_into decode_full short_tail
decode_into-Synced groups base d h = go (remaining d) refl
  where
    go : (o : Option (List ℕ)) → remaining d ≡ o → Synced base (decode_into groups d).1
    go none e = ground arith
    go (some rest) e = ground (arith, window-cases rest)

-- Seeking between 64-bit positions keeps the address in step with the cursor.
pub set_position-Synced :
    (base pos : ℕ) (d : Decoder)
    → d.pos < 2 ^ 64
    → pos < 2 ^ 64
    → Synced base d
    → Synced base (set_position d pos)
unfolding Synced set_position
set_position-Synced base pos d hp h s = ground arith

-- Seeking to a 64-bit position and back leaves the decoder as it was, for a 64-bit address.
pub set_position-set_position :
    (d : Decoder) (pos : ℕ)
    → d.ip < 2 ^ 64
    → d.pos < 2 ^ 64
    → pos < 2 ^ 64
    → set_position (set_position d pos) d.pos ≡ d
unfolding set_position
set_position-set_position d pos hip hp h = ground arith
