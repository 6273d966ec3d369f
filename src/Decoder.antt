-- ===== src/Decoder.antt =====
-- src/decoder.rs: the stream decoder over a byte slice. `usize` is 64 bits wide.
pub mod Laws
use f_arm.Base.{ℕ, zero, suc, ◌+◌, ◌-◌, ◌*◌, ◌^◌, ltb, leb, if◌then◌else◌, Bool, true, false}
use f_arm.Base.{List, [], ◌∷◌, length, drop, Option, none, some, wrapping_add, wrapping_sub}
use f_arm.Decode.Tree.{GroupDecoders, decode_into as decode_word}
use f_arm.Error.{DecodeError}
use f_arm.Features.{FeatureSet}
use f_arm.Instruction.{Instruction, insn_len, is_invalid, new_invalid}

pub record DecoderOptions : Type 0 where
  pub features : FeatureSet

-- `bytes` is the slice `data`.
pub record Decoder : Type 0 where
  pub bytes : List ℕ
  pub pos : ℕ
  pub ip : ℕ
  pub options : DecoderOptions
  pub last_error : DecodeError

-- `Decoder::new`
unfoldable pub new : List ℕ → ℕ → DecoderOptions → Decoder
new bytes ip options = record {
  bytes = bytes;
  pos = 0;
  ip = ip;
  options = options;
  last_error = DecodeError.none;
}

-- `u32::from_le_bytes`
abbrev pub from_le_bytes : ℕ → ℕ → ℕ → ℕ → ℕ
from_le_bytes b0 b1 b2 b3 = b0 + b1 * 2 ^ 8 + b2 * 2 ^ 16 + b3 * 2 ^ 24

-- `self.data.get(self.pos..)`
unfoldable pub remaining : Decoder → Option (List ℕ)
remaining self = if ltb (length self.bytes) self.pos then none else some (drop self.pos self.bytes)

-- `remaining.get(..INSN_LEN)`, assembled.
unfoldable pub window : List ℕ → Option ℕ
window (b0 ∷ b1 ∷ b2 ∷ b3 ∷ rest) = some (from_le_bytes b0 b1 b2 b3)
window _ = none

unfoldable pub can_decode : Decoder → Bool
can_decode self = elim (remaining self) [ none ↦ false | some rest ↦ leb insn_len (length rest) ]

-- The `else` of the bounds check.
unfoldable pub short_tail : Decoder → Instruction × Decoder
short_tail self = (new_invalid 0 0, record self { last_error = DecodeError.end_of_instruction })

-- The rest of `decode_into`, with a full word.
unfoldable pub decode_full : GroupDecoders → ℕ → Decoder → Instruction × Decoder
decode_full groups word self =
    let out = decode_word groups word self.ip self.options.features in
    (
      out,
      record self {
        last_error = if is_invalid out then DecodeError.unmatched else DecodeError.none;
        pos = self.pos + insn_len;
        ip = wrapping_add self.ip insn_len;
      },
    )

-- `out` is written on both paths, so it is a result; `decode` and `decode_out` are this too.
unfoldable pub decode_into : GroupDecoders → Decoder → Instruction × Decoder
decode_into groups self = elim (remaining self) [
  | none ↦ short_tail self
  | some rest ↦ elim (window rest) [
    | none ↦ short_tail self
    | some word ↦ decode_full groups word self
  ]
]

unfoldable pub set_position : Decoder → ℕ → Decoder
set_position self pos = record self {
  ip =
      if leb self.pos pos
      then wrapping_add self.ip (pos - self.pos)
      else wrapping_sub self.ip (self.pos - pos);
  pos = pos;
}

unfoldable pub set_ip : Decoder → ℕ → Decoder
set_ip self ip = record self { ip = ip }

-- `next` of both iterators.
unfoldable pub next : GroupDecoders → Decoder → Option Instruction × Decoder
next groups self =
    if can_decode self
    then (let (insn, after) = decode_into groups self in (some insn, after))
    else (none, self)

-- One round of `for insn in decoder`, before what the later rounds give.
abbrev pub collect :
    Option Instruction × Decoder → List Instruction × Decoder → List Instruction × Decoder
collect (none, after) rest = ([], after)
collect (some insn, after) rest = (insn ∷ rest.0, rest.1)

-- `for insn in decoder`, on fuel.
unfoldable pub drain : ℕ → GroupDecoders → Decoder → List Instruction × Decoder
drain zero groups self = ([], self)
drain (suc fuel) groups self =
    let step = next groups self in collect step (drain fuel groups step.1)
