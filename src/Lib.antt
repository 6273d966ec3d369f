-- ===== src/Lib.antt =====
-- fARM64, an AArch64 instruction decoder and encoder (Rust crate, sources in src/).
--
-- A 32-bit word goes through the decode tree (src/decode/mod.rs), which picks one of the eight
-- encoding groups by bits 28 to 25 and lets its decoder fill in an `Instruction`: an encoding
-- identity (`Code`), a mnemonic, which an alias may replace, and up to five operands. The encoder
-- (src/encode) rebuilds the word from these alone and never reads the word that was decoded. The
-- stream decoder (src/decoder.rs) walks a byte slice and calls the tree on each word.
--
-- Modelled here are the two data-processing groups, immediate and register, and the branches and
-- exceptions, in both directions, the shared pseudocode that they stand on, the decode tree, the
-- dispatch of the encoder, the editing of an instruction and the stream decoder:
--   * Base: native numbers for `u32`, `u64` and `usize` with their wrap-around written out, `i64`
--     as an integer, the Boolean tests, arrays as lists, and `&` and `|` as arithmetic.
--   * Features (src/features.rs), Enums (src/enums.rs), Register (src/register.rs), Operand
--     (src/operand.rs), Mnemonic (src/mnemonic.rs), Instruction (src/instruction.rs): the data.
--     Every register and every operand shape is there. Of the table of encoding identities there
--     are the rows of these groups and of `UDF`: Mnemonic.Names and Mnemonic.Gates are its columns.
--     Instruction.Laws and Instruction.Decoded are about the operand array.
--   * Instruction.Edit and Instruction.Project (src/instruction.rs): the editing operations and the
--     projections. An operation that returns `bool` gives that and the instruction afterwards. The
--     setters are two loops, over one slot and over the first operand of a kind, with the match of
--     each setter as an argument. Edit.Steps has the edits as a step relation.
--     Instruction.Flow has the control-flow classes and the target of a direct branch.
--   * Decode.Bits (src/decode/bits.rs) and Encode.Bits (src/encode/bits.rs): bit fields, sign
--     extension, `decode_bit_masks` and the search `encode_bit_masks` for its inverse.
--   * Decode.DpImm (src/decode/dp_imm.rs) and Encode.DpImm (src/encode/dp_imm.rs): the classes of
--     the group, function by function, under the names of the source. `out: &mut Instruction` is
--     an argument and the result. `Result` and `?` are Encode.Error with its do blocks;
--     Encode.Arms has the arms of the matches on `insn.mnemonic()`.
--   * Decode.DpReg (src/decode/dp_reg.rs) and Encode.DpReg (src/encode/dp_reg.rs): the register
--     group, in Shifted, Flags, Source3, Source2 and Source1 by class. A match on a tuple of fields
--     is a function by clauses, or a chain of tests where the fields are wide.
--   * Encode.Dispatch and Encode.Groups (src/encode/mod.rs): the dispatch of the encoder on the
--     code, its byte form, and the commit of an edited instruction.
--   * Decode.Gates: the codes of the immediate group against their feature column.
--   * Decode.BranchSys (src/decode/branch_sys.rs) and Encode.BranchSys (src/encode/branch_sys.rs):
--     branches to a label (Immediate, Compare), to a register (Register) and exceptions, in the
--     order of the source. SysToken (src/sysop.rs) is the table of system keywords.
--   * Decode.Tree (src/decode/mod.rs), Error (src/error.rs) and Decoder (src/decoder.rs): the
--     tree and the cursor over the bytes, with its address and last error.
--   * Masks: the logical immediate. Masks.Table evaluates every one of the fields' values at both
--     data sizes against a description of the bits, Masks.Laws reads the table for any fields.
--   * RoundTrip: words decoded and encoded again. Fields and Reads join and split a word, one
--     module for each class follows, Group and Whole put them together. RoundTrip.Reg does the same
--     for the register group and RoundTrip.Branch for the branches, RoundTrip.Word puts all three
--     through the tree and the dispatch.
--   * Tests: known words, and the theorems at concrete inputs.
--
-- Loops run on fuel where the source counts: 64 rounds for the bits of a word, the data size for
-- replication (an element has at least one bit), 6 for the element sizes 2 to 64, and the element
-- size for a rotation. The loop over a decoder takes its fuel as an argument; one round for each
-- full word and one more is enough.
--
-- The decoders of the other groups are a record of functions that the tree takes (GroupDecoders),
-- those of the system blocks (src/decode/branch_sys.rs: decode_system, decode_system_pair and
-- decode_tchange) another within it (SystemDecoders), and the encoders of the groups a list of
-- tests and functions that the dispatch takes (GroupEncoders), so what is said of the tree, the
-- dispatch and the stream holds whatever they do. Arithmetic on `u32` that Rust checks in a debug
-- build is modelled by its wrapping meaning. An `f32` operand is its bit pattern. Left out are the
-- other groups, the system blocks, the SIMD immediates, `set_op_register` with the register
-- classes that it compares, the flag effects and other classifications of an instruction
-- (src/instruction.rs, src/info.rs, src/implicit.rs), system registers and the formatters.
pub mod Base
pub mod Features
pub mod Enums
pub mod Register
pub mod Operand
pub mod SysToken
pub mod Mnemonic
pub mod Instruction
pub mod Decode
pub mod Encode
pub mod Masks
pub mod Error
pub mod Decoder
pub mod RoundTrip
pub mod Tests
