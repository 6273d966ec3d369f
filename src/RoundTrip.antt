-- ===== src/RoundTrip.antt =====
-- The decoders and the encoders of src/decode and src/encode together: a word decoded and encoded
-- again.
pub mod Arms
pub mod Fields
pub mod Reads
pub mod AddSub
pub mod PcRel
pub mod Lanes
pub mod MoveWide
pub mod Bitfield
pub mod Logical
pub mod Codes
pub mod Group
pub mod Whole
pub mod Reg
pub mod Branch
pub mod Word
