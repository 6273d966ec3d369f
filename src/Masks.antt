-- ===== src/Masks.antt =====
-- src/decode/bits.rs and src/encode/bits.rs: the logical immediate, decoded and searched for.
pub mod Table
pub mod Wide
pub mod Narrow
pub mod Word
pub mod Laws
pub mod Described
pub mod Search
