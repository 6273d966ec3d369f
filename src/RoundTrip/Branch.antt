-- ===== src/RoundTrip/Branch.antt =====
-- The branch group: words decoded and encoded again.
pub mod Labels
pub mod Accepts
pub mod Shapes
pub mod Immediate
pub mod Authenticated
pub mod Compare
pub mod Register
pub mod Exception
pub mod Codes
pub mod Edited
pub mod Conditional
pub mod Retarget
pub mod Group
