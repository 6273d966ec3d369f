-- ===== src/RoundTrip/Reg/Shapes.antt =====
-- Chains of `|` over the fields of a word that give the word back.
pub mod Shifted
pub mod Extended
pub mod Flags
pub mod Conditional
pub mod OneSource
pub use Shifted.{logical_shifted_packed, addsub_shifted_packed}
pub use Extended.{addsub_extended_packed, addsub_carry_packed, addsub_pt_packed}
pub use Flags.{rmif_packed, setf_packed}
pub use Conditional.{cond_compare_packed, cond_select_packed}
pub use OneSource.{dp_1source_basic_packed, dp_1source_pauth_packed}
