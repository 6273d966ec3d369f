-- ===== src/SysToken.antt =====
-- src/sysop.rs: the tokens of system keywords, indices into the table of names. A token is its
-- index, an operand `Operand.sys_op` holds one.
pub mod Names
use f_arm.Base.{ℕ, zero, suc, ◌+◌, List, [], ◌∷◌, if◌then◌else◌, bit_and}
use f_arm.SysToken.Names.{sysop_names}
use Prim.Native.String.{String}
use text.Mathlib.Text.{◌==◌}

abbrev pub empty : ℕ
empty = 0

-- `while i < SYSOP_NAMES.len()`: the rest of the table, and the index of its head.
unfoldable pub of_from : List String → String → ℕ → ℕ
of_from [] name i = empty
of_from (n ∷ names) name i = let rest = of_from names name (i + 1) in if n == name then i else rest

unfoldable pub of : String → ℕ
unfolding of_from sysop_names
of name = of_from sysop_names name 0

unfoldable pub cr : ℕ → ℕ
cr n = 1 + bit_and n 0xf

unfoldable pub name_at : List String → ℕ → String
name_at [] i = ""
name_at (n ∷ names) zero = n
name_at (n ∷ names) (suc i) = name_at names i

unfoldable pub name : ℕ → String
unfolding name_at sysop_names
name token = name_at sysop_names token
