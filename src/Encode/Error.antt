-- ===== src/Encode/Error.antt =====
-- src/encode/mod.rs: the errors of the encoder, and the `Result` that `?` chains.
use f_arm.Base.{Bool, true, false}

pub data EncodeError : Type 0 where
  unsupported invalid_operand invalid_immediate invalid : EncodeError

pub data Result {ℓ} (A : Type ℓ) : Type ℓ where
  ok : A → Result A
  err : EncodeError → Result A

infixl 2 ◌>>=◌
abbrev pub ◌>>=◌ {ℓ κ} : {A : Type ℓ} {B : Type κ} → Result A → (A → Result B) → Result B
err failure >>= next = err failure
ok value >>= next = next value

infixl 2 ◌>>◌
abbrev pub ◌>>◌ {ℓ} : {B : Type ℓ} → Result (Unit {0}) → Result B → Result B
check >> rest = check >>= λ _. rest

-- `if test { return Err(e); }`
abbrev pub reject_if : Bool → EncodeError → Result (Unit {0})
reject_if true e = err e
reject_if false e = ok tt
