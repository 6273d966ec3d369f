-- ===== src/Encode/Arms.antt =====
-- src/encode/dp_imm.rs and src/encode/dp_reg.rs: the arms of the matches on `insn.mnemonic()`.
use f_arm.Base.{Bool, true, false}
use f_arm.Mnemonic.{Mnemonic}

-- `Mnemonic::Cmp | Mnemonic::Cmn`
unfoldable pub is_compare : Mnemonic → Bool
is_compare Mnemonic.cmp = true
is_compare Mnemonic.cmn = true
is_compare _ = false

-- `Mnemonic::Mov`
unfoldable pub is_mov : Mnemonic → Bool
is_mov Mnemonic.mov = true
is_mov _ = false

-- `Mnemonic::Mvn`
unfoldable pub is_mvn : Mnemonic → Bool
is_mvn Mnemonic.mvn = true
is_mvn _ = false

-- `Mnemonic::Tst`
unfoldable pub is_tst : Mnemonic → Bool
is_tst Mnemonic.tst = true
is_tst _ = false

-- `Mnemonic::Cset | Mnemonic::Csetm`
unfoldable pub is_set_form : Mnemonic → Bool
is_set_form Mnemonic.cset = true
is_set_form Mnemonic.csetm = true
is_set_form _ = false

-- `Mnemonic::Cinc | Mnemonic::Cinv | Mnemonic::Cneg`
unfoldable pub is_unary_form : Mnemonic → Bool
is_unary_form Mnemonic.cinc = true
is_unary_form Mnemonic.cinv = true
is_unary_form Mnemonic.cneg = true
is_unary_form _ = false
