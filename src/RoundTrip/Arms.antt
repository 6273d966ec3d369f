-- ===== src/RoundTrip/Arms.antt =====
-- The arm of each match on the mnemonic that an alias takes, in the encoders.
use f_arm.Base.{◌≡◌, true, false, refl}
use f_arm.Encode.Arms.{is_compare, is_mov, is_mvn, is_tst, is_set_form, is_unary_form}
use f_arm.Mnemonic.{Mnemonic}

pub mov-arm : is_mov Mnemonic.mov ≡ true
unfolding is_mov
mov-arm = refl

pub cmp-arm : (is_mov Mnemonic.cmp ≡ false) × (is_compare Mnemonic.cmp ≡ true)
unfolding is_mov is_compare
cmp-arm = (refl, refl)

pub cmn-arm : (is_mov Mnemonic.cmn ≡ false) × (is_compare Mnemonic.cmn ≡ true)
unfolding is_mov is_compare
cmn-arm = (refl, refl)

pub mvn-arm : (is_mov Mnemonic.mvn ≡ false) × (is_mvn Mnemonic.mvn ≡ true)
unfolding is_mov is_mvn
mvn-arm = (refl, refl)

pub tst-arm :
    (is_mov Mnemonic.tst ≡ false) × (is_mvn Mnemonic.tst ≡ false) × (is_tst Mnemonic.tst ≡ true)
unfolding is_mov is_mvn is_tst
tst-arm = (refl, refl, refl)

pub cset-arm : is_set_form Mnemonic.cset ≡ true
unfolding is_set_form
cset-arm = refl

pub csetm-arm : is_set_form Mnemonic.csetm ≡ true
unfolding is_set_form
csetm-arm = refl

pub cinc-arm : (is_set_form Mnemonic.cinc ≡ false) × (is_unary_form Mnemonic.cinc ≡ true)
unfolding is_set_form is_unary_form
cinc-arm = (refl, refl)

pub cinv-arm : (is_set_form Mnemonic.cinv ≡ false) × (is_unary_form Mnemonic.cinv ≡ true)
unfolding is_set_form is_unary_form
cinv-arm = (refl, refl)

pub cneg-arm : (is_set_form Mnemonic.cneg ≡ false) × (is_unary_form Mnemonic.cneg ≡ true)
unfolding is_set_form is_unary_form
cneg-arm = (refl, refl)
