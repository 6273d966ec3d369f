-- ===== src/Tests/Branches.antt =====
-- The theorems on the branch group at the words of the repository's tests.
use f_arm.Base.{
  [], ◌∷◌, inl, inr, true, false, ◌/◌, ◌%◌, ◌*◌, ◌≡◌, ◌⊎◌, ◌↔◌, ◌<◌, ◌^◌, ◌+◌, refl, arith,
}
use f_arm.Decode.BranchSys.{decode}
use f_arm.Decode.BranchSys.Compare.{decode_cmpbr}
use f_arm.Decode.BranchSys.Exception.{decode_exception}
use f_arm.Decode.BranchSys.Fields.{branch_target}
use f_arm.Decode.BranchSys.Immediate.{
  decode_uncond_branch_imm, decode_cond_branch, decode_auti_sppc,
}
use f_arm.Decode.BranchSys.Register.{decode_uncond_branch_reg}
use f_arm.Encode.BranchSys.{encode}
use f_arm.Encode.BranchSys.Compare.{enc_cmpbr}
use f_arm.Encode.BranchSys.Exception.{enc_exception}
use f_arm.Encode.BranchSys.Fields.{rel_imm, overflows, label}
use f_arm.Encode.BranchSys.Immediate.{
  enc_uncond_branch_imm, enc_cond_branch, enc_pauth_lr_sppc, links, hinted, cond_operand,
}
use f_arm.Encode.BranchSys.Register.{enc_branch_reg}
use f_arm.Enums.{Condition, as_u4}
use f_arm.Encode.Error.{ok}
use f_arm.Features.{all_features, has}
use f_arm.Instruction.{Instruction, new_invalid, op}
use f_arm.Instruction.Flow.{near_branch_target, set_near_branch_target}
use f_arm.Instruction.Flow.Laws.{near_branch_target-set_near_branch_target}
use f_arm.Mnemonic.{Code, Mnemonic}
use f_arm.Operand.{Operand}
use f_arm.RoundTrip.Branch.Accepts.{FieldWidth, rel_imm_lem}
use f_arm.RoundTrip.Branch.Authenticated.{enc-decode_auti_sppc}
use f_arm.RoundTrip.Branch.Compare.{enc-decode_cmpbr}
use f_arm.RoundTrip.Branch.Exception.{enc-decode_exception}
use f_arm.RoundTrip.Branch.Group.{encode-decode_branch_sys}
use f_arm.RoundTrip.Branch.Conditional.{decode-enc_cond_branch}
use f_arm.RoundTrip.Branch.Edited.{decode-enc_uncond_branch_imm}
use f_arm.RoundTrip.Branch.Retarget.{enc-set_near_branch_target}
use f_arm.RoundTrip.Branch.Register.{enc-decode_uncond_branch_reg}
use f_arm.Tests.Witnesses.{blank, no_system}

-- cbnz w20, backwards
encode-decode_branch_sys_example :
    (decode no_system 0x358f_d614 0x1000 all_features blank ≡ blank)
    ⊎ (encode (decode no_system 0x358f_d614 0x1000 all_features blank) ≡ ok 0x358f_d614)
encode-decode_branch_sys_example =
    encode-decode_branch_sys no_system 0x358f_d614 0x1000 all_features blank (omega arith)
      (omega arith) refl (omega arith)

-- cbne x5
enc-decode_cmpbr_example :
    (decode_cmpbr 0xf4e9_39c5 0x1000 all_features blank ≡ blank)
    ⊎ (enc_cmpbr (decode_cmpbr 0xf4e9_39c5 0x1000 all_features blank) ≡ ok 0xf4e9_39c5)
enc-decode_cmpbr_example =
    enc-decode_cmpbr 0xf4e9_39c5 0x1000 all_features blank (omega arith) refl (omega arith) refl

-- braa x8, x28
enc-decode_uncond_branch_reg_example :
    (decode_uncond_branch_reg 0xd71f_091c all_features blank ≡ blank)
    ⊎ (enc_branch_reg (decode_uncond_branch_reg 0xd71f_091c all_features blank) ≡ ok 0xd71f_091c)
enc-decode_uncond_branch_reg_example =
    enc-decode_uncond_branch_reg 0xd71f_091c all_features blank (omega arith) refl

-- dcps1
enc-decode_exception_example :
    (decode_exception 0xd4a9_e481 all_features blank ≡ blank)
    ⊎ (enc_exception (decode_exception 0xd4a9_e481 all_features blank) ≡ ok 0xd4a9_e481)
enc-decode_exception_example =
    enc-decode_exception 0xd4a9_e481 all_features blank (omega arith) refl

-- autiasppc
enc-decode_auti_sppc_example :
    enc_pauth_lr_sppc (decode_auti_sppc 0xf398_3e9f blank) ≡ ok 0xf398_3e9f
enc-decode_auti_sppc_example =
    enc-decode_auti_sppc 0xf398_3e9f blank (omega arith) refl (omega arith)

-- The target of `bl` above.
rel_imm_lem_example :
    (rel_imm 0x29a_3c84 0x1000 26 2 ≡ ok 0xa6_8b21)
    ↔ ((0xa6_8b21 < 2 ^ 26) × (branch_target 0x1000 0xa6_8b21 (26 + 2) ≡ 0x29a_3c84))
rel_imm_lem_example =
    rel_imm_lem FieldWidth.branch 0x29a_3c84 0x1000 0xa6_8b21 (omega arith) (omega arith)

-- `bl 0x29a3c84`, and `b.ne` to the same place.
abbrev far_call : Instruction
far_call = record {
  word = 0;
  ip = 0x1000;
  code = Code.bl_imm;
  mnemonic = Mnemonic.bl;
  op_count = 1;
  flags = 1;
  operands =
      Operand.label 0x29a_3c84 ∷ Operand.none ∷ Operand.none ∷ Operand.none ∷ Operand.none ∷ [];
}

abbrev short_jump : Instruction
short_jump = record {
  word = 0;
  ip = 0x1000;
  code = Code.bcond;
  mnemonic = Mnemonic.b;
  op_count = 2;
  flags = 1;
  operands =
      Operand.cond Condition.ne
      ∷ Operand.label 0xffc
      ∷ Operand.none
      ∷ Operand.none
      ∷ Operand.none
      ∷ [];
}

decode-enc_uncond_branch_imm_example :
    (0x94a6_8b21 < 2 ^ 32)
    × (0x94a6_8b21 / 2 ^ 26 % 32 ≡ 0b00101)
    × ((decode_uncond_branch_imm 0x94a6_8b21 0x1000 (new_invalid 0x94a6_8b21 0x1000)).code
        ≡ Code.bl_imm)
    × (near_branch_target
          (decode_uncond_branch_imm 0x94a6_8b21 0x1000 (new_invalid 0x94a6_8b21 0x1000))
        ≡ 0x29a_3c84)
unfolding op enc_uncond_branch_imm rel_imm overflows label links
decode-enc_uncond_branch_imm_example =
    decode-enc_uncond_branch_imm far_call 0x94a6_8b21 0x29a_3c84 (inr refl) refl (omega arith)
      (omega arith) refl

decode-enc_cond_branch_example :
    (0x54ff_ffe1 < 2 ^ 32)
    × (0x54ff_ffe1 / 2 ^ 24 % 256 ≡ 0b0101_0100)
    × ((decode_cond_branch 0x54ff_ffe1 all_features (new_invalid 0x54ff_ffe1 0x1000)).code
        ≡ Code.bcond)
    × (op (decode_cond_branch 0x54ff_ffe1 all_features (new_invalid 0x54ff_ffe1 0x1000)) 0
        ≡ Operand.cond Condition.ne)
    × (near_branch_target
          (decode_cond_branch 0x54ff_ffe1 all_features (new_invalid 0x54ff_ffe1 0x1000))
        ≡ 0xffc)
unfolding op enc_cond_branch cond_operand rel_imm overflows label hinted as_u4 has
decode-enc_cond_branch_example =
    decode-enc_cond_branch short_jump 0x54ff_ffe1 0xffc Condition.ne all_features (inl refl) refl
      refl (omega arith) (omega arith) refl refl

enc-set_near_branch_target_example :
    ((set_near_branch_target
        (decode_uncond_branch_imm 0x94a6_8b21 0x1000 (new_invalid 0x94a6_8b21 0x1000))
        (branch_target 0x1000 0x3ff_ffff 28)).0
      ≡ true)
    × (enc_uncond_branch_imm (
          (set_near_branch_target
            (decode_uncond_branch_imm 0x94a6_8b21 0x1000 (new_invalid 0x94a6_8b21 0x1000))
            (branch_target 0x1000 0x3ff_ffff 28)).1)
        ≡ ok (0x94a6_8b21 / 2 ^ 26 * 2 ^ 26 + 0x3ff_ffff))
enc-set_near_branch_target_example =
    enc-set_near_branch_target 0x94a6_8b21 0x1000 0x3ff_ffff (omega arith) refl (omega arith)
      (omega arith)

near_branch_target-set_near_branch_target_example :
    (((set_near_branch_target far_call 0x2000).0 ≡ false)
      × ((set_near_branch_target far_call 0x2000).1 ≡ far_call)
      × (near_branch_target far_call ≡ 0))
    ⊎ (((set_near_branch_target far_call 0x2000).0 ≡ true)
        × (near_branch_target ((set_near_branch_target far_call 0x2000).1) ≡ 0x2000))
near_branch_target-set_near_branch_target_example =
    near_branch_target-set_near_branch_target far_call 0x2000
