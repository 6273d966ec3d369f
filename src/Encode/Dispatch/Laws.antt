-- ===== src/Encode/Dispatch/Laws.antt =====
-- src/encode/mod.rs: the codes that a group encoder accepts are the ones that reach it, and the
-- commit of an edited instruction.
use f_arm.Base.{ℕ, ◌≡◌, ◌⊎◌, inl, inr, ◌∙◌, arith, false, refl, ◌^◌, ◌<◌, List, ◌++◌, some, ap}
use f_arm.Decoder.{window}
use f_arm.Encode.BranchSys
use f_arm.Encode.DpImm
use f_arm.Encode.DpReg
use f_arm.Encode.Dispatch.{GroupEncoders, encode, re_encode, to_le_bytes}
use f_arm.Encode.Error.{EncodeError, Result, ok, err}
use f_arm.Encode.Groups.{is_dp_imm, is_dp_reg, is_branch_sys}
use f_arm.Instruction.{Instruction}
use f_arm.Instruction.Edit.{is_modified, clear_modified}
use f_arm.Instruction.Edit.Laws.{is_modified-clear_modified}

module _ (groups : GroupEncoders) (insn : Instruction) where
  -- The immediate encoder succeeds only on codes of its group, so the dispatch reaches it.
  pub encode-dp_imm :
      (word : ℕ) → f_arm.Encode.DpImm.encode insn ≡ ok word → encode groups insn ≡ ok word
  unfolding encode is_dp_imm f_arm.Encode.DpImm.encode
  encode-dp_imm word e = ground arith

  pub encode-dp_reg :
      (word : ℕ) → f_arm.Encode.DpReg.encode insn ≡ ok word → encode groups insn ≡ ok word
  unfolding encode is_dp_imm is_dp_reg f_arm.Encode.DpReg.encode
  encode-dp_reg word e = ground arith

  pub encode-branch_sys :
      (word : ℕ) → f_arm.Encode.BranchSys.encode insn ≡ ok word → encode groups insn ≡ ok word
  unfolding encode is_dp_imm is_dp_reg is_branch_sys f_arm.Encode.BranchSys.encode
  encode-branch_sys word e = ground arith

  -- A commit that succeeds stores the word and clears the mark.
  re_encode-ok :
      (word : ℕ)
      → encode groups insn ≡ ok word
      → re_encode groups insn ≡ (ok word, clear_modified (record insn { word = word }))
  unfolding re_encode
  re_encode-ok word e = ground arith

  re_encode-err :
      (failure : EncodeError)
      → encode groups insn ≡ err failure
      → re_encode groups insn ≡ (err failure, insn)
  unfolding re_encode
  re_encode-err failure e = ground arith

clear_modified-word : (insn : Instruction) → (clear_modified insn).word ≡ insn.word
unfolding clear_modified
clear_modified-word insn = refl

clear_modified-else :
    (insn : Instruction) (word : ℕ)
    → record (clear_modified (record insn { word = word })) { word = insn.word; flags = insn.flags }
      ≡ insn
unfolding clear_modified
clear_modified-else insn word = refl

-- Where the encoding of an instruction fails, a commit gives the error and changes nothing. Where
-- it gives a word, a commit gives the word and stores it, clears the mark of a modification, and
-- changes nothing but the word and the flags.
pub re_encode_commits :
    (groups : GroupEncoders) (insn : Instruction)
    → let result = re_encode groups insn in
      ((failure : EncodeError) × (encode groups insn ≡ err failure)
        × (result.0 ≡ err failure)
        × (result.1 ≡ insn))
      ⊎ ((word : ℕ) × (encode groups insn ≡ ok word)
          × (result.0 ≡ ok word)
          × ((result.1).word ≡ word)
          × (is_modified (result.1) ≡ false)
          × (record (result.1) { word = insn.word; flags = insn.flags } ≡ insn))
re_encode_commits groups insn = of_encoding (encode groups insn) refl
  where
    of_encoding :
        (r : Result ℕ)
        → encode groups insn ≡ r
        → let result = re_encode groups insn in
          ((failure : EncodeError) × (encode groups insn ≡ err failure)
            × (result.0 ≡ err failure)
            × (result.1 ≡ insn))
          ⊎ ((word : ℕ) × (encode groups insn ≡ ok word)
              × (result.0 ≡ ok word)
              × ((result.1).word ≡ word)
              × (is_modified (result.1) ≡ false)
              × (record (result.1) { word = insn.word; flags = insn.flags } ≡ insn))
    of_encoding (err failure) e =
        let done = re_encode-err groups insn failure e in
        inl (failure, e, ap (λ r. r.0) done, ap (λ r. r.1) done)
    of_encoding (ok word) e =
        let done = re_encode-ok groups insn word e in
        let stored = record insn { word = word } in
        inr (
          word,
          e,
          ap (λ r. r.0) done,
          ap (λ r. (r.1).word) done ∙ clear_modified-word stored,
          ap (λ r. is_modified (r.1)) done ∙ is_modified-clear_modified stored,
          ap (λ (r : Result ℕ × Instruction). record (r.1) { word = insn.word; flags = insn.flags })
                done
              ∙ clear_modified-else insn word,
        )

-- The bytes of an encoding are the ones that a decoder reads the word from, whatever follows.
pub window-to_le_bytes :
    (word : ℕ) (rest : List ℕ) → word < 2 ^ 32 → window (to_le_bytes word ++ rest) ≡ some word
unfolding window to_le_bytes
window-to_le_bytes word rest h = ap some (omega arith)
