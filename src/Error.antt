-- ===== src/Error.antt =====
-- src/error.rs: why a decode yielded no instruction, and its status code.
use f_arm.Base.{ℤ, pos, negsuc, Bool, true, false}
use f_arm.Features.{Feature}

pub data DecodeError : Type 0 where
  none : DecodeError
  reserved : DecodeError
  unmatched : DecodeError
  unallocated : DecodeError
  undefined : DecodeError
  end_of_instruction : DecodeError
  lost : DecodeError
  unreachable : DecodeError
  assert_failed : DecodeError
  error_operands : DecodeError
  feature_required : Feature → DecodeError

unfoldable pub status : DecodeError → ℤ
status DecodeError.none = pos 0
status DecodeError.reserved = negsuc 0
status DecodeError.unmatched = negsuc 1
status DecodeError.unallocated = negsuc 2
status DecodeError.undefined = negsuc 3
status DecodeError.end_of_instruction = negsuc 4
status DecodeError.lost = negsuc 5
status DecodeError.unreachable = negsuc 6
status DecodeError.assert_failed = negsuc 7
status DecodeError.error_operands = negsuc 8
status (DecodeError.feature_required f) = negsuc 3

unfoldable pub is_ok : DecodeError → Bool
is_ok DecodeError.none = true
is_ok _ = false
