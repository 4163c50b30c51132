-- ===== src/Prelude/Codes.antt =====
-- error_code, by the values that the source compares with; `other` is any further nonzero code.
use Prim.Native.Nat.{ℕ}
use mathlib.Core.Bool.{Bool, true, false}

pub data ErrorCode : Type 0 where
  success operation_aborted connection_aborted closed fault : ErrorCode
  other : ℕ → ErrorCode

-- the conversion of error_code to bool
abbrev pub is_error : ErrorCode → Bool
is_error success = false
is_error operation_aborted = true
is_error connection_aborted = true
is_error closed = true
is_error fault = true
is_error (other n) = true

abbrev pub is_operation_aborted : ErrorCode → Bool
is_operation_aborted operation_aborted = true
is_operation_aborted _ = false

abbrev pub is_connection_aborted : ErrorCode → Bool
is_connection_aborted connection_aborted = true
is_connection_aborted _ = false

abbrev pub is_closed : ErrorCode → Bool
is_closed closed = true
is_closed _ = false
