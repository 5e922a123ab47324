-- ===== src/ErrorCode.antt =====
-- coproto/Common/error_code.h: the library's error codes beside those of other categories, and their
-- integers.
use coproto.Prelude.{ℕ, Bool, true, false, not, ◌==◌}

pub data Code : Type 0 where
  success suspend cancel closed remote_closed operation_aborted io_error bad_buffer_size : Code
  send_length_zero_msg no_async_support uncaught_exception invalid_arguments end_of_round : Code
  uninitialized bad_coproto_message_header debug_error : Code

-- The value of an enumerator.
pub to_int : Code → ℕ
to_int Code.success = 0
to_int Code.suspend = 1
to_int Code.cancel = 2
to_int Code.closed = 3
to_int Code.remote_closed = 4
to_int Code.operation_aborted = 5
to_int Code.io_error = 6
to_int Code.bad_buffer_size = 7
to_int Code.send_length_zero_msg = 8
to_int Code.no_async_support = 9
to_int Code.uncaught_exception = 10
to_int Code.invalid_arguments = 11
to_int Code.end_of_round = 12
to_int Code.uninitialized = 13
to_int Code.bad_coproto_message_header = 14
to_int Code.debug_error = 15

-- `std::error_code`: a code of the library, or a value of another category.
pub data ErrorCode : Type 0 where
  code : Code → ErrorCode
  foreign : ℕ → ErrorCode

-- `if (ec)`: the value is not zero.
abbrev pub fails : ErrorCode → Bool
fails (code Code.success) = false
fails (code _) = true
fails (foreign n) = not (n == 0)

abbrev pub no_error : ErrorCode
no_error = code Code.success
