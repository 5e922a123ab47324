-- ===== src/Buffers.antt =====
-- coproto/Proto/Operation.h: the receive buffer of an operation, `RefRecvBuffer` over a container of
-- `count` elements of `elem_size` bytes, and the error that it hands to its awaiter.
use coproto.Prelude.{ℕ, ◌*◌, ◌/◌, ◌%◌, Bool, false, ◌&&◌, Option, some, List, ◌==◌, if◌then◌else◌}
use coproto.ErrorCode.{ErrorCode}

pub data BufferError : Type 0 where
  error : ErrorCode → BufferError
  bad_size : ℕ → ℕ → BufferError

-- `armed` is `mExPtr != nullptr`, and `exception` what it points to.
pub record RecvBuffer : Type 0 where
  pub elem_size : ℕ
  pub count : ℕ
  pub allow_resize : Bool
  pub armed : Bool
  pub exception : Option BufferError
  pub bytes : List ℕ

-- `RecvBuffer::setError`
unfoldable pub set_error : RecvBuffer → ErrorCode → RecvBuffer
set_error b e = if b.armed then record b { exception = some (error e) } else b

-- `tryResize`: a size that is no multiple of the element's leaves the container alone.
unfoldable pub try_resize : RecvBuffer → ℕ → RecvBuffer
try_resize b size =
    if b.allow_resize && (size % b.elem_size == 0)
    then record b { count = size / b.elem_size }
    else b

-- `RefRecvBuffer::asSpan`: the buffer, and the size of the span in bytes.
unfoldable pub as_span : RecvBuffer → ℕ → RecvBuffer × ℕ
unfolding try_resize
as_span b size =
    let r = try_resize b size in
    let n = r.count * r.elem_size in
    (if n == size then r else record r { exception = some (bad_size n size); armed = false }, n)
