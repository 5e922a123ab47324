-- ===== src/Buffering.antt =====
-- coproto/Socket/BufferingSocket.h: the byte buffer and the socket over two of them. A handle is a
-- number, a `span` that receives is a count of bytes, and `none` is a failed assertion.
pub mod Bytes
pub mod Stream
pub mod Awaiter
pub mod Moved
use coproto.Prelude.{
  ℕ, zero, suc, ◌+◌, ◌-◌, ◌%◌, min, Bool, true, false, Option, none, some, List, [], ◌∷◌, ◌++◌,
  ◌==◌, leb, if◌then◌else◌, ◌>>=◌, length, take, drop, replicate, flatten, ◌&&◌, ◌||◌,
}
use coproto.Prelude.Word.{u64_mod}
use coproto.ErrorCode.{ErrorCode, Code, code, fails, no_error}

pub record Buffer : Type 0 where
  pub front : ℕ
  pub size : ℕ
  pub chunks : List (List ℕ)

abbrev pub empty_buffer : Buffer
empty_buffer = record { front = 0; size = 0; chunks = [] }

-- `size()`: its assertion compares the count with the chunks.
unfoldable pub checked : Buffer → Option Buffer
checked b =
    if (length (flatten b.chunks) + u64_mod - b.front) % u64_mod == b.size then some b else none

-- The loop of `pop(span)`, chunk by chunk. `front` is at most the length of the first chunk. A chunk
-- that is not used up ends the loop, since it held all that was still asked for.
unfoldable pub pop_loop : List (List ℕ) → ℕ → ℕ → ℕ → Option (List ℕ × Buffer)
pop_loop [] front size n =
    if n == 0 then some ([], record { front = front; size = size; chunks = [] }) else none
pop_loop (c ∷ cs) front size n =
    let m = min n (length c - front) in
    let rest = pop_loop cs 0 (size - m) (n - m) in
    let taken = take m (drop front c) in
    if n == 0
    then some ([], record { front = front; size = size; chunks = c ∷ cs })
    else (if front + m == length c
        then (rest >>= λ (bytes, b). some (taken ++ bytes, b))
        else some (taken, record { front = front + m; size = size - m; chunks = c ∷ cs }))

-- `pop(span)`
unfoldable pub pop : ℕ → Buffer → Option (List ℕ × Buffer)
pop n b =
    if leb n b.size
    then (pop_loop b.chunks b.front b.size n >>= λ (bytes, b').
        checked b' >>= λ b''. some (bytes, b''))
    else none

-- `push(span)`
unfoldable pub push : List ℕ → Buffer → Option Buffer
push bytes b =
    checked
      (record b { chunks = b.chunks ++ (bytes ∷ []); size = (b.size + length bytes) % u64_mod })

-- `push(Buffer&&)`: the chunks of another buffer, none of whose bytes may be gone, and that buffer.
unfoldable pub push_buffer : Buffer → Buffer → Option (Buffer × Buffer)
push_buffer other b = checked other >>= λ d.
    if (length d.chunks == 0) || (d.front == 0)
    then (checked (record b { chunks = b.chunks ++ d.chunks; size = (b.size + d.size) % u64_mod })
        >>= λ b'. some (b', record d { size = 0; chunks = [] }))
    else none

-- `pop()`: everything at once, which must start at the first byte of the first chunk.
unfoldable pub pop_all : Buffer → Option (List ℕ × Buffer)
pop_all b = checked b >>= λ b'.
    let none_left = length b'.chunks == 0 in
    if none_left || (b'.front == 0)
    then (checked (record b' { size = 0; chunks = [] }) >>= λ e.
        some (if none_left then replicate b'.size 0 else flatten b'.chunks, e))
    else none

-- The awaiter of a receive that waits: its handle and how many bytes it wants.
pub record Waiting : Type 0 where
  pub handle : ℕ
  pub count : ℕ

pub record Sock : Type 0 where
  pub ec : ErrorCode
  pub inbound : Option Waiting
  pub outbound_buffer : Buffer
  pub inbound_buffer : Buffer

abbrev pub empty_sock : Sock
empty_sock = record {
  ec = no_error;
  inbound = none;
  outbound_buffer = empty_buffer;
  inbound_buffer = empty_buffer;
}

-- An operation that has completed: its handle, its error and the bytes it received.
pub record Done : Type 0 where
  pub handle : ℕ
  pub err : ErrorCode
  pub bytes : List ℕ

abbrev deliver : ℕ → ℕ → Sock → Option (Option Done × Sock)
deliver h n s = pop n s.inbound_buffer >>= λ (bytes, b). some (
  some (record { handle = h; err = no_error; bytes = bytes }),
  record s { inbound = none; inbound_buffer = b },
)

-- `processInbound`
unfoldable pub process_inbound : List ℕ → Sock → Option (Option Done × Sock)
process_inbound bytes s = push bytes s.inbound_buffer >>= λ b.
    let s' = record s { inbound_buffer = b } in
    elim s.inbound [
      | none ↦ some (none, s')
      | some w ↦ if leb w.count b.size then deliver w.handle w.count s' else some (none, s')
    ]

-- `await_suspend` of a send, for an awaiter that is not cancelled.
unfoldable pub send : ℕ → List ℕ → Sock → Option (Option Done × Sock)
send h bytes s = push bytes s.outbound_buffer >>= λ b.
    some
      (some (record { handle = h; err = no_error; bytes = [] }), record s { outbound_buffer = b })

-- `await_suspend` of a receive, for an awaiter that is not cancelled.
unfoldable pub recv : ℕ → ℕ → Sock → Option (Option Done × Sock)
recv h n s = checked s.inbound_buffer >>= λ b.
    if leb n b.size
    then (pop n b >>= λ (bytes, b'). some (
      some (record { handle = h; err = no_error; bytes = bytes }),
      record s { inbound_buffer = b' },
    ))
    else some (none, record s { inbound = some (record { handle = h; count = n }) })

-- The receive that waits, failed.
abbrev fail_waiting : ErrorCode → Sock → Option Done × Sock
fail_waiting e s = elim s.inbound [
  | none ↦ (none, s)
  | some w ↦ (some (record { handle = w.handle; err = e; bytes = [] }), record s { inbound = none })
]

-- `setError`, whose error is asserted to be one.
unfoldable pub set_error : ErrorCode → Sock → Option (Option Done × Sock)
set_error e s =
    if fails e
    then some (if fails s.ec then (none, s) else fail_waiting e (record s { ec = e }))
    else none

-- `close`
unfoldable pub close : Sock → Option Done × Sock
close s =
    fail_waiting (code Code.operation_aborted)
      (record s { ec = if fails s.ec then s.ec else code Code.closed })

-- `getOutbound`: nothing once the buffer is empty and the socket has failed.
unfoldable pub get_outbound : Sock → Option (Option (List ℕ) × Sock)
get_outbound s = pop_all s.outbound_buffer >>= λ (bytes, b).
    let s' = record s { outbound_buffer = b } in
    some (if (length bytes == 0) && fails s.ec then none else some bytes, s')
