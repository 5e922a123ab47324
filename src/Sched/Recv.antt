-- ===== src/Sched/Recv.antt =====
-- SocketScheduler.cpp, `recv`; SocketScheduler.h, `AnyRecvOp`, `GetRequestedRecvSocketFork` and
-- `receiveDataTask`.
use coproto.Prelude.{
  ℕ, ◌+◌, ◌-◌, ◌%◌, Bool, true, false, ◌||◌, ◌&&◌, not, Option, none, some, List, [], ◌∷◌, ◌++◌,
  ◌==◌, if◌then◌else◌, ◌>>=◌, length, get_elem?,
}
use coproto.Prelude.Word.{u64_mod}
use coproto.ErrorCode.{ErrorCode, Code, code, fails, no_error}
use coproto.SessionId.{SessionId}
use coproto.Buffers.{RecvBuffer, as_span}
use coproto.Wire.{read_header, get_session_id, header_size, control_size}
use coproto.Sched.State.{
  OpStatus, Status, Caller, RecvOp, SocketFork, found, failed, RecvTask, waiting_any, woken_any,
  reading_header, reading_meta, waiting_fork, woken_fork, reading_body, recv_exited, Sched,
  set_fork, push_ready,
}
use coproto.Sched.Table.{find_remote, get_local, init_remote}
use coproto.Sched.Cancel.{cancel_code, recv_ready, fail_recv, cancel}

abbrev pub is_idle : Status → Bool
is_idle Status.idle = true
is_idle _ = false

abbrev pub is_requested : Status → Bool
is_requested Status.requested_recv_op = true
is_requested _ = false

-- The completion of a socket operation: the error and the bytes that it moved.
pub record Transfer : Type 0 where
  pub err : ErrorCode
  pub bytes : List ℕ

-- `checkRecv` and `checkSend`: the error, or `ioError` for a short transfer.
abbrev pub check : Transfer → ℕ → ErrorCode
check t size =
    if not (fails t.err) && not (length t.bytes == size) then code Code.io_error else t.err

abbrev pub in_progress : RecvOp → RecvOp
in_progress op = record op { status = OpStatus.in_progress }

abbrev append_op : Sched → ℕ → SocketFork → RecvOp → Sched
append_op s i f op = record (set_fork s i (record f { recv_ops = f.recv_ops ++ (op ∷ []) })) {
  num_recvs = s.num_recvs + 1;
}

-- `recv`, where a task that waits is resumed. The task that wanted this fork gets the operation,
-- which must be the fork's only one.
unfoldable pub start_recv : Sched → ℕ → SocketFork → RecvOp → RecvTask → Option Sched
start_recv s i f op waiting_any =
    if is_idle s.recv_status
    then some (record (append_op s i f (in_progress op)) {
      recv_status = Status.in_use;
      recv_task = woken_any no_error;
    })
    else none
start_recv s i f op (waiting_fork size slot) =
    if f.remote_id == slot
    then (if is_requested s.recv_status && (length f.recv_ops == 0)
        then some (record (append_op s i f (in_progress op)) {
          recv_status = Status.in_use;
          recv_task = woken_fork size (found i);
        })
        else none)
    else some (append_op s i f op)
start_recv s i f op _ = some (append_op s i f op)

unfoldable pub recv : SessionId → RecvBuffer → ℕ → Sched → Option Sched
unfolding start_recv get_local
recv id buffer cb s = get_local id s >>= λ i. get_elem? s.forks i >>= λ f.
    let op : RecvOp = record { callback = cb; buffer = buffer; status = OpStatus.not_started } in
    if fails s.ec
    then some (push_ready s (recv_ready f.executor (fail_recv op s.ec)))
    else start_recv s i f op s.recv_task

-- The first operation of fork `i`, and the operations behind it.
unfoldable pub front_op : Sched → ℕ → Option (SocketFork × RecvOp × List RecvOp)
front_op s i =
    get_elem? s.forks i >>= λ f. elim f.recv_ops [ [] ↦ none | op ∷ rest ↦ some (f, op, rest) ]

-- `AnyRecvOp::completePrev` for the front operation of fork `i`.
unfoldable pub complete_prev : ℕ → ErrorCode → Sched → Option Sched
unfolding front_op
complete_prev i prev_ec s = front_op s i >>= λ (f, op, rest).
    if s.num_recvs == 0
    then none
    else (let op' = if fails prev_ec then fail_recv op prev_ec else op in
        some
          (record (push_ready (set_fork s i (record f { recv_ops = rest }))
            (recv_ready f.executor op')) { num_recvs = s.num_recvs - 1 }))

-- The rest of `AnyRecvOp::await_suspend`.
unfoldable pub wait_any : ErrorCode → Sched → Option Sched
unfolding cancel
wait_any prev_ec s =
    if fails prev_ec || fails s.ec
    then cancel Caller.recver prev_ec (record s { recv_task = woken_any cancel_code })
    else (if s.num_recvs == 0
        then some (record s { recv_status = Status.idle; recv_task = waiting_any })
        else some (record s { recv_task = woken_any no_error }))

-- `completeOpAndWaitForAnyRecv(op, ec)`
unfoldable pub suspend_any : Option ℕ → ErrorCode → Sched → Option Sched
unfolding complete_prev wait_any
suspend_any none prev_ec s = wait_any prev_ec s
suspend_any (some i) prev_ec s =
    complete_prev i prev_ec s >>= wait_any (if fails prev_ec then cancel_code else prev_ec)

-- Sets the status of the front operation of fork `i`.
unfoldable pub start_front : ℕ → Sched → Option Sched
unfolding front_op
start_front i s = front_op s i >>= λ (f, op, rest).
    some (set_fork s i (record f { recv_ops = in_progress op ∷ rest }))

-- `GetRequestedRecvSocketFork::await_suspend`
unfoldable pub get_requested : ℕ → ℕ → Sched → Option Sched
unfolding find_remote start_front cancel
get_requested size slot s = elim (find_remote slot s.remote_map) [
  | none ↦ cancel Caller.recver (code Code.bad_coproto_message_header) s >>= λ s'.
      some (record s' { recv_task = woken_fork size (failed s'.ec) })
  | some i ↦
      if fails s.ec
      then some (record s { recv_task = woken_fork size (failed s.ec) })
      else (get_elem? s.forks i >>= λ f.
          if length f.recv_ops == 0
          then some (record s {
            recv_status = Status.requested_recv_op;
            recv_task = waiting_fork size slot;
          })
          else (start_front i s >>= λ s'.
              some (record s' { recv_task = woken_fork size (found i) })))
]

-- The header and the meta message as `receiveDataTask` takes them.
unfoldable pub took_header : List ℕ → Sched → Option Sched
unfolding get_requested
took_header bs s =
    let h = read_header bs in
    if h.size == 0
    then some (record s { recv_task = reading_meta h.fork_id })
    else get_requested h.size h.fork_id s

unfoldable pub took_meta : ℕ → List ℕ → Sched → Option Sched
unfolding init_remote suspend_any
took_meta slot bs s = init_remote slot (get_session_id bs) s >>= λ (e, s').
    if fails e then suspend_any none e s' else some (record s' { recv_task = reading_header })

-- The body goes into the buffer of the front operation.
unfoldable pub took_body : ℕ → List ℕ → Sched → Option Sched
unfolding front_op
took_body i bs s = front_op s i >>= λ (f, op, rest).
    let filled = record op { buffer = record (op.buffer) { bytes = bs } } in
    some (set_fork s i (record f { recv_ops = filled ∷ rest }))

-- The task asks the operation's buffer for the room, once it has the operation.
unfoldable pub got_op : ℕ → ℕ → Sched → Option Sched
unfolding front_op suspend_any as_span
got_op size i s = front_op s i >>= λ (f, op, rest).
    let (b, n) = as_span op.buffer size in
    let s' = set_fork s i (record f { recv_ops = record op { buffer = b } ∷ rest }) in
    if n == size
    then some (record s' { recv_task = reading_body size i })
    else suspend_any (some i) (code Code.bad_buffer_size) s'

-- `receiveDataTask` from a resumption to its next suspension.
unfoldable pub resume_recv : Sched → Option Sched
unfolding got_op suspend_any
resume_recv s = elim s.recv_task [
  | woken_any e ↦ some (record s { recv_task = if fails e then recv_exited else reading_header })
  | woken_fork size (failed e) ↦ suspend_any none e s
  | woken_fork size (found i) ↦ got_op size i s
  | _ ↦ some s
]

abbrev pub count_received : Sched → Transfer → Sched
count_received s t = record s { bytes_received = (s.bytes_received + length t.bytes) % u64_mod }

-- The socket completes the read that the task awaits. A transfer that fails the check goes back to
-- the top of the loop with the socket's own error; for the body that is also where a full transfer
-- goes.
unfoldable pub recv_done : Transfer → Sched → Option Sched
unfolding took_header took_meta took_body suspend_any
recv_done t s = elim s.recv_task [
  | reading_header ↦
      if fails (check t header_size)
      then suspend_any none t.err (count_received s t)
      else took_header t.bytes (count_received s t)
  | reading_meta slot ↦
      if fails (check t control_size)
      then suspend_any none t.err (count_received s t)
      else took_meta slot t.bytes (count_received s t)
  | reading_body size i ↦
      took_body i t.bytes (count_received s t) >>= λ s'. suspend_any (some i) t.err s'
  | _ ↦ some s
]
