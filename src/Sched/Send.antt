-- ===== src/Sched/Send.antt =====
-- SocketScheduler.h, `send`, `NextSendOp` and `makeSendTask`. The first of the send list is
-- `mSendBufferBegin`, and the last `mSendBufferLast`; the queue of a fork's own send operations holds
-- the same operations in the same order.
use coproto.Prelude.{
  ℕ, ◌+◌, ◌-◌, ◌%◌, Bool, true, false, ◌||◌, ◌&&◌, not, Option, none, some, List, [], ◌∷◌, ◌++◌,
  ◌==◌, ltb, if◌then◌else◌, ◌>>=◌, length, get_elem?,
}
use coproto.Prelude.Word.{u32_mod, u64_mod}
use coproto.ErrorCode.{ErrorCode, Code, code, fails}
use coproto.SessionId.{SessionId}
use coproto.Wire.{header_bytes, meta_bytes, header_size, control_size}
use coproto.Sched.State.{
  OpStatus, Status, Caller, SendOp, SocketFork, sent, SendTask, waiting_next, woken_next,
  sending_meta, sending_header, sending_body, send_exited, Sched, set_fork, push_ready, no_id,
}
use coproto.Sched.Table.{get_local}
use coproto.Sched.Cancel.{cancel_code, send_ready, fail_send, cancel}
use coproto.Sched.Recv.{Transfer, check}

abbrev is_idle : Status → Bool
is_idle Status.idle = true
is_idle _ = false

abbrev pub is_not_started : OpStatus → Bool
is_not_started OpStatus.not_started = true
is_not_started _ = false

abbrev pub start_op : SendOp → SendOp
start_op op = record op { status = OpStatus.in_progress }

-- `send` once the operation is made: the waiting task is resumed with it, or it is linked behind
-- the last one, where that one has not been erased. Both branches assert what the list holds.
unfoldable pub enqueue_send : SendOp → Sched → SendTask → Option Sched
enqueue_send op s waiting_next = elim s.sends [
  | [] ↦
      if is_idle s.send_status
      then some (record s {
        send_status = Status.in_use;
        send_task = woken_next true;
        sends = start_op op ∷ [];
        last_erased = false;
      })
      else none
  | _ ∷ _ ↦ none
]
enqueue_send op s _ = elim s.sends [
  | [] ↦ none
  | first ∷ rest ↦
      if s.last_erased then none else some (record s { sends = first ∷ (rest ++ (op ∷ [])) })
]

-- A zero length message fails before the scheduler is looked at; its callback is returned at once.
unfoldable pub send : SessionId → List ℕ → ℕ → Sched → Option Sched
unfolding get_local enqueue_send
send id bytes cb s =
    if length bytes == 0
    then some (
        push_ready s (record {
          callback = cb;
          executor = none;
          outcome = sent (some (code Code.send_length_zero_msg));
        }))
    else (get_local id s >>= λ i.
        let op : SendOp = record {
          callback = cb;
          bytes = bytes;
          fork = i;
          status = OpStatus.not_started;
          err = none;
        } in
        if fails s.ec
        then some (push_ready s (send_ready s (fail_send op s.ec)))
        else enqueue_send op s s.send_task)

-- `NextSendOp::completePrev` for the first operation of the list.
unfoldable pub complete_send : ErrorCode → Sched → Option Sched
complete_send prev_ec s = elim s.sends [
  | [] ↦ none
  | op ∷ rest ↦
      let op' = if fails prev_ec then fail_send op prev_ec else op in
      some (record (push_ready s (send_ready s op')) {
        sends = rest;
        last_erased = if length rest == 0 then false else s.last_erased;
      })
]

-- Starts the first operation of the list, if there is one.
unfoldable pub start_next : Sched → Option Sched
start_next s = elim s.sends [
  | [] ↦ some (record s { send_status = Status.idle; send_task = waiting_next })
  | op ∷ rest ↦
      if is_not_started op.status
      then some (record s { sends = start_op op ∷ rest; send_task = woken_next true })
      else none
]

-- The rest of `NextSendOp::await_suspend`.
unfoldable pub wait_next : ErrorCode → Sched → Option Sched
unfolding start_next cancel
wait_next prev_ec s =
    if fails prev_ec || fails s.ec
    then (cancel Caller.sender prev_ec s >>= λ s'.
        some (record s' { send_task = woken_next false }))
    else start_next s

-- `completeOpAndGetNextSend(op, ec)`
unfoldable pub suspend_next : Bool → ErrorCode → Sched → Option Sched
unfolding complete_send wait_next
suspend_next false prev_ec s = wait_next prev_ec s
suspend_next true prev_ec s =
    complete_send prev_ec s >>= wait_next (if fails prev_ec then cancel_code else prev_ec)

-- The first operation and its fork, with the assertions of `makeSendTask` on them.
unfoldable pub current_send : Sched → Option (SendOp × SocketFork)
current_send s = elim s.sends [
  | [] ↦ none
  | op ∷ rest ↦ get_elem? s.forks op.fork >>= λ f.
      if not (is_not_started op.status)
        && not (length op.bytes == 0)
        && ltb (length op.bytes) (u32_mod - 1)
        && not (f.local_id == no_id)
      then some (op, f)
      else none
]

-- `makeSendTask` from a resumption to its next suspension.
unfoldable pub resume_send : Sched → Option Sched
unfolding current_send
resume_send s = elim s.send_task [
  | woken_next false ↦ some (record s { send_task = send_exited })
  | woken_next true ↦ current_send s >>= λ (op, f).
      if f.initiated
      then some (record s { send_task = sending_header })
      else some
          (record (set_fork s op.fork (record f { initiated = true })) { send_task = sending_meta })
  | _ ↦ some s
]

-- The bytes that the task has handed to the socket.
unfoldable pub offered : Sched → List ℕ
unfolding current_send
offered s = elim (current_send s) [
  | none ↦ []
  | some (op, f) ↦ elim s.send_task [
    | sending_meta ↦ meta_bytes f.local_id f.session_id
    | sending_header ↦ header_bytes (record { size = length op.bytes; fork_id = f.local_id })
    | sending_body ↦ op.bytes
    | _ ↦ []
  ]
]

abbrev pub count_sent : Sched → Transfer → Sched
count_sent s t = record s { bytes_sent = (s.bytes_sent + length t.bytes) % u64_mod }

-- The socket completes the write that the task awaits. A transfer that fails the check goes back to
-- the top of the loop with the socket's own error.
unfoldable pub send_done : Transfer → Sched → Option Sched
unfolding suspend_next
send_done t s = elim s.send_task [
  | sending_meta ↦
      if fails (check t (header_size + control_size))
      then suspend_next true t.err (count_sent s t)
      else some (record (count_sent s t) { send_task = sending_header })
  | sending_header ↦
      if fails (check t header_size)
      then suspend_next true t.err (count_sent s t)
      else some (record (count_sent s t) { send_task = sending_body })
  | sending_body ↦ suspend_next true t.err (count_sent s t)
  | _ ↦ some s
]
