-- ===== src/Sched/Cancel.antt =====
-- SocketScheduler.cpp, `SockScheduler::cancel`; SocketFork.h, `completeOn`; and `close`.
pub mod Complete
use coproto.Prelude.{ℕ, Bool, true, false, Option, none, some, List, [], ◌∷◌, ◌++◌, if◌then◌else◌}
use coproto.ErrorCode.{ErrorCode, Code, code, fails}
use coproto.Buffers.{set_error}
use coproto.Sched.State.{
  Status, Caller, RecvOp, SendOp, SocketFork, sent, received, Ready, failed, RecvTask, waiting_any,
  woken_any, waiting_fork, woken_fork, SendTask, waiting_next, woken_next, Sched, executor_of,
}

abbrev pub cancel_code : ErrorCode
cancel_code = code Code.cancel

abbrev is_in_use : Status → Bool
is_in_use Status.in_use = true
is_in_use _ = false

-- `completeOn` for an operation of a fork with this executor.
abbrev pub recv_ready : Option ℕ → RecvOp → Ready
recv_ready ex op = record { callback = op.callback; executor = ex; outcome = received op.buffer }

abbrev pub send_ready : Sched → SendOp → Ready
send_ready s op = record {
  callback = op.callback;
  executor = executor_of s op.fork;
  outcome = sent op.err;
}

abbrev pub fail_recv : RecvOp → ErrorCode → RecvOp
fail_recv op e = record op { buffer = set_error op.buffer e }

abbrev pub fail_send : SendOp → ErrorCode → SendOp
fail_send op e = record op { err = some e }

-- The receive operations of one fork, failed in order: the first with the error, the others with
-- what `std::exchange(ec, code::cancel)` leaves.
unfoldable pub drain_ops : Option ℕ → List RecvOp → ErrorCode → List Ready
drain_ops ex [] e = []
drain_ops ex (op ∷ ops) e = recv_ready ex (fail_recv op e) ∷ drain_ops ex ops cancel_code

-- The error left after a fork is drained.
abbrev left_error : List RecvOp → ErrorCode → ErrorCode
left_error [] e = e
left_error (op ∷ ops) e = cancel_code

unfoldable pub drain_forks : List SocketFork → ErrorCode → List Ready
unfolding drain_ops
drain_forks [] e = []
drain_forks (f ∷ fs) e =
    drain_ops f.executor f.recv_ops e ++ drain_forks fs (left_error f.recv_ops e)

unfoldable pub clear_forks : List SocketFork → List SocketFork
clear_forks [] = []
clear_forks (f ∷ fs) = record f { recv_ops = [] } ∷ clear_forks fs

-- The send operations, failed in the order of the list.
unfoldable pub drain_sends : Sched → List SendOp → ErrorCode → List Ready
drain_sends s [] e = []
drain_sends s (op ∷ ops) e = send_ready s (fail_send op e) ∷ drain_sends s ops cancel_code

abbrev wake_any : RecvTask → RecvTask
wake_any waiting_any = woken_any cancel_code
wake_any t = t

-- The awaiter of a requested fork is resumed with the error, or with `cancel` for the sender.
abbrev wake_fork : Caller → ErrorCode → RecvTask → RecvTask
wake_fork Caller.sender e (waiting_fork size slot) = woken_fork size (failed cancel_code)
wake_fork c e (waiting_fork size slot) = woken_fork size (failed e)
wake_fork c e t = t

-- What is left of the error after that.
abbrev pub after_wake : Caller → ErrorCode → RecvTask → ErrorCode
after_wake Caller.sender e t = e
after_wake c e (waiting_fork size slot) = cancel_code
after_wake c e t = e

abbrev wake_next : SendTask → SendTask
wake_next waiting_next = woken_next false
wake_next t = t

-- The part under `if (!mEC)`.
unfoldable pub first_error : Sched → Caller → ErrorCode → Sched
first_error s c e = record s {
  ec = e;
  recv_stop = if is_in_use s.recv_status then true else s.recv_stop;
  send_stop = if is_in_use s.send_status then true else s.send_stop;
  recv_task = wake_fork c e (wake_any s.recv_task);
  send_task = wake_next s.send_task;
}

unfoldable pub close_sender : Sched → ErrorCode → Sched
unfolding drain_sends
close_sender s e = record s {
  send_status = Status.closed;
  sends = [];
  last_erased = false;
  ready = s.ready ++ drain_sends s s.sends e;
}

unfoldable pub close_recver : Sched → ErrorCode → Sched
unfolding drain_forks clear_forks
close_recver s e = record s {
  recv_status = Status.closed;
  forks = clear_forks s.forks;
  ready = s.ready ++ drain_forks s.forks e;
  num_recvs = 0;
}

abbrev close_side : Caller → Sched → ErrorCode → Sched
close_side Caller.sender s e = close_sender s e
close_side Caller.recver s e = close_recver s e
close_side Caller.extern s e = s

-- `none` is the failed assertion that the first error is an error.
unfoldable pub cancel : Caller → ErrorCode → Sched → Option Sched
unfolding first_error close_sender close_recver
cancel c e s =
    if fails s.ec
    then some (close_side c s e)
    else (if fails e
        then some (close_side c (first_error s c e) (after_wake c e s.recv_task))
        else none)

unfoldable pub close : Sched → Option Sched
unfolding cancel
close s = cancel Caller.extern (code Code.closed) s
