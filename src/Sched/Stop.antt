-- ===== src/Sched/Stop.antt =====
-- SocketScheduler.h and SocketScheduler.cpp, the stop callbacks that `send` and `recv` install. An
-- operation is named by its place in its list. Both callbacks ask a stop source that they have just made
-- whether a stop is possible; the answer, which is macoro's, is a parameter. An operation that is not
-- started is taken out of its queue by its address (`erase(T*)`), which fails where the ring of the block
-- that holds it has gone round (Queue/Erase); the lists do not show their blocks, so whether it succeeds
-- is the parameter `erases`. `none` is this failure, a failed assertion or a missing operation.
pub mod Aborts
use coproto.Prelude.{
  ℕ, zero, suc, ◌+◌, ◌-◌, Bool, true, false, not, ◌||◌, Option, none, some, List, [], ◌∷◌, ◌++◌,
  ◌==◌, if◌then◌else◌, ◌>>=◌, length, get_elem?, set, remove_at,
}
use coproto.ErrorCode.{ErrorCode, Code, code}
use coproto.Sched.State.{OpStatus, RecvOp, SendOp, SocketFork, Sched, set_fork, push_ready}
use coproto.Sched.Cancel.{recv_ready, send_ready, fail_recv, fail_send}

abbrev pub aborted : ErrorCode
aborted = code Code.operation_aborted

-- The callback of the receive at place `n` of fork `i`. One that is in progress must not be canceling
-- already; the scheduler's stop source is moved into a function, which then requests the stop.
unfoldable pub stop_recv : Bool → Bool → ℕ → ℕ → Sched → Option Sched
stop_recv possible erases i n s = get_elem? s.forks i >>= λ f. get_elem? f.recv_ops n >>= λ op.
    elim op.status [
      | OpStatus.not_started ↦
          if not erases
          then none
          else some
              (record (push_ready (set_fork s i (record f { recv_ops = remove_at n f.recv_ops }))
                (recv_ready f.executor (fail_recv op aborted))) { num_recvs = s.num_recvs - 1 })
      | OpStatus.in_progress ↦
          some
            (record (set_fork s i (record f {
              recv_ops = set f.recv_ops n (record op { status = OpStatus.canceling });
            })) { recv_stop = if possible then true else s.recv_stop })
      | OpStatus.canceling ↦ none
    ]

-- The callback of the send at place `n` of the send list. An operation that is not started must have
-- one in front of it.
unfoldable pub stop_send : Bool → Bool → ℕ → Sched → Option Sched
stop_send possible erases n s = get_elem? s.sends n >>= λ op. elim op.status [
  | OpStatus.not_started ↦
      if n == 0 || not erases
      then none
      else some (record (push_ready s (send_ready s (fail_send op aborted))) {
        sends = remove_at n s.sends;
        last_erased = if n + 1 == length s.sends then true else s.last_erased;
      })
  | _ ↦ some (record s {
    sends = set s.sends n (record op { status = OpStatus.canceling });
    send_stop = if possible then true else s.send_stop;
  })
]
