-- ===== src/Sched/State.antt =====
-- SocketScheduler.h, `SockScheduler`; SocketFork.h; SendOperation.h; RecvOperation.h: the state.
-- An iterator into the list of forks, which only grows, is a position. A callback is a number.
use coproto.Prelude.{ℕ, ◌-◌, Bool, Option, none, some, List, [], ◌∷◌, ◌++◌, get_elem?, set}
use coproto.Prelude.Word.{u32_mod}
use coproto.ErrorCode.{ErrorCode}
use coproto.SessionId.{SessionId}
use coproto.Buffers.{RecvBuffer}

pub data OpStatus : Type 0 where
  not_started in_progress canceling : OpStatus

pub data Status : Type 0 where
  idle in_use requested_recv_op closed : Status

pub data Caller : Type 0 where
  sender recver extern : Caller

pub record RecvOp : Type 0 where
  pub callback : ℕ
  pub buffer : RecvBuffer
  pub status : OpStatus

-- The error is what `setError` has stored for the awaiter.
pub record SendOp : Type 0 where
  pub callback : ℕ
  pub bytes : List ℕ
  pub fork : ℕ
  pub status : OpStatus
  pub err : Option ErrorCode

-- `u32(-1)`, an id that is not assigned.
abbrev pub no_id : ℕ
no_id = u32_mod - 1

pub record SocketFork : Type 0 where
  pub session_id : SessionId
  pub local_id : ℕ
  pub remote_id : ℕ
  pub initiated : Bool
  pub executor : Option ℕ
  pub recv_ops : List RecvOp

-- What an operation hands to its callback when it is queued on the execution queue.
pub data Outcome : Type 0 where
  sent : Option ErrorCode → Outcome
  received : RecvBuffer → Outcome

pub record Ready : Type 0 where
  pub callback : ℕ
  pub executor : Option ℕ
  pub outcome : Outcome

-- The result that `GetRequestedRecvSocketFork` is resumed with: a fork's front operation.
pub data ForkResult : Type 0 where
  found : ℕ → ForkResult
  failed : ErrorCode → ForkResult

-- Where the receive task is suspended. `waiting_any` is `mAnyRecvOp != nullptr`, `waiting_fork` is
-- `mGetRequestedRecvSocketFork != nullptr`; a `woken` task stands in the execution queue.
pub data RecvTask : Type 0 where
  waiting_any : RecvTask
  woken_any : ErrorCode → RecvTask
  reading_header : RecvTask
  reading_meta : ℕ → RecvTask
  waiting_fork : ℕ → ℕ → RecvTask
  woken_fork : ℕ → ForkResult → RecvTask
  reading_body : ℕ → ℕ → RecvTask
  recv_exited : RecvTask

-- Where the send task is suspended. `waiting_next` is `mNextSendOp != nullptr`; the operation of the
-- other points is the first of the send list.
pub data SendTask : Type 0 where
  waiting_next : SendTask
  woken_next : Bool → SendTask
  sending_meta sending_header sending_body : SendTask
  send_exited : SendTask

-- `last_erased` says that `mSendBufferLast` points to an operation that is not there any more.
pub record Sched : Type 0 where
  pub forks : List SocketFork
  pub next_local : ℕ
  pub id_map : List (SessionId × ℕ)
  pub remote_map : List (ℕ × ℕ)
  pub sends : List SendOp
  pub last_erased : Bool
  pub ec : ErrorCode
  pub recv_status : Status
  pub send_status : Status
  pub num_recvs : ℕ
  pub bytes_sent : ℕ
  pub bytes_received : ℕ
  pub recv_task : RecvTask
  pub send_task : SendTask
  pub recv_stop : Bool
  pub send_stop : Bool
  pub ready : List Ready

abbrev pub set_fork : Sched → ℕ → SocketFork → Sched
set_fork s i f = record s { forks = set s.forks i f }

abbrev pub push_ready : Sched → Ready → Sched
push_ready s r = record s { ready = s.ready ++ (r ∷ []) }

-- The executor of the fork that an operation belongs to.
abbrev pub executor_of : Sched → ℕ → Option ℕ
executor_of s i = elim (get_elem? s.forks i) [ none ↦ none | some f ↦ f.executor ]
