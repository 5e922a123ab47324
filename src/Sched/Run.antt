-- ===== src/Sched/Run.antt =====
-- SocketScheduler.h, `init`, and the events that drive a scheduler: the calls of the user and his
-- stop requests, the completions of the socket's reads and writes, and the resumptions that the execution queue makes.
use coproto.Prelude.{ℕ, Bool, false, Option, none, some, List, [], ◌∷◌, ◌>>=◌}
use coproto.ErrorCode.{no_error}
use coproto.SessionId.{SessionId}
use coproto.Buffers.{RecvBuffer}
use coproto.Sched.State.{Status, waiting_any, waiting_next, Sched}
use coproto.Sched.Table.{init_local, fork}
use coproto.Sched.Cancel.{close}
use coproto.Sched.Recv.{Transfer, recv, suspend_any, resume_recv, recv_done}
use coproto.Sched.Stop.{stop_recv, stop_send}
use coproto.Sched.Send.{send, suspend_next, resume_send, send_done}

-- The members' initial values.
unfoldable pub empty_sched : Sched
empty_sched = record {
  forks = [];
  next_local = 1;
  id_map = [];
  remote_map = [];
  sends = [];
  last_erased = false;
  ec = no_error;
  recv_status = Status.idle;
  send_status = Status.idle;
  num_recvs = 0;
  bytes_sent = 0;
  bytes_received = 0;
  recv_task = waiting_any;
  send_task = waiting_next;
  recv_stop = false;
  send_stop = false;
  ready = [];
}

-- `init`: the first fork, and both tasks run to their first suspension.
unfoldable pub init : SessionId → Option Sched
unfolding empty_sched
init sid = init_local sid none empty_sched >>= λ s.
    suspend_any none no_error s >>= suspend_next false no_error

pub data Event : Type 0 where
  recvs : SessionId → RecvBuffer → ℕ → Event
  sends : SessionId → List ℕ → ℕ → Event
  forks : SessionId → Event
  closes : Event
  recv_resumes : Event
  send_resumes : Event
  stops_recv : Bool → Bool → ℕ → ℕ → Event
  stops_send : Bool → Bool → ℕ → Event
  reads : Transfer → Event
  writes : Transfer → Event

unfoldable pub step : Sched → Event → Option Sched
unfolding fork recv send close stop_recv stop_send resume_recv resume_send recv_done send_done
step s (recvs id buffer cb) = recv id buffer cb s
step s (sends id bytes cb) = send id bytes cb s
step s (forks id) = fork id s >>= λ r. some (r.1)
step s closes = close s
step s (stops_recv b a i n) = stop_recv b a i n s
step s (stops_send b a n) = stop_send b a n s
step s recv_resumes = resume_recv s
step s send_resumes = resume_send s
step s (reads t) = recv_done t s
step s (writes t) = send_done t s

unfoldable pub run : List Event → Sched → Option Sched
unfolding step
run [] s = some s
run (e ∷ es) s = step s e >>= run es
