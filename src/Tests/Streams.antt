-- ===== src/Tests/Streams.antt =====
-- Messages of two forks over a socket, and the theorems on them applied.
use coproto.Prelude.{
  true, Option, ◌≡◌, refl, false, none, some, List, [], ◌∷◌, ◌++◌, arith, zero, suc, get_elem?,
}
use coproto.SessionId.{SessionId}
use coproto.Prelude.Word.{le_bytes}
use coproto.Wire.{meta_bytes}
use coproto.Sched.State.{
  received, OpStatus, Status, SendOp, woken_next, RecvOp, SocketFork, Sched, no_id, reading_header,
}
use coproto.Sched.Run.{empty_sched}
use coproto.Buffers.{RecvBuffer, as_span}
use coproto.Sched.Cancel.{recv_ready}
use coproto.Sched.Table.{init_local, find_remote, find_id}
use coproto.Sched.Stream.Sequence.{receive_all, deliver_all, receive-sequence}
use coproto.Sched.Stream.First.{receive_first, receive-first}
use coproto.Sched.Table.Invariant.{TableOk, empty-TableOk, init_local-TableOk}
use coproto.Sched.Stream.{frames, decode}
use coproto.Sched.Stream.Writes.{Event, queues, resumes, completes, Trace, run, to_send}
use coproto.Sched.Stream.Delivers.{run-frames}
use coproto.Sched.Stream.Reads.{Fit}
use coproto.Sched.Stream.Drains.{Drained, sends_drain}
use coproto.Sched.Stream.Exchanged.{Unnamed, run-decode}

abbrev first_id : SessionId
first_id = record { v0 = 5; v1 = 6; child_idx = 0 }

abbrev second_id : SessionId
second_id = record { v0 = 7; v1 = 8; child_idx = 0 }

abbrev one_fork : Sched
one_fork = record empty_sched {
  forks =
      record {
        session_id = first_id;
        local_id = 1;
        remote_id = no_id;
        initiated = false;
        executor = none;
        recv_ops = [];
      }
      ∷ [];
  next_local = 2;
  id_map = (first_id, 0) ∷ [];
}

abbrev two_forks : Sched
two_forks = record one_fork {
  forks =
      one_fork.forks
      ++ (record {
        session_id = second_id;
        local_id = 2;
        remote_id = no_id;
        initiated = false;
        executor = none;
        recv_ops = [];
      }
          ∷ []);
  next_local = 3;
  id_map = (second_id, 1) ∷ (first_id, 0) ∷ [];
}

one_fork-TableOk : TableOk one_fork
unfolding init_local empty_sched
one_fork-TableOk =
    init_local-TableOk first_id none empty_sched one_fork empty-TableOk (omega arith) refl

two_forks-TableOk : TableOk two_forks
unfolding init_local empty_sched
two_forks-TableOk =
    init_local-TableOk second_id none one_fork two_forks one_fork-TableOk (omega arith) refl

-- Two messages of the first fork around one of the second; the first is queued to a task that waits.
abbrev two_sends : List Event
two_sends =
    queues first_id (1 ∷ 2 ∷ []) 11
    ∷ resumes
    ∷ queues second_id (3 ∷ []) 12
    ∷ completes
    ∷ completes
    ∷ queues first_id (4 ∷ []) 13
    ∷ completes
    ∷ resumes
    ∷ completes
    ∷ completes
    ∷ completes
    ∷ resumes
    ∷ completes
    ∷ completes
    ∷ []

abbrev trace_or : Sched → Option Trace → Trace
trace_or s none = record { sched = s; written = []; accepted = [] }
trace_or s (some r) = r

abbrev two_sent : Trace
unfolding run empty_sched meta_bytes le_bytes
two_sent = trace_or two_forks (run two_sends two_forks)

-- Only the meta message of the first fork has been written.
abbrev meta_sent : Trace
unfolding run empty_sched meta_bytes le_bytes
meta_sent =
    trace_or two_forks (run (queues first_id (1 ∷ []) 11 ∷ resumes ∷ completes ∷ []) two_forks)

run-frames_example :
    meta_sent.written ++ to_send meta_sent.sched
    ≡ frames two_forks.forks (record { fork = 0; bytes = 1 ∷ [] } ∷ [])
unfolding meta_sent run empty_sched meta_bytes le_bytes
run-frames_example =
    run-frames (queues first_id (1 ∷ []) 11 ∷ resumes ∷ completes ∷ []) two_forks meta_sent refl
      refl refl refl

two_forks-Unnamed : Unnamed two_forks
two_forks-Unnamed zero f e = ground (arith, e)
two_forks-Unnamed (suc zero) f e = ground (arith, e)
two_forks-Unnamed (suc (suc i)) f e = cc

two_sent-Fit : Fit two_forks.forks two_sent.accepted
unfolding two_sent run empty_sched meta_bytes le_bytes
two_sent-Fit = (
  omega arith,
  omega arith,
  λ f e. ground (arith, e),
  (
    omega arith,
    omega arith,
    (λ f e. ground (arith, e)),
    (omega arith, omega arith, (λ f e. ground (arith, e)), tt),
  ),
)

run-decode_example :
    decode 6 [] two_sent.written
    ≡ some ((first_id, 1 ∷ 2 ∷ []) ∷ (second_id, 3 ∷ []) ∷ (first_id, 4 ∷ []) ∷ [])
unfolding two_sent run empty_sched meta_bytes le_bytes
run-decode_example =
    run-decode two_sends two_forks two_sent two_forks-TableOk two_forks-Unnamed refl refl refl refl
      refl two_sent-Fit

-- A send that has been started, and one behind it.
abbrev first_op : SendOp
first_op = record {
  callback = 31;
  bytes = 1 ∷ 2 ∷ [];
  fork = 0;
  status = OpStatus.in_progress;
  err = none;
}

abbrev second_op : SendOp
second_op = record first_op {
  callback = 32;
  bytes = 3 ∷ [];
  fork = 1;
  status = OpStatus.not_started;
}

abbrev woken_sched : Sched
woken_sched = record two_forks {
  sends = first_op ∷ second_op ∷ [];
  send_task = woken_next true;
  send_status = Status.in_use;
}

sends_drain_example : Drained woken_sched
unfolding empty_sched
sends_drain_example =
    sends_drain woken_sched first_op (second_op ∷ []) refl refl refl refl
      (_, refl, (λ e. omega arith), omega arith, omega arith)
      ((_, refl, (λ e. omega arith), omega arith, omega arith), refl, tt)

-- A receiver that knows the second session and waits for three bytes.
abbrev three_bytes : RecvBuffer
three_bytes = record {
  elem_size = 1;
  count = 3;
  allow_resize = false;
  armed = false;
  exception = none;
  bytes = [];
}

abbrev three_op : RecvOp
three_op = record { callback = 21; buffer = three_bytes; status = OpStatus.not_started }

abbrev receiving_fork : SocketFork
receiving_fork = record {
  session_id = second_id;
  local_id = 1;
  remote_id = no_id;
  initiated = false;
  executor = none;
  recv_ops = three_op ∷ [];
}

abbrev receiver : Sched
receiver = record empty_sched {
  forks = receiving_fork ∷ [];
  next_local = 2;
  id_map = (second_id, 0) ∷ [];
  num_recvs = 1;
  recv_task = reading_header;
}

receive-first_example :
    (t : Sched) × (receive_first 9 second_id (1 ∷ 2 ∷ 3 ∷ []) receiver ≡ some t)
    × (t.ready
        ≡ recv_ready none
            (record three_op { buffer = record three_bytes { bytes = 1 ∷ 2 ∷ 3 ∷ [] } })
          ∷ [])
    × (get_elem? t.forks 0 ≡ some (record receiving_fork { remote_id = 9; recv_ops = [] }))
unfolding empty_sched as_span find_remote find_id
receive-first_example =
    receive-first receiver 9 0 second_id (1 ∷ 2 ∷ 3 ∷ []) receiving_fork three_op [] three_bytes
      refl refl (λ e. omega arith) (omega arith) refl refl refl refl refl (omega arith)
      (omega arith) refl refl (omega arith) (omega arith)

-- The same receiver once the slot 9 is mapped, with two receives.
abbrev one_byte : RecvBuffer
one_byte = record three_bytes { count = 1 }

abbrev two_receives : Sched
two_receives = record receiver {
  forks =
      record receiving_fork {
        recv_ops =
            three_op
            ∷ record { callback = 22; buffer = one_byte; status = OpStatus.not_started }
            ∷ [];
      }
      ∷ [];
  num_recvs = 2;
  remote_map = (9, 0) ∷ [];
}

receive-sequence_example :
    (t : Sched) × (receive_all ((9, 1 ∷ 2 ∷ 3 ∷ []) ∷ (9, 4 ∷ []) ∷ []) two_receives ≡ some t)
    × (t.ready
        ≡ recv_ready none
            (record three_op { buffer = record three_bytes { bytes = 1 ∷ 2 ∷ 3 ∷ [] } })
          ∷ record {
            callback = 22;
            executor = none;
            outcome = received (record one_byte { bytes = 4 ∷ [] });
          }
          ∷ [])
    × (t.forks ≡ record receiving_fork { recv_ops = [] } ∷ [])
unfolding empty_sched deliver_all
receive-sequence_example =
    receive-sequence ((9, 1 ∷ 2 ∷ 3 ∷ []) ∷ (9, 4 ∷ []) ∷ []) two_receives _ _ refl refl
      (omega arith)
      (omega arith, omega arith, omega arith, (omega arith, omega arith, omega arith, tt)) refl
