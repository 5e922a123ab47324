-- ===== src/Tests/Stops.antt =====
-- Stop requests and flushes on concrete schedulers, and the theorems on them applied.
use coproto.Prelude.{
  ◌≡◌, ◌⊎◌, refl, true, false, none, some, List, [], ◌∷◌, ◌++◌, arith, ◌+◌, get_elem?, remove_at,
}
use coproto.ErrorCode.{Code, code, no_error}
use coproto.Buffers.{set_error}
use coproto.Sched.State.{
  OpStatus, RecvOp, SendOp, Sched, received, sending_body, reading_header, Status,
}
use coproto.Sched.Count.{CountOk}
use coproto.Sched.Stop.{stop_recv}
use coproto.Sched.Stop.Aborts.{stop_recv_lem}
use coproto.Sched.Flush.{
  Flushing, no_flushes, Action, flushes, new_fork, enqueues, completes, stops, acts,
}
use coproto.Tests.Sockets.{a_buffer, a_fork}

-- Two receives and two sends, of which the second waits.
abbrev waiting_send : SendOp
waiting_send = record {
  callback = 14;
  bytes = 2 ∷ [];
  fork = 0;
  status = OpStatus.not_started;
  err = none;
}

abbrev waiting_sched : Sched
waiting_sched = record {
  forks = a_fork ∷ [];
  next_local = 2;
  id_map = (a_fork.session_id, 0) ∷ [];
  remote_map = (1, 0) ∷ [];
  sends =
      record { callback = 13; bytes = 1 ∷ []; fork = 0; status = OpStatus.in_progress; err = none }
      ∷ waiting_send
      ∷ [];
  last_erased = false;
  ec = no_error;
  recv_status = Status.in_use;
  send_status = Status.in_use;
  num_recvs = 2;
  bytes_sent = 0;
  bytes_received = 0;
  recv_task = reading_header;
  send_task = sending_body;
  recv_stop = false;
  send_stop = false;
  ready = [];
}

-- The second of two receives is stopped.
abbrev stopped_op : RecvOp
stopped_op = record { callback = 12; buffer = a_buffer; status = OpStatus.not_started }

stop_recv_lem_example :
    (t : Sched) × (stop_recv true true 0 1 waiting_sched ≡ some t)
    × CountOk t
    × (((OpStatus.not_started ≡ OpStatus.not_started)
          × (t.ready
              ≡ waiting_sched.ready
                ++ (record {
                  callback = 12;
                  executor = none;
                  outcome = received (set_error a_buffer (code Code.operation_aborted));
                }
                    ∷ []))
          × (get_elem? t.forks 0 ≡ some (record a_fork { recv_ops = remove_at 1 a_fork.recv_ops }))
          × (t.num_recvs + 1 ≡ waiting_sched.num_recvs)
          × (t.recv_stop ≡ waiting_sched.recv_stop))
        ⊎ ((OpStatus.not_started ≡ OpStatus.in_progress)
            × (t.ready ≡ waiting_sched.ready)
            × (t.num_recvs ≡ waiting_sched.num_recvs)
            × (t.recv_stop ≡ true)))
stop_recv_lem_example =
    stop_recv_lem true true 0 1 waiting_sched a_fork stopped_op refl refl refl
      (λ e. ground (arith, e)) (λ e. refl)

-- Two receives and a send wait for a flush; the first receive and the send complete.
abbrev flushed : List Action
flushed = new_fork ∷ enqueues 0 ∷ enqueues 0 ∷ enqueues 1 ∷ flushes ∷ completes 0 ∷ completes 1 ∷ []

abbrev one_left : Flushing
one_left = record {
  queues = ((0 ∷ []) ∷ []) ∷ [] ∷ [];
  back_erased = false ∷ false ∷ [];
  next_token = 1;
  resumed = [];
}

-- A receive that is stopped gives its flush up, although the receive in front of it still waits.
abbrev stopped_last : List Action
stopped_last = new_fork ∷ enqueues 0 ∷ enqueues 0 ∷ flushes ∷ stops true 0 1 ∷ []

stopped_early :
    acts stopped_last no_flushes
    ≡ some (record {
      queues = ([] ∷ []) ∷ [] ∷ [];
      back_erased = true ∷ false ∷ [];
      next_token = 1;
      resumed = 0 ∷ [];
    })
unfolding acts
stopped_early = refl

-- A flush then fails, until a next receive is queued behind.
flush_fails : acts (stopped_last ++ (flushes ∷ [])) no_flushes ≡ none
unfolding acts
flush_fails = refl

flush_again :
    acts (stopped_last ++ (enqueues 0 ∷ flushes ∷ [])) no_flushes
    ≡ some (record {
      queues = ([] ∷ (1 ∷ []) ∷ []) ∷ [] ∷ [];
      back_erased = false ∷ false ∷ [];
      next_token = 2;
      resumed = 0 ∷ [];
    })
unfolding acts
flush_again = refl
