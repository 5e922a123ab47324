-- ===== src/Tests/Sockets.antt =====
-- Concrete sockets and schedulers, and the theorems on them applied.
use coproto.Prelude.{
  ◌<◌, ◌≡◌, ◌⊎◌, refl, true, false, none, some, List, [], ◌∷◌, ◌++◌, arith, length, flatten, ◌≤◌,
  ◌↔◌, is_some,
}
use coproto.ErrorCode.{fails}
use coproto.Buffers.{RecvBuffer}
use coproto.Buffering
use coproto.Buffering.{Buffer, Waiting, Sock, process_inbound, empty_sock}
use coproto.Buffering.Bytes.{IsBuffer, pop_lem}
use coproto.Buffering.Bytes
use coproto.Buffering.Stream.{SockOk, recv-close}
use coproto.Buffering.Awaiter.{Race, starts, stops, arrives, run}
use coproto.Buffering.Awaiter.Phases.{all_received}
use coproto.Buffering.Awaiter.Once.{new_race, receive_once}
use coproto.LocalSocket
use coproto.LocalSocket.{
  Sending, Receiving, OpPair, no_ops, Side, SharedState, fresh_state, start_send, start_recv, ec,
  inbound, other,
}
use coproto.LocalSocket.Transfer.{PairOk, in_flight, delivered, start_send-in_flight}
use coproto.LocalSocket.Closing.{handles, close_lem, after_close}
use coproto.Sched.State.{OpStatus, SocketFork, Sched, sending_body}
use coproto.Sched.Run.{empty_sched}

-- Two chunks, of which one byte is gone.
abbrev two_chunks : Buffer
two_chunks = record { front = 1; size = 4; chunks = (1 ∷ 2 ∷ 3 ∷ []) ∷ (4 ∷ 5 ∷ []) ∷ [] }

two_chunks-IsBuffer : IsBuffer two_chunks
unfolding flatten
two_chunks-IsBuffer = record { fits = omega arith; sized = refl; bound = omega arith }

-- A socket with those bytes where a receive wants six.
abbrev waiting_sock : Sock
waiting_sock = record empty_sock {
  inbound = some (record { handle = 9; count = 6 });
  inbound_buffer = two_chunks;
}

waiting_sock-SockOk : SockOk waiting_sock
unfolding flatten
waiting_sock-SockOk = record { buffered = two_chunks-IsBuffer; short = omega arith }

-- A receive of six bytes on a socket with four starts and is stopped; then two bytes come in.
abbrev quiet_sock : Sock
quiet_sock = record waiting_sock { inbound = none }

abbrev quiet_sock-SockOk : SockOk quiet_sock
quiet_sock-SockOk = record { buffered = two_chunks-IsBuffer; short = tt }

receive_once_example :
    (r : Race) × (run 9 (starts ∷ stops ∷ arrives (6 ∷ 7 ∷ []) ∷ []) (new_race 6 quiet_sock)
      ≡ some r)
    × (all_received r.resumed ++ Bytes.items r.sock.inbound_buffer
        ≡ Bytes.items two_chunks ++ (6 ∷ 7 ∷ []))
    × (length r.resumed ≤ 1)
    × ((length r.resumed ≡ 1) ↔ ((r.started ≡ true) × (is_some r.awaiter.err ≡ true)))
unfolding flatten
receive_once_example =
    receive_once (starts ∷ stops ∷ arrives (6 ∷ 7 ∷ []) ∷ []) 9 6 quiet_sock quiet_sock-SockOk refl
      (refl, tt) (omega arith)

recv-close_example :
    (s : Sock) × (Buffering.recv 4 8 (Buffering.close waiting_sock).1 ≡ some (none, s))
    × (s.inbound ≡ some (record { handle = 4; count = 8 }))
    × (fails s.ec ≡ true)
recv-close_example = recv-close 4 8 waiting_sock waiting_sock-SockOk (omega arith)

abbrev a_send : Sending
a_send = record { handle = 3; rest = 1 ∷ 2 ∷ 3 ∷ [] }

abbrev a_recv : Receiving
a_recv = record { handle = 4; got = []; room = 2 }

start_send-in_flight_example :
    (dones : List LocalSocket.Done) × (p : OpPair) × (start_send a_send
        (record { sending = none; receiving = some a_recv })
      ≡ some (dones, p))
    × (delivered dones ++ in_flight p ≡ 1 ∷ 2 ∷ 3 ∷ [])
    × PairOk p
    × ((some a_recv ≡ none) ⊎ (0 < length dones))
start_send-in_flight_example = start_send-in_flight a_send (some a_recv) (omega arith) (omega arith)

abbrev busy_state : SharedState
busy_state = record fresh_state {
  inbound_left = record { sending = some a_send; receiving = none };
  inbound_right = record { sending = none; receiving = some a_recv };
}

close_lem_example :
    (handles (LocalSocket.close Side.left busy_state).0 ≡ 3 ∷ 4 ∷ [])
    × (inbound Side.left (LocalSocket.close Side.left busy_state).1 ≡ no_ops)
    × (inbound Side.right (LocalSocket.close Side.left busy_state).1 ≡ no_ops)
    × (fails (ec Side.left (LocalSocket.close Side.left busy_state).1) ≡ true)
    × (fails (ec Side.right (LocalSocket.close Side.left busy_state).1) ≡ true)
close_lem_example = close_lem Side.left busy_state

after_close_example :
    (LocalSocket.send Side.right 5 (1 ∷ []) none (LocalSocket.close Side.left busy_state).1
      ≡ some (
        record {
          handle = 5;
          err = ec Side.right (LocalSocket.close Side.left busy_state).1;
          bytes = [];
        }
            ∷ [],
        (LocalSocket.close Side.left busy_state).1,
      ))
    × (LocalSocket.recv Side.right 5 2 none (LocalSocket.close Side.left busy_state).1
        ≡ some (
          record {
            handle = 5;
            err = ec Side.right (LocalSocket.close Side.left busy_state).1;
            bytes = [];
          }
              ∷ [],
          (LocalSocket.close Side.left busy_state).1,
        ))
after_close_example =
    after_close Side.left Side.right busy_state 5 2 (1 ∷ []) none (omega arith) (omega arith)

-- A scheduler with two receives and a send that wait.
abbrev pub a_buffer : RecvBuffer
a_buffer = record {
  elem_size = 1;
  count = 4;
  allow_resize = false;
  armed = true;
  exception = none;
  bytes = [];
}

abbrev pub a_fork : SocketFork
a_fork = record {
  session_id = record { v0 = 1; v1 = 2; child_idx = 0 };
  local_id = 1;
  remote_id = 1;
  initiated = true;
  executor = none;
  recv_ops =
      record { callback = 11; buffer = a_buffer; status = OpStatus.in_progress }
      ∷ record { callback = 12; buffer = a_buffer; status = OpStatus.not_started }
      ∷ [];
}

abbrev busy_sched : Sched
unfolding empty_sched
busy_sched = record empty_sched {
  forks = a_fork ∷ [];
  num_recvs = 2;
  sends =
      record { callback = 13; bytes = 1 ∷ []; fork = 0; status = OpStatus.in_progress; err = none }
      ∷ [];
  send_task = sending_body;
}
