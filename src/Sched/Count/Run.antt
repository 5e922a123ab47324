-- ===== src/Sched/Count/Run.antt =====
-- SocketScheduler.h: `mNumRecvs` over runs of events.
use mathlib.Core.Path.{subst}
use coproto.Prelude.{
  ℕ, ◌+◌, ◌-◌, ◌≡◌, ◌≢◌, refl, ap, ◌∙◌, ne→==, Bool, true, false, ◌||◌, none, some, List, [], ◌∷◌,
  ◌++◌, arith, ◌==◌, if◌then◌else◌, ◌>>=◌, length, get_elem?,
}
use coproto.ErrorCode.{ErrorCode, Code, code, fails}
use coproto.SessionId.{SessionId}
use coproto.Wire.{header_size, control_size}
use coproto.Sched.State.{
  SendOp, RecvOp, push_ready, SocketFork, Caller, RecvTask, waiting_any, woken_any, reading_header,
  reading_meta, waiting_fork, woken_fork, reading_body, recv_exited, found, failed, Sched, SendTask,
  waiting_next, woken_next, sending_meta, sending_header, sending_body, send_exited, set_fork,
  Ready,
}
use coproto.Sched.Cancel.{cancel, close, cancel_code, fail_recv, recv_ready}
use coproto.Sched.Cancel.Complete.{callbacks}
use mathlib.Core.List.{map-append}
use coproto.Sched.Recv.{
  Transfer, check, count_received, resume_recv, front_op, complete_prev, recv_done, suspend_any,
  got_op, took_header, took_meta, took_body,
}
use coproto.Sched.Send.{
  enqueue_send, send, complete_send, start_next, wait_next, suspend_next, current_send, resume_send,
  send_done, count_sent,
}
use coproto.Sched.Table.{get_local, fork}
use coproto.Sched.Run.{
  Event, recvs, sends, forks, closes, stops_recv, stops_send, recv_resumes, send_resumes, reads,
  writes, step, run,
}
use coproto.Sched.Count.{
  Every, Every-bind, Every-if, Every-some, CountOk, set_fork-CountOk, cancel-CountOk, total-set,
}
use coproto.Sched.Stop.Aborts.{stop_recv-CountOk, stop_send-CountOk}
use coproto.Sched.Count.Steps.{
  recv-CountOk, fork-CountOk, got_op-CountOk, suspend_any-CountOk, took_meta-CountOk,
  took_header-CountOk, took_body-CountOk, front_op-some,
}

resume_recv-CountOk : (s : Sched) → CountOk s → Every CountOk (resume_recv s)
unfolding resume_recv
resume_recv-CountOk s v = at_task s.recv_task
  where
    at_task :
        (t : RecvTask)
        → Every CountOk (elim t [
          | woken_any e ↦
              some (record s { recv_task = if fails e then recv_exited else reading_header })
          | woken_fork size (failed e) ↦ suspend_any none e s
          | woken_fork size (found i) ↦ got_op size i s
          | _ ↦ some s
        ])
    at_task waiting_any = v
    at_task (woken_any e) = v
    at_task reading_header = v
    at_task (reading_meta slot) = v
    at_task (waiting_fork size slot) = v
    at_task (woken_fork size (found i)) = got_op-CountOk size i s v
    at_task (woken_fork size (failed e)) = suspend_any-CountOk none e s v
    at_task (reading_body size i) = v
    at_task recv_exited = v

recv_done-CountOk : (x : Transfer) (s : Sched) → CountOk s → Every CountOk (recv_done x s)
unfolding recv_done
recv_done-CountOk x s v = at_task s.recv_task
  where
    s' : Sched
    s' = count_received s x

    at_task :
        (t : RecvTask)
        → Every CountOk (elim t [
          | reading_header ↦
              if fails (check x header_size)
              then suspend_any none x.err (count_received s x)
              else took_header x.bytes (count_received s x)
          | reading_meta slot ↦
              if fails (check x control_size)
              then suspend_any none x.err (count_received s x)
              else took_meta slot x.bytes (count_received s x)
          | reading_body size i ↦
              took_body i x.bytes (count_received s x) >>= λ s'. suspend_any (some i) x.err s'
          | _ ↦ some s
        ])
    at_task waiting_any = v
    at_task (woken_any e) = v
    at_task reading_header =
        Every-if CountOk (fails (check x header_size)) _ _
          (λ _. suspend_any-CountOk none x.err (count_received s x) v)
          (λ _. took_header-CountOk x.bytes (count_received s x) v)
    at_task (reading_meta slot) =
        Every-if CountOk (fails (check x control_size)) _ _
          (λ _. suspend_any-CountOk none x.err (count_received s x) v)
          (λ _. took_meta-CountOk slot x.bytes (count_received s x) v)
    at_task (waiting_fork size slot) = v
    at_task (woken_fork size r) = v
    at_task (reading_body size i) =
        Every-bind CountOk (took_body i x.bytes (count_received s x)) _ (λ t h.
          suspend_any-CountOk (some i) x.err t
            (subst (Every CountOk) h (took_body-CountOk i x.bytes (count_received s x) v)))
    at_task recv_exited = v

complete_send-CountOk : (e : ErrorCode) (s : Sched) → CountOk s → Every CountOk (complete_send e s)
unfolding complete_send
complete_send-CountOk e s v = ground (arith, v)

start_next-CountOk : (s : Sched) → CountOk s → Every CountOk (start_next s)
unfolding start_next
start_next-CountOk s v = ground (arith, v)

wait_next-CountOk : (e : ErrorCode) (s : Sched) → CountOk s → Every CountOk (wait_next e s)
unfolding wait_next
wait_next-CountOk e s v =
    Every-if CountOk (fails e || fails s.ec) _ _
      (λ _.
        Every-bind CountOk (cancel Caller.sender e s) _
          (λ t h. subst (Every CountOk) h (cancel-CountOk Caller.sender e s v)))
      (λ _. start_next-CountOk s v)

suspend_next-CountOk :
    (b : Bool) (e : ErrorCode) (s : Sched) → CountOk s → Every CountOk (suspend_next b e s)
unfolding suspend_next
suspend_next-CountOk false e s v = wait_next-CountOk e s v
suspend_next-CountOk true e s v = Every-bind CountOk (complete_send e s) _ (λ t h.
    wait_next-CountOk (if fails e then cancel_code else e) t
      (subst (Every CountOk) h (complete_send-CountOk e s v)))

enqueue_send-CountOk :
    (op : SendOp) (s : Sched) (t : SendTask) → CountOk s → Every CountOk (enqueue_send op s t)
unfolding enqueue_send
enqueue_send-CountOk op s t v = ground (arith, v)

send-CountOk :
    (id : SessionId) (bs : List ℕ) (cb : ℕ) (s : Sched)
    → CountOk s
    → Every CountOk (send id bs cb s)
unfolding send
send-CountOk id bs cb s v =
    Every-if CountOk (length bs == 0) _ _ (λ _. v)
      (λ _. Every-bind CountOk (get_local id s) _ (λ i _.
        Every-if CountOk (fails s.ec) _ _ (λ _. v) (λ _. enqueue_send-CountOk _ s s.send_task v)))

current_send-some :
    (s : Sched) (r : SendOp × SocketFork)
    → current_send s ≡ some r
    → get_elem? s.forks (r.0).fork ≡ some r.1
unfolding current_send
current_send-some s r e = ground (arith, e)

resume_send-CountOk : (s : Sched) → CountOk s → Every CountOk (resume_send s)
unfolding resume_send
resume_send-CountOk s v = at_task s.send_task
  where
    at_task :
        (t : SendTask)
        → Every CountOk (elim t [
          | woken_next false ↦ some (record s { send_task = send_exited })
          | woken_next true ↦ current_send s >>= λ (op, f).
              if f.initiated
              then some (record s { send_task = sending_header })
              else some (record (set_fork s op.fork (record f { initiated = true })) {
                send_task = sending_meta;
              })
          | _ ↦ some s
        ])
    at_task waiting_next = v
    at_task (woken_next false) = v
    at_task (woken_next true) = Every-bind CountOk (current_send s) _ (λ r h.
        Every-if CountOk (r.1).initiated _ _ (λ _. v)
          (λ _.
            set_fork-CountOk s (r.0).fork r.1 (record (r.1) { initiated = true }) v
              (current_send-some s r h) refl))
    at_task sending_meta = v
    at_task sending_header = v
    at_task sending_body = v
    at_task send_exited = v

send_done-CountOk : (x : Transfer) (s : Sched) → CountOk s → Every CountOk (send_done x s)
unfolding send_done
send_done-CountOk x s v = at_task s.send_task
  where
    at_task :
        (t : SendTask)
        → Every CountOk (elim t [
          | sending_meta ↦
              if fails (check x (header_size + control_size))
              then suspend_next true x.err (count_sent s x)
              else some (record (count_sent s x) { send_task = sending_header })
          | sending_header ↦
              if fails (check x header_size)
              then suspend_next true x.err (count_sent s x)
              else some (record (count_sent s x) { send_task = sending_body })
          | sending_body ↦ suspend_next true x.err (count_sent s x)
          | _ ↦ some s
        ])
    at_task waiting_next = v
    at_task (woken_next b) = v
    at_task sending_meta =
        Every-if CountOk (fails (check x (header_size + control_size))) _ _
          (λ _. suspend_next-CountOk true x.err (count_sent s x) v) (λ _. v)
    at_task sending_header =
        Every-if CountOk (fails (check x header_size)) _ _
          (λ _. suspend_next-CountOk true x.err (count_sent s x) v) (λ _. v)
    at_task sending_body = suspend_next-CountOk true x.err (count_sent s x) v
    at_task send_exited = v

step-CountOk : (s : Sched) (e : Event) → CountOk s → Every CountOk (step s e)
unfolding step close
step-CountOk s (recvs id buffer cb) v = recv-CountOk id buffer cb s v
step-CountOk s (sends id bs cb) v = send-CountOk id bs cb s v
step-CountOk s (forks id) v =
    Every-bind CountOk (fork id s) _
      (λ r h. subst (Every (λ r. CountOk r.1)) h (fork-CountOk id s v))
step-CountOk s closes v = cancel-CountOk Caller.extern (code Code.closed) s v
step-CountOk s (stops_recv b a i n) v = stop_recv-CountOk b a i n s v
step-CountOk s (stops_send b a n) v = stop_send-CountOk b a n s v
step-CountOk s recv_resumes v = resume_recv-CountOk s v
step-CountOk s send_resumes v = resume_send-CountOk s v
step-CountOk s (reads t) v = recv_done-CountOk t s v
step-CountOk s (writes t) v = send_done-CountOk t s v

run-Every : (es : List Event) (s : Sched) → CountOk s → Every CountOk (run es s)
unfolding run
run-Every [] s v = v
run-Every (e ∷ es) s v =
    Every-bind CountOk (step s e) _
      (λ t h. run-Every es t (subst (Every CountOk) h (step-CountOk s e v)))

-- Whatever the user calls or stops, the socket completes and the execution queue resumes, in any order: the
-- count of receives stays the number of receives that wait in all forks, unless an assertion fails.
pub run-CountOk : (es : List Event) (s s' : Sched) → CountOk s → run es s ≡ some s' → CountOk s'
run-CountOk es s s' v h = Every-some CountOk (run es s) s' (run-Every es s v) h

-- When the receive task completes the front receive of a fork, the count is not zero, so that the
-- assertion on it holds; the receive's callback is queued once, behind the others.
pub complete_prev-callback :
    (i : ℕ) (e : ErrorCode) (s : Sched) (f : SocketFork) (op : RecvOp) (rest : List RecvOp)
    → CountOk s
    → front_op s i ≡ some (f, op, rest)
    → (s' : Sched) × (complete_prev i e s ≡ some s')
      × (callbacks s'.ready ≡ callbacks s.ready ++ (op.callback ∷ []))
      × CountOk s'
unfolding complete_prev
complete_prev-callback i e s f op rest v h =
    let p = front_op-some s i (f, op, rest) h in
    let op' = if fails e then fail_recv op e else op in
    let counted : s.num_recvs ≢ 0 =
      omega (arith, total-set s.forks i f (record f { recv_ops = [] }) p.0, ap length p.1, v) in
    let same_callback : op'.callback ≡ op.callback = ground arith in
    (
      record (push_ready (set_fork s i (record f { recv_ops = rest }))
          (recv_ready f.executor op')) { num_recvs = s.num_recvs - 1 },
      rw (h, ne→== s.num_recvs 0 counted) refl,
      map-append (λ (r : Ready). r.callback) s.ready _
          ∙ ap (λ c. callbacks s.ready ++ (c ∷ [])) same_callback,
      omega (
        arith,
        total-set s.forks i f (record f { recv_ops = rest }) p.0,
        ap length p.1,
        v,
        counted,
      ),
    )
