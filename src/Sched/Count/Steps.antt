-- ===== src/Sched/Count/Steps.antt =====
-- SocketScheduler.h: `mNumRecvs` under the steps of the receive task and the table of forks.
use mathlib.Core.Path.{subst}
use coproto.Prelude.{
  ℕ, ◌+◌, ◌≡◌, refl, sym, ap, inl, inr, ◌||◌, ◌&&◌, Option, none, some, List, [], ◌∷◌, ◌++◌, arith,
  ◌==◌, if◌then◌else◌, ◌>>=◌, length, get_elem?, set, length-append, Option-cases, ==→ne, is_some,
}
use coproto.ErrorCode.{ErrorCode, Code, code, fails}
use coproto.SessionId.{SessionId, same, derive}
use coproto.Wire.{read_header, get_session_id}
use coproto.Buffers.{RecvBuffer, as_span}
use coproto.Sched.State.{
  RecvOp, SocketFork, Caller, RecvTask, waiting_any, woken_any, reading_header, reading_meta,
  waiting_fork, woken_fork, reading_body, recv_exited, Sched, set_fork, no_id,
}
use coproto.Sched.Cancel.{cancel, cancel_code}
use coproto.Sched.Table.{
  find_id, find_remote, get_local, new_fork, add_fork, assign_local, init_local, assign_remote,
  init_remote, fork,
}
use coproto.Sched.Recv.{
  is_idle, is_requested, in_progress, start_recv, recv, front_op, complete_prev, wait_any,
  suspend_any, start_front, get_requested, took_header, took_meta, took_body, got_op,
}
use coproto.Sched.Count.{
  Every, Every-bind, Every-if, total, CountOk, total-set, total-append, set_fork-CountOk,
  cancel-CountOk,
}

-- The front operation of a fork is the first of its queue.
pub front_op-some :
    (s : Sched) (i : ℕ) (r : SocketFork × RecvOp × List RecvOp)
    → front_op s i ≡ some r
    → (get_elem? s.forks i ≡ some r.0) × ((r.0).recv_ops ≡ r.1 ∷ r.2)
unfolding front_op
front_op-some s i r e = elim (Option-cases (get_elem? s.forks i)) [
  | inl n ↦ absurd (ground (arith, e, n))
  | inr (f, h) ↦ ground (arith, e, h)
]

-- A queued receive is counted.
append-CountOk :
    (s : Sched) (i : ℕ) (f : SocketFork) (op : RecvOp)
    → CountOk s
    → get_elem? s.forks i ≡ some f
    → s.num_recvs + 1 ≡ total (set s.forks i (record f { recv_ops = f.recv_ops ++ (op ∷ []) }))
append-CountOk s i f op v e = omega (
  arith,
  total-set s.forks i f (record f { recv_ops = f.recv_ops ++ (op ∷ []) }) e,
  length-append f.recv_ops (op ∷ []),
)

start_recv-CountOk :
    (s : Sched) (i : ℕ) (f : SocketFork) (op : RecvOp) (t : RecvTask)
    → CountOk s
    → get_elem? s.forks i ≡ some f
    → Every CountOk (start_recv s i f op t)
unfolding start_recv
start_recv-CountOk s i f op waiting_any v e =
    Every-if CountOk (is_idle s.recv_status) _ _ (λ _. append-CountOk s i f (in_progress op) v e)
      (λ _. tt)
start_recv-CountOk s i f op (waiting_fork n slot) v e =
    Every-if CountOk (f.remote_id == slot) _ _
      (λ _.
        Every-if CountOk (is_requested s.recv_status && (length f.recv_ops == 0)) _ _
          (λ _. append-CountOk s i f (in_progress op) v e) (λ _. tt))
      (λ _. append-CountOk s i f op v e)
start_recv-CountOk s i f op (woken_any x) v e = append-CountOk s i f op v e
start_recv-CountOk s i f op reading_header v e = append-CountOk s i f op v e
start_recv-CountOk s i f op (reading_meta x) v e = append-CountOk s i f op v e
start_recv-CountOk s i f op (woken_fork x y) v e = append-CountOk s i f op v e
start_recv-CountOk s i f op (reading_body x y) v e = append-CountOk s i f op v e
start_recv-CountOk s i f op recv_exited v e = append-CountOk s i f op v e

pub recv-CountOk :
    (id : SessionId) (b : RecvBuffer) (cb : ℕ) (s : Sched)
    → CountOk s
    → Every CountOk (recv id b cb s)
unfolding recv
recv-CountOk id b cb s v = Every-bind CountOk (get_local id s) _ (λ i _.
    Every-bind CountOk (get_elem? s.forks i) _ (λ f e.
      Every-if CountOk (fails s.ec) _ _ (λ _. v) (λ _. start_recv-CountOk s i f _ s.recv_task v e)))

complete_prev-CountOk :
    (i : ℕ) (e : ErrorCode) (s : Sched) → CountOk s → Every CountOk (complete_prev i e s)
unfolding complete_prev
complete_prev-CountOk i e s v = Every-bind CountOk (front_op s i) _ (λ r h.
    let p = front_op-some s i r h in
    Every-if CountOk (s.num_recvs == 0) _ _ (λ _. tt)
      (λ n. omega (
        arith,
        total-set s.forks i r.0 (record (r.0) { recv_ops = r.2 }) p.0,
        ap length p.1,
        v,
        ==→ne s.num_recvs 0 n,
      )))

wait_any-CountOk : (e : ErrorCode) (s : Sched) → CountOk s → Every CountOk (wait_any e s)
unfolding wait_any
wait_any-CountOk e s v =
    Every-if CountOk (fails e || fails s.ec) _ _
      (λ _. cancel-CountOk Caller.recver e (record s { recv_task = woken_any cancel_code }) v)
      (λ _. Every-if CountOk (s.num_recvs == 0) _ _ (λ _. v) (λ _. v))

pub suspend_any-CountOk :
    (o : Option ℕ) (e : ErrorCode) (s : Sched) → CountOk s → Every CountOk (suspend_any o e s)
unfolding suspend_any
suspend_any-CountOk none e s v = wait_any-CountOk e s v
suspend_any-CountOk (some i) e s v = Every-bind CountOk (complete_prev i e s) _ (λ t h.
    wait_any-CountOk (if fails e then cancel_code else e) t
      (subst (Every CountOk) h (complete_prev-CountOk i e s v)))

-- The front operation is replaced by another.
front-CountOk :
    (s : Sched) (i : ℕ) (r : SocketFork × RecvOp × List RecvOp) (op : RecvOp)
    → CountOk s
    → front_op s i ≡ some r
    → CountOk (set_fork s i (record (r.0) { recv_ops = op ∷ r.2 }))
front-CountOk s i r op v h =
    let p = front_op-some s i r h in
    set_fork-CountOk s i r.0 (record (r.0) { recv_ops = op ∷ r.2 }) v p.0 (sym (ap length p.1))

pub got_op-CountOk : (n i : ℕ) (s : Sched) → CountOk s → Every CountOk (got_op n i s)
unfolding got_op
got_op-CountOk n i s v = Every-bind CountOk (front_op s i) _ (λ r h.
    let w = front-CountOk s i r (record (r.1) { buffer = (as_span (r.1).buffer n).0 }) v h in
    Every-if CountOk ((as_span (r.1).buffer n).1 == n) _ _ (λ _. w)
      (λ _. suspend_any-CountOk (some i) (code Code.bad_buffer_size) _ w))

pub took_body-CountOk :
    (i : ℕ) (bs : List ℕ) (s : Sched) → CountOk s → Every CountOk (took_body i bs s)
unfolding took_body
took_body-CountOk i bs s v = Every-bind CountOk (front_op s i) _ (λ r h. front-CountOk s i r _ v h)

get_requested-CountOk :
    (n slot : ℕ) (s : Sched) → CountOk s → Every CountOk (get_requested n slot s)
unfolding get_requested start_front
get_requested-CountOk n slot s v = by_lookup (find_remote slot s.remote_map) refl
  where
    by_lookup :
        (o : Option ℕ) → find_remote slot s.remote_map ≡ o → Every CountOk (get_requested n slot s)
    by_lookup none e =
        rw (e, Every)
          (Every-bind CountOk (cancel Caller.recver (code Code.bad_coproto_message_header) s) _
            (λ t h. subst (Every CountOk) h (cancel-CountOk Caller.recver _ s v)))
    by_lookup (some i) e =
        rw (e, Every)
          (Every-if CountOk (fails s.ec) _ _ (λ _. v)
            (λ _. Every-bind CountOk (get_elem? s.forks i) _ (λ f _.
              Every-if CountOk (length f.recv_ops == 0) _ _ (λ _. v)
                (λ _. Every-bind CountOk (start_front i s) _ (λ t h.
                  subst (Every CountOk) h
                    (Every-bind CountOk (front_op s i) _ (λ r g. front-CountOk s i r _ v g)))))))

add_fork-CountOk : (id : SessionId) (s : Sched) → CountOk s → CountOk (add_fork id s)
unfolding add_fork new_fork
add_fork-CountOk id s v = omega (arith, total-append s.forks (new_fork id))

assign_remote-CountOk :
    (s : Sched) (slot : ℕ) (id : SessionId) (i : ℕ)
    → CountOk s
    → Every (λ r. CountOk r.1) (assign_remote s slot id i)
unfolding assign_remote
assign_remote-CountOk s slot id i v =
    Every-bind (λ r. CountOk r.1) (get_elem? s.forks i) _
      (λ f e.
        Every-if (λ r. CountOk r.1) (f.remote_id == no_id) _ _
          (λ _.
            Every-if (λ r. CountOk r.1) (same f.session_id id) _ _
              (λ _.
                Every-if (λ r. CountOk r.1) (is_some (find_remote slot s.remote_map)) _ _ (λ _. tt)
                  (λ _. set_fork-CountOk s i f (record f { remote_id = slot }) v e refl))
              (λ _. tt))
          (λ _. v))

init_remote-CountOk :
    (slot : ℕ) (id : SessionId) (s : Sched)
    → CountOk s
    → Every (λ r. CountOk r.1) (init_remote slot id s)
unfolding init_remote
init_remote-CountOk slot id s v =
    Every-if (λ r. CountOk r.1) (slot == no_id) _ _ (λ _. v) (λ _. by_lookup (find_id id s.id_map))
  where
    by_lookup :
        (o : Option ℕ)
        → Every
            (λ r. CountOk r.1)
            (elim o [
              | none ↦ assign_remote (add_fork id s) slot id (length s.forks)
              | some i ↦ assign_remote s slot id i
            ])
    by_lookup none =
        assign_remote-CountOk (add_fork id s) slot id (length s.forks) (add_fork-CountOk id s v)
    by_lookup (some i) = assign_remote-CountOk s slot id i v

assign_local-CountOk :
    (s : Sched) (ex : Option ℕ) (i : ℕ) → CountOk s → Every CountOk (assign_local s ex i)
unfolding assign_local
assign_local-CountOk s ex i v =
    Every-bind CountOk (get_elem? s.forks i) _
      (λ f e. set_fork-CountOk s i f (record f { local_id = s.next_local; executor = ex }) v e refl)

init_local-CountOk :
    (id : SessionId) (ex : Option ℕ) (s : Sched) → CountOk s → Every CountOk (init_local id ex s)
unfolding init_local
init_local-CountOk id ex s v = by_lookup (find_id id s.id_map)
  where
    by_lookup :
        (o : Option ℕ)
        → Every CountOk (elim o [
          | none ↦ assign_local (add_fork id s) ex (length s.forks)
          | some i ↦
              get_elem? s.forks i >>= λ f. if f.local_id == no_id then assign_local s ex i else none
        ])
    by_lookup none =
        assign_local-CountOk (add_fork id s) ex (length s.forks) (add_fork-CountOk id s v)
    by_lookup (some i) = Every-bind CountOk (get_elem? s.forks i) _ (λ f _.
        Every-if CountOk (f.local_id == no_id) _ _ (λ _. assign_local-CountOk s ex i v) (λ _. tt))

pub fork-CountOk : (id : SessionId) (s : Sched) → CountOk s → Every (λ r. CountOk r.1) (fork id s)
unfolding fork
fork-CountOk id s v =
    Every-bind (λ r. CountOk r.1) (get_local id s) _
      (λ i _.
        Every-bind (λ r. CountOk r.1) (get_elem? s.forks i) _
          (λ f e.
            let t = set_fork s i (record f { session_id = (derive f.session_id).1 }) in
            Every-bind (λ r. CountOk r.1) (init_local (derive f.session_id).0 f.executor t) _
              (λ u h. subst (Every CountOk) h (
                init_local-CountOk (derive f.session_id).0 f.executor t (
                  set_fork-CountOk s i f (record f { session_id = (derive f.session_id).1 }) v e
                    refl)))))

pub took_meta-CountOk :
    (slot : ℕ) (bs : List ℕ) (s : Sched) → CountOk s → Every CountOk (took_meta slot bs s)
unfolding took_meta
took_meta-CountOk slot bs s v =
    Every-bind CountOk (init_remote slot (get_session_id bs) s) _ (λ r h.
      let w : CountOk r.1 =
        subst (Every (λ r. CountOk r.1)) h (init_remote-CountOk slot (get_session_id bs) s v) in
      Every-if CountOk (fails r.0) _ _ (λ _. suspend_any-CountOk none r.0 r.1 w) (λ _. w))

pub took_header-CountOk : (bs : List ℕ) (s : Sched) → CountOk s → Every CountOk (took_header bs s)
unfolding took_header
took_header-CountOk bs s v =
    Every-if CountOk ((read_header bs).size == 0) _ _ (λ _. v)
      (λ _. get_requested-CountOk (read_header bs).size (read_header bs).fork_id s v)
