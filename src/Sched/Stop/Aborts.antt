-- ===== src/Sched/Stop/Aborts.antt =====
-- SocketScheduler.h and SocketScheduler.cpp: what a stop request does to an operation.
use coproto.Prelude.{
  ℕ, zero, suc, ◌+◌, ◌-◌, ◌≡◌, ◌≢◌, refl, ◌⊎◌, inl, inr, Bool, true, some, List, [], ◌∷◌, ◌++◌,
  arith, if◌then◌else◌, length, get_elem?, set, remove_at, length-set, Option-cases,
  get_elem?-set_self,
}
use coproto.ErrorCode.{Code, code}
use coproto.Buffers.{set_error}
use coproto.Sched.State.{OpStatus, RecvOp, SocketFork, Sched, received, set_fork, push_ready}
use coproto.Sched.Cancel.{recv_ready, fail_recv}
use coproto.Sched.Count.{CountOk, total-set, Every}
use coproto.Sched.Stop.{stop_recv, stop_send, aborted}

length-remove_at :
    {A : Type 0} (xs : List A) (n : ℕ) (a : A)
    → get_elem? xs n ≡ some a
    → length (remove_at n xs) + 1 ≡ length xs
length-remove_at [] n a e = cc
length-remove_at (x ∷ xs) zero a e = omega arith
length-remove_at (x ∷ xs) (suc n) a e = omega (arith, length-remove_at xs n a e)

pub stop_recv-CountOk :
    (b a : Bool) (i n : ℕ) (s : Sched) → CountOk s → Every CountOk (stop_recv b a i n s)
unfolding stop_recv
stop_recv-CountOk b a i n s v = elim (Option-cases (get_elem? s.forks i)) [
  | inl e ↦ ground (arith, e)
  | inr (f, e) ↦ elim (Option-cases (get_elem? f.recv_ops n)) [
    | inl h ↦ ground (arith, e, h)
    | inr (op, h) ↦ ground (
      arith,
      v,
      e,
      h,
      length-remove_at f.recv_ops n op h,
      length-set f.recv_ops n (record op { status = OpStatus.canceling }),
      total-set s.forks i f (record f { recv_ops = remove_at n f.recv_ops }) e,
      total-set s.forks i f
          (record f { recv_ops = set f.recv_ops n (record op { status = OpStatus.canceling }) }) e,
    )
  ]
]

pub stop_send-CountOk :
    (b a : Bool) (n : ℕ) (s : Sched) → CountOk s → Every CountOk (stop_send b a n s)
unfolding stop_send
stop_send-CountOk b a n s v = elim (Option-cases (get_elem? s.sends n)) [
  | inl e ↦ ground (arith, e)
  | inr (op, e) ↦ ground (arith, v, e)
]

status_cases :
    (st : OpStatus)
    → (st ≡ OpStatus.not_started) ⊎ ((st ≡ OpStatus.in_progress) ⊎ (st ≡ OpStatus.canceling))
status_cases OpStatus.not_started = inl refl
status_cases OpStatus.in_progress = inr (inl refl)
status_cases OpStatus.canceling = inr (inr refl)

-- A stop request for a receive that is not canceling already: one that has not been started, and that
-- `erase` can take out of its queue, is completed: its callback is queued once, behind the others and
-- with `operation_aborted` in its buffer; the fork keeps its other receives in their order and the count
-- goes down by one. For one in progress nothing is queued and the count stays; the scheduler's stop
-- source is signalled if a new stop source can be stopped. The count was right before and is after.
pub stop_recv_lem :
    (b a : Bool) (i n : ℕ) (s : Sched) (f : SocketFork) (op : RecvOp)
    → CountOk s
    → get_elem? s.forks i ≡ some f
    → get_elem? f.recv_ops n ≡ some op
    → op.status ≢ OpStatus.canceling
    → (op.status ≡ OpStatus.not_started → a ≡ true)
    → (t : Sched) × (stop_recv b a i n s ≡ some t)
      × CountOk t
      × (((op.status ≡ OpStatus.not_started)
            × (t.ready
                ≡ s.ready
                  ++ (record {
                    callback = op.callback;
                    executor = f.executor;
                    outcome = received (set_error op.buffer (code Code.operation_aborted));
                  }
                      ∷ []))
            × (get_elem? t.forks i ≡ some (record f { recv_ops = remove_at n f.recv_ops }))
            × (t.num_recvs + 1 ≡ s.num_recvs)
            × (t.recv_stop ≡ s.recv_stop))
          ⊎ ((op.status ≡ OpStatus.in_progress)
              × (t.ready ≡ s.ready)
              × (t.num_recvs ≡ s.num_recvs)
              × (t.recv_stop ≡ (if b then true else s.recv_stop))))
unfolding stop_recv
stop_recv_lem b a i n s f op v e h ne g = elim (status_cases op.status) [
  | inl k ↦
      let f' : SocketFork = record f { recv_ops = remove_at n f.recv_ops } in
      let l = length-remove_at f.recv_ops n op h in
      let d = total-set s.forks i f f' e in
      (
        record (push_ready (set_fork s i f') (recv_ready f.executor (fail_recv op aborted))) {
          num_recvs = s.num_recvs - 1;
        },
        ground (arith, e, h, k, g k),
        omega (arith, v, l, d),
        inl (k, refl, get_elem?-set_self s.forks i f' e, omega (arith, v, l, d), refl),
      )
  | inr (inl k) ↦
      let g : SocketFork = record f {
        recv_ops = set f.recv_ops n (record op { status = OpStatus.canceling });
      } in
      (
        record (set_fork s i g) { recv_stop = if b then true else s.recv_stop },
        ground (arith, e, h, k),
        omega (
          arith,
          v,
          total-set s.forks i f g e,
          length-set f.recv_ops n (record op { status = OpStatus.canceling }),
        ),
        inr (k, refl, refl, refl),
      )
  | inr (inr k) ↦ absurd (ne k)
]
