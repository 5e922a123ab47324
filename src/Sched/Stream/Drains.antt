-- ===== src/Sched/Stream/Drains.antt =====
-- SocketScheduler.h, `makeSendTask`: the sends of the list go out, one after another.
use coproto.Prelude.{
  ◌≡◌, refl, ◌∙◌, inl, inr, true, false, some, List, [], ◌∷◌, arith, get_elem?-set_self, Bool-cases,
}
use coproto.ErrorCode.{fails}
use coproto.Sched.State.{
  Status, SendOp, SocketFork, waiting_next, woken_next, sending_meta, sending_header, Sched,
  set_fork,
}
use coproto.Sched.Send.{current_send, resume_send, start_next, is_not_started, start_op, count_sent}
use coproto.Sched.Stream.Writes.{full_write}
use coproto.Sched.Stream.Moves.{
  Reaches, Sendable, Queued, Reaches-refl, resumes-Reaches, completes-Reaches,
  current_send-Sendable, initiate-Queued, popped, at_header, at_body, header_step, meta_step,
  body_step,
}

-- The task has been woken for the first of the sends.
record Woken (s : Sched) (op : SendOp) (rest : List SendOp) : Type 0 where
  no_err : fails s.ec ≡ false
  task : s.send_task ≡ woken_next true
  sends : s.sends ≡ op ∷ rest
  started : is_not_started op.status ≡ false
  allowed : Sendable s.forks op
  queued : Queued s.forks rest

-- The task writes the header of the first of the sends.
record AtHeader (s : Sched) (op : SendOp) (rest : List SendOp) : Type 0 where
  no_err : fails s.ec ≡ false
  task : s.send_task ≡ sending_header
  sends : s.sends ≡ op ∷ rest
  fork : SocketFork
  current : current_send s ≡ some (op, fork)
  queued : Queued s.forks rest

-- From `s` the task gets wherever it gets from `t`.
abbrev Goes : Sched → Sched → Type 0
Goes s t = (u : Sched) → Reaches t u → Reaches s u

to_header :
    (s : Sched) (op : SendOp) (rest : List SendOp)
    → Woken s op rest
    → (t : Sched) × AtHeader t op rest × Goes s t
unfolding resume_send current_send
to_header s op rest w =
    let (f, at, l, a, b) = w.allowed in
    let c = current_send-Sendable s op rest f w.sends w.started at l a b in
    elim (Bool-cases f.initiated) [
      | inl n ↦ (
        at_header s,
        record {
          no_err = w.no_err;
          task = refl;
          sends = w.sends;
          fork = f;
          current = c;
          queued = w.queued;
        },
        λ u. resumes-Reaches s (at_header s) u (ground (arith, w.task, c, n)),
      )
      | inr n ↦
          let g : SocketFork = record f { initiated = true } in
          let m : Sched = record (set_fork s op.fork g) { send_task = sending_meta } in
          let c' : current_send m ≡ some (op, g) =
            current_send-Sendable m op rest g w.sends w.started
              (get_elem?-set_self s.forks op.fork g at) l a b in
          let t = at_header (count_sent m (full_write m)) in
          (
            t,
            record {
              no_err = w.no_err;
              task = refl;
              sends = w.sends;
              fork = g;
              current = c';
              queued = initiate-Queued s.forks op.fork f rest at w.queued;
            },
            λ u r.
                resumes-Reaches s m u (ground (arith, w.task, c, n))
                  (completes-Reaches m t u (meta_step m op g c' refl) r),
          )
    ]

-- The header and the body, and what `start_next` makes of the rest.
through_body :
    (s : Sched) (op : SendOp) (rest : List SendOp) (t : Sched)
    → AtHeader s op rest
    → start_next (popped (at_body s) op rest) ≡ some t
    → Goes s t
through_body s op rest t w e u r =
    completes-Reaches s (at_body s) u (header_step s op w.fork w.current w.task) (
      completes-Reaches (at_body s) t u (body_step (at_body s) op rest w.no_err w.sends refl ∙ e) r)

abbrev pub Drained : Sched → Type 0
Drained s = (t : Sched) × Reaches s t × (t.sends ≡ []) × (t.send_task ≡ waiting_next)

last_send : (s : Sched) (op : SendOp) → AtHeader s op [] → Drained s
unfolding start_next
last_send s op w =
    let t : Sched = record (popped (at_body s) op []) {
      send_status = Status.idle;
      send_task = waiting_next;
    } in
    (t, through_body s op [] t w refl t (Reaches-refl t), refl, refl)

next_send :
    (s : Sched) (op next : SendOp) (rest : List SendOp)
    → AtHeader s op (next ∷ rest)
    → (t : Sched) × Woken t (start_op next) rest × Goes s t
unfolding start_next
next_send s op next rest w =
    let (a, n, q) = w.queued in
    let t : Sched = record (popped (at_body s) op (next ∷ rest)) {
      sends = start_op next ∷ rest;
      send_task = woken_next true;
    } in
    (
      t,
      record {
        no_err = w.no_err;
        task = refl;
        sends = refl;
        started = refl;
        allowed = a;
        queued = q;
      },
      through_body s op (next ∷ rest) t w (rw n refl),
    )

drains : (rest : List SendOp) (s : Sched) (op : SendOp) → Woken s op rest → Drained s
drains [] s op w =
    let (h, v, g) = to_header s op [] w in let (t, r, e, k) = last_send h op v in (t, g t r, e, k)
drains (next ∷ rest) s op w =
    let (h, v, g) = to_header s op (next ∷ rest) w in
    let (m, x, j) = next_send h op next rest v in
    let (t, r, e, k) = drains rest m (start_op next) x in (t, g t (j t r), e, k)

-- The send task has been woken for the first of the sends, there is no error, and every send of the list
-- belongs to a fork with a slot and has a length that a header holds, the others not being started.
-- Then resumptions and complete writes alone lead to a task that waits with an empty list, with
-- no assertion failing on the way.
pub sends_drain :
    (s : Sched) (op : SendOp) (rest : List SendOp)
    → fails s.ec ≡ false
    → s.send_task ≡ woken_next true
    → s.sends ≡ op ∷ rest
    → is_not_started op.status ≡ false
    → Sendable s.forks op
    → Queued s.forks rest
    → Drained s
sends_drain s op rest v k p n a q =
    drains rest s op
      (record { no_err = v; task = k; sends = p; started = n; allowed = a; queued = q })
