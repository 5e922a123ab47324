-- ===== src/Sched/Stream/Moves.antt =====
-- SocketScheduler.h, `makeSendTask`: one move of the task, for a send that its assertions allow.
use mathlib.Core.Path.{subst}
use coproto.Prelude.{
  ℕ, ◌≡◌, ◌≢◌, ◌<◌, ◌-◌, ◌+◌, refl, sym, ap, ◌∙◌, inl, inr, true, false, some, List, [], ◌∷◌, ◌++◌,
  arith, ◌==◌, get_elem?, get_elem?-set_self, get_elem?-set_ne, Bool-cases, if◌then◌else◌, length,
  ne→==, ==→eq, ==→ne, lt→ltb,
}
use coproto.Prelude.Word.{u32_mod}
use coproto.ErrorCode.{fails}
use coproto.Wire.{
  Header, header_bytes, meta_bytes, length-header_bytes, length-meta_bytes, header_size,
  control_size,
}
use coproto.Sched.State.{
  SendOp, SocketFork, sending_meta, sending_header, sending_body, Sched, no_id, push_ready,
}
use coproto.Sched.Cancel.{send_ready}
use coproto.Sched.Send.{
  current_send, resume_send, offered, send_done, complete_send, start_next, wait_next, suspend_next,
  is_not_started, count_sent,
}
use coproto.Sched.Stream.{initiate}
use coproto.Sched.Stream.Writes.{Event, resumes, completes, full_write, step, written, accepts, run}
use coproto.Sched.Stream.Completes.{full_write-check}

-- The events of the task itself lead from one scheduler to another.
abbrev pub Reaches : Sched → Sched → Type 0
Reaches s t =
    (es : List Event) × (w : List ℕ) × (run es s
      ≡ some (record { sched = t; written = w; accepted = [] }))

-- A send that the assertions of the task allow.
abbrev pub Sendable : List SocketFork → SendOp → Type 0
Sendable fs op =
    (f : SocketFork) × (get_elem? fs op.fork ≡ some f)
    × (f.local_id ≢ no_id)
    × (0 < length op.bytes)
    × (length op.bytes < u32_mod - 1)

abbrev pub Queued : List SocketFork → List SendOp → Type 0
Queued fs [] = Unit {0}
Queued fs (op ∷ ops) = Sendable fs op × (is_not_started op.status ≡ true) × Queued fs ops

pub Reaches-refl : (s : Sched) → Reaches s s
unfolding run
Reaches-refl s = ([], [], refl)

pub resumes-Reaches : (s t u : Sched) → resume_send s ≡ some t → Reaches t u → Reaches s u
unfolding run step written accepts
resumes-Reaches s t u e (es, w, h) = (resumes ∷ es, w, rw (e, h) refl)

pub completes-Reaches :
    (s t u : Sched) → send_done (full_write s) s ≡ some t → Reaches t u → Reaches s u
unfolding run step written accepts
completes-Reaches s t u e (es, w, h) = (completes ∷ es, offered s ++ w, rw (e, h) refl)

pub current_send-Sendable :
    (s : Sched) (op : SendOp) (rest : List SendOp) (f : SocketFork)
    → s.sends ≡ op ∷ rest
    → is_not_started op.status ≡ false
    → get_elem? s.forks op.fork ≡ some f
    → f.local_id ≢ no_id
    → 0 < length op.bytes
    → length op.bytes < u32_mod - 1
    → current_send s ≡ some (op, f)
unfolding current_send
current_send-Sendable s op rest f p n e l a b = ground (
  arith,
  p,
  n,
  e,
  ne→== f.local_id no_id l,
  ne→== (length op.bytes) 0 (omega arith),
  lt→ltb _ _ b,
)

-- Naming a fork leaves the sends as they are allowed.
pub initiate-Sendable :
    (fs : List SocketFork) (i : ℕ) (f : SocketFork) (op : SendOp)
    → get_elem? fs i ≡ some f
    → Sendable fs op
    → Sendable (initiate fs i f) op
initiate-Sendable fs i f op e (g, at, l, a, b) = elim (Bool-cases (i == op.fork)) [
  | inl p ↦
      let q : i ≡ op.fork = ==→eq _ _ p in
      let h : SocketFork = record f { initiated = true } in
      let same : f ≡ g = ground (arith, e, at, ap (get_elem? fs) q) in
      (
        h,
        subst (λ j. get_elem? (initiate fs i f) j ≡ some h) q (get_elem?-set_self fs i h e),
        subst (λ (g : SocketFork). g.local_id ≢ no_id) (sym same) l,
        a,
        b,
      )
  | inr p ↦
      (g, get_elem?-set_ne fs i op.fork (record f { initiated = true }) (==→ne _ _ p) ∙ at, l, a, b)
]

pub initiate-Queued :
    (fs : List SocketFork) (i : ℕ) (f : SocketFork) (ops : List SendOp)
    → get_elem? fs i ≡ some f
    → Queued fs ops
    → Queued (initiate fs i f) ops
initiate-Queued fs i f [] e v = tt
initiate-Queued fs i f (op ∷ ops) e (a, b, c) =
    (initiate-Sendable fs i f op e a, b, initiate-Queued fs i f ops e c)

-- The scheduler once its first send has been written and handed to its callback.
abbrev pub popped : Sched → SendOp → List SendOp → Sched
popped s op rest =
    let s' = count_sent s (full_write s) in
    record (push_ready s' (send_ready s' op)) {
      sends = rest;
      last_erased = if length rest == 0 then false else s.last_erased;
    }

abbrev pub at_header : Sched → Sched
at_header s = record s { send_task = sending_header }

abbrev pub at_body : Sched → Sched
at_body s = record (count_sent s (full_write s)) { send_task = sending_body }

pub header_step :
    (s : Sched) (op : SendOp) (f : SocketFork)
    → current_send s ≡ some (op, f)
    → s.send_task ≡ sending_header
    → send_done (full_write s) s ≡ some (at_body s)
unfolding send_done offered current_send
header_step s op f c k =
    let h : Header = record { size = length op.bytes; fork_id = f.local_id } in
    let o : offered s ≡ header_bytes h = rw (c, k, offered) refl in
    let p = full_write-check s header_size (ap length o ∙ length-header_bytes h) in
    ground (arith, k, p)

pub meta_step :
    (s : Sched) (op : SendOp) (f : SocketFork)
    → current_send s ≡ some (op, f)
    → s.send_task ≡ sending_meta
    → send_done (full_write s) s ≡ some (at_header (count_sent s (full_write s)))
unfolding send_done offered current_send
meta_step s op f c k =
    let o : offered s ≡ meta_bytes f.local_id f.session_id = rw (c, k, offered) refl in
    let p =
      full_write-check s (header_size + control_size)
        (ap length o ∙ length-meta_bytes f.local_id f.session_id) in
    ground (arith, k, p)

pub body_step :
    (s : Sched) (op : SendOp) (rest : List SendOp)
    → fails s.ec ≡ false
    → s.sends ≡ op ∷ rest
    → s.send_task ≡ sending_body
    → send_done (full_write s) s ≡ start_next (popped s op rest)
unfolding send_done suspend_next complete_send wait_next
body_step s op rest v q k = ground (arith, k, q, v)
