-- ===== src/Sched/Stream/Writes.antt =====
-- SocketScheduler.h, `send` and `makeSendTask`: what the send task writes while no write fails.
use mathlib.Core.Path.{subst}
use coproto.Prelude.{
  ℕ, ◌≡◌, refl, sym, ap, ◌∙◌, inl, inr, true, false, Option, none, some, List, [], ◌∷◌, ◌++◌, arith,
  ◌==◌, append-nil, get_elem?, get_elem?-set_self, Option-cases, Bool-cases, if◌then◌else◌, ◌>>=◌,
  length,
}
use coproto.ErrorCode.{fails, no_error}
use coproto.SessionId.{SessionId}
use coproto.Wire.{meta_bytes}
use coproto.Sched.State.{
  SendOp, SocketFork, SendTask, waiting_next, woken_next, sending_meta, sending_header,
  sending_body, send_exited, Sched, set_fork,
}
use coproto.Sched.Table.{get_local}
use coproto.Sched.Recv.{Transfer}
use coproto.Sched.Send.{send, current_send, resume_send, offered, send_done}
use coproto.Sched.Stream.{Message, message_of, messages, data_frame, frames, forks_after}
use coproto.Sched.Stream.Frames.{frames-cons, frames-named}

-- What can happen to the send task: a send is queued, the task is resumed, or the socket completes its
-- write in full.
pub data Event : Type 0 where
  queues : SessionId → List ℕ → ℕ → Event
  resumes completes : Event

abbrev pub full_write : Sched → Transfer
full_write s = record { err = no_error; bytes = offered s }

unfoldable pub step : Sched → Event → Option Sched
unfolding send resume_send send_done offered
step s (queues id bytes cb) = send id bytes cb s
step s resumes = resume_send s
step s completes = send_done (full_write s) s

-- The bytes that an event writes, and the messages that it accepts.
unfoldable pub written : Sched → Event → List ℕ
unfolding offered
written s completes = offered s
written s _ = []

unfoldable pub accepts : Sched → Event → List Message
unfolding get_local
accepts s (queues id bytes cb) =
    if length bytes == 0
    then []
    else elim (get_local id s) [ none ↦ [] | some i ↦ record { fork = i; bytes = bytes } ∷ [] ]
accepts s _ = []

pub record Trace : Type 0 where
  pub sched : Sched
  pub written : List ℕ
  pub accepted : List Message

unfoldable pub run : List Event → Sched → Option Trace
unfolding step written accepts
run [] s = some (record { sched = s; written = []; accepted = [] })
run (e ∷ es) s = step s e >>= λ t. run es t >>= λ r.
    some (record r { written = written s e ++ r.written; accepted = accepts s e ++ r.accepted })

-- The bytes that are still to be written for the sends in the list.
abbrev pub to_send : Sched → List ℕ
to_send s = elim s.send_task [
  | sending_meta ↦ offered s ++ frames s.forks (messages s.sends)
  | sending_body ↦ elim s.sends [ [] ↦ [] | op ∷ rest ↦ op.bytes ++ frames s.forks (messages rest) ]
  | _ ↦ frames s.forks (messages s.sends)
]

abbrev pub forks_then : Sched → List SocketFork
forks_then s = forks_after s.forks (messages s.sends)

-- While the task writes, the first send is started and its fork has been named.
abbrev pub Writing : Sched → Type 0
Writing s =
    (op : SendOp) × (f : SocketFork) × (current_send s ≡ some (op, f)) × (f.initiated ≡ true)

abbrev pub OkAt : Sched → SendTask → Type 0
OkAt s sending_meta = Writing s
OkAt s sending_header = Writing s
OkAt s sending_body = Writing s
OkAt s _ = Unit {0}

abbrev pub SendOk : Sched → Type 0
SendOk s = (fails s.ec ≡ false) × OkAt s s.send_task

-- What an event adds to the bytes.
abbrev pub Adds : Sched → List ℕ → List Message → Sched → Type 0
Adds s out acc t =
    SendOk t
    × (out ++ to_send t ≡ to_send s ++ frames (forks_then s) acc)
    × (forks_then t ≡ forks_after (forks_then s) acc)

pub current_send-some :
    (s : Sched) (op : SendOp) (f : SocketFork)
    → current_send s ≡ some (op, f)
    → (rest : List SendOp) × (s.sends ≡ op ∷ rest) × (get_elem? s.forks op.fork ≡ some f)
unfolding current_send
current_send-some s op f e = by_sends s.sends refl
  where
    by_sends :
        (ops : List SendOp)
        → s.sends ≡ ops
        → (rest : List SendOp) × (s.sends ≡ op ∷ rest) × (get_elem? s.forks op.fork ≡ some f)
    by_sends [] h = absurd (ground (arith, e, h))
    by_sends (o ∷ rest) h =
        let z : (o ≡ op) × (get_elem? s.forks op.fork ≡ some f) = ground (arith, e, h) in
        (rest, h ∙ ap (λ o. o ∷ rest) z.0, z.1)

pub to_send-body :
    (s : Sched) (op : SendOp) (rest : List SendOp)
    → s.send_task ≡ sending_body
    → s.sends ≡ op ∷ rest
    → to_send s ≡ op.bytes ++ frames s.forks (messages rest)
to_send-body s op rest k q = rw (k, q) refl

-- An event that writes and accepts nothing, and leaves the same to be written.
pub quiet :
    (s t : Sched) → SendOk t → to_send t ≡ to_send s → forks_then t ≡ forks_then s → Adds s [] [] t
quiet s t v e f = (v, e ∙ sym (append-nil (to_send s)), f)

-- The task starts on an operation of a fork that has been named.
resume_named :
    (s : Sched) (op : SendOp) (f : SocketFork)
    → SendOk s
    → s.send_task ≡ woken_next true
    → current_send s ≡ some (op, f)
    → f.initiated ≡ true
    → Adds s [] [] (record s { send_task = sending_header })
unfolding current_send
resume_named s op f v k c n =
    quiet s (record s { send_task = sending_header }) (v.0, (op, f, c, n)) (ground (arith, k)) refl

to_send-woken :
    (s : Sched) → s.send_task ≡ woken_next true → frames s.forks (messages s.sends) ≡ to_send s
to_send-woken s k = rw k refl

resume_new :
    (s : Sched) (op : SendOp) (f : SocketFork)
    → SendOk s
    → s.send_task ≡ woken_next true
    → current_send s ≡ some (op, f)
    → f.initiated ≡ false
    → Adds s [] []
        (record (set_fork s op.fork (record f { initiated = true })) { send_task = sending_meta })
unfolding current_send offered
resume_new s op f v k c n =
    let (rest, p, at) = current_send-some s op f c in
    let g : SocketFork = record f { initiated = true } in
    let t : Sched = record (set_fork s op.fork g) { send_task = sending_meta } in
    let at' : get_elem? t.forks op.fork ≡ some g = get_elem?-set_self s.forks op.fork g at in
    let c' : current_send t ≡ some (op, g) = ground (arith, c, p, at, at') in
    let w = frames-cons s.forks (message_of op) (messages rest) f at in
    let w' = frames-named t.forks (message_of op) (messages rest) g at' refl in
    let ms = messages s.sends in
    let z : ms ≡ message_of op ∷ messages rest = ap messages p in
    let meta = meta_bytes f.local_id f.session_id in
    let o : offered t ≡ meta = rw (c', offered) refl in
    let old : frames s.forks ms ≡ meta ++ frames t.forks ms =
      ap (frames s.forks) z
      ∙ w.0
      ∙ ap
          (λ b.
            (if b then [] else meta) ++ (data_frame f op.bytes ++ frames t.forks (messages rest)))
          n
      ∙ ap (◌++◌ meta) (sym (ap (frames t.forks) z ∙ w'.0)) in
    let after : forks_after s.forks ms ≡ forks_after t.forks ms =
      ap (forks_after s.forks) z ∙ w.1 ∙ sym (ap (forks_after t.forks) z ∙ w'.1) in
    quiet s t (v.0, (op, g, c', refl))
      (ap (λ x. x ++ frames t.forks ms) o ∙ sym old ∙ to_send-woken s k) (sym after)

pub resume-Adds : (s t : Sched) → SendOk s → resume_send s ≡ some t → Adds s [] [] t
unfolding resume_send
resume-Adds s t v e = by_task s.send_task refl
  where
    at : (u : Sched) → t ≡ u → Adds s [] [] u → Adds s [] [] t
    at u h = subst (Adds s [] []) (sym h)

    by_task : (k : SendTask) → s.send_task ≡ k → Adds s [] [] t
    by_task (woken_next false) k =
        let u : Sched = record s { send_task = send_exited } in
        at u (ground (arith, e, k)) (quiet s u (v.0, tt) (rw k refl) refl)
    by_task (woken_next true) k = elim (Option-cases (current_send s)) [
      | inl c ↦ absurd (ground (arith, e, k, c))
      | inr ((op, f), c) ↦ elim (Bool-cases f.initiated) [
        | inl n ↦
            at (record s { send_task = sending_header }) (ground (arith, e, k, c, n))
              (resume_named s op f v k c n)
        | inr n ↦
            at
              (record (set_fork s op.fork (record f { initiated = true })) {
                send_task = sending_meta;
              })
              (ground (arith, e, k, c, n)) (resume_new s op f v k c n)
      ]
    ]
    by_task waiting_next k = at s (ground (arith, e, k)) (quiet s s v refl refl)
    by_task sending_meta k = at s (ground (arith, e, k)) (quiet s s v refl refl)
    by_task sending_header k = at s (ground (arith, e, k)) (quiet s s v refl refl)
    by_task sending_body k = at s (ground (arith, e, k)) (quiet s s v refl refl)
    by_task send_exited k = at s (ground (arith, e, k)) (quiet s s v refl refl)
