-- ===== src/Sched/Stream/Delivers.antt =====
-- SocketScheduler.h, `send` and `makeSendTask`: what a run of the send task has written.
use mathlib.Core.Path.{subst}
use coproto.Prelude.{
  false, ℕ, ◌≡◌, refl, sym, ap, ap₂, ◌∙◌, inl, inr, some, List, [], ◌∷◌, ◌++◌, arith, append_assoc,
  Option-cases,
}
use coproto.ErrorCode.{fails}
use coproto.Sched.State.{waiting_next, Sched}
use coproto.Sched.Stream.{Message, frames, forks_after}
use coproto.Sched.Stream.Frames.{frames-append, forks_after-append}
use coproto.Sched.Stream.Writes.{
  Event, queues, resumes, completes, step, written, accepts, Trace, run, to_send, forks_then, OkAt,
  SendOk, Adds, quiet, resume-Adds,
}
use coproto.Sched.Stream.Completes.{completes-Adds}
use coproto.Sched.Stream.Queues.{queues-Adds}

step-Adds :
    (s t : Sched) (e : Event) → SendOk s → step s e ≡ some t → Adds s (written s e) (accepts s e) t
unfolding step written accepts
step-Adds s t (queues id bytes cb) v h = queues-Adds s t id bytes cb v h
step-Adds s t resumes v h = resume-Adds s t v h
step-Adds s t completes v h = completes-Adds s t v h

Adds-trans :
    (s t u : Sched) (out out' : List ℕ) (acc acc' : List Message)
    → Adds s out acc t
    → Adds t out' acc' u
    → Adds s (out ++ out') (acc ++ acc') u
Adds-trans s t u out out' acc acc' (v, b, f) (w, b', f') = (
  w,
  append_assoc out out' (to_send u)
      ∙ ap (◌++◌ out) b'
      ∙ sym (append_assoc out (to_send t) _)
      ∙ ap₂ (λ x fs. x ++ frames fs acc') b f
      ∙ append_assoc (to_send s) (frames (forks_then s) acc) _
      ∙ ap (◌++◌ (to_send s)) (sym (frames-append (forks_then s) acc acc')),
  f' ∙ ap (λ fs. forks_after fs acc') f ∙ sym (forks_after-append (forks_then s) acc acc'),
)

pub run-Adds :
    (es : List Event) (s : Sched) (r : Trace)
    → SendOk s
    → run es s ≡ some r
    → Adds s r.written r.accepted r.sched
unfolding run
run-Adds [] s r v h =
    subst (λ (q : Trace). Adds s q.written q.accepted q.sched)
      {x = record { sched = s; written = []; accepted = [] }} {y = r} (ground (arith, h))
      (quiet s s v refl refl)
run-Adds (e ∷ es) s r v h = elim (Option-cases (step s e)) [
  | inl n ↦ absurd (ground (arith, h, n))
  | inr (t, n) ↦ elim (Option-cases (run es t)) [
    | inl m ↦ absurd (ground (arith, h, n, m))
    | inr (q, m) ↦
        let a = step-Adds s t e v n in
        subst (λ (q : Trace). Adds s q.written q.accepted q.sched)
          {x = record q {
            written = written s e ++ q.written;
            accepted = accepts s e ++ q.accepted;
          }}
          {y = r} (ground (arith, h, n, m))
          (Adds-trans s t q.sched _ q.written _ q.accepted a (run-Adds es t q a.0 m))
  ]
]

-- Starts from a send task that waits with nothing queued and no error, and takes any sends, resumptions
-- and complete writes. What has been written, followed by what is still to be written for the sends
-- in the list, is the frames of the messages that `send` has accepted, in that order.
pub run-frames :
    (es : List Event) (s : Sched) (r : Trace)
    → fails s.ec ≡ false
    → s.send_task ≡ waiting_next
    → s.sends ≡ []
    → run es s ≡ some r
    → r.written ++ to_send r.sched ≡ frames s.forks r.accepted
run-frames es s r v k p h = (run-Adds es s r (v, subst (OkAt s) (sym k) tt) h).1 ∙ start s k p
  where
    start :
        (u : Sched)
        → u.send_task ≡ waiting_next
        → u.sends ≡ []
        → to_send u ++ frames (forks_then u) r.accepted ≡ frames u.forks r.accepted
    start u k p = rw (k, p) refl
