-- ===== src/Sched/Stream/Exchanged.antt =====
-- SocketScheduler.h, `send` and `makeSendTask`, and a reader at the other end of the socket.
use mathlib.Core.Path.{subst}
use mathlib.Core.List.{map}
use coproto.Prelude.{
  ℕ, ◌≡◌, ◌<◌, ◌+◌, refl, sym, ap, ◌∙◌, inl, inr, false, some, List, [], ◌++◌, arith, append-nil,
  get_elem?, get_elem?-map, length,
}
use coproto.Prelude.Word.{u64_mod}
use coproto.ErrorCode.{fails}
use coproto.Sched.State.{
  SocketFork, Sched, SendTask, waiting_next, woken_next, sending_meta, sending_header, sending_body,
  send_exited,
}
use coproto.Sched.Table.Invariant.{TableOk, key}
use coproto.Sched.Stream.{frames, decode}
use coproto.Sched.Stream.Writes.{
  Event, Trace, run, to_send, OkAt, SendOk, Writing, current_send-some,
}
use coproto.Sched.Stream.Delivers.{run-frames, run-Adds}
use coproto.Sched.Stream.Reads.{Named, Fit, readings, decode-frames}

-- No fork has been named, and the words of the session ids are words.
abbrev pub Unnamed : Sched → Type 0
Unnamed s =
    (i : ℕ) (f : SocketFork)
    → get_elem? s.forks i ≡ some f
    → (f.initiated ≡ false) × (f.session_id.v0 < u64_mod) × (f.session_id.v1 < u64_mod)

TableOk-Named : (s : Sched) → TableOk s → Unnamed s → Named s.forks []
TableOk-Named s v u = record {
  distinct = λ i j f g a b n p. v.local_unique i j (key f) (key g) (at i f a) (at j g b) n p;
  words = λ i f a.
      let (_, x, y) = u i f a in
      (
        elim (v.local_range i (key f) (at i f a)) [
          | inl p ↦ omega (arith, p)
          | inr (_, p) ↦ omega (arith, p, v.next_range)
        ],
        x,
        y,
      );
  names = λ i f a n. absurd (ground (arith, n, (u i f a).0));
}
  where
    at :
        (i : ℕ) (f : SocketFork)
        → get_elem? s.forks i ≡ some f
        → get_elem? (map key s.forks) i ≡ some (key f)
    at i f a = get_elem?-map key s.forks i a

to_send-empty : (s : Sched) → SendOk s → s.sends ≡ [] → to_send s ≡ []
to_send-empty s v p = by_task s.send_task refl
  where
    idle : Writing s → to_send s ≡ []
    idle (op, f, c, _) =
        let (rest, q, _) = current_send-some s op f c in absurd (ground (arith, p, q))

    by_task : (k : SendTask) → s.send_task ≡ k → to_send s ≡ []
    by_task sending_meta h = idle (subst (OkAt s) h v.1)
    by_task sending_header h = idle (subst (OkAt s) h v.1)
    by_task sending_body h = idle (subst (OkAt s) h v.1)
    by_task waiting_next h = rw (h, p) refl
    by_task (woken_next b) h = rw (h, p) refl
    by_task send_exited h = rw (h, p) refl

-- Starts from a send task that waits with nothing queued and no error, forks that the peer has not been
-- told of, and maps that find exactly the forks. After any sends, resumptions and complete writes that
-- leave no send in the list, a reader of the bytes gets the messages that `send` has
-- accepted, in that order, each with the session id of its fork.
pub run-decode :
    (es : List Event) (s : Sched) (r : Trace)
    → TableOk s
    → Unnamed s
    → fails s.ec ≡ false
    → s.send_task ≡ waiting_next
    → s.sends ≡ []
    → run es s ≡ some r
    → r.sched.sends ≡ []
    → Fit s.forks r.accepted
    → decode (length r.accepted + length r.accepted) [] r.written
      ≡ some (readings s.forks r.accepted)
run-decode es s r t u v k p h done fit =
    let ok = run-Adds es s r (v, subst (OkAt s) (sym k) tt) h in
    let all : r.written ≡ frames s.forks r.accepted =
      sym (append-nil r.written)
      ∙ ap (◌++◌ r.written) (sym (to_send-empty r.sched ok.0 done))
      ∙ run-frames es s r v k p h in
    ap (decode (length r.accepted + length r.accepted) []) all
    ∙ decode-frames r.accepted s.forks [] _ (TableOk-Named s t u) fit (omega arith)
