-- ===== src/Sched/Stream/Completes.antt =====
-- SocketScheduler.h, `makeSendTask`: the socket completes a write of the send task in full.
use mathlib.Core.Path.{subst}
use coproto.Prelude.{
  ℕ, ◌≡◌, refl, sym, ap, ap₂, ◌∙◌, inl, inr, true, false, some, List, [], ◌∷◌, ◌++◌, arith, ◌==◌,
  append_assoc, append-nil, Bool-cases, if◌then◌else◌, length, ◌+◌,
}
use coproto.ErrorCode.{fails, no_error}
use coproto.Wire.{
  Header, header_bytes, meta_bytes, length-header_bytes, length-meta_bytes, header_size,
  control_size,
}
use coproto.Sched.State.{
  SendOp, SocketFork, SendTask, waiting_next, woken_next, sending_meta, sending_header,
  sending_body, send_exited, Sched, Status, push_ready,
}
use coproto.Sched.Cancel.{send_ready}
use coproto.Sched.Recv.{check}
use coproto.Sched.Send.{
  current_send, offered, send_done, complete_send, start_next, wait_next, suspend_next,
  is_not_started, start_op, count_sent,
}
use coproto.Sched.Stream.{messages, message_of, frames, forks_after}
use coproto.Sched.Stream.Frames.{frames-named}
use coproto.Sched.Stream.Writes.{
  full_write, to_send, forks_then, OkAt, SendOk, quiet, Adds, current_send-some, to_send-body,
}

fails-no_error : fails no_error ≡ false
fails-no_error = refl

-- A write that is as long as it should be passes the check.
pub full_write-check :
    (s : Sched) (n : ℕ) → length (offered s) ≡ n → fails (check (full_write s) n) ≡ false
full_write-check s n e = ground (arith, e)

-- A write behind which the task has as much less to write.
wrote :
    (s t u : Sched)
    → t ≡ u
    → SendOk u
    → offered s ++ to_send u ≡ to_send s
    → forks_then u ≡ forks_then s
    → Adds s (offered s) [] t
wrote s t u h v e f = subst (Adds s (offered s) []) (sym h) (v, e ∙ sym (append-nil (to_send s)), f)

meta_done :
    (s t : Sched) (op : SendOp) (f : SocketFork)
    → fails s.ec ≡ false
    → current_send s ≡ some (op, f)
    → f.initiated ≡ true
    → s.send_task ≡ sending_meta
    → send_done (full_write s) s ≡ some t
    → Adds s (offered s) [] t
unfolding send_done current_send offered
meta_done s t op f v c n k e =
    let u : Sched = record (count_sent s (full_write s)) { send_task = sending_header } in
    let o : offered s ≡ meta_bytes f.local_id f.session_id = rw (c, k, offered) refl in
    let p =
      full_write-check s (header_size + control_size)
        (ap length o ∙ length-meta_bytes f.local_id f.session_id) in
    wrote s t u (ground (arith, e, k, p)) (v, (op, f, c, n)) (rw k refl) refl

header_done :
    (s t : Sched) (op : SendOp) (f : SocketFork)
    → fails s.ec ≡ false
    → current_send s ≡ some (op, f)
    → f.initiated ≡ true
    → s.send_task ≡ sending_header
    → send_done (full_write s) s ≡ some t
    → Adds s (offered s) [] t
unfolding send_done current_send offered
header_done s t op f v c n k e =
    let (rest, q, at) = current_send-some s op f c in
    let u : Sched = record (count_sent s (full_write s)) { send_task = sending_body } in
    let h : Header = record { size = length op.bytes; fork_id = f.local_id } in
    let o : offered s ≡ header_bytes h = rw (c, k, offered) refl in
    let p = full_write-check s header_size (ap length o ∙ length-header_bytes h) in
    let before : to_send s ≡ frames s.forks (messages s.sends) = rw k refl in
    let after = to_send-body u op rest refl q in
    wrote s t u (ground (arith, e, k, p)) (v, (op, f, c, n))
      (ap₂ (◌++◌) o after
        ∙ sym (append_assoc (header_bytes h) op.bytes (frames s.forks (messages rest)))
        ∙ sym (frames-named s.forks (message_of op) (messages rest) f at n).0
        ∙ sym (before ∙ ap (λ ops. frames s.forks (messages ops)) q))
      refl

-- The next send, if there is one, has all of its bytes to be written.
Adds-start_next :
    (s u t : Sched) (out : List ℕ)
    → fails u.ec ≡ false
    → start_next u ≡ some t
    → out ++ frames u.forks (messages u.sends) ≡ to_send s
    → forks_then u ≡ forks_then s
    → Adds s out [] t
unfolding start_next
Adds-start_next s u t out v e h f = by_sends u.sends refl
  where
    ready :
        (w : Sched)
        → t ≡ w
        → SendOk w
        → to_send w ≡ frames u.forks (messages u.sends)
        → forks_then w ≡ forks_then u
        → Adds s out [] t
    ready w d ok b g =
        subst (Adds s out []) (sym d)
          (ok, ap (◌++◌ out) b ∙ h ∙ sym (append-nil (to_send s)), g ∙ f)

    by_sends : (ops : List SendOp) → u.sends ≡ ops → Adds s out [] t
    by_sends [] p =
        ready (record u { send_status = Status.idle; send_task = waiting_next })
          (ground (arith, e, p)) (v, tt) refl refl
    by_sends (op ∷ rest) p = elim (Bool-cases (is_not_started op.status)) [
      | inl n ↦
          ready (record u { sends = start_op op ∷ rest; send_task = woken_next true })
            (ground (arith, e, p, n)) (v, tt) (rw p refl) (rw p refl)
      | inr n ↦ absurd (ground (arith, e, p, n))
    ]

body_done :
    (s t : Sched) (op : SendOp) (f : SocketFork)
    → fails s.ec ≡ false
    → current_send s ≡ some (op, f)
    → f.initiated ≡ true
    → s.send_task ≡ sending_body
    → send_done (full_write s) s ≡ some t
    → Adds s (offered s) [] t
unfolding send_done suspend_next complete_send wait_next current_send offered
body_done s t op f v c n k e =
    let (rest, q, at) = current_send-some s op f c in
    let s' = count_sent s (full_write s) in
    let u : Sched = record (push_ready s' (send_ready s' op)) {
      sends = rest;
      last_erased = if length rest == 0 then false else s.last_erased;
    } in
    let o : offered s ≡ op.bytes = rw (c, k, offered) refl in
    let before = to_send-body s op rest k q in
    Adds-start_next s u t (offered s) v (ground (arith, e, k, q, v))
      (ap (λ x. x ++ frames s.forks (messages rest)) o ∙ sym before)
      (sym (
        ap (λ ops. forks_after s.forks (messages ops)) q
        ∙ (frames-named s.forks (message_of op) (messages rest) f at n).1))

pub completes-Adds :
    (s t : Sched) → SendOk s → send_done (full_write s) s ≡ some t → Adds s (offered s) [] t
unfolding send_done offered current_send
completes-Adds s t v e = by_task s.send_task refl
  where
    idle : offered s ≡ [] → t ≡ s → Adds s (offered s) [] t
    idle o h =
        subst (Adds s (offered s) []) (sym h)
          (subst (λ out. Adds s out [] s) (sym o) (quiet s s v refl refl))

    by_task : (k : SendTask) → s.send_task ≡ k → Adds s (offered s) [] t
    by_task sending_meta k =
        let (op, f, c, n) = subst (OkAt s) k v.1 in meta_done s t op f v.0 c n k e
    by_task sending_header k =
        let (op, f, c, n) = subst (OkAt s) k v.1 in header_done s t op f v.0 c n k e
    by_task sending_body k =
        let (op, f, c, n) = subst (OkAt s) k v.1 in body_done s t op f v.0 c n k e
    by_task waiting_next k = idle (ground (arith, k)) (ground (arith, e, k))
    by_task (woken_next b) k = idle (ground (arith, k)) (ground (arith, e, k))
    by_task send_exited k = idle (ground (arith, k)) (ground (arith, e, k))
