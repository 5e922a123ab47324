-- ===== src/Sched/Stream/Queues.antt =====
-- SocketScheduler.h, `send`: a message is queued behind those that are still to be written.
use mathlib.Core.Path.{subst}
use coproto.Prelude.{
  ℕ, ◌≡◌, refl, sym, ap, ap₂, ◌∙◌, inl, inr, true, false, none, some, List, [], ◌∷◌, ◌++◌, arith,
  ◌==◌, append_assoc, get_elem?, Option-cases, Bool-cases, length,
}
use coproto.ErrorCode.{Code, code}
use coproto.SessionId.{SessionId}
use coproto.Sched.State.{
  OpStatus, Status, SendOp, SendTask, waiting_next, woken_next, sending_meta, sending_header,
  sending_body, send_exited, Sched, push_ready, Ready, sent,
}
use coproto.Sched.Table.{get_local}
use coproto.Sched.Send.{send, enqueue_send, current_send, offered, start_op}
use coproto.Sched.Stream.{messages, message_of, frames, forks_after}
use coproto.Sched.Stream.Frames.{frames-named, frames-append, messages-append}
use coproto.Sched.Stream.Writes.{
  accepts, queues, to_send, forks_then, Writing, OkAt, SendOk, Adds, quiet, current_send-some,
  to_send-body,
}
use coproto.Sched.Stream.Linked.{linked, frames-linked, current_send-linked, Writing-linked}

linked_body :
    (s : Sched) (first : SendOp) (rest : List SendOp) (op : SendOp)
    → Writing s
    → s.send_task ≡ sending_body
    → s.sends ≡ first ∷ rest
    → to_send (linked s first rest op) ≡ to_send s ++ frames (forks_then s) (message_of op ∷ [])
linked_body s first rest op (o, f, c, n) h p =
    let (rest', q, at) = current_send-some s o f c in
    let same : o ≡ first = ground (arith, p, q) in
    let at' : get_elem? s.forks first.fork ≡ some f =
      ap (λ o. get_elem? s.forks (SendOp.fork o)) (sym same) ∙ at in
    let ms = messages rest in
    let x = message_of op ∷ [] in
    let after : forks_then s ≡ forks_after s.forks ms =
      ap (λ ops. forks_after s.forks (messages ops)) p
      ∙ (frames-named s.forks (message_of first) ms f at' n).1 in
    to_send-body (linked s first rest op) first (rest ++ (op ∷ [])) h refl
    ∙ ap (λ ns. first.bytes ++ frames s.forks ns) (messages-append rest op)
    ∙ ap (◌++◌ first.bytes) (frames-append s.forks ms x)
    ∙ sym (append_assoc first.bytes (frames s.forks ms) _)
    ∙ ap₂ (λ a fs. a ++ frames fs x) (sym (to_send-body s first rest h p)) (sym after)

linked_meta :
    (s : Sched) (first : SendOp) (rest : List SendOp) (op : SendOp)
    → s.send_task ≡ sending_meta
    → s.sends ≡ first ∷ rest
    → to_send (linked s first rest op) ≡ to_send s ++ frames (forks_then s) (message_of op ∷ [])
linked_meta s first rest op h p =
    at_meta (linked s first rest op) h
    ∙ ap₂ (◌++◌) (current_send-linked s first rest op p).1 (frames-linked s first rest op p).0
    ∙ sym (append_assoc (offered s) (frames s.forks (messages s.sends)) _)
    ∙ ap (λ b. b ++ frames (forks_then s) (message_of op ∷ [])) (sym (at_meta s h))
  where
    at_meta :
        (u : Sched)
        → u.send_task ≡ sending_meta
        → to_send u ≡ offered u ++ frames u.forks (messages u.sends)
    at_meta u k = rw k refl

linked-Adds :
    (s : Sched) (first : SendOp) (rest : List SendOp) (op : SendOp)
    → SendOk s
    → s.sends ≡ first ∷ rest
    → Adds s [] (message_of op ∷ []) (linked s first rest op)
linked-Adds s first rest op v p = by_task s.send_task refl
  where
    -- The task is at a point where the sends of the list are what there is to write.
    between :
        ((u : Sched) → u.send_task ≡ s.send_task → to_send u ≡ frames u.forks (messages u.sends))
        → OkAt (linked s first rest op) s.send_task
        → Adds s [] (message_of op ∷ []) (linked s first rest op)
    between b w = (
      (v.0, w),
      b (linked s first rest op) refl
          ∙ (frames-linked s first rest op p).0
          ∙ ap (λ x. x ++ frames (forks_then s) (message_of op ∷ [])) (sym (b s refl)),
      (frames-linked s first rest op p).1,
    )

    ok_at :
        (k : SendTask)
        → s.send_task ≡ k
        → OkAt (linked s first rest op) k
        → OkAt (linked s first rest op) s.send_task
    ok_at k h = subst (OkAt (linked s first rest op)) (sym h)

    by_task :
        (k : SendTask) → s.send_task ≡ k → Adds s [] (message_of op ∷ []) (linked s first rest op)
    by_task sending_meta h =
        let w = Writing-linked s first rest op p (subst (OkAt s) h v.1) in
        (
          (v.0, ok_at sending_meta h w),
          linked_meta s first rest op h p,
          (frames-linked s first rest op p).1,
        )
    by_task sending_body h =
        let w = subst (OkAt s) h v.1 in
        (
          (v.0, ok_at sending_body h (Writing-linked s first rest op p w)),
          linked_body s first rest op w h p,
          (frames-linked s first rest op p).1,
        )
    by_task sending_header h =
        between (λ u g. rw (g ∙ h) refl)
          (ok_at sending_header h (Writing-linked s first rest op p (subst (OkAt s) h v.1)))
    by_task waiting_next h = between (λ u g. rw (g ∙ h) refl) (ok_at waiting_next h tt)
    by_task (woken_next b) h = between (λ u g. rw (g ∙ h) refl) (ok_at (woken_next b) h tt)
    by_task send_exited h = between (λ u g. rw (g ∙ h) refl) (ok_at send_exited h tt)

waiting-Adds :
    (s : Sched) (op : SendOp)
    → SendOk s
    → s.send_task ≡ waiting_next
    → s.sends ≡ []
    → Adds s [] (message_of op ∷ []) (record s {
      send_status = Status.in_use;
      send_task = woken_next true;
      sends = start_op op ∷ [];
      last_erased = false;
    })
waiting-Adds s op v k p = (
  (v.0, tt),
  waiting s k p,
  ap (λ ops. forks_after (forks_after s.forks (messages ops)) (message_of op ∷ [])) (sym p),
)
  where
    waiting :
        (u : Sched)
        → u.send_task ≡ waiting_next
        → u.sends ≡ []
        → frames u.forks (message_of op ∷ [])
          ≡ to_send u ++ frames (forks_then u) (message_of op ∷ [])
    waiting u k p = rw (k, p) refl

enqueue-Adds :
    (s t : Sched) (op : SendOp)
    → SendOk s
    → enqueue_send op s s.send_task ≡ some t
    → Adds s [] (message_of op ∷ []) t
unfolding enqueue_send
enqueue-Adds s t op v e = by_sends s.sends refl
  where
    is : (u : Sched) → t ≡ u → Adds s [] (message_of op ∷ []) u → Adds s [] (message_of op ∷ []) t
    is u h = subst (Adds s [] (message_of op ∷ [])) (sym h)

    behind :
        (first : SendOp) (rest : List SendOp)
        → s.sends ≡ first ∷ rest
        → t ≡ linked s first rest op
        → Adds s [] (message_of op ∷ []) t
    behind first rest p h = is (linked s first rest op) h (linked-Adds s first rest op v p)

    by_task :
        (ops : List SendOp) (k : SendTask)
        → s.sends ≡ ops
        → s.send_task ≡ k
        → Adds s [] (message_of op ∷ []) t
    by_task [] waiting_next p k =
        is
          (record s {
            send_status = Status.in_use;
            send_task = woken_next true;
            sends = start_op op ∷ [];
            last_erased = false;
          })
          (ground (arith, e, p, k)) (waiting-Adds s op v k p)
    by_task (first ∷ rest) waiting_next p k = absurd (ground (arith, e, p, k))
    by_task [] (woken_next b) p k = absurd (ground (arith, e, p, k))
    by_task [] sending_meta p k = absurd (ground (arith, e, p, k))
    by_task [] sending_header p k = absurd (ground (arith, e, p, k))
    by_task [] sending_body p k = absurd (ground (arith, e, p, k))
    by_task [] send_exited p k = absurd (ground (arith, e, p, k))
    by_task (first ∷ rest) (woken_next b) p k = behind first rest p (ground (arith, e, p, k))
    by_task (first ∷ rest) sending_meta p k = behind first rest p (ground (arith, e, p, k))
    by_task (first ∷ rest) sending_header p k = behind first rest p (ground (arith, e, p, k))
    by_task (first ∷ rest) sending_body p k = behind first rest p (ground (arith, e, p, k))
    by_task (first ∷ rest) send_exited p k = behind first rest p (ground (arith, e, p, k))

    by_sends : (ops : List SendOp) → s.sends ≡ ops → Adds s [] (message_of op ∷ []) t
    by_sends ops p = by_task ops s.send_task p refl

pub queues-Adds :
    (s t : Sched) (id : SessionId) (bytes : List ℕ) (cb : ℕ)
    → SendOk s
    → send id bytes cb s ≡ some t
    → Adds s [] (accepts s (queues id bytes cb)) t
unfolding send accepts current_send offered
queues-Adds s t id bytes cb v e = elim (Bool-cases (length bytes == 0)) [
  | inl z ↦
      let r : Ready = record {
        callback = cb;
        executor = none;
        outcome = sent (some (code Code.send_length_zero_msg));
      } in
      subst (λ acc. Adds s [] acc t) {x = []} (ground (arith, z))
        (subst (Adds s [] []) {x = push_ready s r} {y = t} (ground (arith, e, z))
          (quiet s (push_ready s r) v refl refl))
  | inr z ↦ elim (Option-cases (get_local id s)) [
    | inl g ↦ absurd (ground (arith, e, z, g))
    | inr (i, g) ↦
        let op : SendOp = record {
          callback = cb;
          bytes = bytes;
          fork = i;
          status = OpStatus.not_started;
          err = none;
        } in
        let q : enqueue_send op s s.send_task ≡ some t = ground (arith, e, z, g, v.0) in
        subst (λ acc. Adds s [] acc t) {x = message_of op ∷ []} (ground (arith, z, g))
          (enqueue-Adds s t op v q)
  ]
]
