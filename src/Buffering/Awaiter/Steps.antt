-- ===== src/Buffering/Awaiter/Steps.antt =====
-- BufferingSocket.h, `SendRecvAwaiter`: a receive and its stop callback, and what the socket
-- does: one event.
use mathlib.Core.Path.{subst}
use coproto.Prelude.{
  ℕ, ◌+◌, ◌<◌, ◌≡◌, refl, sym, ap, ◌∙◌, inl, inr, true, false, Option, none, some, List, [], ◌∷◌,
  ◌++◌, arith, if◌then◌else◌, length, flatten, append_assoc, append-nil, Option-cases, eq→==,
  Bool-cases,
}
use coproto.Prelude.Word.{u64_mod}
use coproto.ErrorCode.{ErrorCode, Code, code, fails}
use coproto.Buffering.{Buffer, Sock, Done, set_error, close, fail_waiting}
use coproto.Buffering.Bytes.{items}
use coproto.Buffering.Stream.{SockOk, received, Meets, process_cases, Receives, recv_cases}
use coproto.Buffering.Awaiter.{
  await_suspend, request_stop, handed, Race, Event, starts, stops, closes, arrives, errs, note,
  step,
}
use coproto.Buffering.Awaiter.Phases.{
  all_received, Phase, Inv, room_of, Steps, cleared, held-nil, held_unresumed, all_received-note,
  called, after_call,
}

pub step_stops : (h n : ℕ) (r : Race) → Inv h n r → Steps h n stops r [] r.started
unfolding step request_stop
step_stops h n r v = elim (Option-cases r.awaiter.err) [
  | inr (e, p) ↦ (r, rw p refl, v, held-nil r, omega arith, refl)
  | inl p ↦ elim v.phase [
    | inl (q, w, x, y) ↦ (
      record r { awaiter = record r.awaiter { err = some (code Code.operation_aborted) } },
      ground (arith, p, w),
      record { kind = v.kind; sock = v.sock; phase = inl (q, w, x, y) },
      held-nil r,
      omega arith,
      refl,
    )
    | inr (inl (q, w, x, y, z)) ↦
        let d : Done = record { handle = h; err = code Code.operation_aborted; bytes = [] } in
        (
          record r {
            awaiter = record r.awaiter { err = some (code Code.operation_aborted) };
            sock = record r.sock { inbound = none };
            resumed = d ∷ [];
          },
          ground (arith, p, x, v.kind, y, eq→== h h refl, z),
          record {
            kind = v.kind;
            sock = cleared r.sock v.sock;
            phase = inr (inr (q, refl, d, refl, refl));
          },
          held_unresumed r z,
          omega arith,
          refl,
        )
    | inr (inr (q, w, d, x, y)) ↦ absurd (ground (arith, p, y))
  ]
]

pub step_arrives :
    (h n : ℕ) (bytes : List ℕ) (r : Race)
    → Inv h n r
    → room_of r + length bytes < u64_mod
    → Steps h n (arrives bytes) r bytes r.started
unfolding step
step_arrives h n bytes r v room =
    let (done, s, e, stream, ok, m, fits) =
      process_cases r.sock.inbound bytes r.sock refl v.sock room in
    after_call h n (arrives bytes) r bytes done s v (rw e refl) m ok stream fits

-- What has failed the receive that waits, if there was one, and left the bytes.
abbrev Fails : Sock → Option Done × Sock → Type 0
Fails s (done, s') =
    Meets s.inbound done s'
    × SockOk s'
    × (received done ≡ [])
    × (s'.inbound_buffer ≡ s.inbound_buffer)

fail_waiting-Fails : (e : ErrorCode) (s : Sock) → SockOk s → Fails s (fail_waiting e s)
fail_waiting-Fails e s v = elim (Option-cases s.inbound) [
  | inl p ↦ subst (Fails s) {x = (none, s)} (ground (arith, p)) (inl (refl, refl), v, refl, refl)
  | inr (w, p) ↦
      let d : Done = record { handle = w.handle; err = e; bytes = [] } in
      subst (Fails s) {x = (some d, record s { inbound = none })} (ground (arith, p))
        (inr (w, d, p, refl, refl), cleared s v, refl, refl)
]

failed_call :
    (h n : ℕ) (ev : Event) (r : Race) (done : Option Done) (s : Sock)
    → Inv h n r
    → Fails r.sock (done, s)
    → step h ev r ≡ some (called r done s)
    → Steps h n ev r [] r.started
failed_call h n ev r done s v (m, ok, b, f) q =
    after_call h n ev r [] done s v q m ok
      (ap (λ x. x ++ items s.inbound_buffer) b
        ∙ ap items f
        ∙ sym (append-nil (items r.sock.inbound_buffer)))
      (omega (arith, ap (λ (b : Buffer). length (flatten b.chunks)) f))

pub step_closes : (h n : ℕ) (r : Race) → Inv h n r → Steps h n closes r [] r.started
unfolding step close
step_closes h n r v =
    let s : Sock = record r.sock { ec = if fails r.sock.ec then r.sock.ec else code Code.closed } in
    failed_call h n closes r _ _ v
      (fail_waiting-Fails (code Code.operation_aborted) s
        (record { buffered = v.sock.buffered; short = v.sock.short }))
      refl

pub step_errs :
    (h n : ℕ) (e : ErrorCode) (r : Race)
    → Inv h n r
    → fails e ≡ true
    → Steps h n (errs e) r [] r.started
unfolding step set_error
step_errs h n e r v p = elim (Bool-cases (fails r.sock.ec)) [
  | inl q ↦
      failed_call h n (errs e) r none r.sock v (inl (refl, refl), v.sock, refl, refl)
        (rw (p, q) refl)
  | inr q ↦
      failed_call h n (errs e) r _ _ v
        (fail_waiting-Fails e (record r.sock { ec = e })
          (record { buffered = v.sock.buffered; short = v.sock.short }))
        (rw (p, q) refl)
]

-- The awaiter has been handed to the socket.
abbrev begun : ℕ → Race → Option Done → Sock → Race
begun h r done s = record {
  awaiter = handed h r.awaiter done;
  sock = s;
  started = true;
  resumed = note done r.resumed;
}

begun-kind :
    (h : ℕ) (r : Race) (done : Option Done) → (handed h r.awaiter done).kind ≡ r.awaiter.kind
begun-kind h r none = refl
begun-kind h r (some d) = refl

begun-Phase :
    (h n : ℕ) (r : Race) (done : Option Done) (s : Sock)
    → Receives h n r.sock done s
    → r.sock.inbound ≡ none
    → r.resumed ≡ []
    → r.awaiter.err ≡ none
    → Phase h n (begun h r done s)
begun-Phase h n r none s (inl (d, e, i)) x y p = absurd (cc)
begun-Phase h n r none s (inr (e, i)) x y p = inr (inl (refl, p, refl, i, y))
begun-Phase h n r (some d) s (inl (d', e, i)) x y p =
    inr (inr (refl, i ∙ x, d, ap (note (some d)) y, refl))
begun-Phase h n r (some d) s (inr (e, i)) x y p = absurd (cc)

pub step_starts : (h n : ℕ) (r : Race) → Inv h n r → r.started ≡ false → Steps h n starts r [] true
unfolding step await_suspend
step_starts h n r v u = elim v.phase [
  | inl (_, w, x, y) ↦ elim (Option-cases r.awaiter.err) [
    | inr (e, p) ↦
        let d : Done = record { handle = h; err = e; bytes = [] } in
        (
          record r { started = true; resumed = d ∷ [] },
          ground (arith, u, p, y),
          record { kind = v.kind; sock = v.sock; phase = inr (inr (refl, x, d, refl, p)) },
          held_unresumed r y,
          omega arith,
          refl,
        )
    | inl p ↦
        let (done, s, q, stream, ok, m, fits) = recv_cases h n r.sock v.sock in
        (
          begun h r done s,
          ground (arith, u, p, v.kind, q),
          record {
            kind = begun-kind h r done ∙ v.kind;
            sock = ok;
            phase = begun-Phase h n r done s m x y p;
          },
          ap (λ b. b ++ items s.inbound_buffer) (all_received-note done r.resumed)
              ∙ append_assoc (all_received r.resumed) (received done) _
              ∙ ap (◌++◌ (all_received r.resumed)) stream
              ∙ held-nil r,
          omega (arith, fits),
          refl,
        )
  ]
  | inr (inl (q, _, _, _, _)) ↦ absurd (ground (arith, q, u))
  | inr (inr (q, _, _, _, _)) ↦ absurd (ground (arith, q, u))
]
