-- ===== src/Sched/Cancel/Complete.antt =====
-- SocketScheduler.cpp, `cancel`: the operations that wait on the side that is closed.
use coproto.Prelude.{
  ℕ, ◌≡◌, refl, ap, ◌∙◌, inl, inr, true, ◌||◌, some, List, [], ◌∷◌, ◌++◌, map, Bool-cases,
}
use mathlib.Core.List.{map-append}
use mathlib.Core.Path.{subst}
use coproto.ErrorCode.{ErrorCode, fails}
use coproto.Sched.State.{RecvOp, SendOp, SocketFork, Ready, Caller, Sched}
use coproto.Sched.Cancel.{drain_sends, first_error, close_sender, cancel}

-- The callbacks of the receives that wait, fork by fork.
abbrev pub pending : List SocketFork → List ℕ
pending [] = []
pending (f ∷ fs) = map (λ (op : RecvOp). op.callback) f.recv_ops ++ pending fs

abbrev pub callbacks : List Ready → List ℕ
callbacks rs = map (λ (r : Ready). r.callback) rs

callbacks-drain_sends :
    (s : Sched) (ops : List SendOp) (e : ErrorCode)
    → callbacks (drain_sends s ops e) ≡ map (λ (op : SendOp). op.callback) ops
unfolding drain_sends
callbacks-drain_sends s [] e = refl
callbacks-drain_sends s (op ∷ ops) e = ap (◌∷◌ (op.callback)) (callbacks-drain_sends s ops _)

close_sender_lem :
    (s : Sched) (e : ErrorCode)
    → callbacks (close_sender s e).ready
      ≡ callbacks s.ready ++ map (λ (op : SendOp). op.callback) s.sends
unfolding close_sender
close_sender_lem s e =
    map-append (λ (r : Ready). r.callback) s.ready (drain_sends s s.sends e)
    ∙ ap (◌++◌ (callbacks s.ready)) (callbacks-drain_sends s s.sends e)

-- When the send task cancels, every send that waits completes once, in order, and none is left.
pub cancel-sends :
    (e : ErrorCode) (s : Sched)
    → (fails s.ec || fails e) ≡ true
    → (s' : Sched) × (cancel Caller.sender e s ≡ some s')
      × (callbacks s'.ready ≡ callbacks s.ready ++ map (λ (op : SendOp). op.callback) s.sends)
      × (s'.sends ≡ [])
      × (fails s'.ec ≡ true)
unfolding cancel close_sender first_error
cancel-sends e s h = elim (Bool-cases (fails s.ec)) [
  | inl f ↦ (close_sender s e, rw f refl, close_sender_lem s e, refl, f)
  | inr f ↦
      let g : fails e ≡ true = subst (λ b. (b || fails e) ≡ true) f h in
      (
        close_sender (first_error s Caller.sender e) e,
        rw (f, g) refl,
        close_sender_lem (first_error s Caller.sender e) e,
        refl,
        g,
      )
]
