-- ===== src/Asio/Race.antt =====
-- AsioSocket.h, `Awaiter`: the starting function, asio's callback and the stop callback, in any order.
use mathlib.Core.Path.{subst}
use coproto.Prelude.{
  ℕ, ◌≡◌, refl, ◌⊎◌, inl, inr, Bool, true, false, ◌&&◌, some, List, [], ◌∷◌, arith, is_some,
  Option-cases,
}
use coproto.Asio.{
  IoResult, IoOp, Starter, Awaiter, new_awaiter, Action, advances, completes, stops, act, acts,
}

-- What the starter and the operation have done so far, for each pair of places.
abbrev Places : Starter → IoOp → Awaiter → Type 0
Places Starter.dispatched IoOp.not_started a =
    (a.synchronous_flag ≡ false) × (a.resumed ≡ 0) × (a.signalled ≡ false)
Places Starter.tested IoOp.not_started a =
    (a.synchronous_flag ≡ false) × (a.resumed ≡ 0) × (a.signalled ≡ false)
Places Starter.started IoOp.pending a =
    (a.synchronous_flag ≡ false)
    × (a.resumed ≡ 0)
    × ((a.signalled ≡ false) ⊎ (a.cancellation_requested ≡ true))
Places Starter.started IoOp.complete a =
    (a.synchronous_flag ≡ true) × (a.resumed ≡ 0) × (is_some a.ec ≡ true)
Places Starter.checked IoOp.pending a =
    (a.synchronous_flag ≡ false) × (a.resumed ≡ 0) × (a.cancellation_requested ≡ a.signalled)
Places Starter.checked IoOp.complete a =
    (a.synchronous_flag ≡ true) × (a.resumed ≡ 0) × (is_some a.ec ≡ true)
Places Starter.over IoOp.pending a =
    (a.synchronous_flag ≡ true) × (a.resumed ≡ 0) × (a.cancellation_requested ≡ a.signalled)
Places Starter.over IoOp.complete a = (a.resumed ≡ 1) × (is_some a.ec ≡ true)
Places Starter.cancelled IoOp.not_started a = (a.resumed ≡ 1) × (is_some a.ec ≡ true)
Places _ _ a = ⊥

pub record Inv (a : Awaiter) : Type 0 where
  pub places : Places a.starter a.op a
  pub token : (a.stop_possible ≡ true) ⊎ (a.cancellation_requested ≡ false)

new_awaiter-Inv : (b : Bool) → Inv (new_awaiter b)
new_awaiter-Inv b = ground arith

act-Inv : (a : Awaiter) (x : Action) (b : Awaiter) → Inv a → act a x ≡ some b → Inv b
unfolding act
act-Inv a advances b v e = ground (arith, v, e)
act-Inv a (completes r n) b v e = ground (arith, v, e)
act-Inv a stops b v e = ground (arith, v, e)

acts-Inv : (xs : List Action) (a b : Awaiter) → Inv a → acts xs a ≡ some b → Inv b
unfolding acts
acts-Inv [] a b v e = subst Inv (ground (arith, e)) v
acts-Inv (x ∷ xs) a b v e = elim (Option-cases (act a x)) [
  | inl n ↦ absurd (ground (arith, e, n))
  | inr (c, h) ↦ acts-Inv xs c b (act-Inv a x c v h) (ground (arith, e, h))
]

-- The starting function and the operation are both over.
abbrev pub Finished : Awaiter → Type 0
Finished a = (a.starter ≡ Starter.cancelled) ⊎ ((a.starter ≡ Starter.over) × (a.op ≡ IoOp.complete))

-- In whatever order the starting function, the completion and stop requests come, the handle is
-- resumed once if both the starting function and the operation are over, and not at all before; and
-- when it is resumed, the awaiter has the error code that `await_resume` asserts.
pub resumed_once :
    (token : Bool) (xs : List Action) (a : Awaiter)
    → acts xs (new_awaiter token) ≡ some a
    → ((Finished a × (a.resumed ≡ 1) × (is_some a.ec ≡ true)) ⊎ ((¬ Finished a) × (a.resumed ≡ 0)))
resumed_once token xs a e =
    let v = acts-Inv xs (new_awaiter token) a (new_awaiter-Inv token) e in ground (arith, v)

-- No stop request is lost: once the starting function has come past its second look, an operation that
-- is still pending has been signalled exactly if a stop was requested.
pub stop_signalled :
    (token : Bool) (xs : List Action) (a : Awaiter)
    → acts xs (new_awaiter token) ≡ some a
    → (a.starter ≡ Starter.checked) ⊎ (a.starter ≡ Starter.over)
    → a.op ≡ IoOp.pending
    → a.cancellation_requested ≡ a.signalled
stop_signalled token xs a e past p =
    let v = acts-Inv xs (new_awaiter token) a (new_awaiter-Inv token) e in ground (arith, v)

-- What is still to come, if asio completes the operation with this result and no one interferes.
abbrev remaining_at : IoResult → ℕ → Bool → Starter → IoOp → List Action
remaining_at r n true Starter.dispatched o = advances ∷ []
remaining_at r n false Starter.dispatched o =
    advances ∷ advances ∷ advances ∷ advances ∷ completes r n ∷ []
remaining_at r n b Starter.tested o = advances ∷ advances ∷ advances ∷ completes r n ∷ []
remaining_at r n b Starter.started IoOp.complete = advances ∷ advances ∷ []
remaining_at r n b Starter.started o = advances ∷ advances ∷ completes r n ∷ []
remaining_at r n b Starter.checked IoOp.complete = advances ∷ []
remaining_at r n b Starter.checked o = advances ∷ completes r n ∷ []
remaining_at r n b Starter.over IoOp.complete = []
remaining_at r n b Starter.over o = completes r n ∷ []
remaining_at r n b Starter.cancelled o = []

abbrev pub remaining : IoResult → ℕ → Awaiter → List Action
remaining r n a = remaining_at r n (a.stop_possible && a.cancellation_requested) a.starter a.op

finishing_at :
    (r : IoResult) (n : ℕ) (a : Awaiter) (t : Bool) (s : Starter) (o : IoOp)
    → Inv a
    → (a.stop_possible && a.cancellation_requested) ≡ t
    → a.starter ≡ s
    → a.op ≡ o
    → (b : Awaiter) × (acts (remaining_at r n t s o) a ≡ some b) × (b.resumed ≡ 1)
unfolding acts
finishing_at r n a t s o v p q w = elim (Option-cases (acts (remaining_at r n t s o) a)) [
  | inl e ↦ absurd (ground (arith, e, v))
  | inr (b, e) ↦ (b, e, ground (arith, e, v))
]

-- From every point that can be reached, the starting function can be run to its end and the operation,
-- if it has been started, can complete with any result; the handle has then been resumed once.
pub resumed_eventually :
    (token : Bool) (xs : List Action) (a : Awaiter) (r : IoResult) (n : ℕ)
    → acts xs (new_awaiter token) ≡ some a
    → (b : Awaiter) × (acts (remaining r n a) a ≡ some b) × (b.resumed ≡ 1)
resumed_eventually token xs a r n e =
    finishing_at r n a _ _ _ (acts-Inv xs (new_awaiter token) a (new_awaiter-Inv token) e) refl refl
      refl
