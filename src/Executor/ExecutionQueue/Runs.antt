-- ===== src/Executor/ExecutionQueue/Runs.antt =====
-- Executor.h, `Handle::runReturnLast`, and any number of threads that use the queue.
use mathlib.Core.Path.{subst}
use coproto.Prelude.{
  ℕ, ◌+◌, ◌≡◌, refl, sym, ap, ap₂, ◌∙◌, inl, inr, Bool, true, false, Option, none, some, List, [],
  ◌∷◌, ◌++◌, arith, append-nil, append_assoc, length, length-append, get_elem?, Option-cases,
  Bool-cases, ◌==◌, ◌&&◌,
}
use coproto.Executor.ExecutionQueue.{
  Stage, Handle, ExecutionQueue, new_queue, set_handle, swap, take_one, run_handle, run, Action,
  acquires, pushes, pushes_fn, unlocks, runs, act, acts, push_next,
}
use coproto.Executor.ExecutionQueue.Handles.{
  one_if, runners, own_cbs, own_fns, count_next, kept, AllOk-set, runners-set, kept-set, own_none,
  own_same,
}
use coproto.Executor.ExecutionQueue.Order.{Inv, same-Inv, acquire-Inv, one, own_order, changed-Inv}
use coproto.Executor.ExecutionQueue.Steps.{push_back-Inv, push_back_fn-Inv, unlock-Inv}

empty : (xs : List ℕ) → length xs ≡ 0 → xs ≡ []
empty [] e = refl
empty (x ∷ xs) e = absurd (ground (arith, e))

length-push_next : (n : Option ℕ) → length (push_next n) ≡ count_next n
length-push_next none = refl
length-push_next (some c) = refl

-- The first of a queue is taken.
take_first :
    (t o o' s q : List ℕ) (c : ℕ)
    → o ≡ c ∷ o'
    → t ++ (o ++ s) ≡ q
    → (t ++ (c ∷ [])) ++ (o' ++ s) ≡ q
take_first t o o' s q c e h =
    append_assoc t (c ∷ []) (o' ++ s) ∙ ap (λ o. t ++ (o ++ s)) (sym e) ∙ h

resumed_next : (n : Option ℕ) (rs : List ℕ) → length (rs ++ push_next n) ≡ length rs + count_next n
resumed_next n rs = length-append rs (push_next n) ∙ ap (◌+◌ (length rs)) (length-push_next n)

-- One runner, whose queues are empty, gives the queue up.
release-Inv :
    (q : ExecutionQueue) (i : ℕ) (h : Handle)
    → Inv q
    → get_elem? q.handles i ≡ some h
    → h.acquired ≡ true
    → h.cbs ≡ []
    → h.fns ≡ []
    → q.cbs ≡ []
    → q.fns ≡ []
    → q.mutex ≡ none
    → Inv (record (set_handle q i (record h { acquired = false })) { has_runner = false })
release-Inv q i h v at a hc hf qc qf m =
    let h' : Handle = record h { acquired = false } in
    let o = own_same q.handles i h h' at refl refl in
    record {
      all_ok = AllOk-set q.handles i h' v.all_ok (hc, hf);
      one_runner = omega (arith, runners-set q.handles i h h' at, ap one_if a, one q i h v at a);
      idle = inr (qc, qf, m);
      order = ap (λ o. q.taken ++ (o ++ q.cbs)) o.0 ∙ v.order;
      order_fns = ap (λ o. q.called_fns ++ (o ++ q.fns)) o.1 ∙ v.order_fns;
      counted = omega (arith, kept-set q.handles i h h' at, v.counted);
      alone = λ j g k f. absurd (ground (arith, m, k));
    }

swap-Inv :
    (q r : ExecutionQueue) (i : ℕ) (h : Handle)
    → Inv q
    → get_elem? q.handles i ≡ some h
    → h.acquired ≡ true
    → h.cbs ≡ []
    → h.fns ≡ []
    → swap q i h ≡ some r
    → Inv r
unfolding swap
swap-Inv q r i h v at a hc hf e = elim (Option-cases q.mutex) [
  | inr (j, m) ↦ absurd (ground (arith, e, m))
  | inl m ↦ elim (Bool-cases ((length q.cbs == 0) && (length q.fns == 0))) [
    | inl b ↦
        let w : (length q.cbs ≡ 0) × (length q.fns ≡ 0) = ground (arith, b) in
        subst Inv (ground (arith, e, m, b))
          (release-Inv q i h v at a hc hf (empty q.cbs w.0) (empty q.fns w.1) m)
    | inr b ↦
        let o = own_order q i h v at a in
        let h' : Handle = record h { cbs = q.cbs; fns = q.fns } in
        subst Inv (ground (arith, e, m, b)) (
          changed-Inv q i h v at a h' [] [] q.queued q.taken q.queued_fns q.called_fns q.resumed a
            (ap (◌++◌ q.taken) (append-nil q.cbs ∙ ap (λ o. o ++ q.cbs) (sym hc)) ∙ o.0)
            (ap (◌++◌ q.called_fns) (append-nil q.fns ∙ ap (λ o. o ++ q.fns) (sym hf)) ∙ o.1)
            (omega arith) (inl m))
  ]
]

take_one-Inv :
    (q r : ExecutionQueue) (i : ℕ) (h : Handle) (cs fs : List ℕ)
    → Inv q
    → get_elem? q.handles i ≡ some h
    → h.acquired ≡ true
    → h.cbs ≡ cs
    → h.fns ≡ fs
    → take_one q i h cs fs ≡ some r
    → Inv r
unfolding take_one
take_one-Inv q r i h cs (f ∷ fs) v at a hc hf e =
    let o = own_order q i h v at a in
    let h' : Handle = record h { fns = fs } in
    subst Inv (ground (arith, e)) (
      changed-Inv q i h v at a h' q.cbs q.fns q.queued q.taken q.queued_fns
        (q.called_fns ++ (f ∷ [])) q.resumed a o.0
        (take_first q.called_fns h.fns fs q.fns q.queued_fns f hf o.1) (omega arith)
        (inr (refl, refl)))
take_one-Inv q r i h (c ∷ cs) [] v at a hc hf e =
    let o = own_order q i h v at a in
    let h' : Handle = record h { cbs = cs; next = some c } in
    subst Inv (ground (arith, e)) (
      changed-Inv q i h v at a h' q.cbs q.fns q.queued (q.taken ++ (c ∷ [])) q.queued_fns
        q.called_fns (q.resumed ++ push_next h.next) a
        (take_first q.taken h.cbs cs q.cbs q.queued c hc o.0) o.1
        (omega (arith, resumed_next h.next q.resumed, length-append q.taken (c ∷ [])))
        (inr (refl, refl)))
take_one-Inv q r i h [] [] v at a hc hf e = swap-Inv q r i h v at a hc hf e

run_handle-Inv :
    (q r : ExecutionQueue) (i : ℕ) (h : Handle) (xs : List (ℕ × ℕ)) (b : Bool)
    → Inv q
    → get_elem? q.handles i ≡ some h
    → h.acquired ≡ b
    → run_handle q i h xs b ≡ some r
    → Inv r
unfolding run_handle
run_handle-Inv q r i h (x ∷ xs) b v at a e =
    let h' = record h { xcbs = xs } in
    subst Inv (ground (arith, e)) (same-Inv q i h h' q.resumed v at refl refl refl refl)
run_handle-Inv q r i h [] true v at a e = take_one-Inv q r i h h.cbs h.fns v at a refl refl e
run_handle-Inv q r i h [] false v at a e =
    let h' = record h { stage = Stage.returned; next = none } in
    subst Inv (ground (arith, e)) (
      same-Inv q i h h' (q.resumed ++ push_next h.next) v at refl refl refl
        (omega (arith, resumed_next h.next q.resumed)))

run-Inv : (i : ℕ) (q r : ExecutionQueue) → Inv q → run i q ≡ some r → Inv r
unfolding run
run-Inv i q r v e = elim (Option-cases (get_elem? q.handles i)) [
  | inl n ↦ absurd (ground (arith, e, n))
  | inr (h, n) ↦ run_handle-Inv q r i h h.xcbs h.acquired v n refl (ground (arith, e, n))
]

pub act-Inv : (a : Action) (q r : ExecutionQueue) → Inv q → act q a ≡ some r → Inv r
unfolding act
act-Inv acquires q r v e = acquire-Inv q r v e
act-Inv (pushes i ex c) q r v e = push_back-Inv i ex c q r v e
act-Inv (pushes_fn i f) q r v e = push_back_fn-Inv i f q r v e
act-Inv (unlocks i) q r v e = unlock-Inv i q r v e
act-Inv (runs i) q r v e = run-Inv i q r v e

pub acts-Inv : (xs : List Action) (q r : ExecutionQueue) → Inv q → acts xs q ≡ some r → Inv r
unfolding acts
acts-Inv [] q r v e = subst Inv (ground (arith, e)) v
acts-Inv (a ∷ xs) q r v e = elim (Option-cases (act q a)) [
  | inl n ↦ absurd (ground (arith, e, n))
  | inr (t, n) ↦ acts-Inv xs t r (act-Inv a q t v n) (ground (arith, e, n))
]

pub new_queue-Inv : Inv new_queue
new_queue-Inv = record {
  all_ok = tt;
  one_runner = refl;
  idle = inr (refl, refl, refl);
  order = refl;
  order_fns = refl;
  counted = refl;
  alone = λ i h m e. cc;
}

module _ (xs : List Action) (q : ExecutionQueue) (e : acts xs new_queue ≡ some q) where
  reached : Inv q
  reached = acts-Inv xs new_queue q new_queue-Inv e

  -- While no callback or function is pushed on a full ring: at most one handle has acquired the queue,
  -- exactly when the state says that there is a runner. Callbacks without an executor are taken off the
  -- queues, and functions called, in the order in which they were queued: those that were taken, then
  -- those that the handles hold, then the shared ones are what was queued.
  pub queued_in_order :
      (runners q.handles ≡ one_if q.has_runner)
      × (q.taken ++ (own_cbs q.handles ++ q.cbs) ≡ q.queued)
      × (q.called_fns ++ (own_fns q.handles ++ q.fns) ≡ q.queued_fns)
  queued_in_order = (reached.one_runner, reached.order, reached.order_fns)

  -- While no callback or function is pushed on a full ring: when no handle has acquired the queue, nothing
  -- waits in it: every callback without an executor has been taken off and every function called, in the
  -- order in which they were queued.
  pub no_lost_callback :
      q.has_runner ≡ false
      → (q.cbs ≡ []) × (q.fns ≡ []) × (q.taken ≡ q.queued) × (q.called_fns ≡ q.queued_fns)
  no_lost_callback r =
      let w : (q.cbs ≡ []) × (q.fns ≡ []) = ground (arith, r, reached.idle) in
      let o = own_none q.handles reached.all_ok (reached.one_runner ∙ ap one_if r) in
      (
        w.0,
        w.1,
        sym (append-nil q.taken)
            ∙ ap (◌++◌ q.taken) (sym (ap₂ (λ a b. a ++ b) o.0 w.0))
            ∙ reached.order,
        sym (append-nil q.called_fns)
            ∙ ap (◌++◌ q.called_fns) (sym (ap₂ (λ a b. a ++ b) o.1 w.1))
            ∙ reached.order_fns,
      )

  -- Every callback that was taken off the queues has been resumed, but for one that each handle may keep
  -- to return it.
  taken_resumed : length q.taken ≡ length q.resumed + kept q.handles
  taken_resumed = reached.counted
