-- ===== src/Executor/ExecutionQueue/Bounded.antt =====
-- Executor.h, `Handle::runReturnLast`, while other threads, and the callbacks and functions that are run,
-- use the queue in between.
use mathlib.Core.Path.{subst}
use coproto.Prelude.{
  ℕ, ◌+◌, ◌*◌, ◌≤◌, ◌<◌, ◌≡◌, ◌≢◌, refl, sym, ap, ◌∙◌, ◌⊎◌, inl, inr, Bool, true, false, none, some,
  List, [], ◌∷◌, arith, is_some, ◌==◌, get_elem?, set, Option-cases, Bool-cases, ==→eq, ==→ne,
  get_elem?-set_self,
}
use coproto.Executor.ExecutionQueue.{
  holder, Stage, Handle, ExecutionQueue, new_queue, swap, take_one, run_handle, run, Action,
  acquires, pushes, pushes_fn, unlocks, runs, push_back, push_back_fn, unlock, act, acts,
}
use coproto.Executor.ExecutionQueue.Order.{Inv, holder-some}
use coproto.Executor.ExecutionQueue.Runs.{act-Inv, acts-Inv, new_queue-Inv}
use coproto.Executor.ExecutionQueue.Returns.{cost, run-Went}
use coproto.Executor.ExecutionQueue.Others.{
  turns, pushed, all_turns, all_pushed, remaining, Behind, Next, acquire-Next, push_back-Next,
  push_back_fn-Next, unlock-Next, run_other-Next,
}

-- The thread's own action: what is still to come goes down.
abbrev Down : ℕ → ExecutionQueue → ExecutionQueue → ℕ → Type 0
Down i q r n =
    (g : Handle) × (r.handles ≡ set q.handles i g)
    × (r.mutex ≡ q.mutex)
    × (g.stage ≢ Stage.locked)
    × (remaining r g < n)

module _ (i : ℕ) (q r : ExecutionQueue) (h : Handle) (st : h.stage ≡ Stage.running) where
  unlocked : h.stage ≢ Stage.locked
  unlocked e = ground (arith, st, e)

  swap-Down :
      (cs fs : List ℕ)
      → q.cbs ≡ cs
      → q.fns ≡ fs
      → h.acquired ≡ true
      → h.cbs ≡ []
      → h.fns ≡ []
      → swap q i h ≡ some r
      → Down i q r (cost q h)
  unfolding swap
  swap-Down cs fs c f a hc hf e = elim (Option-cases q.mutex) [
    | inr (k, m) ↦ absurd (ground (arith, e, m))
    | inl m ↦ by_queues cs fs c f m
  ]
    where
      by_queues :
          (cs fs : List ℕ) → q.cbs ≡ cs → q.fns ≡ fs → q.mutex ≡ none → Down i q r (cost q h)
      by_queues [] [] c f m = (
        record h { acquired = false },
        ground (arith, e, m, c, f),
        ground (arith, e, m, c, f),
        unlocked,
        ground (arith, e, m, c, f, a, hc, hf, st),
      )
      by_queues [] (x ∷ fs) c f m = (
        record h { cbs = q.cbs; fns = q.fns },
        ground (arith, e, m, c, f),
        ground (arith, e, m, c, f),
        unlocked,
        ground (arith, e, m, c, f, a, hc, hf, st),
      )
      by_queues (x ∷ cs) fs c f m = (
        record h { cbs = q.cbs; fns = q.fns },
        ground (arith, e, m, c, f),
        ground (arith, e, m, c, f),
        unlocked,
        ground (arith, e, m, c, f, a, hc, hf, st),
      )

  take_one-Down :
      (cs fs : List ℕ)
      → h.cbs ≡ cs
      → h.fns ≡ fs
      → h.acquired ≡ true
      → take_one q i h cs fs ≡ some r
      → Down i q r (cost q h)
  unfolding take_one
  take_one-Down cs (f ∷ fs) hc hf a e = (
    record h { fns = fs },
    ground (arith, e),
    ground (arith, e),
    unlocked,
    ground (arith, e, hc, hf, a, st),
  )
  take_one-Down (c ∷ cs) [] hc hf a e = (
    record h { cbs = cs; next = some c },
    ground (arith, e),
    ground (arith, e),
    unlocked,
    ground (arith, e, hc, hf, a, st),
  )
  take_one-Down [] [] hc hf a e = swap-Down q.cbs q.fns refl refl a hc hf e

  run_handle-Down :
      (xs : List (ℕ × ℕ)) (b : Bool)
      → h.xcbs ≡ xs
      → h.acquired ≡ b
      → run_handle q i h xs b ≡ some r
      → Down i q r (cost q h)
  unfolding run_handle
  run_handle-Down (x ∷ xs) b hx a e = (
    record h { xcbs = xs },
    ground (arith, e),
    ground (arith, e),
    unlocked,
    ground (arith, e, hx, a, st),
  )
  run_handle-Down [] true hx a e = take_one-Down h.cbs h.fns refl refl a e
  run_handle-Down [] false hx a e = (
    record h { stage = Stage.returned; next = none },
    ground (arith, e),
    ground (arith, e),
    (λ k. ground (arith, k)),
    ground (arith, e, hx, a, st),
  )

run_own-Next :
    (i : ℕ) (q r : ExecutionQueue) (h : Handle)
    → Behind i q h
    → run i q ≡ some r
    → (n : ℕ) × (n < remaining q h) × Next i r n
unfolding run
run_own-Next i q r h v e =
    let st : h.stage ≡ Stage.running = ground (arith, v.0, e) in
    let (g, hs, m, ul, lt) =
      run_handle-Down i q r h st h.xcbs h.acquired refl refl (ground (arith, v.0, st, e)) in
    let at : get_elem? r.handles i ≡ some g =
      ap (λ hs. get_elem? hs i) hs ∙ get_elem?-set_self q.handles i g v.0 in
    (remaining r g, ground (arith, st, lt), (g, (at, (λ k. v.1 (sym m ∙ k)), ul), omega arith))

no_holder : (j f : ℕ) (q r : ExecutionQueue) → holder q j ≡ none → push_back_fn j f q ≡ some r → ⊥
unfolding push_back_fn
no_holder j f q r n e = ground (arith, e, n)

not_held : (j : ℕ) (q r : ExecutionQueue) → holder q j ≡ none → unlock j q ≡ some r → ⊥
unfolding unlock
not_held j q r n e = ground (arith, e, n)

stage_cases : (s : Stage) → s ≢ Stage.locked → (s ≡ Stage.returned) ⊎ (s ≡ Stage.running)
stage_cases Stage.locked n = absurd (n refl)
stage_cases Stage.running n = inr refl
stage_cases Stage.returned n = inl refl

-- One action: a push adds two at most to what is still to come, and an action of the thread takes one.
act-Next :
    (i : ℕ) (a : Action) (q r : ExecutionQueue) (h : Handle)
    → Inv q
    → Behind i q h
    → act q a ≡ some r
    → (g : Handle) × Behind i r g × (turns i a + remaining r g ≤ 2 * pushed a + remaining q h)
unfolding act push_back
act-Next i acquires q r h w v e =
    let (g, b, le) = acquire-Next i q r h v e in (g, b, omega (arith, le))
act-Next i (pushes j ex c) q r h w v e = elim (Option-cases (holder q j)) [
  | inl n ↦ absurd (ground (arith, e, n))
  | inr (k, n) ↦
      let (g, b, le) = push_back-Next i j q h k v (holder-some q j k n).0 ex c r (rw n at e) in
      (g, b, omega (arith, le))
]
act-Next i (pushes_fn j f) q r h w v e = elim (Option-cases (holder q j)) [
  | inl n ↦ absurd (no_holder j f q r n e)
  | inr (k, n) ↦
      let at = holder-some q j k n in
      let (g, b, le) = push_back_fn-Next i j q h k v at.0 f r at.1 e in (g, b, omega (arith, le))
]
act-Next i (unlocks j) q r h w v e = elim (Option-cases (holder q j)) [
  | inl n ↦ absurd (not_held j q r n e)
  | inr (k, n) ↦
      let at = holder-some q j k n in
      let (g, b, le) = unlock-Next i j q h k v at.0 r at.1 e in (g, b, omega (arith, le))
]
act-Next i (runs j) q r h w v e = elim (Bool-cases (j == i)) [
  | inl p ↦
      let (n, lt, (g, b, le)) =
        run_own-Next i q r h v (ap (λ j. run j q) (sym (==→eq j i p)) ∙ e) in
      (g, b, ground (arith, p, lt, le))
  | inr p ↦
      let (g, b, le) = run_other-Next i j q r h w v (==→ne j i p) e in (g, b, ground (arith, p, le))
]

acts-Next :
    (i : ℕ) (xs : List Action) (q r : ExecutionQueue) (h : Handle)
    → Inv q
    → Behind i q h
    → acts xs q ≡ some r
    → (g : Handle) × Behind i r g
      × Inv r
      × (all_turns i xs + remaining r g ≤ 2 * all_pushed xs + remaining q h)
unfolding acts
acts-Next i [] q r h w v e =
    let p : q ≡ r = ground (arith, e) in
    subst (λ r. (g : Handle) × Behind i r g × Inv r × (0 + remaining r g ≤ 2 * 0 + remaining q h)) p
      (h, v, w, omega arith)
acts-Next i (x ∷ xs) q r h w v e = elim (Option-cases (act q x)) [
  | inl n ↦ absurd (ground (arith, e, n))
  | inr (t, n) ↦
      let (g, b, le) = act-Next i x q t h w v n in
      let (g', b', w', le') = acts-Next i xs t r g (act-Inv x q t w n) b (ground (arith, e, n)) in
      (g', b', w', omega (arith, le, le'))
]

-- While no callback or function is pushed on a full ring: from any point that can be reached where a
-- thread is in `runReturnLast` and does not hold the mutex, and whatever other threads and the callbacks
-- and functions that are run do with the queue from then on, the thread does at most `cost` actions, which
-- is as many as there are callbacks and functions to run and at most three more, and two for each one that
-- is queued meanwhile. As long as it has not returned it has done fewer, and it can do its next one
-- whenever the mutex is free.
pub runs_bounded :
    (before xs : List Action) (i : ℕ) (q r : ExecutionQueue) (h : Handle)
    → acts before new_queue ≡ some q
    → get_elem? q.handles i ≡ some h
    → h.stage ≡ Stage.running
    → q.mutex ≢ some i
    → acts xs q ≡ some r
    → (g : Handle) × (get_elem? r.handles i ≡ some g)
      × (((g.stage ≡ Stage.returned) × (all_turns i xs ≤ cost q h + 2 * all_pushed xs))
          ⊎ ((g.stage ≡ Stage.running)
              × (all_turns i xs < cost q h + 2 * all_pushed xs)
              × (r.mutex ≡ none → is_some (run i r) ≡ true)))
runs_bounded before xs i q r h b at st m e =
    let w = acts-Inv before new_queue q new_queue-Inv b in
    let (g, v, _, le) = acts-Next i xs q r h w (at, m, λ k. ground (arith, st, k)) e in
    (
      g,
      v.0,
      elim (stage_cases g.stage v.2) [
        | inl s ↦ inl (s, ground (arith, le, st, s))
        | inr s ↦ inr (
          s,
          ground (arith, le, st, s),
          λ k. (let (t, u, p, _, _, _, _) = run-Went r i g k v.0 s in ap is_some p),
        )
      ],
    )
