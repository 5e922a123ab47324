-- ===== src/Executor/ExecutionQueue/Others.antt =====
-- Executor.h, `Handle::runReturnLast`: what the other actions on the queue leave of the actions that a
-- thread still has to do.
use coproto.Prelude.{
  ℕ, zero, suc, ◌+◌, ◌≤◌, ◌<◌, ◌≡◌, ◌≢◌, refl, sym, ap, ◌∙◌, ◌⊎◌, inl, inr, Bool, true, false,
  Option, none, some, List, [], ◌∷◌, ◌++◌, arith, ◌==◌, length, length-append, get_elem?, set, not,
  ◌&&◌, if◌then◌else◌, Option-cases, Bool-cases, get_elem?-append_left, get_elem?-set_ne,
}
use coproto.Executor.ExecutionQueue.{
  Stage, Handle, ExecutionQueue, swap, take_one, run_handle, run, Action, pushes, pushes_fn, runs,
  acquire, push_back_fn, unlock, queued_by, ring_capacity,
}
use coproto.Executor.ExecutionQueue.Handles.{runners, runner_there}
use coproto.Executor.ExecutionQueue.Order.{Inv}
use coproto.Executor.ExecutionQueue.Returns.{cost, cost_shared}

-- The actions of thread `i`, and what is queued by anyone.
abbrev pub turns : ℕ → Action → ℕ
turns i (runs j) = if j == i then 1 else 0
turns i _ = 0

abbrev pub pushed : Action → ℕ
pushed (pushes i ex c) = 1
pushed (pushes_fn i f) = 1
pushed _ = 0

abbrev pub all_turns : ℕ → List Action → ℕ
all_turns i [] = 0
all_turns i (x ∷ xs) = turns i x + all_turns i xs

abbrev pub all_pushed : List Action → ℕ
all_pushed [] = 0
all_pushed (x ∷ xs) = pushed x + all_pushed xs

-- The actions that are still to come for a handle that has not returned.
abbrev pub remaining : ExecutionQueue → Handle → ℕ
remaining q h = elim h.stage [ Stage.returned ↦ 0 | _ ↦ cost q h ]

-- The thread is behind its critical section.
abbrev pub Behind : ℕ → ExecutionQueue → Handle → Type 0
Behind i q h = (get_elem? q.handles i ≡ some h) × (q.mutex ≢ some i) × (h.stage ≢ Stage.locked)

abbrev pub Next : ℕ → ExecutionQueue → ℕ → Type 0
Next i r n = (g : Handle) × Behind i r g × (remaining r g ≤ n)

get_elem?-below :
    {A : Type 0} (xs : List A) (i : ℕ) (a : A) → get_elem? xs i ≡ some a → i < length xs
get_elem?-below [] i a e = cc
get_elem?-below (x ∷ xs) zero a e = omega arith
get_elem?-below (x ∷ xs) (suc i) a e = omega (arith, get_elem?-below xs i a e)

-- Two handles that have acquired the queue count twice.
two_runners :
    (hs : List Handle) (i j : ℕ) (h g : Handle)
    → get_elem? hs i ≡ some h
    → get_elem? hs j ≡ some g
    → i ≢ j
    → h.acquired ≡ true
    → g.acquired ≡ true
    → 2 ≤ runners hs
two_runners [] i j h g e f ne a b = cc
two_runners (x ∷ hs) zero zero h g e f ne a b = absurd (ne refl)
two_runners (x ∷ hs) zero (suc j) h g e f ne a b = ground (arith, e, a, runner_there hs j g f b)
two_runners (x ∷ hs) (suc i) zero h g e f ne a b = ground (arith, f, b, runner_there hs i h e a)
two_runners (x ∷ hs) (suc i) (suc j) h g e f ne a b =
    omega (arith, two_runners hs i j h g e f (λ p. ne (ap suc p)) a b)

longer : (cs fs : List ℕ) (c : ℕ) → cost_shared (cs ++ (c ∷ [])) fs ≤ cost_shared cs fs + 2
longer [] [] c = ground arith
longer [] (f ∷ fs) c = ground arith
longer (x ∷ cs) fs c = ground (arith, length-append cs (c ∷ []))

longer_fns : (cs fs : List ℕ) (f : ℕ) → cost_shared cs (fs ++ (f ∷ [])) ≤ cost_shared cs fs + 2
longer_fns [] [] f = ground arith
longer_fns [] (x ∷ fs) f = ground (arith, length-append fs (f ∷ []))
longer_fns (x ∷ cs) fs f = ground (arith, length-append fs (f ∷ []))

pub acquire-Next :
    (i : ℕ) (q r : ExecutionQueue) (h : Handle)
    → Behind i q h
    → acquire q ≡ some r
    → Next i r (remaining q h)
unfolding acquire
acquire-Next i q r h v e = elim (Option-cases q.mutex) [
  | inr (j, m) ↦ absurd (ground (arith, e, m))
  | inl m ↦ (
    h,
    (
      ground (
        arith,
        e,
        m,
        get_elem?-append_left q.handles
            (record {
              acquired = not q.has_runner;
              xcbs = [];
              cbs = [];
              fns = [];
              next = none;
              stage = Stage.locked;
            }
              ∷ [])
            i v.0,
      ),
      (λ k. ground (arith, e, m, k, get_elem?-below q.handles i h v.0)),
      v.2,
    ),
    ground (arith, e, m),
  )
]

-- Whoever holds the mutex is not this thread.
module _ (i j : ℕ) (q : ExecutionQueue) (h g : Handle) (v : Behind i q h)
    (m : q.mutex ≡ some j) where
  apart : j ≢ i
  apart e = v.1 (m ∙ ap some e)

  pub push_back-Next :
      (ex : Option ℕ) (c : ℕ) (r : ExecutionQueue)
      → queued_by q j g ex c ≡ some r
      → Next i r (remaining q h + 2)
  push_back-Next (some x) c r e = elim (Bool-cases (length g.xcbs == ring_capacity)) [
    | inl k ↦ absurd (ground (arith, e, k))
    | inr k ↦
        let s =
          get_elem?-set_ne q.handles j i (record g { xcbs = g.xcbs ++ ((x, c) ∷ []) }) apart in
        (h, (ground (arith, e, k, s, v.0), ground (arith, e, k, v.1), v.2), ground (arith, e, k))
  ]
  push_back-Next none c r e = elim (Bool-cases g.acquired) [
    | inl a ↦ elim (Bool-cases (length g.cbs == ring_capacity)) [
      | inl k ↦ absurd (ground (arith, e, a, k))
      | inr k ↦
          let s = get_elem?-set_ne q.handles j i (record g { cbs = g.cbs ++ (c ∷ []) }) apart in
          (
            h,
            (ground (arith, e, a, k, s, v.0), ground (arith, e, a, k, v.1), v.2),
            ground (arith, e, a, k),
          )
    ]
    | inr a ↦ elim (Bool-cases (length q.cbs == ring_capacity)) [
      | inl k ↦ absurd (ground (arith, e, a, k))
      | inr k ↦ (
        h,
        (ground (arith, e, a, k, v.0), ground (arith, e, a, k, v.1), v.2),
        ground (arith, e, a, k, longer q.cbs q.fns c),
      )
    ]
  ]

  pub push_back_fn-Next :
      (f : ℕ) (r : ExecutionQueue)
      → get_elem? q.handles j ≡ some g
      → push_back_fn j f q ≡ some r
      → Next i r (remaining q h + 2)
  unfolding push_back_fn
  push_back_fn-Next f r at e = elim (Bool-cases g.acquired) [
    | inl a ↦ elim (Bool-cases (length g.fns == ring_capacity)) [
      | inl k ↦ absurd (ground (arith, e, m, at, a, k))
      | inr k ↦
          let s = get_elem?-set_ne q.handles j i (record g { fns = g.fns ++ (f ∷ []) }) apart in
          (
            h,
            (ground (arith, e, m, at, a, k, s, v.0), ground (arith, e, m, at, a, k, v.1), v.2),
            ground (arith, e, m, at, a, k),
          )
    ]
    | inr a ↦ elim (Bool-cases (length q.fns == ring_capacity)) [
      | inl k ↦ absurd (ground (arith, e, m, at, a, k))
      | inr k ↦ (
        h,
        (ground (arith, e, m, at, a, k, v.0), ground (arith, e, m, at, a, k, v.1), v.2),
        ground (arith, e, m, at, a, k, longer_fns q.cbs q.fns f),
      )
    ]
  ]

  pub unlock-Next :
      (r : ExecutionQueue)
      → get_elem? q.handles j ≡ some g
      → unlock j q ≡ some r
      → Next i r (remaining q h)
  unfolding unlock
  unlock-Next r at e =
      let s = get_elem?-set_ne q.handles j i (record g { stage = Stage.running }) apart in
      (
        h,
        (ground (arith, e, m, at, s, v.0), (λ k. ground (arith, e, m, at, k)), v.2),
        ground (arith, e, m, at),
      )

-- What an action of `runReturnLast` leaves of the other handles and of the shared queues.
abbrev Aside : ℕ → ExecutionQueue → Handle → ExecutionQueue → Type 0
Aside j q g r =
    (g' : Handle) × (r.handles ≡ set q.handles j g')
    × (r.mutex ≡ q.mutex)
    × ((g.acquired ≡ true) ⊎ ((r.cbs ≡ q.cbs) × (r.fns ≡ q.fns)))

swap-Aside :
    (j : ℕ) (q r : ExecutionQueue) (g : Handle)
    → g.acquired ≡ true
    → swap q j g ≡ some r
    → Aside j q g r
unfolding swap
swap-Aside j q r g a e = elim (Option-cases q.mutex) [
  | inr (k, m) ↦ absurd (ground (arith, e, m))
  | inl m ↦ elim (Bool-cases ((length q.cbs == 0) && (length q.fns == 0))) [
    | inl b ↦
        (record g { acquired = false }, ground (arith, e, m, b), ground (arith, e, m, b), inl a)
    | inr b ↦ (
      record g { cbs = q.cbs; fns = q.fns },
      ground (arith, e, m, b),
      ground (arith, e, m, b),
      inl a,
    )
  ]
]

take_one-Aside :
    (j : ℕ) (q r : ExecutionQueue) (g : Handle) (cs fs : List ℕ)
    → g.acquired ≡ true
    → take_one q j g cs fs ≡ some r
    → Aside j q g r
unfolding take_one
take_one-Aside j q r g cs (f ∷ fs) a e =
    (record g { fns = fs }, ground (arith, e), ground (arith, e), inl a)
take_one-Aside j q r g (c ∷ cs) [] a e =
    (record g { cbs = cs; next = some c }, ground (arith, e), ground (arith, e), inl a)
take_one-Aside j q r g [] [] a e = swap-Aside j q r g a e

run_handle-Aside :
    (j : ℕ) (q r : ExecutionQueue) (g : Handle) (xs : List (ℕ × ℕ)) (b : Bool)
    → g.acquired ≡ b
    → run_handle q j g xs b ≡ some r
    → Aside j q g r
unfolding run_handle
run_handle-Aside j q r g (x ∷ xs) b a e = (
  record g { xcbs = xs },
  ground (arith, e),
  ground (arith, e),
  inr (ground (arith, e), ground (arith, e)),
)
run_handle-Aside j q r g [] true a e = take_one-Aside j q r g g.cbs g.fns a e
run_handle-Aside j q r g [] false a e = (
  record g { stage = Stage.returned; next = none },
  ground (arith, e),
  ground (arith, e),
  inr (ground (arith, e), ground (arith, e)),
)

-- Another thread's action of `runReturnLast`: it changes the shared queues only where its handle has
-- acquired them, and then this one has not.
pub run_other-Next :
    (i j : ℕ) (q r : ExecutionQueue) (h : Handle)
    → Inv q
    → Behind i q h
    → j ≢ i
    → run j q ≡ some r
    → Next i r (remaining q h)
unfolding run
run_other-Next i j q r h w v ne e = elim (Option-cases (get_elem? q.handles j)) [
  | inl n ↦ absurd (ground (arith, e, n))
  | inr (g, n) ↦
      let (g', hs, m, sh) =
        run_handle-Aside j q r g g.xcbs g.acquired refl (ground (arith, e, n)) in
      let at : get_elem? r.handles i ≡ some h =
        ap (λ hs. get_elem? hs i) hs ∙ get_elem?-set_ne q.handles j i g' ne ∙ v.0 in
      (
        h,
        (at, (λ k. v.1 (sym m ∙ k)), v.2),
        elim sh [
          | inr (p, p') ↦ ground (arith, p, p')
          | inl a ↦ elim (Bool-cases h.acquired) [
            | inr b ↦ ground (arith, b)
            | inl b ↦
                absurd (ground (arith, w.one_runner, two_runners q.handles j i g h n v.0 ne a b))
          ]
        ],
      )
]
