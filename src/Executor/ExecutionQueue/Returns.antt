-- ===== src/Executor/ExecutionQueue/Returns.antt =====
-- Executor.h, `Handle::runReturnLast`, from its call to its return, while nothing else is done with the
-- queue.
use coproto.Prelude.{
  ℕ, zero, suc, ◌+◌, ◌≤◌, ◌<◌, ◌≡◌, refl, ◌⊎◌, inl, inr, Bool, true, false, Option, none, some,
  List, [], ◌∷◌, ◌++◌, arith, ◌>>=◌, length, get_elem?, set, if◌then◌else◌,
}
use coproto.Executor.ExecutionQueue.{
  Stage, Handle, ExecutionQueue, set_handle, swap, take_one, run_handle, run, push_next,
}

-- One action after another until the handle's thread returns; the fuel bounds the actions.
unfoldable pub run_return_last : ℕ → ℕ → ExecutionQueue → Option ExecutionQueue
unfolding run
run_return_last zero i q = none
run_return_last (suc n) i q = run i q >>= λ r. get_elem? r.handles i >>= λ h. elim h.stage [
  | Stage.returned ↦ some r
  | _ ↦ run_return_last n i r
]

-- The actions that are still to come.
abbrev pub cost_shared : List ℕ → List ℕ → ℕ
cost_shared [] [] = 0
cost_shared cs fs = length cs + length fs + 1

abbrev pub cost : ExecutionQueue → Handle → ℕ
cost q h =
    length h.xcbs
    + (if h.acquired then length h.cbs + length h.fns + cost_shared q.cbs q.fns + 1 else 0)
    + 1

-- What an action leaves: the thread has returned, or it goes on with fewer actions to come. A handle
-- that has given the queue up has left it without a runner.
abbrev pub Left : Bool → ExecutionQueue → Handle → ℕ → Type 0
Left b r h n =
    ((h.acquired ≡ b) ⊎ (r.has_runner ≡ false))
    × (((h.stage ≡ Stage.returned) × (h.acquired ≡ false) × (1 ≤ n))
        ⊎ ((h.stage ≡ Stage.running) × (cost r h < n)))

abbrev pub Went : ℕ → Bool → Bool → Option ExecutionQueue → ℕ → Type 0
Went i b c o n =
    (r : ExecutionQueue) × (h : Handle) × (o ≡ some r)
    × (r.mutex ≡ none)
    × (get_elem? r.handles i ≡ some h)
    × ((r.has_runner ≡ c) ⊎ (r.has_runner ≡ false))
    × Left b r h n

set_there :
    (hs : List Handle) (i : ℕ) (h h' : Handle)
    → get_elem? hs i ≡ some h
    → get_elem? (set hs i h') i ≡ some h'
set_there [] i h h' e = cc
set_there (x ∷ hs) zero h h' e = refl
set_there (x ∷ hs) (suc i) h h' e = set_there hs i h h' e

module _ (q : ExecutionQueue) (i : ℕ) (h : Handle) (m : q.mutex ≡ none)
    (at : get_elem? q.handles i ≡ some h) (st : h.stage ≡ Stage.running) where
  swap-Went :
      (cs fs : List ℕ)
      → q.cbs ≡ cs
      → q.fns ≡ fs
      → h.acquired ≡ true
      → h.cbs ≡ []
      → h.fns ≡ []
      → Went i true q.has_runner (swap q i h) (cost q h)
  unfolding swap
  swap-Went [] [] c f a hc hf =
      let h' : Handle = record h { acquired = false } in
      (
        record (set_handle q i h') { has_runner = false },
        h',
        ground (arith, m, c, f),
        m,
        set_there q.handles i h h' at,
        inr refl,
        (inr refl, inr (st, ground (arith, c, f, a, hc, hf))),
      )
  swap-Went [] (x ∷ fs) c f a hc hf =
      let h' : Handle = record h { cbs = q.cbs; fns = q.fns } in
      (
        record (set_handle q i h') { cbs = []; fns = [] },
        h',
        ground (arith, m, c, f),
        m,
        set_there q.handles i h h' at,
        inl refl,
        (inl a, inr (st, ground (arith, c, f, a, hc, hf))),
      )
  swap-Went (x ∷ cs) fs c f a hc hf =
      let h' : Handle = record h { cbs = q.cbs; fns = q.fns } in
      (
        record (set_handle q i h') { cbs = []; fns = [] },
        h',
        ground (arith, m, c, f),
        m,
        set_there q.handles i h h' at,
        inl refl,
        (inl a, inr (st, ground (arith, c, f, a, hc, hf))),
      )

  take_one-Went :
      (cs fs : List ℕ)
      → h.cbs ≡ cs
      → h.fns ≡ fs
      → h.acquired ≡ true
      → Went i true q.has_runner (take_one q i h cs fs) (cost q h)
  unfolding take_one
  take_one-Went cs (f ∷ fs) hc hf a =
      let h' : Handle = record h { fns = fs } in
      (
        record (set_handle q i h') { called_fns = q.called_fns ++ (f ∷ []) },
        h',
        refl,
        m,
        set_there q.handles i h h' at,
        inl refl,
        (inl a, inr (st, ground (arith, a, hc, hf))),
      )
  take_one-Went (c ∷ cs) [] hc hf a =
      let h' : Handle = record h { cbs = cs; next = some c } in
      (
        record (set_handle q i h') {
          taken = q.taken ++ (c ∷ []);
          resumed = q.resumed ++ push_next h.next;
        },
        h',
        refl,
        m,
        set_there q.handles i h h' at,
        inl refl,
        (inl a, inr (st, ground (arith, a, hc, hf))),
      )
  take_one-Went [] [] hc hf a = swap-Went q.cbs q.fns refl refl a hc hf

  run_handle-Went :
      (xs : List (ℕ × ℕ)) (b : Bool)
      → h.xcbs ≡ xs
      → h.acquired ≡ b
      → Went i b q.has_runner (run_handle q i h xs b) (cost q h)
  unfolding run_handle
  run_handle-Went (x ∷ xs) b hx a =
      let h' : Handle = record h { xcbs = xs } in
      (
        set_handle q i h',
        h',
        refl,
        m,
        set_there q.handles i h h' at,
        inl refl,
        (inl a, inr (st, ground (arith, hx))),
      )
  run_handle-Went [] true hx a = take_one-Went h.cbs h.fns refl refl a
  run_handle-Went [] false hx a =
      let h' : Handle = record h { stage = Stage.returned; next = none } in
      (
        record (set_handle q i h') { resumed = q.resumed ++ push_next h.next },
        h',
        refl,
        m,
        set_there q.handles i h h' at,
        inl refl,
        (inl a, inl (refl, a, omega arith)),
      )

  pub run-Went : Went i h.acquired q.has_runner (run i q) (cost q h)
  unfolding run
  run-Went =
      let w = run_handle-Went h.xcbs h.acquired refl refl in
      (w.0, w.1, ground (arith, at, st, w.2), w.3, w.4, w.5, w.6)

-- Where `runReturnLast` ends.
abbrev Ends : ℕ → ℕ → ExecutionQueue → Handle → Type 0
Ends n i q h =
    (r : ExecutionQueue) × (g : Handle) × (run_return_last n i q ≡ some r)
    × (get_elem? r.handles i ≡ some g)
    × (g.stage ≡ Stage.returned)
    × (g.acquired ≡ false)
    × ((h.acquired ≡ false) ⊎ (r.has_runner ≡ false))
    × ((r.has_runner ≡ q.has_runner) ⊎ (r.has_runner ≡ false))

ends :
    (n i : ℕ) (q : ExecutionQueue) (h : Handle)
    → q.mutex ≡ none
    → get_elem? q.handles i ≡ some h
    → h.stage ≡ Stage.running
    → cost q h ≤ n
    → Ends n i q h
unfolding run_return_last
ends zero i q h m at st le = absurd (omega (arith, le))
ends (suc n) i q h m at st le =
    let (r, g, e, m', at', c, (b, w)) = run-Went q i h m at st in
    elim w [
      | inl (s, a, _) ↦ (r, g, ground (arith, e, at', s), at', s, a, ground (arith, a, b), c)
      | inr (s, lt) ↦
          let (r', g', e', at2, s', a', k, k') = ends n i r g m' at' s (omega (arith, lt, le)) in
          (
            r',
            g',
            ground (arith, e, at', s, e'),
            at2,
            s',
            a',
            ground (arith, k, k', b),
            ground (arith, k', c),
          )
    ]

-- Once the mutex is free, and while neither another thread nor a callback or function that is run does
-- anything with the queue, `runReturnLast` returns, within as many actions as there are callbacks and
-- functions to run and at most three more. The handle has then given the queue up, and if it had acquired
-- it there is no runner any more.
pub run_return_last-returns :
    (i : ℕ) (q : ExecutionQueue) (h : Handle)
    → q.mutex ≡ none
    → get_elem? q.handles i ≡ some h
    → h.stage ≡ Stage.running
    → (r : ExecutionQueue) × (g : Handle) × (run_return_last (cost q h) i q ≡ some r)
      × (get_elem? r.handles i ≡ some g)
      × (g.stage ≡ Stage.returned)
      × (g.acquired ≡ false)
      × ((h.acquired ≡ false) ⊎ (r.has_runner ≡ false))
run_return_last-returns i q h m at st =
    let (r, g, e, at', s, a, k, _) = ends (cost q h) i q h m at st (omega arith) in
    (r, g, e, at', s, a, k)
