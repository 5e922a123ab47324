-- ===== src/Tests/Executors.antt =====
-- Two threads at one execution queue, and the theorems on it applied.
use coproto.Prelude.{
  ℕ, zero, suc, ◌+◌, ◌<◌, ◌≤◌, is_some, ◌⊎◌, get_elem?, ◌≡◌, refl, true, false, none, some, List,
  [], ◌∷◌, ◌++◌,
}
use coproto.Executor.ExecutionQueue.{
  Stage, Handle, ExecutionQueue, new_queue, Action, acquires, pushes, pushes_fn, unlocks, runs, run,
  acts,
}
use coproto.Executor.ExecutionQueue.Handles.{own_cbs, own_fns, runners, one_if}
use coproto.Executor.ExecutionQueue.Runs.{queued_in_order, no_lost_callback}
use coproto.Executor.ExecutionQueue.Bounded.{runs_bounded}
use coproto.Executor.ExecutionQueue.Returns.{run_return_last, run_return_last-returns, cost}

-- Thread 0 queues a callback and runs it; thread 1 queues one and a function meanwhile.
abbrev two_threads : List Action
two_threads =
    acquires
    ∷ pushes 0 none 10
    ∷ pushes 0 (some 3) 11
    ∷ unlocks 0
    ∷ runs 0
    ∷ runs 0
    ∷ acquires
    ∷ pushes 1 none 12
    ∷ pushes_fn 1 13
    ∷ unlocks 1
    ∷ runs 1
    ∷ []

abbrev met : ExecutionQueue
met = record {
  has_runner = true;
  cbs = 12 ∷ [];
  fns = 13 ∷ [];
  mutex = none;
  handles =
      record {
        acquired = true;
        xcbs = [];
        cbs = [];
        fns = [];
        next = some 10;
        stage = Stage.running;
      }
      ∷ record {
        acquired = false;
        xcbs = [];
        cbs = [];
        fns = [];
        next = none;
        stage = Stage.returned;
      }
      ∷ [];
  queued = 10 ∷ 12 ∷ [];
  taken = 10 ∷ [];
  queued_fns = 13 ∷ [];
  called_fns = [];
  resumed = [];
}

met_lem : acts two_threads new_queue ≡ some met
unfolding acts
met_lem = refl

abbrev left : ExecutionQueue
left = record {
  has_runner = false;
  cbs = [];
  fns = [];
  mutex = none;
  handles =
      record {
        acquired = false;
        xcbs = [];
        cbs = [];
        fns = [];
        next = none;
        stage = Stage.returned;
      }
      ∷ record {
        acquired = false;
        xcbs = [];
        cbs = [];
        fns = [];
        next = none;
        stage = Stage.returned;
      }
      ∷ [];
  queued = 10 ∷ 12 ∷ [];
  taken = 10 ∷ 12 ∷ [];
  queued_fns = 13 ∷ [];
  called_fns = 13 ∷ [];
  resumed = 10 ∷ 12 ∷ [];
}

-- Thread 0 then finds the queues of thread 1, and gives the queue up.
left_lem :
    acts (two_threads ++ (runs 0 ∷ runs 0 ∷ runs 0 ∷ runs 0 ∷ runs 0 ∷ [])) new_queue ≡ some left
unfolding acts
left_lem = refl

-- The ninth callback that is queued at once finds the ring full.
abbrev queue_callbacks : ℕ → List Action
queue_callbacks zero = []
queue_callbacks (suc n) = pushes 0 none n ∷ queue_callbacks n

eight_fit : is_some (acts (acquires ∷ queue_callbacks 8) new_queue) ≡ true
unfolding acts
eight_fit = refl

ninth_lost : acts (acquires ∷ queue_callbacks 9) new_queue ≡ none
unfolding acts
ninth_lost = refl

queued_in_order_example :
    (runners met.handles ≡ one_if met.has_runner)
    × (met.taken ++ (own_cbs met.handles ++ met.cbs) ≡ met.queued)
    × (met.called_fns ++ (own_fns met.handles ++ met.fns) ≡ met.queued_fns)
queued_in_order_example = queued_in_order two_threads met met_lem

no_lost_callback_example :
    (left.cbs ≡ [])
    × (left.fns ≡ [])
    × (left.taken ≡ left.queued)
    × (left.called_fns ≡ left.queued_fns)
no_lost_callback_example =
    no_lost_callback (two_threads ++ (runs 0 ∷ runs 0 ∷ runs 0 ∷ runs 0 ∷ runs 0 ∷ [])) left
      left_lem refl

abbrev runner : Handle
runner = record {
  acquired = true;
  xcbs = [];
  cbs = [];
  fns = [];
  next = some 10;
  stage = Stage.running;
}

run_return_last-returns_example :
    (r : ExecutionQueue) × (g : Handle) × (run_return_last (cost met runner) 0 met ≡ some r)
    × (get_elem? r.handles 0 ≡ some g)
    × (g.stage ≡ Stage.returned)
    × (g.acquired ≡ false)
    × ((true ≡ false) ⊎ (r.has_runner ≡ false))
run_return_last-returns_example = run_return_last-returns 0 met runner refl refl refl

-- Thread 0 takes over what thread 1 has queued, and calls the function, while thread 2 queues a callback.
abbrev meanwhile : List Action
meanwhile = runs 0 ∷ acquires ∷ pushes 2 none 20 ∷ unlocks 2 ∷ runs 2 ∷ runs 0 ∷ []

abbrev goes_on : Handle
goes_on = record runner { cbs = 12 ∷ [] }

abbrev went_on : ExecutionQueue
went_on = record met {
  cbs = 20 ∷ [];
  fns = [];
  handles =
      goes_on
      ∷ record runner { acquired = false; next = none; stage = Stage.returned }
      ∷ record runner { acquired = false; next = none; stage = Stage.returned }
      ∷ [];
  queued = 10 ∷ 12 ∷ 20 ∷ [];
  called_fns = 13 ∷ [];
}

went_on_lem : acts meanwhile met ≡ some went_on
unfolding acts
went_on_lem = refl

runs_bounded_example :
    (g : Handle) × (get_elem? went_on.handles 0 ≡ some g)
    × (((g.stage ≡ Stage.returned) × (2 ≤ cost met runner + 2))
        ⊎ ((g.stage ≡ Stage.running)
            × (2 < cost met runner + 2)
            × (went_on.mutex ≡ none → is_some (run 0 went_on) ≡ true)))
runs_bounded_example =
    runs_bounded two_threads meanwhile 0 met went_on runner met_lem refl refl (λ e. cc) went_on_lem
