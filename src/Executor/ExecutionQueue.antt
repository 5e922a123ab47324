-- ===== src/Executor/ExecutionQueue.antt =====
-- coproto/Socket/Executor.h, `ExecutionQueue`: the shared state, and the handles through which any
-- number of threads queue callbacks and run them. A ring of callbacks (`CBQueue`) is the list of what it
-- holds, at most eight (Executor/CbQueue/Fifo); a push on a full ring, which loses what the ring holds
-- (Executor/CbQueue/Growth), is `none`, as are a failed assertion and an action whose turn it is not. A
-- handle is its position in the list of all that were acquired. A thread locks the mutex once at a time.
-- What a callback that is resumed or a function that is called does with the queue are actions of their
-- own, which come between two actions of the thread that runs it.
pub mod Handles
pub mod Order
pub mod Steps
pub mod Runs
pub mod Returns
pub mod Others
pub mod Bounded
use coproto.Prelude.{
  ℕ, ◌+◌, Bool, true, false, not, ◌&&◌, ◌||◌, Option, none, some, List, [], ◌∷◌, ◌++◌, ◌==◌,
  if◌then◌else◌, ◌>>=◌, length, get_elem?, set,
}

-- Where the owner of a handle stands: inside the critical section where it got the handle, in
-- `runReturnLast`, or behind it.
pub data Stage : Type 0 where
  locked running returned : Stage

pub record Handle : Type 0 where
  pub acquired : Bool
  pub xcbs : List (ℕ × ℕ)
  pub cbs : List ℕ
  pub fns : List ℕ
  pub next : Option ℕ
  pub stage : Stage

-- The state, the holder of its mutex, and the handles. The last fields record what has been queued
-- without an executor, what has been taken off the queues and what has been resumed, in order.
pub record ExecutionQueue : Type 0 where
  pub has_runner : Bool
  pub cbs : List ℕ
  pub fns : List ℕ
  pub mutex : Option ℕ
  pub handles : List Handle
  pub queued : List ℕ
  pub taken : List ℕ
  pub queued_fns : List ℕ
  pub called_fns : List ℕ
  pub resumed : List ℕ

abbrev pub new_queue : ExecutionQueue
new_queue = record {
  has_runner = false;
  cbs = [];
  fns = [];
  mutex = none;
  handles = [];
  queued = [];
  taken = [];
  queued_fns = [];
  called_fns = [];
  resumed = [];
}

abbrev pub set_handle : ExecutionQueue → ℕ → Handle → ExecutionQueue
set_handle q i h = record q { handles = set q.handles i h }

-- `Handle(state, lock)`, by a thread that has just locked the mutex.
unfoldable pub acquire : ExecutionQueue → Option ExecutionQueue
acquire q = elim q.mutex [
  | some _ ↦ none
  | none ↦ some (record q {
    has_runner = true;
    mutex = some (length q.handles);
    handles =
        q.handles
        ++ (record {
          acquired = not q.has_runner;
          xcbs = [];
          cbs = [];
          fns = [];
          next = none;
          stage = Stage.locked;
        }
            ∷ []);
  })
]

-- The handle of the thread that holds the mutex.
abbrev pub holder : ExecutionQueue → ℕ → Option Handle
holder q i = elim q.mutex [ none ↦ none | some j ↦ if j == i then get_elem? q.handles i else none ]

-- The length of `mArrayBacking`, and `CBQueue::push_back` on a ring that has not grown.
abbrev pub ring_capacity : ℕ
ring_capacity = 8

abbrev pub push_ring : {A : Type 0} → List A → A → Option (List A)
push_ring xs x = if length xs == ring_capacity then none else some (xs ++ (x ∷ []))

-- A callback with an executor waits in the handle; another one does so if the handle has acquired the
-- queue, and else in the shared state.
abbrev pub queued_by : ExecutionQueue → ℕ → Handle → Option ℕ → ℕ → Option ExecutionQueue
queued_by q i h (some e) c =
    push_ring h.xcbs (e, c) >>= λ xs. some (set_handle q i (record h { xcbs = xs }))
queued_by q i h none c =
    if h.acquired
    then (push_ring h.cbs c >>= λ cs.
        some (record (set_handle q i (record h { cbs = cs })) { queued = q.queued ++ (c ∷ []) }))
    else push_ring q.cbs c >>= λ cs. some (record q { cbs = cs; queued = q.queued ++ (c ∷ []) })

-- `push_back` of a callback, with an executor or without.
unfoldable pub push_back : ℕ → Option ℕ → ℕ → ExecutionQueue → Option ExecutionQueue
push_back i ex c q = holder q i >>= λ h. queued_by q i h ex c

unfoldable pub push_back_fn : ℕ → ℕ → ExecutionQueue → Option ExecutionQueue
push_back_fn i f q = holder q i >>= λ h.
    if h.acquired
    then (push_ring h.fns f >>= λ fs.
        some (record (set_handle q i (record h { fns = fs })) {
          queued_fns = q.queued_fns ++ (f ∷ []);
        }))
    else push_ring q.fns f >>= λ fs.
        some (record q { fns = fs; queued_fns = q.queued_fns ++ (f ∷ []) })

-- The end of the critical section.
unfoldable pub unlock : ℕ → ExecutionQueue → Option ExecutionQueue
unlock i q = holder q i >>= λ h.
    some (record (set_handle q i (record h { stage = Stage.running })) { mutex = none })

abbrev push_next : Option ℕ → List ℕ
push_next none = []
push_next (some c) = c ∷ []

-- The loop of `runReturnLast` where both queues of the handle are empty: it swaps them with the
-- shared ones under the mutex, and gives the queue up if those are empty too.
unfoldable pub swap : ExecutionQueue → ℕ → Handle → Option ExecutionQueue
swap q i h = elim q.mutex [
  | some _ ↦ none
  | none ↦ some (
      if (length q.cbs == 0) && (length q.fns == 0)
      then record (set_handle q i (record h { acquired = false })) { has_runner = false }
      else record (set_handle q i (record h { cbs = q.cbs; fns = q.fns })) { cbs = []; fns = [] })
]

-- One round of the inner loop: a function is called, or a callback is taken, which waits until the
-- next one is taken; the one that waited is resumed. What they do then are the next actions.
unfoldable pub take_one : ExecutionQueue → ℕ → Handle → List ℕ → List ℕ → Option ExecutionQueue
unfolding swap
take_one q i h cs (f ∷ fs) =
    some (record (set_handle q i (record h { fns = fs })) { called_fns = q.called_fns ++ (f ∷ []) })
take_one q i h (c ∷ cs) [] = some (record (set_handle q i (record h { cbs = cs; next = some c })) {
  taken = q.taken ++ (c ∷ []);
  resumed = q.resumed ++ push_next h.next;
})
take_one q i h [] [] = swap q i h

-- The next action of `runReturnLast`: the callbacks with an executor come first; a handle that does
-- not hold the queue returns its last callback, which is then resumed.
unfoldable pub run_handle :
    ExecutionQueue → ℕ → Handle → List (ℕ × ℕ) → Bool → Option ExecutionQueue
unfolding take_one
run_handle q i h (x ∷ xs) b = some (set_handle q i (record h { xcbs = xs }))
run_handle q i h [] true = take_one q i h h.cbs h.fns
run_handle q i h [] false =
    some (record (set_handle q i (record h { stage = Stage.returned; next = none })) {
      resumed = q.resumed ++ push_next h.next;
    })

unfoldable pub run : ℕ → ExecutionQueue → Option ExecutionQueue
unfolding run_handle
run i q = get_elem? q.handles i >>= λ h. elim h.stage [
  | Stage.running ↦ run_handle q i h h.xcbs h.acquired
  | _ ↦ none
]

pub data Action : Type 0 where
  acquires : Action
  pushes : ℕ → Option ℕ → ℕ → Action
  pushes_fn : ℕ → ℕ → Action
  unlocks : ℕ → Action
  runs : ℕ → Action

unfoldable pub act : ExecutionQueue → Action → Option ExecutionQueue
unfolding acquire push_back push_back_fn unlock run
act q acquires = acquire q
act q (pushes i ex c) = push_back i ex c q
act q (pushes_fn i f) = push_back_fn i f q
act q (unlocks i) = unlock i q
act q (runs i) = run i q

unfoldable pub acts : List Action → ExecutionQueue → Option ExecutionQueue
unfolding act
acts [] q = some q
acts (x ∷ xs) q = act q x >>= acts xs
