-- ===== src/Tests/Queues.antt =====
-- Iterators, growth and blocking queues on concrete values, and the theorems applied to them.
use coproto.Prelude.{ℕ, ◌+◌, ◌-◌, ◌^◌, ◌≡◌, refl, none, some, [], ◌∷◌, arith}
use coproto.Queue.{Queue, empty_queue, new_block, capacity, occupied, push_back, front}
use coproto.Queue.Refine.{empty_queue-IsQueue}
use coproto.Queue.Iterator.{Iterator, begin, visit}
use coproto.Queue.Iterator.Visits.{visit-begin}
use coproto.Queue.Reserve.{round_up, reserve, front-reserve}
use coproto.Queue.Blocking.Fifo.{
  pushes, pops, try_pops, pops_with_size, done, nothing, popped, popped_of, run, step, fifo_step,
  view, run-fifo_step,
}
use coproto.Tests.{turned, turned-IsQueue}

visit-begin_example :
    (it : Iterator ℕ) × (begin turned ≡ some it) × (visit 5 it ≡ some (5 ∷ 6 ∷ 7 ∷ 8 ∷ []))
unfolding occupied
visit-begin_example = visit-begin turned turned-IsQueue (omega arith, omega arith, tt)

-- A capacity of 0 gives a block of size 0, and one above 2^32 need not become a power of two.
round_up-test : (round_up 9 ≡ 16) × (round_up 0 ≡ 0) × (round_up (2 ^ 40 + 1) ≡ 2 ^ 41 - 511)
unfolding round_up
round_up-test = (refl, refl, refl)

front-reserve_example :
    (q1 : Queue ℕ) × (q2 : Queue ℕ) × (reserve 9 empty_queue ≡ some q1)
    × (push_back q1 7 ≡ some q2)
    × (front q2 ≡ none)
unfolding round_up empty_queue new_block capacity occupied
front-reserve_example = front-reserve 9 empty_queue 7 empty_queue-IsQueue refl (omega arith) refl

run-fifo_step_example :
    view {A = ℕ} (run step (pushes 1 ∷ pushes 2 ∷ pops ∷ pops_with_size ∷ try_pops ∷ []) [])
    ≡ some (done ∷ done ∷ popped 1 ∷ popped_of 2 0 ∷ nothing ∷ [], [])
unfolding run fifo_step
run-fifo_step_example =
    run-fifo_step (pushes 1 ∷ pushes 2 ∷ pops ∷ pops_with_size ∷ try_pops ∷ []) []
