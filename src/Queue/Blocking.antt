-- ===== src/Queue/Blocking.antt =====
-- Queue.h, `BlockingQueue`: a `std::deque` behind a lock, so each operation is one step. The list is the
-- deque from its front to its back. A pop of an empty deque waits: it is not a step, `none`.
pub mod Fifo
use coproto.Prelude.{ℕ, Option, none, some, List, [], ◌∷◌, ◌>>=◌, length}

module _ {ℓ} {A : Type ℓ} where
  abbrev pub back : List A → Option A
  back [] = none
  back (a ∷ []) = some a
  back (a ∷ b ∷ r) = back (b ∷ r)

  abbrev pub pop_back : List A → List A
  pop_back [] = []
  pop_back (a ∷ []) = []
  pop_back (a ∷ b ∷ r) = a ∷ pop_back (b ∷ r)

  -- `push` and `emplace`
  unfoldable pub push : A → List A → List A
  push a q = a ∷ q

  unfoldable pub pop : List A → Option (A × List A)
  pop q = back q >>= λ a. some (a, pop_back q)

  unfoldable pub try_pop : List A → Option A × List A
  try_pop [] = (none, [])
  try_pop (a ∷ r) = (back (a ∷ r), pop_back (a ∷ r))

  unfoldable pub pop_with_size : List A → Option (A × ℕ × List A)
  pop_with_size q = back q >>= λ a. some (a, length (pop_back q), pop_back q)

  unfoldable pub clear : List A → List A
  clear q = []

  -- A move: the target gets the state, and the source a new one.
  unfoldable pub move_from : List A → List A × List A
  move_from q = (q, [])
