-- ===== src/Tests.antt =====
-- Concrete queues, rings and schedulers, and the theorems applied to them.
mod Sockets
mod Runs
mod Executors
mod Awaiters
mod Commands
mod Stops
mod Streams
mod Queues
use native.Mathlib.Omega.{arith}
use mathlib.Core.Path.{refl}
use coproto.Prelude.{
  ℕ, ◌<◌, ◌≡◌, ◌↔◌, ◌⊎◌, inr, true, Option, none, some, [], ◌∷◌, length, replicate, take, drop,
  is_some, ◌+◌,
}
use coproto.Queue.{
  Block, Queue, occupied, capacity, push_back, front, pop_front, erase_ptr, block_at,
}
use coproto.Queue.Chain.{IsQueue, items}
use coproto.Queue.Refine.{front_lem, push_back_lem, pop_front_lem}
use coproto.Queue.Erase.{erase_ptr-none_iff}
use coproto.Executor.CbQueue
use coproto.Executor.CbQueue.{CbQueue, size, empty_ring}
use coproto.Executor.CbQueue.Fifo
use coproto.Executor.CbQueue.Fifo.{IsRing, items-push_back, items-pop_front, items-swap}
use coproto.Executor.CbQueue.Growth.{push_back_full}
use coproto.ErrorCode.{no_error}
use coproto.SessionId.{SessionId, root, derive, rounds, round, b_hash}
use coproto.Wire.{
  header_bytes, read_header, set_session_id, get_session_id, meta_bytes, header_size, control_size,
  read_header-header_bytes, get-set_session_id, meta_bytes_lem,
}
use coproto.Sched.State.{Sched}
use coproto.Sched.Table.{
  init_remote, init_local, fork, find_id, find_remote, add_fork, new_fork, assign_local,
  assign_remote, get_local,
}
use coproto.Sched.Table.Invariant.{
  TableOk, init_remote-TableOk, fork-TableOk, init_local-TableOk, empty-TableOk,
  init_remote-none_iff,
}
use coproto.Sched.Run.{empty_sched}

-- One block that has gone round: the values 5 to 8, the last in slot 0.
abbrev turned_block : Block ℕ
turned_block = record {
  slots = some 8 ∷ none ∷ none ∷ none ∷ none ∷ some 5 ∷ some 6 ∷ some 7 ∷ [];
  size_mask = 7;
  begin = 5;
  end = 9;
}

abbrev turned : Queue ℕ
turned = record { size = 4; chain = turned_block ∷ [] }

turned-IsQueue : IsQueue turned
unfolding occupied
turned-IsQueue = record {
  chained = (
    record {
      k = 3;
      small = omega arith;
      pow = omega arith;
      slots_len = refl;
      begin_lt = omega arith;
      end_lt = omega arith;
      fits = omega arith;
    },
    inr refl,
    tt,
    tt,
  );
  sized = refl;
  bound = omega arith;
}

erase_ptr-none_iff_example : (erase_ptr turned 0 0 ≡ none) ↔ (0 < 5)
unfolding block_at
erase_ptr-none_iff_example =
    erase_ptr-none_iff turned 0 0 turned_block 8 turned-IsQueue (omega arith) refl refl

push_back_lem_example :
    (q' : Queue ℕ) × (push_back turned 9 ≡ some q')
    × (items q' ≡ 5 ∷ 6 ∷ 7 ∷ 8 ∷ 9 ∷ [])
    × IsQueue q'
unfolding capacity occupied
push_back_lem_example = push_back_lem turned 9 turned-IsQueue (omega arith) (omega arith)

pop_front_lem_example :
    ((items turned ≡ []) × (pop_front turned ≡ none))
    ⊎ ((x : ℕ) × (q' : Queue ℕ) × (pop_front turned ≡ some q')
        × (items turned ≡ x ∷ items q')
        × IsQueue q')
pop_front_lem_example = pop_front_lem turned turned-IsQueue

-- A ring of eight that holds two callbacks, and a full one.
abbrev ring_of_two : CbQueue ℕ
ring_of_two = record {
  head = 9;
  tail = 7;
  array_backing = some 2 ∷ none ∷ none ∷ none ∷ none ∷ none ∷ none ∷ some 1 ∷ [];
  vec_backing = [];
  on_array = true;
}

abbrev full_ring : CbQueue ℕ
full_ring = record ring_of_two { head = 8; tail = 0; array_backing = replicate 8 (some 4) }

abbrev ring_of_two-IsRing : IsRing ring_of_two
unfolding size
ring_of_two-IsRing = record {
  k = 3;
  small = omega arith;
  vec_len = refl;
  head_lt = omega arith;
  tail_lt = omega arith;
  fits = omega arith;
  full = refl;
}

abbrev full_ring-IsRing : IsRing full_ring
unfolding size
full_ring-IsRing = record {
  k = 3;
  small = omega arith;
  vec_len = refl;
  head_lt = omega arith;
  tail_lt = omega arith;
  fits = omega arith;
  full = refl;
}

push_back_full_example :
    (Fifo.items (CbQueue.push_back full_ring 3) ≡ 3 ∷ [])
    × (size (CbQueue.push_back full_ring 3) ≡ 9)
unfolding size full_ring-IsRing
push_back_full_example = push_back_full full_ring 3 full_ring-IsRing refl

abbrev some_session : SessionId
some_session = record { v0 = 77; v1 = 1234567890; child_idx = 2 }

-- The scheduler with its first fork, whose id is `root`.
abbrev root_sched : Sched
unfolding empty_sched new_fork root
root_sched = record empty_sched {
  forks = record (new_fork root) { local_id = 1; executor = some 3 } ∷ [];
  next_local = 2;
  id_map = (root, 0) ∷ [];
}

root_sched-TableOk : TableOk root_sched
unfolding init_local add_fork assign_local find_id empty_sched new_fork root
root_sched-TableOk =
    init_local-TableOk root (some 3) empty_sched root_sched empty-TableOk (omega arith) refl

abbrev result_or {ℓ} : {A : Type ℓ} → Option (A × Sched) → Sched
result_or none = empty_sched
result_or (some (_, s)) = s

init_remote-TableOk_example : TableOk (result_or (init_remote 5 some_session root_sched))
unfolding init_remote assign_remote add_fork new_fork find_id find_remote empty_sched root
init_remote-TableOk_example =
    init_remote-TableOk 5 some_session root_sched
      (result_or (init_remote 5 some_session root_sched)) no_error root_sched-TableOk refl

fork-TableOk_example : TableOk (result_or (fork root root_sched))
unfolding fork get_local init_local add_fork assign_local find_id empty_sched new_fork root derive
    rounds round b_hash
fork-TableOk_example =
    fork-TableOk root root_sched ((derive root).0) (result_or (fork root root_sched))
      root_sched-TableOk (omega arith) refl

init_remote-none_iff_example :
    (init_remote 5 some_session root_sched ≡ none)
    ↔ (is_some (find_remote 5 root_sched.remote_map) ≡ true)
unfolding find_id root root_sched
init_remote-none_iff_example = init_remote-none_iff 5 some_session root_sched (omega arith) refl
