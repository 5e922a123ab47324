-- ===== src/Sched/Flush.antt =====
-- SocketScheduler.cpp, `flush`; SocketFork.h, the part of `completeOn` on flushes; Operation.h,
-- `FlushToken`. Of an operation only its flush tokens are looked at. The queues are those of receives
-- and sends of all forks. A token is the number of its flush; it is shared by the operations that hold
-- it, which are its use count. `none` is a call that fails: `back()` of a queue whose last entry is that
-- of an erased operation, or `erase(T*)` where the ring of the block has gone round (Queue/Erase).
pub mod Counts
pub mod Once
use coproto.Prelude.{
  ℕ, zero, suc, ◌+◌, Bool, true, false, not, ◌&&◌, ◌||◌, Option, none, some, List, [], ◌∷◌, ◌++◌,
  ◌==◌, if◌then◌else◌, ◌>>=◌, length, get_elem?, set, remove_at,
}

-- `back_erased` says of each queue whether the last entry of its ring is that of an operation that has
-- been erased. `resumed` has the tokens whose handles have been resumed or queued, in order.
pub record Flushing : Type 0 where
  pub queues : List (List (List ℕ))
  pub back_erased : List Bool
  pub next_token : ℕ
  pub resumed : List ℕ

abbrev pub no_flushes : Flushing
no_flushes = record { queues = []; back_erased = []; next_token = 0; resumed = [] }

-- How often a token stands in a list, in the operations of a queue and in those of all queues.
abbrev pub occurs : ℕ → List ℕ → ℕ
occurs t [] = 0
occurs t (u ∷ us) = (if t == u then 1 else 0) + occurs t us

abbrev pub in_queue : ℕ → List (List ℕ) → ℕ
in_queue t [] = 0
in_queue t (op ∷ ops) = occurs t op + in_queue t ops

abbrev pub use_count : ℕ → List (List (List ℕ)) → ℕ
use_count t [] = 0
use_count t (q ∷ qs) = in_queue t q + use_count t qs

abbrev pub pending : List (List (List ℕ)) → ℕ
pending [] = 0
pending (q ∷ qs) = length q + pending qs

-- Whether `back()` fails on one of the queues that are not empty.
abbrev pub back_fails : List (List (List ℕ)) → List Bool → Bool
back_fails [] bs = false
back_fails (q ∷ qs) [] = false
back_fails (q ∷ qs) (b ∷ bs) = b && not (length q == 0) || back_fails qs bs

-- `addFlush` of the last operation, which `back()` gives unless it fails.
abbrev pub add_back : ℕ → List (List ℕ) → List (List ℕ)
add_back t [] = []
add_back t (op ∷ []) = (op ++ (t ∷ [])) ∷ []
add_back t (op ∷ o ∷ ops) = op ∷ add_back t (o ∷ ops)

abbrev pub add_flush : ℕ → List (List (List ℕ)) → List (List (List ℕ))
add_flush t [] = []
add_flush t (q ∷ qs) = add_back t q ∷ add_flush t qs

-- `flush`: without pending operations the handle is returned, to be resumed at once.
unfoldable pub flush : Flushing → Option Flushing
flush s =
    if pending s.queues == 0
    then some
        (record s { next_token = s.next_token + 1; resumed = s.resumed ++ (s.next_token ∷ []) })
    else if back_fails s.queues s.back_erased
    then none
    else some (record s { next_token = s.next_token + 1; queues = add_flush s.next_token s.queues })

-- The tokens of an operation that no other operation holds.
abbrev pub released : List ℕ → List (List (List ℕ)) → List ℕ
released [] qs = []
released (t ∷ ts) qs = if use_count t qs == 0 then t ∷ released ts qs else released ts qs

-- Whether the last entry of a queue is an erased one, once the operation at place `n` has left it: an
-- empty queue drops its erased entries.
abbrev pub back_erased_by : ℕ → List (List ℕ) → Bool → Bool
back_erased_by n q b = if length q == 1 then false else if n + 1 == length q then true else b

abbrev pub mark : ℕ → ℕ → List (List ℕ) → List Bool → List Bool
mark i n q [] = []
mark zero n q (b ∷ bs) = back_erased_by n q b ∷ bs
mark (suc i) n q (b ∷ bs) = b ∷ mark i n q bs

-- `completeOn` of an operation that then leaves its queue: the first one when it has completed, and any
-- when it is stopped.
unfoldable pub complete_on : ℕ → ℕ → Flushing → Option Flushing
complete_on i n s = get_elem? s.queues i >>= λ q. get_elem? q n >>= λ op.
    let qs = set s.queues i (remove_at n q) in
    some (record s {
      queues = qs;
      back_erased = mark i n q s.back_erased;
      resumed = s.resumed ++ released op qs;
    })

-- The stop callback of an operation that is not started erases it by its address.
unfoldable pub stop : Bool → ℕ → ℕ → Flushing → Option Flushing
unfolding complete_on
stop erases i n s = if erases then complete_on i n s else none

-- A new operation, and the two queues of a new fork.
unfoldable pub enqueue : ℕ → Flushing → Option Flushing
enqueue i s = get_elem? s.queues i >>= λ q.
    some (record s {
      queues = set s.queues i (q ++ ([] ∷ []));
      back_erased = set s.back_erased i false;
    })

unfoldable pub new_queues : Flushing → Flushing
new_queues s = record s {
  queues = s.queues ++ ([] ∷ [] ∷ []);
  back_erased = s.back_erased ++ (false ∷ false ∷ []);
}

pub data Action : Type 0 where
  flushes new_fork : Action
  enqueues completes : ℕ → Action
  stops : Bool → ℕ → ℕ → Action

unfoldable pub act : Flushing → Action → Option Flushing
unfolding flush complete_on stop enqueue new_queues
act s flushes = flush s
act s new_fork = some (new_queues s)
act s (enqueues i) = enqueue i s
act s (completes i) = complete_on i 0 s
act s (stops erases i n) = stop erases i n s

unfoldable pub acts : List Action → Flushing → Option Flushing
unfolding act
acts [] s = some s
acts (x ∷ xs) s = act s x >>= acts xs
