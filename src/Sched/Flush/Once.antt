-- ===== src/Sched/Flush/Once.antt =====
-- SocketScheduler.cpp and SocketFork.h: the handles that wait for a flush.
use coproto.Prelude.{ℕ, ◌≤◌, ◌<◌, ◌≡◌, ◌⊎◌}
use coproto.Sched.Flush.{Flushing, occurs, use_count}
use coproto.Sched.Flush.Counts.{Once}

-- A token of a flush so far: its handle has been resumed once and no operation holds it, or it has not
-- been resumed and an operation does.
abbrev pub WaitsOrResumed : ℕ → Flushing → Type 0
WaitsOrResumed t s =
    ((occurs t s.resumed ≡ 1) × (use_count t s.queues ≡ 0))
    ⊎ ((occurs t s.resumed ≡ 0) × (0 < use_count t s.queues))

pub record Inv (s : Flushing) : Type 0 where
  pub once : (t : ℕ) → Once t s.queues
  pub flushed : (t : ℕ) → t < s.next_token → WaitsOrResumed t s
  pub unused : (t : ℕ) → s.next_token ≤ t → (occurs t s.resumed ≡ 0) × (use_count t s.queues ≡ 0)
