-- ===== src/Tests/Runs.antt =====
-- A run of the scheduler on concrete events.
use coproto.Prelude.{refl, Option, none, some, [], ◌∷◌}
use coproto.SessionId.{root}
use coproto.Sched.State.{Sched}
use coproto.Sched.Run.{empty_sched, init, run, step, recvs}
use coproto.Sched.Recv.{suspend_any, wait_any, recv, start_recv}
use coproto.Sched.Send.{suspend_next, wait_next, start_next}
use coproto.Sched.Table.{init_local, add_fork, new_fork, assign_local, find_id, get_local}
use coproto.Sched.Count.{CountOk}
use coproto.Sched.Count.Run.{run-CountOk}
use coproto.Tests.Sockets.{a_buffer}

-- What is left of a run.
abbrev state_or : Option Sched → Sched
state_or none = empty_sched
state_or (some s) = s

-- A scheduler after `init`.
abbrev opened : Sched
unfolding init suspend_any suspend_next wait_any wait_next start_next init_local add_fork new_fork
    assign_local find_id empty_sched root
opened = state_or (init root)

run-CountOk_example :
    CountOk (state_or (run (recvs root a_buffer 21 ∷ recvs root a_buffer 22 ∷ []) opened))
unfolding run step recv start_recv get_local find_id opened init suspend_any suspend_next wait_any
    wait_next start_next init_local add_fork new_fork assign_local empty_sched root
run-CountOk_example =
    run-CountOk (recvs root a_buffer 21 ∷ recvs root a_buffer 22 ∷ []) opened _ refl refl
