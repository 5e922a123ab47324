-- ===== src/Sched/Table.antt =====
-- SocketScheduler.cpp: the forks, their local and remote ids, and the two maps that find them.
-- `none` is a failed assertion.
pub mod Keys
pub mod Invariant
use coproto.Prelude.{
  ℕ, zero, suc, ◌+◌, ◌%◌, Bool, true, false, Option, none, some, List, [], ◌∷◌, ◌++◌, ◌==◌,
  if◌then◌else◌, ◌>>=◌, is_some, length, get_elem?, set,
}
use coproto.Prelude.Word.{u32_mod}
use coproto.ErrorCode.{ErrorCode, Code, code, no_error}
use coproto.SessionId.{SessionId, same, derive}
use coproto.Sched.State.{SocketFork, Sched, set_fork, no_id}

unfoldable pub find_id : SessionId → List (SessionId × ℕ) → Option ℕ
find_id id [] = none
find_id id ((j, i) ∷ m) = if same j id then some i else find_id id m

unfoldable pub find_remote : ℕ → List (ℕ × ℕ) → Option ℕ
find_remote r [] = none
find_remote r ((q, i) ∷ m) = if q == r then some i else find_remote r m

unfoldable pub new_fork : SessionId → SocketFork
new_fork id = record {
  session_id = id;
  local_id = no_id;
  remote_id = no_id;
  initiated = false;
  executor = none;
  recv_ops = [];
}

-- Appends a fork for the session and maps its id to it.
unfoldable pub add_fork : SessionId → Sched → Sched
unfolding new_fork
add_fork id s = record s {
  forks = s.forks ++ (new_fork id ∷ []);
  id_map = (id, length s.forks) ∷ s.id_map;
}

-- `getLocalSocketFork`: the assertion compares the local id with 0.
unfoldable pub get_local : SessionId → Sched → Option ℕ
unfolding find_id
get_local id s = find_id id s.id_map >>= λ i.
    get_elem? s.forks i >>= λ f. if f.local_id == 0 then none else some i

-- Gives fork `i` the next local id and its executor.
unfoldable pub assign_local : Sched → Option ℕ → ℕ → Option Sched
assign_local s ex i = get_elem? s.forks i >>= λ f.
    some (record (set_fork s i (record f { local_id = s.next_local; executor = ex })) {
      next_local = (s.next_local + 1) % u32_mod;
    })

-- `initLocalSocketFork`
unfoldable pub init_local : SessionId → Option ℕ → Sched → Option Sched
unfolding add_fork assign_local find_id
init_local id ex s = elim (find_id id s.id_map) [
  | none ↦ assign_local (add_fork id s) ex (length s.forks)
  | some i ↦ get_elem? s.forks i >>= λ f. if f.local_id == no_id then assign_local s ex i else none
]

-- Maps the peer's slot id to fork `i`, which must have none yet.
unfoldable pub assign_remote : Sched → ℕ → SessionId → ℕ → Option (ErrorCode × Sched)
unfolding find_remote
assign_remote s slot id i = get_elem? s.forks i >>= λ f.
    if f.remote_id == no_id
    then (if same f.session_id id
        then (if is_some (find_remote slot s.remote_map)
            then none
            else some (
              no_error,
              record (set_fork s i (record f { remote_id = slot })) {
                remote_map = (slot, i) ∷ s.remote_map;
              },
            ))
        else none)
    else some (code Code.bad_coproto_message_header, s)

-- `initRemoteSocketFork`
unfoldable pub init_remote : ℕ → SessionId → Sched → Option (ErrorCode × Sched)
unfolding add_fork assign_remote find_id
init_remote slot id s =
    if slot == no_id
    then some (code Code.bad_coproto_message_header, s)
    else elim (find_id id s.id_map) [
      | none ↦ assign_remote (add_fork id s) slot id (length s.forks)
      | some i ↦ assign_remote s slot id i
    ]

-- `SockScheduler::fork`: the parent's counter moves on, and the child gets its executor.
unfoldable pub fork : SessionId → Sched → Option (SessionId × Sched)
unfolding get_local init_local
fork id s = get_local id s >>= λ i. get_elem? s.forks i >>= λ f.
    let (child, parent) = derive f.session_id in
    init_local child f.executor (set_fork s i (record f { session_id = parent })) >>= λ s'.
    some (child, s')
