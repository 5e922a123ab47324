-- ===== src/Sched/Table/Invariant.antt =====
-- SocketScheduler.cpp: the forks and their maps under `initRemoteSocketFork`,
-- `initLocalSocketFork` and `fork`.
use coproto.Prelude.{
  ℕ, ◌+◌, ◌%◌, ◌<◌, ◌≡◌, ◌≢◌, refl, sym, ◌∙◌, ◌⊎◌, inl, inr, true, Option, none, some, [], ◌∷◌,
  ◌++◌, map, arith, ◌==◌, eq→==, ne→==, ==→eq, ==→ne, Bool-cases, Option-cases, is_some, length,
  get_elem?, set, map-set, get_elem?-map, length-map, set_same, get_elem?-append_last, ◌↔◌,
}
use mathlib.Core.Path.{subst}
use mathlib.Core.List.{map-append}
use coproto.Prelude.Word.{u32_mod}
use coproto.ErrorCode.{ErrorCode}
use coproto.SessionId.{SessionId, same, derive}
use coproto.Sched.State.{SocketFork, Sched, set_fork, no_id}
use coproto.Sched.Run.{empty_sched}
use coproto.Sched.Table.{
  find_id, find_remote, new_fork, add_fork, assign_local, init_local, assign_remote, init_remote,
  fork, get_local,
}
use coproto.Sched.Table.Keys.{Key, KeysOk, extend-KeysOk, set_remote-KeysOk, set_local-KeysOk}

abbrev pub key : SocketFork → Key
key f = record {
  v0 = f.session_id.v0;
  v1 = f.session_id.v1;
  local_id = f.local_id;
  remote_id = f.remote_id;
}

-- The maps find exactly the forks, and local ids are distinct and below the next one.
abbrev pub TableOk : Sched → Type 0
TableOk s = KeysOk (map key s.forks) s.id_map s.remote_map s.next_local

-- No forks, and no ids in the maps.
pub empty-TableOk : TableOk empty_sched
unfolding empty_sched find_id find_remote
empty-TableOk = record {
  id_sound = λ id i e. cc;
  id_complete = λ i k id e n. cc;
  remote_sound = λ r i e. cc;
  remote_complete = λ i k e n. cc;
  local_range = λ i k e. cc;
  local_unique = λ i j k l e f n p. cc;
  next_range = omega arith;
}

add_fork-TableOk :
    (id : SessionId) (s : Sched) → TableOk s → find_id id s.id_map ≡ none → TableOk (add_fork id s)
unfolding add_fork new_fork
add_fork-TableOk id s v fresh =
    let h = extend-KeysOk v id fresh in
    subst
      (λ n. KeysOk (map key (add_fork id s).forks) ((id, n) ∷ s.id_map) s.remote_map s.next_local)
      (length-map key s.forks)
      (subst (λ ks. KeysOk ks ((id, length (map key s.forks)) ∷ s.id_map) s.remote_map s.next_local)
        (sym (map-append key s.forks (new_fork id ∷ []))) h)

-- What a successful `assign_remote` has changed.
pub assign_remote-cases :
    (s : Sched) (slot : ℕ) (id : SessionId) (i : ℕ) {e : ErrorCode} {s' : Sched}
    → assign_remote s slot id i ≡ some (e, s')
    → (s ≡ s')
      ⊎ ((f : SocketFork) × (get_elem? s.forks i ≡ some f)
          × (f.remote_id ≡ no_id)
          × (find_remote slot s.remote_map ≡ none)
          × (record (set_fork s i (record f { remote_id = slot })) {
            remote_map = (slot, i) ∷ s.remote_map;
          }
              ≡ s'))
unfolding assign_remote
assign_remote-cases s slot id i h = elim (Option-cases (get_elem? s.forks i)) [
  | inl n ↦ absurd (ground arith)
  | inr (f, p) ↦ elim (Bool-cases (f.remote_id == no_id)) [
    | inl q ↦ elim (Option-cases (find_remote slot s.remote_map)) [
      | inl n ↦ inr (f, p, ==→eq _ _ q, n, ground arith)
      | inr (j, w) ↦ absurd (ground arith)
    ]
    | inr q ↦ inl (ground arith)
  ]
]

assign_remote-TableOk :
    (s : Sched) (slot : ℕ) (id : SessionId) (i : ℕ) {e : ErrorCode} {s' : Sched}
    → TableOk s
    → slot ≢ no_id
    → assign_remote s slot id i ≡ some (e, s')
    → TableOk s'
assign_remote-TableOk s slot id i v valid h = elim (assign_remote-cases s slot id i h) [
  | inl p ↦ subst TableOk p v
  | inr (f, p, q, n, w) ↦
      let f' : SocketFork = record f { remote_id = slot } in
      subst TableOk w (
        subst (λ ks. KeysOk ks s.id_map ((slot, i) ∷ s.remote_map) s.next_local)
          (sym (map-set key s.forks i f'))
          (set_remote-KeysOk v i (key f) (get_elem?-map key s.forks i p) (key f') slot refl q valid
            n))
]

assign_local-TableOk :
    (s : Sched) (ex : Option ℕ) (i : ℕ) {f : SocketFork} {s' : Sched}
    → TableOk s
    → s.next_local < no_id
    → get_elem? s.forks i ≡ some f
    → f.local_id ≡ no_id
    → assign_local s ex i ≡ some s'
    → TableOk s'
unfolding assign_local
assign_local-TableOk s ex i {f} {s'} v small here unset h =
    let f' : SocketFork = record f { local_id = s.next_local; executor = ex } in
    let t : Sched = record (set_fork s i f') { next_local = (s.next_local + 1) % u32_mod } in
    let w : t ≡ s' = ground arith in
    subst TableOk w (
      subst (λ ks. KeysOk ks s.id_map s.remote_map t.next_local) (sym (map-set key s.forks i f'))
        (subst (KeysOk (set (map key s.forks) i (key f')) s.id_map s.remote_map) (omega arith) (
          set_local-KeysOk v i (key f) (get_elem?-map key s.forks i here) (key f') refl unset
            small)))

-- For every slot id and session id that a peer names, where no assertion of `initRemoteSocketFork` fails,
-- the maps still find exactly the forks afterwards, whether it reports an error or not.
pub init_remote-TableOk :
    (slot : ℕ) (id : SessionId) (s s' : Sched) (e : ErrorCode)
    → TableOk s
    → init_remote slot id s ≡ some (e, s')
    → TableOk s'
unfolding init_remote
init_remote-TableOk slot id s s' e v h = elim (Bool-cases (slot == no_id)) [
  | inl p ↦ (let w : s ≡ s' = ground arith in subst TableOk w v)
  | inr p ↦ elim (Option-cases (find_id id s.id_map)) [
    | inl n ↦
        assign_remote-TableOk (add_fork id s) slot id (length s.forks) (add_fork-TableOk id s v n)
          (==→ne _ _ p)
          (let w : assign_remote (add_fork id s) slot id (length s.forks) ≡ some (e, s') =
              ground arith in
            w)
    | inr (i, n) ↦
        assign_remote-TableOk s slot id i v (==→ne _ _ p)
          (let w : assign_remote s slot id i ≡ some (e, s') = ground arith in w)
  ]
]

-- Giving a fork its local id keeps that too.
pub init_local-TableOk :
    (id : SessionId) (ex : Option ℕ) (s : Sched) (s' : Sched)
    → TableOk s
    → s.next_local < no_id
    → init_local id ex s ≡ some s'
    → TableOk s'
unfolding init_local add_fork new_fork
init_local-TableOk id ex s s' v small h = elim (Option-cases (find_id id s.id_map)) [
  | inl n ↦
      assign_local-TableOk (add_fork id s) ex (length s.forks) (add_fork-TableOk id s v n) small
        (get_elem?-append_last s.forks (new_fork id)) refl
        (let w : assign_local (add_fork id s) ex (length s.forks) ≡ some s' = ground arith in w)
  | inr (i, n) ↦ elim (Option-cases (get_elem? s.forks i)) [
    | inl m ↦ absurd (ground arith)
    | inr (f, m) ↦ elim (Bool-cases (f.local_id == no_id)) [
      | inl p ↦
          assign_local-TableOk s ex i v small m (==→eq _ _ p)
            (let w : assign_local s ex i ≡ some s' = ground arith in w)
      | inr p ↦ absurd (ground arith)
    ]
  ]
]

-- The parent's fork with its counter moved on.
set_parent-TableOk :
    (s : Sched) (i : ℕ) (f : SocketFork)
    → TableOk s
    → get_elem? s.forks i ≡ some f
    → TableOk (set_fork s i (record f { session_id = (derive f.session_id).1 }))
unfolding derive
set_parent-TableOk s i f v here =
    let f' : SocketFork = record f { session_id = (derive f.session_id).1 } in
    subst (λ ks. KeysOk ks s.id_map s.remote_map s.next_local)
      (sym (set_same (map key s.forks) i (get_elem?-map key s.forks i here))
        ∙ sym (map-set key s.forks i f'))
      v

-- After a fork that succeeds the maps still find exactly the forks and local ids are distinct, while
-- the counter of local ids has not reached the reserved value.
pub fork-TableOk :
    (id : SessionId) (s : Sched) (child : SessionId) (s' : Sched)
    → TableOk s
    → s.next_local < no_id
    → fork id s ≡ some (child, s')
    → TableOk s'
unfolding fork
fork-TableOk id s child s' v small h = elim (Option-cases (get_local id s)) [
  | inl n ↦ absurd (ground arith)
  | inr (i, n) ↦ elim (Option-cases (get_elem? s.forks i)) [
    | inl m ↦ absurd (ground arith)
    | inr (f, m) ↦
        let t = set_fork s i (record f { session_id = (derive f.session_id).1 }) in
        elim (Option-cases (init_local ((derive f.session_id).0) f.executor t)) [
          | inl k ↦ absurd (ground arith)
          | inr (u, k) ↦
              let w : u ≡ s' = ground arith in
              subst TableOk w (
                init_local-TableOk ((derive f.session_id).0) f.executor t u
                  (set_parent-TableOk s i f v m) small k)
        ]
  ]
]

-- For a session that is not known yet, the assertions of `initRemoteSocketFork` fail exactly when the
-- peer names a slot id that is already mapped to another session.
pub init_remote-none_iff :
    (slot : ℕ) (id : SessionId) (s : Sched)
    → slot ≢ no_id
    → find_id id s.id_map ≡ none
    → (init_remote slot id s ≡ none) ↔ (is_some (find_remote slot s.remote_map) ≡ true)
unfolding init_remote assign_remote add_fork new_fork
init_remote-none_iff slot id s valid fresh = (
  (λ h. elim (Bool-cases (is_some (find_remote slot s.remote_map))) [
    | inl p ↦ p
    | inr p ↦ absurd (ground (arith, ne→== slot no_id valid, last, self))
  ]),
  λ h. ground (arith, ne→== slot no_id valid, last, self),
)
  where
    last : get_elem? (s.forks ++ (new_fork id ∷ [])) (length s.forks) ≡ some (new_fork id)
    last = get_elem?-append_last s.forks (new_fork id)

    self : same id id ≡ true
    self = ground (arith, eq→== id.v0 id.v0 refl, eq→== id.v1 id.v1 refl)
