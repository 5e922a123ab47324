-- ===== src/Sched/Stream/Receives.antt =====
-- SocketScheduler.h, `receiveDataTask`: the frames as the send task writes them, read by the receive task.
use coproto.Prelude.{
  zero, suc, set, ℕ, ◌≡◌, ◌≢◌, ◌<◌, ◌-◌, refl, ap, ◌∙◌, ◌⊎◌, inl, inr, false, Option, some, List,
  [], ◌∷◌, ◌++◌, arith, ◌==◌, get_elem?, get_elem?-set_self, Bool-cases, ◌>>=◌, length, eq→==,
  ne→==, ==→eq, ==→ne,
}
use coproto.Prelude.Word.{u32_mod}
use coproto.ErrorCode.{fails, no_error}
use coproto.Buffers.{RecvBuffer, as_span}
use coproto.Wire.{Header, header_bytes, read_header-header_bytes, length-header_bytes}
use coproto.Sched.State.{
  Status, RecvOp, SocketFork, Sched, set_fork, push_ready, reading_header, reading_body, woken_fork,
  woken_any, waiting_any, found,
}
use coproto.Sched.Table.{find_remote}
use coproto.Sched.Cancel.{recv_ready}
use coproto.Sched.Recv.{
  Transfer, in_progress, front_op, complete_prev, wait_any, suspend_any, start_front, get_requested,
  took_header, took_body, got_op, resume_recv, recv_done, count_received,
}

abbrev pub full : List ℕ → Transfer
full bytes = record { err = no_error; bytes = bytes }

-- The two reads of a data message, and the resumption between them.
unfoldable pub receive_data : ℕ → List ℕ → Sched → Option Sched
unfolding recv_done resume_recv
receive_data slot bytes s =
    recv_done (full (header_bytes (record { size = length bytes; fork_id = slot }))) s
    >>= resume_recv
    >>= recv_done (full bytes)

-- The front operation of fork `i` is `op`.
abbrev Front : Sched → ℕ → SocketFork → RecvOp → List RecvOp → Type 0
Front s i f op rest = front_op s i ≡ some (record f { recv_ops = op ∷ rest }, op, rest)

-- The first operation of a fork replaced.
abbrev with_front : Sched → ℕ → SocketFork → RecvOp → List RecvOp → Sched
with_front s i f op rest = set_fork s i (record f { recv_ops = op ∷ rest })

Front-with_front :
    (s : Sched) (i : ℕ) (f g : SocketFork) (op : RecvOp) (rest : List RecvOp)
    → get_elem? s.forks i ≡ some g
    → Front (with_front s i f op rest) i f op rest
unfolding front_op
Front-with_front s i f g op rest e =
    rw (get_elem?-set_self s.forks i (record f { recv_ops = op ∷ rest }) e) refl

header_lem :
    (s : Sched) (slot i : ℕ) (size : ℕ) (f : SocketFork) (op : RecvOp) (rest : List RecvOp)
    → s.recv_task ≡ reading_header
    → fails s.ec ≡ false
    → find_remote slot s.remote_map ≡ some i
    → get_elem? s.forks i ≡ some f
    → f.recv_ops ≡ op ∷ rest
    → 0 < size
    → size < u32_mod
    → slot < u32_mod
    → recv_done (full (header_bytes (record { size = size; fork_id = slot }))) s
      ≡ some
          (record (with_front
            (count_received s (full (header_bytes (record { size = size; fork_id = slot }))))
            i
            f
            (in_progress op)
            rest) { recv_task = woken_fork size (found i) })
unfolding recv_done took_header get_requested start_front front_op
header_lem s slot i size f op rest k c m e ops p q r =
    let h : Header = record { size = size; fork_id = slot } in
    let l = length-header_bytes h in
    let back = read_header-header_bytes h q r in ground (arith, k, c, m, e, ops, l, back, p)

got_lem :
    (s : Sched) (i size : ℕ) (f g : SocketFork) (op : RecvOp) (rest : List RecvOp) (b : RecvBuffer)
    → s.recv_task ≡ woken_fork size (found i)
    → get_elem? s.forks i ≡ some g
    → g ≡ record f { recv_ops = op ∷ rest }
    → as_span op.buffer size ≡ (b, size)
    → resume_recv s
      ≡ some (record (with_front s i f (record op { buffer = b }) rest) {
        recv_task = reading_body size i;
      })
unfolding resume_recv got_op front_op
got_lem s i size f g op rest b k e ge sp = ground (arith, k, e, ge, sp, eq→== size size refl)

-- The receive has got its bytes and is queued on the execution queue; the task goes on.
abbrev delivered : Sched → ℕ → SocketFork → RecvOp → List RecvOp → List ℕ → Sched
delivered s i f op rest bytes =
    let u = count_received s (full bytes) in
    record (push_ready
      (set_fork
        (with_front u i f (record op { buffer = record (op.buffer) { bytes = bytes } }) rest) i
        (record f { recv_ops = rest }))
      (recv_ready f.executor (record op { buffer = record (op.buffer) { bytes = bytes } }))) {
        num_recvs = s.num_recvs - 1;
      }

body_lem :
    (s : Sched) (i size : ℕ) (f g : SocketFork) (op : RecvOp) (rest : List RecvOp) (bytes : List ℕ)
    → s.recv_task ≡ reading_body size i
    → fails s.ec ≡ false
    → s.num_recvs ≢ 0
    → get_elem? s.forks i ≡ some g
    → g ≡ record f { recv_ops = op ∷ rest }
    → recv_done (full bytes) s ≡ wait_any no_error (delivered s i f op rest bytes)
unfolding recv_done took_body suspend_any complete_prev front_op
body_lem s i size f g op rest bytes k c n e ge =
    let op' : RecvOp = record op { buffer = record (op.buffer) { bytes = bytes } } in
    let at = get_elem?-set_self s.forks i (record f { recv_ops = op' ∷ rest }) e in
    ground (arith, k, c, ne→== s.num_recvs 0 n, e, ge, at)

-- What a message leaves alone, but for the count.
abbrev pub Kept : Sched → Sched → Type 0
Kept s t = (t.ec ≡ s.ec) × (t.remote_map ≡ s.remote_map) × (t.num_recvs ≡ s.num_recvs)

wait_any_lem :
    (s : Sched)
    → fails s.ec ≡ false
    → (t : Sched) × (wait_any no_error s ≡ some t)
      × (t.ready ≡ s.ready)
      × (t.forks ≡ s.forks)
      × Kept s t
      × (((t.recv_task ≡ waiting_any) × (t.num_recvs ≡ 0))
          ⊎ ((t.recv_task ≡ woken_any no_error) × (t.num_recvs ≢ 0)))
unfolding wait_any
wait_any_lem s c = elim (Bool-cases (s.num_recvs == 0)) [
  | inl z ↦ (
    record s { recv_status = Status.idle; recv_task = waiting_any },
    ground (arith, c, z),
    refl,
    refl,
    (refl, refl, refl),
    inl (refl, ==→eq _ _ z),
  )
  | inr z ↦ (
    record s { recv_task = woken_any no_error },
    ground (arith, c, z),
    refl,
    refl,
    (refl, refl, refl),
    inr (refl, ==→ne _ _ z),
  )
]

set_twice : (fs : List SocketFork) (i : ℕ) (f g : SocketFork) → set (set fs i f) i g ≡ set fs i g
set_twice [] i f g = refl
set_twice (x ∷ fs) zero f g = refl
set_twice (x ∷ fs) (suc i) f g = ap (◌∷◌ x) (set_twice fs i f g)

set_often :
    (fs : List SocketFork) (i : ℕ) (f g h k : SocketFork)
    → set (set (set (set fs i f) i g) i h) i k ≡ set fs i k
set_often fs i f g h k =
    set_twice (set (set fs i f) i g) i h k ∙ set_twice (set fs i f) i g k ∙ set_twice fs i f k

-- The whole of what a data message changes.
pub data_lem :
    (s : Sched) (slot i : ℕ) (bytes : List ℕ) (f : SocketFork) (op : RecvOp) (rest : List RecvOp)
    (b : RecvBuffer)
    → s.recv_task ≡ reading_header
    → fails s.ec ≡ false
    → s.num_recvs ≢ 0
    → find_remote slot s.remote_map ≡ some i
    → get_elem? s.forks i ≡ some f
    → f.recv_ops ≡ op ∷ rest
    → as_span op.buffer (length bytes) ≡ (b, length bytes)
    → 0 < length bytes
    → length bytes < u32_mod
    → slot < u32_mod
    → (t : Sched) × (receive_data slot bytes s ≡ some t)
      × (t.ready
          ≡ s.ready
            ++ (recv_ready f.executor (record op { buffer = record b { bytes = bytes } }) ∷ []))
      × (t.forks ≡ set s.forks i (record f { recv_ops = rest }))
      × Kept (record s { num_recvs = s.num_recvs - 1 }) t
      × (((t.recv_task ≡ waiting_any) × (t.num_recvs ≡ 0))
          ⊎ ((t.recv_task ≡ woken_any no_error) × (t.num_recvs ≢ 0)))
unfolding receive_data
data_lem s slot i bytes f op rest b k c n m e ops sp p q r =
    let size = length bytes in
    let s1 : Sched =
      record (with_front
        (count_received s (full (header_bytes (record { size = size; fork_id = slot })))) i f
        (in_progress op) rest) { recv_task = woken_fork size (found i) } in
    let e1 : get_elem? s1.forks i ≡ some (record f { recv_ops = in_progress op ∷ rest }) =
      get_elem?-set_self s.forks i _ e in
    let op' : RecvOp = record (in_progress op) { buffer = b } in
    let s2 : Sched = record (with_front s1 i f op' rest) { recv_task = reading_body size i } in
    let e2 : get_elem? s2.forks i ≡ some (record f { recv_ops = op' ∷ rest }) =
      get_elem?-set_self s1.forks i _ e1 in
    let s3 = delivered s2 i f op' rest bytes in
    let (t, w, x, y, v, z) = wait_any_lem s3 c in
    (
      t,
      ap (λ o. o >>= resume_recv >>= recv_done (full bytes))
            (header_lem s slot i size f op rest k c m e ops p q r)
          ∙ ap (λ o. o >>= recv_done (full bytes))
              (got_lem s1 i size f _ (in_progress op) rest b refl e1 refl sp)
          ∙ body_lem s2 i size f _ op' rest bytes refl c n e2 refl
          ∙ w,
      x,
      y ∙ set_often s.forks i _ _ _ _,
      v,
      z,
    )

-- Takes a receive task that reads a header, with no error on the scheduler, and a slot that is mapped to
-- a fork. A data message for that slot, as the send task writes it, with a length that the front
-- receive's buffer gives room for, goes into that buffer: the receive is queued once and without an
-- error, behind what is ready, and taken off its fork. The task then waits if no receive is left,
-- and goes on to the next header otherwise.
pub receive-data :
    (s : Sched) (slot i : ℕ) (bytes : List ℕ) (f : SocketFork) (op : RecvOp) (rest : List RecvOp)
    (b : RecvBuffer)
    → s.recv_task ≡ reading_header
    → fails s.ec ≡ false
    → s.num_recvs ≢ 0
    → find_remote slot s.remote_map ≡ some i
    → get_elem? s.forks i ≡ some f
    → f.recv_ops ≡ op ∷ rest
    → as_span op.buffer (length bytes) ≡ (b, length bytes)
    → 0 < length bytes
    → length bytes < u32_mod
    → slot < u32_mod
    → (t : Sched) × (receive_data slot bytes s ≡ some t)
      × (t.ready
          ≡ s.ready
            ++ (recv_ready f.executor (record op { buffer = record b { bytes = bytes } }) ∷ []))
      × (get_elem? t.forks i ≡ some (record f { recv_ops = rest }))
      × (((t.recv_task ≡ waiting_any) × (t.num_recvs ≡ 0))
          ⊎ ((t.recv_task ≡ woken_any no_error) × (t.num_recvs ≢ 0)))
receive-data s slot i bytes f op rest b k c n m e ops sp p q r =
    let (t, w, x, y, v, z) = data_lem s slot i bytes f op rest b k c n m e ops sp p q r in
    (t, w, x, ap (λ fs. get_elem? fs i) y ∙ get_elem?-set_self s.forks i _ e, z)
