-- ===== src/Sched/Stream/Sequence.antt =====
-- SocketScheduler.h, `receiveDataTask`: data messages one after another, for any of the forks, against a
-- function on the list of forks alone.
use coproto.Prelude.{
  ℕ, ◌≡◌, ◌≢◌, ◌<◌, ◌≤◌, ◌-◌, refl, sym, ap, ap₂, ◌∙◌, inl, inr, false, Option, none, some, List,
  [], ◌∷◌, ◌++◌, arith, ◌==◌, get_elem?, set, Option-cases, Bool-cases, if◌then◌else◌, ◌>>=◌,
  length, append_assoc, append-nil, ==→eq,
}
use coproto.Prelude.Word.{u32_mod}
use coproto.ErrorCode.{fails}
use coproto.Buffers.{RecvBuffer, as_span}
use coproto.Sched.State.{RecvOp, SocketFork, Sched, Ready, reading_header}
use coproto.Sched.Table.{find_remote}
use coproto.Sched.Cancel.{recv_ready}
use coproto.Sched.Recv.{resume_recv}
use coproto.Sched.Stream.Receives.{Kept, receive_data, data_lem}

-- The slot and the bytes of each message.
abbrev pub Slots : Type 0
Slots = List (ℕ × List ℕ)

-- The two reads of each message and the resumptions between them.
unfoldable pub receive_all : Slots → Sched → Option Sched
unfolding receive_data resume_recv
receive_all [] s = some s
receive_all ((slot, bytes) ∷ ms) s = receive_data slot bytes s >>= resume_recv >>= receive_all ms

-- One message for the front receive of the slot's fork, where its buffer gives room for it.
unfoldable pub deliver :
    List (ℕ × ℕ) → ℕ → List ℕ → List SocketFork → Option (Ready × List SocketFork)
unfolding find_remote as_span
deliver slots slot bytes fs = find_remote slot slots >>= λ i. get_elem? fs i >>= λ f.
    elim f.recv_ops [
      | [] ↦ none
      | op ∷ rest ↦
          let (b, n) = as_span op.buffer (length bytes) in
          if n == length bytes
          then some (
            recv_ready f.executor (record op { buffer = record b { bytes = bytes } }),
            set fs i (record f { recv_ops = rest }),
          )
          else none
    ]

-- What is ready after all messages, and the forks that are left.
unfoldable pub deliver_all :
    List (ℕ × ℕ) → Slots → List SocketFork → Option (List Ready × List SocketFork)
unfolding deliver
deliver_all slots [] fs = some ([], fs)
deliver_all slots ((slot, bytes) ∷ ms) fs = deliver slots slot bytes fs >>= λ (r, fs').
    deliver_all slots ms fs' >>= λ (rs, fs''). some (r ∷ rs, fs'')

-- The slots and the lengths fit in a header.
abbrev pub FitHeaders : Slots → Type 0
FitHeaders [] = Unit {0}
FitHeaders ((slot, bytes) ∷ ms) =
    (slot < u32_mod) × (0 < length bytes) × (length bytes < u32_mod) × FitHeaders ms

-- What `deliver` has found.
record Found (slots : List (ℕ × ℕ)) (slot : ℕ) (bytes : List ℕ) (fs : List SocketFork) (r : Ready)
    (fs' : List SocketFork) : Type 0 where
  place : ℕ
  fork : SocketFork
  op : RecvOp
  rest : List RecvOp
  buffer : RecvBuffer
  mapped : find_remote slot slots ≡ some place
  at : get_elem? fs place ≡ some fork
  ops : fork.recv_ops ≡ op ∷ rest
  room : as_span op.buffer (length bytes) ≡ (buffer, length bytes)
  ready : r ≡ recv_ready fork.executor (record op { buffer = record buffer { bytes = bytes } })
  left : fs' ≡ set fs place (record fork { recv_ops = rest })

deliver-Found :
    (slots : List (ℕ × ℕ)) (slot : ℕ) (bytes : List ℕ) (fs : List SocketFork) (r : Ready)
    (fs' : List SocketFork)
    → deliver slots slot bytes fs ≡ some (r, fs')
    → Found slots slot bytes fs r fs'
unfolding deliver
deliver-Found slots slot bytes fs r fs' e = elim (Option-cases (find_remote slot slots)) [
  | inl n ↦ absurd (ground (arith, e, n))
  | inr (i, m) ↦ elim (Option-cases (get_elem? fs i)) [
    | inl n ↦ absurd (ground (arith, e, m, n))
    | inr (f, a) ↦ by_ops i f m a f.recv_ops refl
  ]
]
  where
    by_span :
        (i : ℕ) (f : SocketFork)
        → find_remote slot slots ≡ some i
        → get_elem? fs i ≡ some f
        → (op : RecvOp) (rest : List RecvOp) → f.recv_ops ≡ op ∷ rest
        → (b : RecvBuffer) (n : ℕ) → as_span op.buffer (length bytes) ≡ (b, n)
        → Found slots slot bytes fs r fs'
    by_span i f m a op rest p b n sp = elim (Bool-cases (n == length bytes)) [
      | inr z ↦ absurd (ground (arith, e, m, a, p, sp, z))
      | inl z ↦
          let w : (r ≡ recv_ready f.executor (record op { buffer = record b { bytes = bytes } }))
              × (fs' ≡ set fs i (record f { recv_ops = rest })) =
            ground (arith, e, m, a, p, sp, z) in
          record {
            place = i;
            fork = f;
            op = op;
            rest = rest;
            buffer = b;
            mapped = m;
            at = a;
            ops = p;
            room = sp ∙ ap (λ k. (b, k)) (==→eq _ _ z);
            ready = w.0;
            left = w.1;
          }
    ]

    by_ops :
        (i : ℕ) (f : SocketFork)
        → find_remote slot slots ≡ some i
        → get_elem? fs i ≡ some f
        → (ops : List RecvOp) → f.recv_ops ≡ ops
        → Found slots slot bytes fs r fs'
    by_ops i f m a [] p = absurd (ground (arith, e, m, a, p))
    by_ops i f m a (op ∷ rest) p =
        by_span i f m a op rest p (as_span op.buffer (length bytes)).0
          (as_span op.buffer (length bytes)).1 refl

-- One message, up to the point where the task reads the next header or waits.
step_lem :
    (slot : ℕ) (bytes : List ℕ) (s : Sched) (r : Ready) (fs : List SocketFork)
    → s.recv_task ≡ reading_header
    → fails s.ec ≡ false
    → s.num_recvs ≢ 0
    → slot < u32_mod
    → 0 < length bytes
    → length bytes < u32_mod
    → deliver s.remote_map slot bytes s.forks ≡ some (r, fs)
    → (t : Sched) × ((receive_data slot bytes s >>= resume_recv) ≡ some t)
      × (t.ready ≡ s.ready ++ (r ∷ []))
      × (t.forks ≡ fs)
      × Kept (record s { num_recvs = s.num_recvs - 1 }) t
      × (t.num_recvs ≢ 0 → t.recv_task ≡ reading_header)
unfolding resume_recv
step_lem slot bytes s r fs k c n p q w e =
    let d = deliver-Found s.remote_map slot bytes s.forks r fs e in
    let (t, x, y, z, v, task) =
      data_lem s slot d.place bytes d.fork d.op d.rest d.buffer k c n d.mapped d.at d.ops d.room q w
        p in
    elim task [
      | inl (i, j) ↦ (
        t,
        ap (λ o. o >>= resume_recv) x ∙ ground (arith, i),
        y ∙ ap (λ r. s.ready ++ (r ∷ [])) (sym d.ready),
        z ∙ sym d.left,
        v,
        λ h. absurd (h j),
      )
      | inr (i, j) ↦ (
        record t { recv_task = reading_header },
        ap (λ o. o >>= resume_recv) x ∙ ground (arith, i),
        y ∙ ap (λ r. s.ready ++ (r ∷ [])) (sym d.ready),
        z ∙ sym d.left,
        v,
        λ h. refl,
      )
    ]

sequence_lem :
    (ms : Slots) (s : Sched) (rs : List Ready) (fs : List SocketFork)
    → (s.num_recvs ≢ 0 → s.recv_task ≡ reading_header)
    → fails s.ec ≡ false
    → length ms ≤ s.num_recvs
    → FitHeaders ms
    → deliver_all s.remote_map ms s.forks ≡ some (rs, fs)
    → (t : Sched) × (receive_all ms s ≡ some t) × (t.ready ≡ s.ready ++ rs) × (t.forks ≡ fs)
unfolding receive_all deliver_all
sequence_lem [] s rs fs k c n w e =
    let z : (rs ≡ []) × (fs ≡ s.forks) = ground (arith, e) in
    (s, refl, sym (append-nil s.ready) ∙ ap (◌++◌ s.ready) (sym z.0), sym z.1)
sequence_lem ((slot, bytes) ∷ ms) s rs fs k c n (a, b, d, w) e =
    elim (Option-cases (deliver s.remote_map slot bytes s.forks)) [
      | inl h ↦ absurd (ground (arith, e, h))
      | inr ((r, fs'), h) ↦ elim (Option-cases (deliver_all s.remote_map ms fs')) [
        | inl j ↦ absurd (ground (arith, e, h, j))
        | inr ((rs', fs''), j) ↦
            let z : (rs ≡ r ∷ rs') × (fs ≡ fs'') = ground (arith, e, h, j) in
            let some_left : s.num_recvs ≢ 0 = λ q. omega arith in
            let (t, x, y, f, (ec, map, num), task) =
              step_lem slot bytes s r fs' (k some_left) c some_left a b d h in
            let (u, o, p, q) =
              sequence_lem ms t rs' fs'' task (ap fails ec ∙ c) (omega (arith, num)) w
                (ap₂ (λ m g. deliver_all m ms g) map f ∙ j) in
            (
              u,
              ap (λ v. v >>= receive_all ms) x ∙ o,
              p
                  ∙ ap (λ v. v ++ rs') y
                  ∙ append_assoc s.ready (r ∷ []) rs'
                  ∙ ap (◌++◌ s.ready) (sym z.0),
              q ∙ sym z.1,
            )
      ]
    ]

-- Takes a receive task that reads a header, with no error on the scheduler, and data messages as the
-- send task writes them, for mapped slots in any order, no more than there are receives. Where each finds
-- a receive at the front of its fork whose buffer gives room for it, the task gets through
-- them all: the receives are queued in the order of the messages, each with its message's bytes, behind
-- what is ready, and the forks keep the others.
pub receive-sequence :
    (ms : Slots) (s : Sched) (rs : List Ready) (fs : List SocketFork)
    → s.recv_task ≡ reading_header
    → fails s.ec ≡ false
    → length ms ≤ s.num_recvs
    → FitHeaders ms
    → deliver_all s.remote_map ms s.forks ≡ some (rs, fs)
    → (t : Sched) × (receive_all ms s ≡ some t) × (t.ready ≡ s.ready ++ rs) × (t.forks ≡ fs)
receive-sequence ms s rs fs k c n w e = sequence_lem ms s rs fs (λ h. k) c n w e
