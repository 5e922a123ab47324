-- ===== src/Sched/Stream/First.antt =====
-- SocketScheduler.h, `receiveDataTask`: the first message of a fork, as the send task
-- writes it, read by the receive task.
use coproto.Prelude.{
  ℕ, ◌≡◌, ◌≢◌, ◌<◌, refl, ap, ◌∙◌, true, false, Option, none, some, List, [], ◌∷◌, ◌++◌, arith,
  get_elem?, get_elem?-set_self, ◌>>=◌, length, eq→==, ne→==,
}
use coproto.Prelude.Word.{u32_mod, u64_mod}
use coproto.ErrorCode.{fails}
use coproto.SessionId.{SessionId, same}
use coproto.Buffers.{RecvBuffer, as_span}
use coproto.Wire.{
  Header, header_bytes, read_header-header_bytes, length-header_bytes, set_session_id,
  get-set_session_id, length-set_session_id,
}
use coproto.Sched.State.{RecvOp, SocketFork, Sched, set_fork, reading_header, reading_meta, no_id}
use coproto.Sched.Table.{find_remote, find_id, init_remote, assign_remote}
use coproto.Sched.Stream.Decode.{plain}
use coproto.Sched.Cancel.{recv_ready}
use coproto.Sched.Recv.{took_header, took_meta, recv_done, count_received}
use coproto.Sched.Stream.Receives.{full, receive_data, receive-data}

-- The two reads of a meta message.
unfoldable pub receive_meta : ℕ → SessionId → Sched → Option Sched
unfolding recv_done
receive_meta slot id s =
    recv_done (full (header_bytes (record { size = 0; fork_id = slot }))) s
    >>= recv_done (full (set_session_id id))

-- The slot is the fork's from now on, and the task reads the next header.
abbrev named : Sched → ℕ → ℕ → SocketFork → Sched
named s slot i f = record (set_fork s i (record f { remote_id = slot })) {
  remote_map = (slot, i) ∷ s.remote_map;
  recv_task = reading_header;
}

meta_header_lem :
    (s : Sched) (slot : ℕ)
    → s.recv_task ≡ reading_header
    → slot < u32_mod
    → recv_done (full (header_bytes (record { size = 0; fork_id = slot }))) s
      ≡ some
          (record (count_received s (full (header_bytes (record { size = 0; fork_id = slot })))) {
            recv_task = reading_meta slot;
          })
unfolding recv_done took_header
meta_header_lem s slot k r =
    let h : Header = record { size = 0; fork_id = slot } in
    ground (arith, k, length-header_bytes h, read_header-header_bytes h (omega arith) r)

session_lem :
    (s : Sched) (slot i : ℕ) (id : SessionId) (f : SocketFork)
    → s.recv_task ≡ reading_meta slot
    → slot < no_id
    → find_remote slot s.remote_map ≡ none
    → find_id (plain id) s.id_map ≡ some i
    → get_elem? s.forks i ≡ some f
    → f.remote_id ≡ no_id
    → same f.session_id (plain id) ≡ true
    → id.v0 < u64_mod
    → id.v1 < u64_mod
    → recv_done (full (set_session_id id)) s
      ≡ some (named (count_received s (full (set_session_id id))) slot i f)
unfolding recv_done took_meta init_remote assign_remote
session_lem s slot i id f k lt m h e free eq p q =
    let back = get-set_session_id id p q in
    ground (
      arith,
      k,
      length-set_session_id id,
      back,
      ne→== slot no_id (omega arith),
      m,
      h,
      e,
      eq→== f.remote_id no_id free,
      eq,
    )

find_remote-head : (slot i : ℕ) (m : List (ℕ × ℕ)) → find_remote slot ((slot, i) ∷ m) ≡ some i
unfolding find_remote
find_remote-head slot i m = rw (eq→== slot slot refl) refl

-- The reads of a fork's first message: the meta message that names the fork, then the data message.
unfoldable pub receive_first : ℕ → SessionId → List ℕ → Sched → Option Sched
unfolding receive_meta receive_data
receive_first slot id bytes s = receive_meta slot id s >>= receive_data slot bytes

-- Takes a receive task that reads a header, with no error on the scheduler, a slot of the peer that is
-- not mapped yet, and a session whose fork has no slot of the peer's and has a receive
-- whose buffer gives room for the message. After the meta message that names the session and
-- the data message, as the send task writes them, the slot is mapped to the fork, and the front receive
-- is queued once and without an error, with the bytes of the message in its buffer, behind what is
-- ready.
pub receive-first :
    (s : Sched) (slot i : ℕ) (id : SessionId) (bytes : List ℕ) (f : SocketFork) (op : RecvOp)
    (rest : List RecvOp) (b : RecvBuffer)
    → s.recv_task ≡ reading_header
    → fails s.ec ≡ false
    → s.num_recvs ≢ 0
    → slot < no_id
    → find_remote slot s.remote_map ≡ none
    → find_id (plain id) s.id_map ≡ some i
    → get_elem? s.forks i ≡ some f
    → f.remote_id ≡ no_id
    → same f.session_id (plain id) ≡ true
    → id.v0 < u64_mod
    → id.v1 < u64_mod
    → f.recv_ops ≡ op ∷ rest
    → as_span op.buffer (length bytes) ≡ (b, length bytes)
    → 0 < length bytes
    → length bytes < u32_mod
    → (t : Sched) × (receive_first slot id bytes s ≡ some t)
      × (t.ready
          ≡ s.ready
            ++ (recv_ready f.executor (record op { buffer = record b { bytes = bytes } }) ∷ []))
      × (get_elem? t.forks i ≡ some (record f { remote_id = slot; recv_ops = rest }))
unfolding receive_first receive_meta
receive-first s slot i id bytes f op rest b k c n lt m h e free eq v w ops sp p q =
    let hd = full (header_bytes (record { size = 0; fork_id = slot })) in
    let s1 : Sched = record (count_received s hd) { recv_task = reading_meta slot } in
    let s2 = named (count_received s1 (full (set_session_id id))) slot i f in
    let g : SocketFork = record f { remote_id = slot } in
    let mapped : find_remote slot s2.remote_map ≡ some i = find_remote-head slot i s.remote_map in
    let (t, x, y, z, _) =
      receive-data s2 slot i bytes g op rest b refl c n mapped (get_elem?-set_self s.forks i g e)
        ops sp p q (omega arith) in
    (
      t,
      ap (λ o. o >>= recv_done (full (set_session_id id)) >>= receive_data slot bytes)
            (meta_header_lem s slot k (omega arith))
          ∙ ap (λ o. o >>= receive_data slot bytes)
              (session_lem s1 slot i id f refl lt m h e free eq v w)
          ∙ x,
      y,
      z,
    )
