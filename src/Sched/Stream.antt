-- ===== src/Sched/Stream.antt =====
-- SocketScheduler.h, the format of messages as the comment on `SockScheduler` describes it: what a list
-- of sends stands for on the wire, and a reader of that format.
pub mod Frames
pub mod Writes
pub mod Completes
pub mod Linked
pub mod Queues
pub mod Delivers
pub mod Decode
pub mod Reads
pub mod Exchanged
pub mod Moves
pub mod Drains
pub mod Receives
pub mod First
pub mod Sequence
use coproto.Prelude.{
  ℕ, zero, suc, Bool, true, false, Option, none, some, List, [], ◌∷◌, ◌++◌, ◌==◌, ltb,
  if◌then◌else◌, ◌>>=◌, length, take, drop, get_elem?, set,
}
use coproto.SessionId.{SessionId}
use coproto.Wire.{
  Header, header_bytes, read_header, get_session_id, meta_bytes, header_size, control_size,
}
use coproto.Sched.State.{SendOp, SocketFork}

-- A message of a fork: the fork's place and the bytes.
pub record Message : Type 0 where
  pub fork : ℕ
  pub bytes : List ℕ

abbrev pub message_of : SendOp → Message
message_of op = record { fork = op.fork; bytes = op.bytes }

abbrev pub messages : List SendOp → List Message
messages [] = []
messages (op ∷ ops) = message_of op ∷ messages ops

-- A data message: its header, then its bytes.
abbrev pub data_frame : SocketFork → List ℕ → List ℕ
data_frame f bytes = header_bytes (record { size = length bytes; fork_id = f.local_id }) ++ bytes

-- In front of a fork's first message goes the meta message that names it.
abbrev pub meta_frame : SocketFork → List ℕ
meta_frame f = if f.initiated then [] else meta_bytes f.local_id f.session_id

abbrev pub initiate : List SocketFork → ℕ → SocketFork → List SocketFork
initiate fs i f = set fs i (record f { initiated = true })

-- The bytes of a list of messages, and the forks behind them.
abbrev pub frames : List SocketFork → List Message → List ℕ
frames fs [] = []
frames fs (m ∷ ms) = elim (get_elem? fs m.fork) [
  | none ↦ frames fs ms
  | some f ↦ meta_frame f ++ (data_frame f m.bytes ++ frames (initiate fs m.fork f) ms)
]

abbrev pub forks_after : List SocketFork → List Message → List SocketFork
forks_after fs [] = fs
forks_after fs (m ∷ ms) = elim (get_elem? fs m.fork) [
  | none ↦ forks_after fs ms
  | some f ↦ forks_after (initiate fs m.fork f) ms
]

abbrev pub session_of : ℕ → List (ℕ × SessionId) → Option SessionId
session_of slot [] = none
session_of slot ((k, id) ∷ m) = if k == slot then some id else session_of slot m

-- What a reader does behind a header: it takes the session id of the slot, or the message's bytes.
-- `next` reads the rest.
abbrev pub decode_body :
    (List (ℕ × SessionId) → List ℕ → Option (List (SessionId × List ℕ)))
    → List (ℕ × SessionId)
    → Header
    → List ℕ
    → Option (List (SessionId × List ℕ))
decode_body next known h body =
    if h.size == 0
    then next ((h.fork_id, get_session_id (take control_size body)) ∷ known)
        (drop control_size body)
    else session_of h.fork_id known >>= λ id.
        if ltb (length body) h.size
        then none
        else (next known (drop h.size body) >>= λ ms. some ((id, take h.size body) ∷ ms))

-- A reader of the format. The fuel bounds the headers.
unfoldable pub decode : ℕ → List (ℕ × SessionId) → List ℕ → Option (List (SessionId × List ℕ))
decode n known [] = some []
decode zero known (b ∷ bs) = none
decode (suc n) known (b ∷ bs) =
    decode_body (decode n) known (read_header (take header_size (b ∷ bs)))
      (drop header_size (b ∷ bs))
