-- ===== src/LocalSocket.antt =====
-- coproto/Socket/LocalAsyncSock.h: two sockets of one process over a shared state. A handle is a
-- number, `none` is a failed assertion, and a call lists the operations that it completes.
pub mod Transfer
pub mod Closing
use coproto.Prelude.{
  ℕ, ◌+◌, ◌-◌, min, Bool, true, false, Option, none, some, List, [], ◌∷◌, ◌++◌, ◌==◌, if◌then◌else◌,
  ◌>>=◌, length, take, drop,
}
use coproto.ErrorCode.{ErrorCode, Code, code, fails, no_error}

-- `Awaiter` for a send: `rest` is what is left of its span.
pub record Sending : Type 0 where
  pub handle : ℕ
  pub rest : List ℕ

-- `Awaiter` for a receive: what has been copied into its span, and the room left.
pub record Receiving : Type 0 where
  pub handle : ℕ
  pub got : List ℕ
  pub room : ℕ

pub record OpPair : Type 0 where
  pub sending : Option Sending
  pub receiving : Option Receiving

abbrev pub no_ops : OpPair
no_ops = record { sending = none; receiving = none }

-- A completed operation, with the bytes that a receive has got.
pub record Done : Type 0 where
  pub handle : ℕ
  pub err : ErrorCode
  pub bytes : List ℕ

-- The part of `await_suspend` where a send and a receive meet: as many bytes as both can take are
-- copied, and what is used up completes.
unfoldable pub meet : Sending → Receiving → Option (List Done × OpPair)
meet snd rcv =
    let m = min (length snd.rest) rcv.room in
    let snd' : Sending = record snd { rest = drop m snd.rest } in
    let rcv' : Receiving = record rcv { got = rcv.got ++ take m snd.rest; room = rcv.room - m } in
    let rcv_done = rcv'.room == 0 in
    let snd_done = length snd'.rest == 0 in
    if m == 0
    then none
    else some (
      (if rcv_done
            then record { handle = rcv.handle; err = no_error; bytes = rcv'.got } ∷ []
            else [])
          ++ (if snd_done
              then record { handle = snd.handle; err = no_error; bytes = [] } ∷ []
              else []),
      record {
        sending = if snd_done then none else some snd';
        receiving = if rcv_done then none else some rcv';
      },
    )

-- A send takes its place in the pair, which must be free.
unfoldable pub start_send : Sending → OpPair → Option (List Done × OpPair)
unfolding meet
start_send snd p = elim p.sending [
  | some _ ↦ none
  | none ↦ elim p.receiving [
    | none ↦ some ([], record p { sending = some snd })
    | some rcv ↦ meet snd rcv
  ]
]

unfoldable pub start_recv : Receiving → OpPair → Option (List Done × OpPair)
unfolding meet
start_recv rcv p = elim p.receiving [
  | some _ ↦ none
  | none ↦ elim p.sending [
    | none ↦ some ([], record p { receiving = some rcv })
    | some snd ↦ meet snd rcv
  ]
]

pub data Side : Type 0 where
  left right : Side

abbrev pub other : Side → Side
other Side.left = Side.right
other Side.right = Side.left

pub record SharedState : Type 0 where
  pub ec_left : ErrorCode
  pub ec_right : ErrorCode
  pub inbound_left : OpPair
  pub inbound_right : OpPair

abbrev pub fresh_state : SharedState
fresh_state = record {
  ec_left = no_error;
  ec_right = no_error;
  inbound_left = no_ops;
  inbound_right = no_ops;
}

abbrev pub ec : Side → SharedState → ErrorCode
ec Side.left s = s.ec_left
ec Side.right s = s.ec_right

abbrev pub set_ec : Side → ErrorCode → SharedState → SharedState
set_ec Side.left e s = record s { ec_left = e }
set_ec Side.right e s = record s { ec_right = e }

abbrev pub inbound : Side → SharedState → OpPair
inbound Side.left s = s.inbound_left
inbound Side.right s = s.inbound_right

abbrev pub set_inbound : Side → OpPair → SharedState → SharedState
set_inbound Side.left p s = record s { inbound_left = p }
set_inbound Side.right p s = record s { inbound_right = p }

-- The error that the injector, if there is one, gives for this call.
abbrev inject : Side → Option ErrorCode → SharedState → SharedState
inject i none s = s
inject i (some e) s = if fails (ec i s) then s else set_ec i e s

-- `send` on socket `i`: a socket with an error completes the operation with it at once.
unfoldable pub send :
    Side → ℕ → List ℕ → Option ErrorCode → SharedState → Option (List Done × SharedState)
unfolding start_send
send i h bytes injected s =
    let s' = inject i injected s in
    if length bytes == 0
    then none
    else (if fails (ec i s')
        then some (record { handle = h; err = ec i s'; bytes = [] } ∷ [], s')
        else (start_send (record { handle = h; rest = bytes }) (inbound (other i) s')
            >>= λ (dones, p). some (dones, set_inbound (other i) p s')))

unfoldable pub recv :
    Side → ℕ → ℕ → Option ErrorCode → SharedState → Option (List Done × SharedState)
unfolding start_recv
recv i h n injected s =
    let s' = inject i injected s in
    if n == 0
    then none
    else (if fails (ec i s')
        then some (record { handle = h; err = ec i s'; bytes = [] } ∷ [], s')
        else (start_recv (record { handle = h; got = []; room = n }) (inbound i s')
            >>= λ (dones, p). some (dones, set_inbound i p s')))

-- The stop callback of an operation that waits.
unfoldable pub stop_send : Side → SharedState → List Done × SharedState
stop_send i s = elim ((inbound (other i) s).sending) [
  | none ↦ ([], s)
  | some a ↦ (
    record { handle = a.handle; err = code Code.operation_aborted; bytes = [] } ∷ [],
    set_inbound (other i) (record (inbound (other i) s) { sending = none }) s,
  )
]

unfoldable pub stop_recv : Side → SharedState → List Done × SharedState
stop_recv i s = elim ((inbound i s).receiving) [
  | none ↦ ([], s)
  | some a ↦ (
    record { handle = a.handle; err = code Code.operation_aborted; bytes = a.got } ∷ [],
    set_inbound i (record (inbound i s) { receiving = none }) s,
  )
]

-- What `close` completes of one pair, the receive first.
unfoldable pub fail_pair : ErrorCode → ErrorCode → OpPair → List Done
fail_pair recv_ec send_ec p =
    elim p.receiving [
      | none ↦ []
      | some a ↦ record { handle = a.handle; err = recv_ec; bytes = a.got } ∷ []
    ]
    ++ elim p.sending [
      | none ↦ []
      | some a ↦ record { handle = a.handle; err = send_ec; bytes = [] } ∷ []
    ]

abbrev keep_error : Side → Code → SharedState → SharedState
keep_error i c s = if fails (ec i s) then s else set_ec i (code c) s

-- `close` of socket `i`.
unfoldable pub close : Side → SharedState → List Done × SharedState
unfolding fail_pair
close i s = (
  fail_pair (code Code.closed) (code Code.remote_closed) (inbound i s)
      ++ fail_pair (code Code.remote_closed) (code Code.closed) (inbound (other i) s),
  set_inbound i no_ops (
      set_inbound (other i) no_ops
        (keep_error (other i) Code.remote_closed (keep_error i Code.closed s))),
)
