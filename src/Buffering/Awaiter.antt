-- ===== src/Buffering/Awaiter.antt =====
-- BufferingSocket.h, `SendRecvAwaiter`: one operation with its stop callback. Every function runs under
-- the socket's lock. The awaiter is known by its handle.
pub mod Phases
pub mod Steps
pub mod Once
use coproto.Prelude.{
  ℕ, Bool, true, false, Option, none, some, List, [], ◌∷◌, ◌++◌, ◌==◌, if◌then◌else◌, ◌>>=◌,
}
use coproto.ErrorCode.{ErrorCode, Code, code, no_error}
use coproto.Buffering.{Waiting, Sock, Done, send, recv, process_inbound, set_error, close}

pub data Kind : Type 0 where
  sends : List ℕ → Kind
  recvs : ℕ → Kind

-- `mType` with `mData`, `mEc` and `mHandle`.
pub record SendRecvAwaiter : Type 0 where
  pub kind : Kind
  pub err : Option ErrorCode
  pub handle : Option ℕ

abbrev pub new_send_recv : Kind → SendRecvAwaiter
new_send_recv kind = record { kind = kind; err = none; handle = none }

-- The awaiter once its operation has been handed to the socket.
abbrev pub handed : ℕ → SendRecvAwaiter → Option Done → SendRecvAwaiter
handed h a none = record a { handle = some h }
handed h a (some d) = record a { err = some d.err }

-- `await_suspend`: an awaiter that was stopped before does not start.
unfoldable pub await_suspend :
    ℕ → SendRecvAwaiter → Sock → Option (Option Done × SendRecvAwaiter × Sock)
unfolding send recv
await_suspend h a s = elim a.err [
  | some e ↦ some (some (record { handle = h; err = e; bytes = [] }), a, s)
  | none ↦ elim a.kind [
    | sends bytes ↦ send h bytes s >>= λ (d, s'). some (d, handed h a d, s')
    | recvs n ↦ recv h n s >>= λ (d, s'). some (d, handed h a d, s')
  ]
]

abbrev is_waiting : ℕ → Sock → Bool
is_waiting h s = elim s.inbound [ none ↦ false | some w ↦ w.handle == h ]

-- The stop callback. A receive that waits is taken off the socket, where it is asserted to be.
unfoldable pub request_stop : SendRecvAwaiter → Sock → Option (Option Done × SendRecvAwaiter × Sock)
request_stop a s = elim a.err [
  | some e ↦ some (none, a, s)
  | none ↦
      let a' = record a { err = some (code Code.operation_aborted) } in
      elim a.handle [
        | none ↦ some (none, a', s)
        | some h ↦
            let d = some (record { handle = h; err = code Code.operation_aborted; bytes = [] }) in
            elim a.kind [
              | sends bytes ↦ some (d, a', s)
              | recvs n ↦ if is_waiting h s then some (d, a', record s { inbound = none }) else none
            ]
      ]
]

-- The socket completes the operation that waits: it stores the error in the awaiter.
abbrev pub completed : Option Done → SendRecvAwaiter → SendRecvAwaiter
completed none a = a
completed (some d) a = record a { err = some d.err }

-- An awaiter on a socket that nothing else uses, and what has been resumed.
pub record Race : Type 0 where
  pub awaiter : SendRecvAwaiter
  pub sock : Sock
  pub started : Bool
  pub resumed : List Done

pub data Event : Type 0 where
  starts stops closes : Event
  arrives : List ℕ → Event
  errs : ErrorCode → Event

abbrev pub note : Option Done → List Done → List Done
note none ds = ds
note (some d) ds = ds ++ (d ∷ [])

-- An operation is started once.
unfoldable pub step : ℕ → Event → Race → Option Race
unfolding await_suspend request_stop process_inbound set_error close
step h starts r =
    if r.started
    then none
    else (await_suspend h r.awaiter r.sock >>= λ (d, a, s).
        some (record { awaiter = a; sock = s; started = true; resumed = note d r.resumed }))
step h stops r = request_stop r.awaiter r.sock >>= λ (d, a, s).
    some (record r { awaiter = a; sock = s; resumed = note d r.resumed })
step h (arrives bytes) r = process_inbound bytes r.sock >>= λ (d, s).
    some (record r { awaiter = completed d r.awaiter; sock = s; resumed = note d r.resumed })
step h (errs e) r = set_error e r.sock >>= λ (d, s).
    some (record r { awaiter = completed d r.awaiter; sock = s; resumed = note d r.resumed })
step h closes r =
    let (d, s) = close r.sock in
    some (record r { awaiter = completed d r.awaiter; sock = s; resumed = note d r.resumed })

unfoldable pub run : ℕ → List Event → Race → Option Race
unfolding step
run h [] r = some r
run h (e ∷ es) r = step h e r >>= run h es

-- The bytes that come in.
abbrev pub arrivals : List Event → List ℕ
arrivals [] = []
arrivals (arrives bytes ∷ es) = bytes ++ arrivals es
arrivals (starts ∷ es) = arrivals es
arrivals (stops ∷ es) = arrivals es
arrivals (closes ∷ es) = arrivals es
arrivals (errs e ∷ es) = arrivals es
