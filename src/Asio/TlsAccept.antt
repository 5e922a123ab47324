-- ===== src/Asio/TlsAccept.antt =====
-- coproto/Socket/AsioSocket.h, `AsioTlsAcceptor::AcceptAwaiter`: three parties, of which the last to
-- count the flag down resumes the handle. They are `await_suspend`, the callback of the accept
-- operation, and the callback of the TLS handshake that the second starts.
pub mod Parties
use mathlib.Core.Path.{subst}
use coproto.Prelude.{
  ℕ, ◌+◌, ◌-◌, ◌≡◌, ◌≢◌, refl, ◌⊎◌, inl, inr, Bool, true, false, ◌&&◌, Option, none, some, List, [],
  ◌∷◌, arith, ◌==◌, if◌then◌else◌, ◌>>=◌, Option-cases,
}
use coproto.ErrorCode.{ErrorCode, no_error}
use coproto.Asio.{IoOp}

-- `await_suspend`: it is entered; it has started the accept operation; it has looked for a
-- cancellation; it has returned.
pub data Initiator : Type 0 where
  entered started checked returned : Initiator

-- The callback of the accept operation: it has not been called; it had an error; it has started the
-- handshake; it has looked for a cancellation; it has returned.
pub data Acceptor : Type 0 where
  waiting failed handshaking checked returned : Acceptor

-- `flag` is `mSynchronousFlag` and one more, so that the least value, -1, is 0.
pub record TlsAccept : Type 0 where
  pub stop_possible : Bool
  pub cancellation_requested : Bool
  pub flag : ℕ
  pub ec : ErrorCode
  pub initiator : Initiator
  pub acceptor : Acceptor
  pub handshake : IoOp
  pub signalled : Bool
  pub resumed : ℕ

-- The awaiter once the stop callback is registered and the flag is set.
abbrev pub new_tls_accept : Bool → TlsAccept
new_tls_accept token = record {
  stop_possible = token;
  cancellation_requested = false;
  flag = 3;
  ec = no_error;
  initiator = Initiator.entered;
  acceptor = Acceptor.waiting;
  handshake = IoOp.not_started;
  signalled = false;
  resumed = 0;
}

-- `mSynchronousFlag--`, and the resumption by the one who finds zero.
abbrev count_down : TlsAccept → TlsAccept
count_down a = record a {
  flag = a.flag - 1;
  resumed = if a.flag == 1 then a.resumed + 1 else a.resumed;
}

-- Whether the cancellation signal finds an operation: the accept operation or the handshake.
abbrev is_pending : TlsAccept → Bool
is_pending a = elim a.handshake [
  | IoOp.pending ↦ true
  | IoOp.complete ↦ false
  | IoOp.not_started ↦ elim a.acceptor [
    | Acceptor.waiting ↦ elim a.initiator [ Initiator.entered ↦ false | _ ↦ true ]
    | _ ↦ false
  ]
]

abbrev emit : TlsAccept → TlsAccept
emit a = record a { signalled = if is_pending a then true else a.signalled }

abbrev emit_if_requested : TlsAccept → TlsAccept
emit_if_requested a = if a.stop_possible && a.cancellation_requested then emit a else a

-- The next action of `await_suspend`.
unfoldable pub advance : TlsAccept → Option TlsAccept
advance a = elim a.initiator [
  | Initiator.entered ↦ some (record a { initiator = Initiator.started })
  | Initiator.started ↦ some (record (emit_if_requested a) { initiator = Initiator.checked })
  | Initiator.checked ↦ some (count_down (record a { initiator = Initiator.returned }))
  | Initiator.returned ↦ none
]

-- asio calls back for the accept operation: with an error, or else the handshake is started, which no
-- one has signalled yet.
unfoldable pub accepted : Option ErrorCode → TlsAccept → Option TlsAccept
accepted r a =
    let accepts : TlsAccept = elim r [
      | some e ↦ record a {
        ec = e;
        acceptor = Acceptor.failed;
        flag = a.flag - 2;
        resumed = if a.flag - 2 == 0 then a.resumed + 1 else a.resumed;
      }
      | none ↦ record a {
        ec = no_error;
        acceptor = Acceptor.handshaking;
        handshake = IoOp.pending;
        signalled = false;
      }
    ] in
    elim a.initiator [
      | Initiator.entered ↦ none
      | _ ↦ elim a.acceptor [ Acceptor.waiting ↦ some accepts | _ ↦ none ]
    ]

-- The next action of that callback.
unfoldable pub advance_acceptor : TlsAccept → Option TlsAccept
advance_acceptor a = elim a.acceptor [
  | Acceptor.handshaking ↦ some (record (emit_if_requested a) { acceptor = Acceptor.checked })
  | Acceptor.checked ↦ some (count_down (record a { acceptor = Acceptor.returned }))
  | _ ↦ none
]

-- asio calls back for the handshake.
unfoldable pub shaken : ErrorCode → TlsAccept → Option TlsAccept
shaken e a = elim a.handshake [
  | IoOp.pending ↦ some (count_down (record a { ec = e; handshake = IoOp.complete }))
  | _ ↦ none
]

unfoldable pub request_stop : TlsAccept → Option TlsAccept
request_stop a =
    if a.stop_possible then some (emit (record a { cancellation_requested = true })) else none

pub data Action : Type 0 where
  advances acceptor_advances stops : Action
  accepts : Option ErrorCode → Action
  shakes : ErrorCode → Action

unfoldable pub act : TlsAccept → Action → Option TlsAccept
unfolding advance accepted advance_acceptor shaken request_stop
act a advances = advance a
act a (accepts r) = accepted r a
act a acceptor_advances = advance_acceptor a
act a (shakes e) = shaken e a
act a stops = request_stop a

unfoldable pub acts : List Action → TlsAccept → Option TlsAccept
unfolding act
acts [] a = some a
acts (x ∷ xs) a = act a x >>= acts xs
