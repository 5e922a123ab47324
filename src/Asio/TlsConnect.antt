-- ===== src/Asio/TlsConnect.antt =====
-- coproto/Socket/AsioSocket.h, `AsioTlsConnect`: the three parties of a TLS connection attempt, which
-- count one flag down, and the timer behind which a refused attempt is made again.
pub mod Attempts
use mathlib.Core.Path.{subst}
use native.Mathlib.Nat.{pow-suc}
use coproto.Prelude.{
  ℕ, ◌+◌, ◌-◌, ◌*◌, ◌^◌, ◌≤◌, min, ◌≡◌, ◌≢◌, refl, ◌⊎◌, inl, inr, Bool, true, false, ◌&&◌, Option,
  none, some, List, [], ◌∷◌, arith, ◌==◌, if◌then◌else◌, ◌>>=◌, Option-cases,
}
use coproto.ErrorCode.{ErrorCode}
use coproto.Asio.{IoOp}
use coproto.Asio.Connect.{Outcome, connected, refused, fails_with}
use coproto.Asio.TlsAccept.{Initiator, Acceptor}

-- `connector` is the callback of the connection attempt, with the places of the accept callback.
-- `flag` is `mSynchronousFlag` and one more. `waiting` says that the timer runs, and `done` that the
-- handle has been taken to be resumed.
pub record TlsConnect : Type 0 where
  pub retry_on_failure : Bool
  pub stop_possible : Bool
  pub cancellation_requested : Bool
  pub flag : ℕ
  pub ec : Outcome
  pub retry_delay : ℕ
  pub initiator : Initiator
  pub connector : Acceptor
  pub handshake : IoOp
  pub waiting : Bool
  pub resumed : ℕ
  pub retries : ℕ

-- The awaiter behind `await_ready`.
abbrev pub new_tls_connect : Bool → Bool → TlsConnect
new_tls_connect retry token = record {
  retry_on_failure = retry;
  stop_possible = token;
  cancellation_requested = false;
  flag = 3;
  ec = connected;
  retry_delay = 1;
  initiator = Initiator.entered;
  connector = Acceptor.waiting;
  handshake = IoOp.not_started;
  waiting = false;
  resumed = 0;
  retries = 0;
}

abbrev resume : TlsConnect → TlsConnect
resume c = record c { resumed = c.resumed + 1 }

-- `retry` for a refused attempt, and else the resumption.
abbrev settle : TlsConnect → TlsConnect
settle c = elim c.ec [
  | refused ↦ if c.retry_on_failure then record c { waiting = true } else resume c
  | _ ↦ resume c
]

-- The next action of `await_suspend`. The one who comes last here does not look whether the attempt
-- was refused.
unfoldable pub advance : TlsConnect → Option TlsConnect
advance c = elim c.initiator [
  | Initiator.entered ↦ some (record c { initiator = Initiator.started })
  | Initiator.started ↦ some (record c { initiator = Initiator.checked })
  | Initiator.checked ↦
      let c' = record c { initiator = Initiator.returned; flag = c.flag - 1 } in
      some (if c.flag == 1 then resume c' else c')
  | Initiator.returned ↦ none
]

abbrev is_connected : Outcome → Bool
is_connected connected = true
is_connected _ = false

-- asio calls back for the attempt: the handshake is started if there was no error.
unfoldable pub attempted : Outcome → TlsConnect → Option TlsConnect
attempted r c =
    let failed : TlsConnect = record c { ec = r; connector = Acceptor.failed; flag = c.flag - 2 } in
    let attempts : TlsConnect =
      if is_connected r
      then record c { ec = r; connector = Acceptor.handshaking; handshake = IoOp.pending }
      else if c.flag - 2 == 0
      then settle failed
      else failed in
    elim c.initiator [
      | Initiator.entered ↦ none
      | _ ↦ elim c.connector [ Acceptor.waiting ↦ some attempts | _ ↦ none ]
    ]

-- The next action of that callback.
unfoldable pub advance_connector : TlsConnect → Option TlsConnect
advance_connector c = elim c.connector [
  | Acceptor.handshaking ↦ some (record c { connector = Acceptor.checked })
  | Acceptor.checked ↦
      let c' = record c { connector = Acceptor.returned; flag = c.flag - 1 } in
      some (if c.flag == 1 then settle c' else c')
  | _ ↦ none
]

-- asio calls back for the handshake.
unfoldable pub shaken : Outcome → TlsConnect → Option TlsConnect
shaken r c = elim c.handshake [
  | IoOp.pending ↦
      let c' = record c { ec = r; handshake = IoOp.complete; flag = c.flag - 1 } in
      some (if c.flag == 1 then resume c' else c')
  | _ ↦ none
]

-- The timer's callback, which closes the socket and calls `await_suspend` again.
unfoldable pub timer : TlsConnect → Option TlsConnect
timer c =
    if c.waiting
    then some (record c {
      flag = 3;
      retry_delay = min (c.retry_delay * 2) 1000;
      initiator = Initiator.entered;
      connector = Acceptor.waiting;
      handshake = IoOp.not_started;
      waiting = false;
      retries = c.retries + 1;
    })
    else none

-- The stop callback. Whom the signal finds is not followed here.
unfoldable pub request_stop : TlsConnect → Option TlsConnect
request_stop c = if c.stop_possible then some (record c { cancellation_requested = true }) else none

pub data Action : Type 0 where
  advances connector_advances timer_fires stops : Action
  attempts : Outcome → Action
  shakes : Outcome → Action

unfoldable pub act : TlsConnect → Action → Option TlsConnect
unfolding advance attempted advance_connector shaken timer request_stop
act c advances = advance c
act c (attempts r) = attempted r c
act c connector_advances = advance_connector c
act c (shakes r) = shaken r c
act c timer_fires = timer c
act c stops = request_stop c

unfoldable pub acts : List Action → TlsConnect → Option TlsConnect
unfolding act
acts [] c = some c
acts (x ∷ xs) c = act c x >>= acts xs
