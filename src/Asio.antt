-- ===== src/Asio.antt =====
-- coproto/Socket/AsioSocket.h: the awaiters over boost asio. The I/O itself is asio's: an operation
-- that has been started completes once, at any time, with a result of its own choice. What runs between
-- two points where another thread can come in is one action.
pub mod Race
pub mod Connect
pub mod Accept
pub mod TlsAccept
pub mod TlsConnect
use coproto.Prelude.{
  ℕ, ◌+◌, Bool, true, false, ◌&&◌, ◌||◌, Option, none, some, List, [], ◌∷◌, if◌then◌else◌, ◌>>=◌,
}
use coproto.ErrorCode.{ErrorCode, Code, code}

-- How asio completes an operation: with its own `operation_aborted`, or with another code.
pub data IoResult : Type 0 where
  aborted : IoResult
  other : ErrorCode → IoResult

-- Where asio's operation stands.
pub data IoOp : Type 0 where
  not_started pending complete : IoOp

-- Where the function that starts the operation stands: it has been dispatched; it has found no
-- cancellation; it has started the operation; it has looked for a cancellation again; it is over; or it
-- has found a cancellation at once.
pub data Starter : Type 0 where
  dispatched tested started checked over cancelled : Starter

-- `Awaiter`. `signalled` says that the cancellation signal has reached the pending operation, and
-- `resumed` how often the handle has been resumed.
pub record Awaiter : Type 0 where
  pub stop_possible : Bool
  pub cancellation_requested : Bool
  pub synchronous_flag : Bool
  pub ec : Option ErrorCode
  pub bt : ℕ
  pub starter : Starter
  pub op : IoOp
  pub signalled : Bool
  pub resumed : ℕ

abbrev pub new_awaiter : Bool → Awaiter
new_awaiter token = record {
  stop_possible = token;
  cancellation_requested = false;
  synchronous_flag = false;
  ec = none;
  bt = 0;
  starter = Starter.dispatched;
  op = IoOp.not_started;
  signalled = false;
  resumed = 0;
}

-- `mCancelSignal.emit`: it reaches an operation that is pending.
abbrev emit : Awaiter → Awaiter
emit a = elim a.op [ IoOp.pending ↦ record a { signalled = true } | _ ↦ a ]

-- `mSynchronousFlag.exchange(true)`, and the resumption by the one who comes second.
abbrev exchange : Awaiter → Awaiter
exchange a = record a {
  synchronous_flag = true;
  resumed = if a.synchronous_flag then a.resumed + 1 else a.resumed;
}

-- The next action of the starting function.
unfoldable pub advance : Awaiter → Option Awaiter
advance a = elim a.starter [
  | Starter.dispatched ↦ some (
      if a.stop_possible && a.cancellation_requested
      then record a {
        starter = Starter.cancelled;
        ec = some (code Code.operation_aborted);
        resumed = a.resumed + 1;
      }
      else record a { starter = Starter.tested })
  | Starter.tested ↦ some (record a { starter = Starter.started; op = IoOp.pending })
  | Starter.started ↦
      some (record (if a.stop_possible && a.cancellation_requested then emit a else a) {
        starter = Starter.checked;
      })
  | Starter.checked ↦ some (exchange (record a { starter = Starter.over }))
  | _ ↦ none
]

abbrev result_code : IoResult → ErrorCode
result_code aborted = code Code.operation_aborted
result_code (other e) = e

-- `callback`, which asio calls when the pending operation completes.
unfoldable pub callback : IoResult → ℕ → Awaiter → Option Awaiter
callback r n a = elim a.op [
  | IoOp.pending ↦
      some (exchange (record a { op = IoOp.complete; bt = a.bt + n; ec = some (result_code r) }))
  | _ ↦ none
]

-- The stop callback that the constructor registers for a token.
unfoldable pub request_stop : Awaiter → Option Awaiter
request_stop a =
    if a.stop_possible then some (emit (record a { cancellation_requested = true })) else none

pub data Action : Type 0 where
  advances : Action
  completes : IoResult → ℕ → Action
  stops : Action

unfoldable pub act : Awaiter → Action → Option Awaiter
unfolding advance callback request_stop
act a advances = advance a
act a (completes r n) = callback r n a
act a stops = request_stop a

unfoldable pub acts : List Action → Awaiter → Option Awaiter
unfolding act
acts [] a = some a
acts (x ∷ xs) a = act a x >>= acts xs
