-- ===== src/Asio/Connect.antt =====
-- coproto/Socket/AsioSocket.h, `AsioConnect`: a connection attempt that is made again, after a delay,
-- when it is refused. The timer and the connection are asio's; each completes once after it is started.
-- Each action is one of the steps of `await_suspend`, a callback or a stop request; they may come in any
-- order in which something that has not been started does not complete.
pub mod Backoff
use coproto.Prelude.{
  ℕ, ◌+◌, ◌*◌, min, Bool, true, false, not, ◌&&◌, ◌||◌, Option, none, some, List, [], ◌∷◌,
  if◌then◌else◌, ◌>>=◌,
}
use coproto.ErrorCode.{ErrorCode}

-- The code that an attempt ends with: none, boost's `connection_refused`, or another one.
pub data Outcome : Type 0 where
  connected refused : Outcome
  fails_with : ErrorCode → Outcome

-- Where `await_suspend` stands: it is entered; it has started the attempt; it has looked for a
-- cancellation; it has exchanged the flag and returns.
pub data Stage : Type 0 where
  opening connecting checked returned : Stage

-- `pending` says that an attempt is started whose callback has not been called, `waiting` that the timer
-- runs. `resumed` counts the calls of `mHandle.resume`, `retries` the attempts after the first.
pub record Connect : Type 0 where
  pub retry_on_failure : Bool
  pub stop_possible : Bool
  pub cancellation_requested : Bool
  pub synchronous_flag : Bool
  pub ec : Outcome
  pub retry_delay : ℕ
  pub stage : Stage
  pub pending : Bool
  pub waiting : Bool
  pub signalled : Bool
  pub resumed : ℕ
  pub retries : ℕ

-- The awaiter behind `await_ready`, with a delay of one millisecond.
abbrev pub new_connect : Bool → Bool → Connect
new_connect retry token = record {
  retry_on_failure = retry;
  stop_possible = token;
  cancellation_requested = false;
  synchronous_flag = false;
  ec = connected;
  retry_delay = 1;
  stage = Stage.opening;
  pending = false;
  waiting = false;
  signalled = false;
  resumed = 0;
  retries = 0;
}

abbrev is_refused : Outcome → Bool
is_refused refused = true
is_refused _ = false

-- What the one that finds the flag set does: `retry`, which starts the timer, or the resumption.
abbrev settle : Connect → Connect
settle c =
    if is_refused c.ec && c.retry_on_failure && not c.cancellation_requested
    then record c { waiting = true; signalled = false }
    else record c { resumed = c.resumed + 1 }

-- The next action of `await_suspend`.
unfoldable pub advance : Connect → Option Connect
advance c = elim c.stage [
  | Stage.opening ↦ some (record c { stage = Stage.connecting; pending = true; signalled = false })
  | Stage.connecting ↦ some (record c {
    stage = Stage.checked;
    signalled = if c.cancellation_requested && c.pending then true else c.signalled;
  })
  | Stage.checked ↦ some (
      let c' = record c { synchronous_flag = true; stage = Stage.returned } in
      if c.synchronous_flag then settle c' else c')
  | Stage.returned ↦ none
]

-- The callback of `async_connect`.
unfoldable pub callback : Outcome → Connect → Option Connect
callback r c =
    if not c.pending
    then none
    else some (
        let c' = record c { ec = r; pending = false; synchronous_flag = true } in
        if c.synchronous_flag then settle c' else c')

-- The callback of the timer, which closes the socket and calls `await_suspend` again.
unfoldable pub timer : Connect → Option Connect
timer c =
    if not c.waiting
    then none
    else some (record c {
      synchronous_flag = false;
      waiting = false;
      retry_delay = min (c.retry_delay * 2) 1000;
      stage = Stage.opening;
      retries = c.retries + 1;
    })

-- The stop callback: it signals the attempt or the timer that is pending.
unfoldable pub request_stop : Connect → Option Connect
request_stop c =
    if c.stop_possible
    then some (record c {
      cancellation_requested = true;
      signalled = if c.pending || c.waiting then true else c.signalled;
    })
    else none

pub data Action : Type 0 where
  advances : Action
  calls_back : Outcome → Action
  timer_fires : Action
  stops : Action

unfoldable pub act : Connect → Action → Option Connect
unfolding advance callback timer request_stop
act c advances = advance c
act c (calls_back r) = callback r c
act c timer_fires = timer c
act c stops = request_stop c

unfoldable pub acts : List Action → Connect → Option Connect
unfolding act
acts [] c = some c
acts (x ∷ xs) c = act c x >>= acts xs
