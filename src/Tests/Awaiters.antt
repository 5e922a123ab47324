-- ===== src/Tests/Awaiters.antt =====
-- Concrete runs of the awaiters over asio, and the theorems on them applied.
use coproto.Prelude.{
  ◌≡◌, ◌≢◌, ◌⊎◌, inl, refl, true, false, none, some, List, [], ◌∷◌, ◌≤◌, ◌^◌, min, is_some,
}
use coproto.ErrorCode.{no_error}
use coproto.Asio
use coproto.Asio.{IoOp, Starter, Awaiter, new_awaiter, other, aborted}
use coproto.Asio.Race.{Finished, resumed_once, stop_signalled, resumed_eventually, remaining}
use coproto.Asio.Connect
use coproto.Asio.Connect.{Connect, new_connect, refused, connected}
use coproto.Asio.Connect.Backoff.{retry_delay_lem, connect-resumed}
use coproto.Asio.Accept
use coproto.Asio.Accept.{Accept, new_accept, accept-resumed}
use coproto.Asio.TlsAccept
use coproto.Asio.TlsAccept.{TlsAccept, new_tls_accept}
use coproto.Asio.TlsAccept.Parties.{Finished as Ended, tls_accept-resumed}
use coproto.Asio.TlsConnect
use coproto.Asio.TlsConnect.{TlsConnect, new_tls_connect}
use coproto.Asio.TlsConnect.Attempts.{Over, tls_connect-resumed, refused_early}

-- A stop request between the start of the operation and the second look.
abbrev raced : List Asio.Action
raced = Asio.advances ∷ Asio.advances ∷ Asio.stops ∷ Asio.advances ∷ []

abbrev raced_awaiter : Awaiter
raced_awaiter = record (new_awaiter true) {
  cancellation_requested = true;
  starter = Starter.checked;
  op = IoOp.pending;
  signalled = true;
}

raced_lem : Asio.acts raced (new_awaiter true) ≡ some raced_awaiter
unfolding Asio.acts
raced_lem = refl

resumed_once_example :
    (Finished raced_awaiter × (raced_awaiter.resumed ≡ 1) × (is_some raced_awaiter.ec ≡ true))
    ⊎ ((¬ Finished raced_awaiter) × (raced_awaiter.resumed ≡ 0))
resumed_once_example = resumed_once true raced raced_awaiter raced_lem

stop_signalled_example : raced_awaiter.cancellation_requested ≡ raced_awaiter.signalled
stop_signalled_example = stop_signalled true raced raced_awaiter raced_lem (inl refl) refl

resumed_eventually_example :
    (b : Awaiter) × (Asio.acts (remaining aborted 0 raced_awaiter) raced_awaiter ≡ some b)
    × (b.resumed ≡ 1)
resumed_eventually_example = resumed_eventually true raced raced_awaiter aborted 0 raced_lem

-- Two refusals, the second of which comes before `await_suspend` has looked for a cancellation.
abbrev refusals : List Connect.Action
refusals =
    Connect.advances
    ∷ Connect.advances
    ∷ Connect.advances
    ∷ Connect.calls_back refused
    ∷ Connect.timer_fires
    ∷ Connect.advances
    ∷ Connect.calls_back refused
    ∷ Connect.advances
    ∷ Connect.advances
    ∷ []

abbrev refused_twice : Connect
refused_twice = record (new_connect true true) {
  ec = refused;
  synchronous_flag = true;
  retry_delay = 2;
  stage = Connect.Stage.returned;
  waiting = true;
  retries = 1;
}

refusals_lem : Connect.acts refusals (new_connect true true) ≡ some refused_twice
unfolding Connect.acts
refusals_lem = refl

retry_delay_lem_example :
    (refused_twice.retry_delay ≡ min (2 ^ refused_twice.retries) 1000)
    × (refused_twice.retry_delay ≤ 1000)
retry_delay_lem_example = retry_delay_lem true true refusals refused_twice refusals_lem

connect-resumed_example :
    ((refused_twice.pending ≡ false) ⊎ (refused_twice.waiting ≡ false))
    × (((refused_twice.stage ≡ Connect.Stage.returned)
          × (refused_twice.pending ≡ false)
          × (refused_twice.waiting ≡ false)
          × (refused_twice.resumed ≡ 1))
        ⊎ (((refused_twice.stage ≢ Connect.Stage.returned)
              ⊎ ((refused_twice.pending ≡ true) ⊎ (refused_twice.waiting ≡ true)))
            × (refused_twice.resumed ≡ 0)))
connect-resumed_example = connect-resumed true true refusals refused_twice refusals_lem

-- The stop request comes while the timer runs.
abbrev stopped_waiting : Connect
stopped_waiting = record refused_twice { cancellation_requested = true; signalled = true }

abbrev last_attempt : List Connect.Action
last_attempt =
    Connect.timer_fires
    ∷ Connect.advances
    ∷ Connect.advances
    ∷ Connect.advances
    ∷ Connect.calls_back refused
    ∷ []

abbrev stopped : Connect
stopped = record stopped_waiting { retry_delay = 4; waiting = false; resumed = 1; retries = 2 }

stopped_lem : Connect.acts last_attempt stopped_waiting ≡ some stopped
unfolding Connect.acts
stopped_lem = refl

-- A stop request before the accept operation is started, which is signalled by `await_suspend`.
abbrev stopped_accept : List Accept.Action
stopped_accept =
    Accept.advances ∷ Accept.stops ∷ Accept.advances ∷ Accept.advances ∷ Accept.advances ∷ []

abbrev waits : Accept
waits = record (new_accept true) {
  cancellation_requested = true;
  synchronous_flag = true;
  stage = Accept.Stage.returned;
  signalled = true;
}

waits_lem : Accept.acts stopped_accept (new_accept true) ≡ some waits
unfolding Accept.acts
waits_lem = refl

-- The accept operation calls back before `await_suspend` has returned, and the handshake last.
abbrev tls_accepted : List TlsAccept.Action
tls_accepted =
    TlsAccept.advances
    ∷ TlsAccept.advances
    ∷ TlsAccept.accepts none
    ∷ TlsAccept.acceptor_advances
    ∷ TlsAccept.advances
    ∷ TlsAccept.acceptor_advances
    ∷ TlsAccept.shakes no_error
    ∷ []

abbrev shaken_hands : TlsAccept
shaken_hands = record (new_tls_accept true) {
  flag = 0;
  initiator = TlsAccept.Initiator.returned;
  acceptor = TlsAccept.Acceptor.returned;
  handshake = IoOp.complete;
  resumed = 1;
}

tls_accepted_lem : TlsAccept.acts tls_accepted (new_tls_accept true) ≡ some shaken_hands
unfolding TlsAccept.acts
tls_accepted_lem = refl

tls_accept-resumed_example :
    ((Ended shaken_hands × (shaken_hands.resumed ≡ 1))
      ⊎ ((¬ Ended shaken_hands) × (shaken_hands.resumed ≡ 0)))
    × (shaken_hands.initiator ≡ TlsAccept.Initiator.returned
        → shaken_hands.acceptor ≢ TlsAccept.Acceptor.handshaking
        → ¬ Ended shaken_hands
        → shaken_hands.cancellation_requested ≡ true
        → (shaken_hands.signalled ≡ true) ⊎ (shaken_hands.handshake ≡ IoOp.complete))
tls_accept-resumed_example = tls_accept-resumed true tls_accepted shaken_hands tls_accepted_lem

-- `await_suspend` has not returned yet.
abbrev looking : List TlsConnect.Action
looking = TlsConnect.advances ∷ TlsConnect.advances ∷ []

abbrev looked : TlsConnect
looked = record (new_tls_connect true true) { initiator = TlsAccept.Initiator.checked }

looked_lem : TlsConnect.acts looking (new_tls_connect true true) ≡ some looked
unfolding TlsConnect.acts
looked_lem = refl

refused_early_example :
    (d : TlsConnect) × (TlsConnect.acts
        (TlsConnect.attempts refused ∷ TlsConnect.advances ∷ [])
        looked
      ≡ some d)
    × (d.ec ≡ refused)
    × (d.resumed ≡ 1)
    × (d.waiting ≡ false)
refused_early_example = refused_early true looking looked looked_lem refl refl

-- It returns, and the attempt is then refused.
abbrev refused_late : List TlsConnect.Action
refused_late =
    TlsConnect.advances
    ∷ TlsConnect.advances
    ∷ TlsConnect.advances
    ∷ TlsConnect.attempts refused
    ∷ []

abbrev timing : TlsConnect
timing = record (new_tls_connect true true) {
  flag = 0;
  ec = refused;
  initiator = TlsAccept.Initiator.returned;
  connector = TlsAccept.Acceptor.failed;
  waiting = true;
}

refused_late_lem : TlsConnect.acts refused_late (new_tls_connect true true) ≡ some timing
unfolding TlsConnect.acts
refused_late_lem = refl

tls_connect-resumed_example :
    ((Over timing
        × (((timing.resumed ≡ 1) × (timing.waiting ≡ false))
            ⊎ ((timing.resumed ≡ 0) × (timing.waiting ≡ true))))
      ⊎ ((¬ Over timing) × (timing.resumed ≡ 0) × (timing.waiting ≡ false)))
    × (timing.retry_delay ≡ min (2 ^ timing.retries) 1000)
tls_connect-resumed_example = tls_connect-resumed true true refused_late timing refused_late_lem
