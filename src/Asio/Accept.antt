-- ===== src/Asio/Accept.antt =====
-- coproto/Socket/AsioSocket.h, `AsioAcceptor::Awaiter`: `await_suspend` with asio's callback and the
-- stop callback. Without a token the callback of `async_accept` resumes the handle by itself.
use mathlib.Core.Path.{subst}
use coproto.Prelude.{
  ℕ, ◌+◌, ◌≡◌, ◌≢◌, ◌⊎◌, inl, inr, Bool, true, false, ◌&&◌, not, Option, none, some, List, [], ◌∷◌,
  arith, if◌then◌else◌, ◌>>=◌, Option-cases,
}
use coproto.ErrorCode.{ErrorCode, no_error}

-- Where `await_suspend` stands. Its first action registers the stop callback.
pub data Stage : Type 0 where
  fresh registered accepting checked returned : Stage

pub record Accept : Type 0 where
  pub stop_possible : Bool
  pub cancellation_requested : Bool
  pub synchronous_flag : Bool
  pub ec : ErrorCode
  pub stage : Stage
  pub finished : Bool
  pub signalled : Bool
  pub resumed : ℕ

abbrev pub new_accept : Bool → Accept
new_accept token = record {
  stop_possible = token;
  cancellation_requested = false;
  synchronous_flag = false;
  ec = no_error;
  stage = Stage.fresh;
  finished = false;
  signalled = false;
  resumed = 0;
}

abbrev exchange : Accept → Accept
exchange a = record a {
  synchronous_flag = true;
  resumed = if a.synchronous_flag then a.resumed + 1 else a.resumed;
}

pub advance : Accept → Option Accept
advance a = elim a.stage [
  | Stage.fresh ↦
      some (record a { stage = if a.stop_possible then Stage.registered else Stage.returned })
  | Stage.registered ↦ some (record a { stage = Stage.accepting })
  | Stage.accepting ↦ some (record a {
    stage = Stage.checked;
    signalled = if a.cancellation_requested && not a.finished then true else a.signalled;
  })
  | Stage.checked ↦ some (exchange (record a { stage = Stage.returned }))
  | Stage.returned ↦ none
]

-- The callback of `async_accept`, once it is pending.
pub callback : ErrorCode → Accept → Option Accept
callback e a =
    let a' = record a { ec = e; finished = true } in
    let called =
      if a.finished
      then none
      else some (if a.stop_possible then exchange a' else record a' { resumed = a.resumed + 1 }) in
    elim a.stage [ Stage.fresh ↦ none | Stage.registered ↦ none | _ ↦ called ]

abbrev is_started : Stage → Bool
is_started Stage.fresh = false
is_started Stage.registered = false
is_started _ = true

-- The stop callback, which is registered only with a token.
pub request_stop : Accept → Option Accept
request_stop a =
    let stopped = record a {
      cancellation_requested = true;
      signalled = if is_started a.stage && not a.finished then true else a.signalled;
    } in
    elim a.stage [ Stage.fresh ↦ none | _ ↦ if a.stop_possible then some stopped else none ]

pub data Action : Type 0 where
  advances : Action
  calls_back : ErrorCode → Action
  stops : Action

unfoldable pub act : Accept → Action → Option Accept
unfolding advance callback request_stop
act a advances = advance a
act a (calls_back e) = callback e a
act a stops = request_stop a

unfoldable pub acts : List Action → Accept → Option Accept
unfolding act
acts [] a = some a
acts (x ∷ xs) a = act a x >>= acts xs

-- The flag, the callback and the resumptions at each stage.
abbrev Places : Stage → Accept → Type 0
Places Stage.fresh a =
    (a.synchronous_flag ≡ false) × (a.finished ≡ false) × (a.resumed ≡ 0) × (a.signalled ≡ false)
Places Stage.registered a =
    (a.synchronous_flag ≡ false) × (a.finished ≡ false) × (a.resumed ≡ 0) × (a.stop_possible ≡ true)
Places Stage.accepting a =
    (a.synchronous_flag ≡ a.finished) × (a.resumed ≡ 0) × (a.stop_possible ≡ true)
Places Stage.checked a =
    (a.synchronous_flag ≡ a.finished)
    × (a.resumed ≡ 0)
    × (a.stop_possible ≡ true)
    × ((a.finished ≡ true) ⊎ (a.cancellation_requested ≡ false) ⊎ (a.signalled ≡ true))
Places Stage.returned a =
    (a.resumed ≡ (if a.finished then 1 else 0))
    × ((a.finished ≡ true) ⊎ (a.stop_possible ≡ false) ⊎ (a.synchronous_flag ≡ true))
    × ((a.finished ≡ true) ⊎ (a.cancellation_requested ≡ false) ⊎ (a.signalled ≡ true))

pub record Inv (a : Accept) : Type 0 where
  pub places : Places a.stage a
  pub token : (a.stop_possible ≡ true) ⊎ (a.cancellation_requested ≡ false)
  pub early : (a.stage ≢ Stage.fresh) ⊎ (a.cancellation_requested ≡ false)

act-Inv : (a : Accept) (x : Action) (b : Accept) → Inv a → act a x ≡ some b → Inv b
unfolding act
act-Inv a x b v e = ground (arith, v, e)

acts-Inv : (xs : List Action) (a b : Accept) → Inv a → acts xs a ≡ some b → Inv b
unfolding acts
acts-Inv [] a b v e = subst Inv (ground (arith, e)) v
acts-Inv (x ∷ xs) a b v e = elim (Option-cases (act a x)) [
  | inl n ↦ absurd (ground (arith, e, n))
  | inr (c, h) ↦ acts-Inv xs c b (act-Inv a x c v h) (ground (arith, e, h))
]

-- In any order of events the handle is resumed once, when `await_suspend` has returned and the
-- connection has been accepted or has failed, and not before; and a stop request that came while the
-- operation was pending has been signalled to it.
pub accept-resumed :
    (token : Bool) (xs : List Action) (a : Accept)
    → acts xs (new_accept token) ≡ some a
    → (((a.stage ≡ Stage.returned) × (a.finished ≡ true) × (a.resumed ≡ 1))
        ⊎ (((a.stage ≢ Stage.returned) ⊎ (a.finished ≡ false)) × (a.resumed ≡ 0)))
      × (a.stage ≡ Stage.returned
          → a.finished ≡ false
          → a.cancellation_requested ≡ true
          → a.signalled ≡ true)
accept-resumed token xs a e =
    let v = acts-Inv xs (new_accept token) a (ground arith) e in
    (ground (arith, v), λ p q r. ground (arith, v, p, q, r))
