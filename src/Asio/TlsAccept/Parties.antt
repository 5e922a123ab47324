-- ===== src/Asio/TlsAccept/Parties.antt =====
-- AsioSocket.h, `AsioTlsAcceptor::AcceptAwaiter`: the parties and the flag, in any order of events.
use mathlib.Core.Path.{subst}
use coproto.Prelude.{
  ℕ, ◌+◌, ◌≡◌, ◌≢◌, ◌⊎◌, inl, inr, Bool, true, false, some, List, [], ◌∷◌, arith, ◌==◌,
  if◌then◌else◌, Option-cases,
}
use coproto.Asio.{IoOp}
use coproto.Asio.TlsAccept.{
  Initiator, Acceptor, TlsAccept, new_tls_accept, Action, advances, acceptor_advances, stops,
  accepts, shakes, act, acts,
}

-- How often each party has counted the flag down.
abbrev by_initiator : Initiator → ℕ
by_initiator Initiator.returned = 1
by_initiator _ = 0

abbrev by_acceptor : Acceptor → ℕ
by_acceptor Acceptor.failed = 2
by_acceptor Acceptor.returned = 1
by_acceptor _ = 0

abbrev by_handshake : IoOp → ℕ
by_handshake IoOp.complete = 1
by_handshake _ = 0

-- Which handshakes there are at each place of the callback that starts it.
abbrev Started : Acceptor → IoOp → Type 0
Started Acceptor.waiting IoOp.not_started = Unit {0}
Started Acceptor.waiting _ = ⊥
Started Acceptor.failed IoOp.not_started = Unit {0}
Started Acceptor.failed _ = ⊥
Started _ IoOp.not_started = ⊥
Started _ _ = Unit {0}

pub record Inv (a : TlsAccept) : Type 0 where
  pub counted :
      a.flag + (by_initiator a.initiator + by_acceptor a.acceptor + by_handshake a.handshake) ≡ 3
  pub places : Started a.acceptor a.handshake
  pub begun : (a.initiator ≢ Initiator.entered) ⊎ (a.acceptor ≡ Acceptor.waiting)
  pub once : a.resumed ≡ (if a.flag == 0 then 1 else 0)
  pub token : (a.stop_possible ≡ true) ⊎ (a.cancellation_requested ≡ false)
  pub told :
      (a.cancellation_requested ≡ false)
      ⊎ (a.signalled ≡ true)
      ⊎ (a.initiator ≡ Initiator.entered)
      ⊎ (a.initiator ≡ Initiator.started)
      ⊎ (a.acceptor ≡ Acceptor.handshaking)
      ⊎ (a.acceptor ≡ Acceptor.failed)
      ⊎ (a.handshake ≡ IoOp.complete)

act-Inv : (a : TlsAccept) (x : Action) (b : TlsAccept) → Inv a → act a x ≡ some b → Inv b
unfolding act
act-Inv a advances b v e = ground (arith, v, e)
act-Inv a (accepts r) b v e = ground (arith, v, e)
act-Inv a acceptor_advances b v e = ground (arith, v, e)
act-Inv a (shakes r) b v e = ground (arith, v, e)
act-Inv a stops b v e = ground (arith, v, e)

acts-Inv : (xs : List Action) (a b : TlsAccept) → Inv a → acts xs a ≡ some b → Inv b
unfolding acts
acts-Inv [] a b v e = subst Inv (ground (arith, e)) v
acts-Inv (x ∷ xs) a b v e = elim (Option-cases (act a x)) [
  | inl n ↦ absurd (ground (arith, e, n))
  | inr (c, h) ↦ acts-Inv xs c b (act-Inv a x c v h) (ground (arith, e, h))
]

new_tls_accept-Inv : (token : Bool) → Inv (new_tls_accept token)
new_tls_accept-Inv token = ground arith

-- All parties are over: the accept operation has failed, or the handshake has completed and its starter
-- returned.
abbrev pub Finished : TlsAccept → Type 0
Finished a =
    (a.initiator ≡ Initiator.returned)
    × ((a.acceptor ≡ Acceptor.failed)
        ⊎ ((a.acceptor ≡ Acceptor.returned) × (a.handshake ≡ IoOp.complete)))

-- In any order of events the handle is resumed once, when all parties are over, and not before. Once a
-- stop is requested and the parties that run have returned, the operation that is still pending has been
-- signalled.
pub tls_accept-resumed :
    (token : Bool) (xs : List Action) (a : TlsAccept)
    → acts xs (new_tls_accept token) ≡ some a
    → ((Finished a × (a.resumed ≡ 1)) ⊎ ((¬ Finished a) × (a.resumed ≡ 0)))
      × (a.initiator ≡ Initiator.returned
          → a.acceptor ≢ Acceptor.handshaking
          → ¬ Finished a
          → a.cancellation_requested ≡ true
          → (a.signalled ≡ true) ⊎ (a.handshake ≡ IoOp.complete))
tls_accept-resumed token xs a e =
    let v = acts-Inv xs (new_tls_accept token) a (new_tls_accept-Inv token) e in
    (ground (arith, v), λ p q r s. ground (arith, v, p, q, r, s))
