-- ===== src/Asio/TlsConnect/Attempts.antt =====
-- AsioSocket.h, `AsioTlsConnect`: the parties, the flag and the attempts, in any order of events.
use mathlib.Core.Path.{subst}
use native.Mathlib.Nat.{pow-suc}
use coproto.Prelude.{
  ℕ, ◌+◌, ◌^◌, min, ◌≡◌, ◌≢◌, ◌⊎◌, inl, inr, Bool, true, false, some, List, [], ◌∷◌, arith, ◌==◌,
  if◌then◌else◌, Option-cases,
}
use coproto.Asio.{IoOp}
use coproto.Asio.Connect.{connected, refused, fails_with}
use coproto.Asio.TlsAccept.{Initiator, Acceptor}
use coproto.Asio.TlsConnect.{
  TlsConnect, new_tls_connect, Action, advances, connector_advances, timer_fires, stops, attempts,
  shakes, act, acts,
}

-- How often each party has counted the flag down.
abbrev counted_by : Initiator → Acceptor → IoOp → ℕ
counted_by i a h =
    elim i [ Initiator.returned ↦ 1 | _ ↦ 0 ]
    + elim a [ Acceptor.failed ↦ 2 | Acceptor.returned ↦ 1 | _ ↦ 0 ]
    + elim h [ IoOp.complete ↦ 1 | _ ↦ 0 ]

abbrev Started : Acceptor → IoOp → Type 0
Started Acceptor.waiting IoOp.not_started = Unit {0}
Started Acceptor.waiting _ = ⊥
Started Acceptor.failed IoOp.not_started = Unit {0}
Started Acceptor.failed _ = ⊥
Started _ IoOp.not_started = ⊥
Started _ _ = Unit {0}

pub record Inv (c : TlsConnect) : Type 0 where
  pub counted : c.flag + counted_by c.initiator c.connector c.handshake ≡ 3
  pub places : Started c.connector c.handshake
  pub begun : (c.initiator ≢ Initiator.entered) ⊎ (c.connector ≡ Acceptor.waiting)
  pub once : c.resumed + (if c.waiting then 1 else 0) ≡ (if c.flag == 0 then 1 else 0)
  pub delayed : c.retry_delay ≡ min (2 ^ c.retries) 1000

act-Inv : (c : TlsConnect) (x : Action) (d : TlsConnect) → Inv c → act c x ≡ some d → Inv d
unfolding act
act-Inv c advances d v e = ground (arith, v, e)
act-Inv c (attempts connected) d v e = ground (arith, v, e)
act-Inv c (attempts refused) d v e = ground (arith, v, e)
act-Inv c (attempts (fails_with x)) d v e = ground (arith, v, e)
act-Inv c connector_advances d v e = ground (arith, v, e)
act-Inv c (shakes r) d v e = ground (arith, v, e)
act-Inv c timer_fires d v e = ground (arith, v, e, pow-suc 2 c.retries)
act-Inv c stops d v e = ground (arith, v, e)

acts-Inv : (xs : List Action) (c d : TlsConnect) → Inv c → acts xs c ≡ some d → Inv d
unfolding acts
acts-Inv [] c d v e = subst Inv (ground (arith, e)) v
acts-Inv (x ∷ xs) c d v e = elim (Option-cases (act c x)) [
  | inl n ↦ absurd (ground (arith, e, n))
  | inr (b, h) ↦ acts-Inv xs b d (act-Inv c x b v h) (ground (arith, e, h))
]

new_tls_connect-Inv : (b t : Bool) → Inv (new_tls_connect b t)
new_tls_connect-Inv b t = ground arith

-- All parties of an attempt are over.
abbrev pub Over : TlsConnect → Type 0
Over c =
    (c.initiator ≡ Initiator.returned)
    × ((c.connector ≡ Acceptor.failed)
        ⊎ ((c.connector ≡ Acceptor.returned) × (c.handshake ≡ IoOp.complete)))

Over-flag : (c : TlsConnect) → Inv c → (Over c × (c.flag ≡ 0)) ⊎ ((¬ Over c) × (c.flag ≢ 0))
Over-flag c v = ground (arith, v.counted, v.places)

-- In any order of events, once all parties of an attempt are over the handle has been resumed once or
-- the timer of a new attempt runs; before, neither. After n retries the delay is 2^n milliseconds, and
-- at most a second.
pub tls_connect-resumed :
    (retry token : Bool) (xs : List Action) (c : TlsConnect)
    → acts xs (new_tls_connect retry token) ≡ some c
    → ((Over c × (((c.resumed ≡ 1) × (c.waiting ≡ false)) ⊎ ((c.resumed ≡ 0) × (c.waiting ≡ true))))
        ⊎ ((¬ Over c) × (c.resumed ≡ 0) × (c.waiting ≡ false)))
      × (c.retry_delay ≡ min (2 ^ c.retries) 1000)
tls_connect-resumed retry token xs c e =
    let v = acts-Inv xs (new_tls_connect retry token) c (new_tls_connect-Inv retry token) e in
    (
      elim (Over-flag c v) [
        | inl (o, z) ↦ inl (o, ground (arith, z, v.once))
        | inr (o, z) ↦ inr (o, ground (arith, z, v.once), ground (arith, z, v.once))
      ],
      v.delayed,
    )

-- An attempt that is refused while `await_suspend` has not returned is not made again, although the
-- awaiter should retry: the last action of `await_suspend` resumes the handle.
pub refused_early :
    (token : Bool) (xs : List Action) (c : TlsConnect)
    → acts xs (new_tls_connect true token) ≡ some c
    → c.initiator ≡ Initiator.checked
    → c.connector ≡ Acceptor.waiting
    → (d : TlsConnect) × (acts (attempts refused ∷ advances ∷ []) c ≡ some d)
      × (d.ec ≡ refused)
      × (d.resumed ≡ c.resumed + 1)
      × (d.waiting ≡ c.waiting)
unfolding acts
refused_early token xs c e i w =
    let v = acts-Inv xs (new_tls_connect true token) c (new_tls_connect-Inv true token) e in
    let f : c.flag ≡ 3 = ground (arith, v.counted, v.places, i, w) in
    elim (Option-cases (acts (attempts refused ∷ advances ∷ []) c)) [
      | inl n ↦ absurd (ground (arith, n, i, w, f))
      | inr (d, n) ↦
          (d, n, ground (arith, n, i, w, f), ground (arith, n, i, w, f), ground (arith, n, i, w, f))
    ]
