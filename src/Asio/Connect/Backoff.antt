-- ===== src/Asio/Connect/Backoff.antt =====
-- AsioSocket.h, `AsioConnect`: the delays, the attempts and the resumption, in any order of events.
use mathlib.Core.Path.{subst}
use native.Mathlib.Nat.{pow-suc}
use coproto.Prelude.{
  ℕ, ◌+◌, ◌^◌, ◌≤◌, min, ◌≡◌, ◌≢◌, refl, ◌⊎◌, inl, inr, Bool, true, false, not, some, List, [], ◌∷◌,
  arith, Option-cases,
}
use coproto.Asio.Connect.{
  Stage, Connect, new_connect, Action, advances, calls_back, timer_fires, stops, act, acts,
}

-- `await_suspend` and the callback meet: the second of the two has found the flag set.
abbrev Meeting : Connect → Type 0
Meeting c = (c.synchronous_flag ≡ not c.pending) × (c.waiting ≡ false) × (c.resumed ≡ 0)

-- What goes on at each stage: the flag is down until one of the two is through; once both are, either
-- the timer runs or the handle has been resumed.
abbrev Places : Stage → Connect → Type 0
Places Stage.opening c =
    (c.synchronous_flag ≡ false) × (c.pending ≡ false) × (c.waiting ≡ false) × (c.resumed ≡ 0)
Places Stage.connecting c = Meeting c
Places Stage.checked c = Meeting c
Places Stage.returned c =
    (c.synchronous_flag ≡ true)
    × (((c.pending ≡ true) × (c.waiting ≡ false) × (c.resumed ≡ 0))
        ⊎ ((c.pending ≡ false)
            × (((c.waiting ≡ true) × (c.resumed ≡ 0)) ⊎ ((c.waiting ≡ false) × (c.resumed ≡ 1)))))

pub record Inv (c : Connect) : Type 0 where
  pub places : Places c.stage c
  pub delayed : c.retry_delay ≡ min (2 ^ c.retries) 1000

act-Inv : (c : Connect) (x : Action) (d : Connect) → Inv c → act c x ≡ some d → Inv d
unfolding act
act-Inv c advances d v e = ground (arith, v, e)
act-Inv c (calls_back r) d v e = ground (arith, v, e)
act-Inv c timer_fires d v e = ground (arith, v, e, pow-suc 2 c.retries)
act-Inv c stops d v e = ground (arith, v, e)

acts-Inv : (xs : List Action) (c d : Connect) → Inv c → acts xs c ≡ some d → Inv d
unfolding acts
acts-Inv [] c d v e = subst Inv (ground (arith, e)) v
acts-Inv (x ∷ xs) c d v e = elim (Option-cases (act c x)) [
  | inl n ↦ absurd (ground (arith, e, n))
  | inr (b, h) ↦ acts-Inv xs b d (act-Inv c x b v h) (ground (arith, e, h))
]

new_connect-Inv : (b t : Bool) → Inv (new_connect b t)
new_connect-Inv b t = record { places = (refl, refl, refl, refl); delayed = refl }

-- Whatever happens and in whatever order, the delay after n retries is 2^n milliseconds, and a second
-- from the tenth retry on.
pub retry_delay_lem :
    (retry token : Bool) (xs : List Action) (c : Connect)
    → acts xs (new_connect retry token) ≡ some c
    → (c.retry_delay ≡ min (2 ^ c.retries) 1000) × (c.retry_delay ≤ 1000)
retry_delay_lem retry token xs c e =
    let v = acts-Inv xs (new_connect retry token) c (new_connect-Inv retry token) e in
    (v.delayed, omega (arith, v.delayed))

-- Whatever happens and in whatever order: the handle has been resumed once exactly when `await_suspend`
-- has returned and neither an attempt nor the timer is pending, and not at all before; and an attempt
-- and the timer are never pending together.
pub connect-resumed :
    (retry token : Bool) (xs : List Action) (c : Connect)
    → acts xs (new_connect retry token) ≡ some c
    → ((c.pending ≡ false) ⊎ (c.waiting ≡ false))
      × (((c.stage ≡ Stage.returned) × (c.pending ≡ false) × (c.waiting ≡ false) × (c.resumed ≡ 1))
          ⊎ (((c.stage ≢ Stage.returned) ⊎ ((c.pending ≡ true) ⊎ (c.waiting ≡ true)))
              × (c.resumed ≡ 0)))
connect-resumed retry token xs c e =
    let v = acts-Inv xs (new_connect retry token) c (new_connect-Inv retry token) e in
    ground (arith, v)

-- How many attempts can still be begun once a stop is requested.
abbrev still : Bool → ℕ
still true = 1
still false = 0

act_stopping :
    (c : Connect) (x : Action) (d : Connect)
    → c.cancellation_requested ≡ true
    → act c x ≡ some d
    → (d.cancellation_requested ≡ true)
      × (d.retries + still d.waiting ≤ c.retries + still c.waiting)
unfolding act
act_stopping c x d s e = ground (arith, e)

acts_stopping :
    (xs : List Action) (c d : Connect)
    → c.cancellation_requested ≡ true
    → acts xs c ≡ some d
    → d.retries + still d.waiting ≤ c.retries + still c.waiting
unfolding acts
acts_stopping [] c d s e = ground (arith, e)
acts_stopping (x ∷ xs) c d s e = elim (Option-cases (act c x)) [
  | inl n ↦ absurd (ground (arith, e, n))
  | inr (b, h) ↦
      let w = act_stopping c x b s h in
      omega (arith, w.1, acts_stopping xs b d w.0 (ground (arith, e, h)))
]

-- Once a stop is requested no further attempt is planned: at most one more is begun, and that only if
-- the timer was already running.
pub retries_after_stop :
    (xs : List Action) (c d : Connect)
    → c.cancellation_requested ≡ true
    → acts xs c ≡ some d
    → (d.retries ≤ c.retries + 1) × ((c.waiting ≡ true) ⊎ (d.retries ≤ c.retries))
retries_after_stop xs c d s e = ground (arith, acts_stopping xs c d s e)
