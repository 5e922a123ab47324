-- ===== src/Executor/ExecutionQueue/Handles.antt =====
-- Executor.h, `Handle`: what all handles hold together.
use coproto.Prelude.{
  ℕ, zero, suc, ◌+◌, ◌<◌, ◌≡◌, refl, ap, ◌∙◌, Bool, true, false, Option, none, some, List, [], ◌∷◌,
  ◌++◌, arith, append-nil, get_elem?, set,
}
use coproto.Executor.ExecutionQueue.{Handle}

abbrev pub one_if : Bool → ℕ
one_if true = 1
one_if false = 0

-- How many handles have acquired the queue.
abbrev pub runners : List Handle → ℕ
runners [] = 0
runners (h ∷ hs) = one_if h.acquired + runners hs

-- A handle that has not acquired the queue has nothing of its own to run.
abbrev pub HandleOk : Handle → Type 0
HandleOk h = elim h.acquired [ true ↦ Unit {0} | false ↦ (h.cbs ≡ []) × (h.fns ≡ []) ]

abbrev pub AllOk : List Handle → Type 0
AllOk [] = Unit {0}
AllOk (h ∷ hs) = HandleOk h × AllOk hs

-- What the handles have queued for themselves.
abbrev pub own_cbs : List Handle → List ℕ
own_cbs [] = []
own_cbs (h ∷ hs) = h.cbs ++ own_cbs hs

abbrev pub own_fns : List Handle → List ℕ
own_fns [] = []
own_fns (h ∷ hs) = h.fns ++ own_fns hs

abbrev pub count_next : Option ℕ → ℕ
count_next none = 0
count_next (some c) = 1

-- How many handles keep a callback that they have taken.
abbrev pub kept : List Handle → ℕ
kept [] = 0
kept (h ∷ hs) = count_next h.next + kept hs

pub AllOk-get :
    (hs : List Handle) (i : ℕ) (h : Handle) → AllOk hs → get_elem? hs i ≡ some h → HandleOk h
AllOk-get [] i h v e = cc
AllOk-get (x ∷ hs) zero h v e = ground (arith, v, e)
AllOk-get (x ∷ hs) (suc i) h v e = AllOk-get hs i h v.1 e

pub AllOk-set : (hs : List Handle) (i : ℕ) (h : Handle) → AllOk hs → HandleOk h → AllOk (set hs i h)
AllOk-set [] i h v w = tt
AllOk-set (x ∷ hs) zero h v w = (w, v.1)
AllOk-set (x ∷ hs) (suc i) h v w = (v.0, AllOk-set hs i h v.1 w)

pub AllOk-append : (hs : List Handle) (h : Handle) → AllOk hs → HandleOk h → AllOk (hs ++ (h ∷ []))
AllOk-append [] h v w = (w, tt)
AllOk-append (x ∷ hs) h v w = (v.0, AllOk-append hs h v.1 w)

pub runners-set :
    (hs : List Handle) (i : ℕ) (h h' : Handle)
    → get_elem? hs i ≡ some h
    → runners (set hs i h') + one_if h.acquired ≡ runners hs + one_if h'.acquired
runners-set [] i h h' e = cc
runners-set (x ∷ hs) zero h h' e = ground (arith, e)
runners-set (x ∷ hs) (suc i) h h' e = omega (arith, runners-set hs i h h' e)

pub runners-append :
    (hs : List Handle) (h : Handle) → runners (hs ++ (h ∷ [])) ≡ runners hs + one_if h.acquired
runners-append [] h = omega arith
runners-append (x ∷ hs) h = omega (arith, runners-append hs h)

pub kept-set :
    (hs : List Handle) (i : ℕ) (h h' : Handle)
    → get_elem? hs i ≡ some h
    → kept (set hs i h') + count_next h.next ≡ kept hs + count_next h'.next
kept-set [] i h h' e = cc
kept-set (x ∷ hs) zero h h' e = ground (arith, e)
kept-set (x ∷ hs) (suc i) h h' e = omega (arith, kept-set hs i h h' e)

pub kept-append :
    (hs : List Handle) (h : Handle) → kept (hs ++ (h ∷ [])) ≡ kept hs + count_next h.next
kept-append [] h = omega arith
kept-append (x ∷ hs) h = omega (arith, kept-append hs h)

-- Without a runner no handle has anything.
pub own_none :
    (hs : List Handle) → AllOk hs → runners hs ≡ 0 → (own_cbs hs ≡ []) × (own_fns hs ≡ [])
own_none [] v e = (refl, refl)
own_none (h ∷ hs) v e = ground (arith, v, e, own_none hs v.1)

pub runner_there :
    (hs : List Handle) (i : ℕ) (h : Handle)
    → get_elem? hs i ≡ some h
    → h.acquired ≡ true
    → 0 < runners hs
runner_there [] i h e a = cc
runner_there (x ∷ hs) zero h e a = ground (arith, e, a)
runner_there (x ∷ hs) (suc i) h e a = omega (arith, runner_there hs i h e a)

-- With one runner the others have nothing.
pub own_set :
    (hs : List Handle) (i : ℕ) (h h' : Handle)
    → AllOk hs
    → runners hs ≡ 1
    → get_elem? hs i ≡ some h
    → h.acquired ≡ true
    → (own_cbs (set hs i h') ≡ h'.cbs)
      × (own_fns (set hs i h') ≡ h'.fns)
      × (own_cbs hs ≡ h.cbs)
      × (own_fns hs ≡ h.fns)
own_set [] i h h' v r e a = cc
own_set (x ∷ hs) zero h h' v r e a =
    let t : x ≡ h = cc in
    let b : x.acquired ≡ true = ap (λ (h : Handle). h.acquired) t ∙ a in
    let z : runners hs ≡ 0 = ground (arith, b, r) in
    let w = own_none hs v.1 z in
    (
      ap (◌++◌ (h'.cbs)) w.0 ∙ append-nil h'.cbs,
      ap (◌++◌ (h'.fns)) w.1 ∙ append-nil h'.fns,
      ap (◌++◌ (x.cbs)) w.0 ∙ append-nil x.cbs ∙ ap (λ (h : Handle). h.cbs) t,
      ap (◌++◌ (x.fns)) w.1 ∙ append-nil x.fns ∙ ap (λ (h : Handle). h.fns) t,
    )
own_set (x ∷ hs) (suc i) h h' v r e a =
    let n = runner_there hs i h e a in
    let z : runners hs ≡ 1 = ground (arith, r, n) in
    ground (arith, v.0, r, n, own_set hs i h h' v.1 z e a)

pub own-append :
    (hs : List Handle) (h : Handle)
    → h.cbs ≡ []
    → h.fns ≡ []
    → (own_cbs (hs ++ (h ∷ [])) ≡ own_cbs hs) × (own_fns (hs ++ (h ∷ [])) ≡ own_fns hs)
own-append [] h p q = (append-nil h.cbs ∙ p, append-nil h.fns ∙ q)
own-append (x ∷ hs) h p q =
    (ap (◌++◌ (x.cbs)) (own-append hs h p q).0, ap (◌++◌ (x.fns)) (own-append hs h p q).1)

-- A handle is replaced by one with the same queues.
pub own_same :
    (hs : List Handle) (i : ℕ) (h h' : Handle)
    → get_elem? hs i ≡ some h
    → h'.cbs ≡ h.cbs
    → h'.fns ≡ h.fns
    → (own_cbs (set hs i h') ≡ own_cbs hs) × (own_fns (set hs i h') ≡ own_fns hs)
own_same [] i h h' e p q = cc
own_same (x ∷ hs) zero h h' e p q = ground (arith, e, p, q)
own_same (x ∷ hs) (suc i) h h' e p q =
    (ap (◌++◌ (x.cbs)) (own_same hs i h h' e p q).0, ap (◌++◌ (x.fns)) (own_same hs i h h' e p q).1)
