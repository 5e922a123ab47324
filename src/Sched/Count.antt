-- ===== src/Sched/Count.antt =====
-- SocketScheduler.h: `mNumRecvs` beside the receives that wait in all forks.
pub mod Steps
pub mod Run
use mathlib.Core.Path.{subst}
use coproto.Prelude.{
  ℕ, zero, suc, ◌+◌, ◌-◌, ◌≡◌, refl, sym, ap, ◌∙◌, ◌⊎◌, inl, inr, Bool, true, false, Option, none,
  some, List, [], ◌∷◌, ◌++◌, arith, ◌==◌, if◌then◌else◌, ◌>>=◌, length, get_elem?, set,
  length-append, Bool-cases, Option-cases, ==→ne,
}
use coproto.ErrorCode.{ErrorCode, fails}
use coproto.Sched.State.{RecvOp, SocketFork, Caller, Sched, set_fork}
use coproto.Sched.Cancel.{cancel, close_sender, close_recver, first_error, clear_forks}

-- What holds of a result, if there is one.
abbrev pub Every {ℓ} : {A : Type ℓ} → (A → Type 0) → Option A → Type 0
Every P none = Unit {0}
Every P (some a) = P a

pub Every-bind {ℓ κ} :
    {A : Type ℓ} {B : Type κ} (P : B → Type 0) (o : Option A) (k : A → Option B)
    → ((a : A) → o ≡ some a → Every P (k a))
    → Every P (o >>= k)
Every-bind P none k h = tt
Every-bind P (some a) k h = h a refl

pub Every-if {ℓ} :
    {A : Type ℓ} (P : A → Type 0) (b : Bool) (x y : Option A)
    → (b ≡ true → Every P x)
    → (b ≡ false → Every P y)
    → Every P (if b then x else y)
Every-if P true x y h k = h refl
Every-if P false x y h k = k refl

pub Every-some {ℓ} :
    {A : Type ℓ} (P : A → Type 0) (o : Option A) (a : A) → Every P o → o ≡ some a → P a
Every-some P none a h e = cc
Every-some P (some b) a h e = subst (Every P) e h

abbrev pub total : List SocketFork → ℕ
total [] = 0
total (f ∷ fs) = length f.recv_ops + total fs

abbrev pub CountOk : Sched → Type 0
CountOk s = s.num_recvs ≡ total s.forks

pub total-set :
    (fs : List SocketFork) (i : ℕ) (f f' : SocketFork)
    → get_elem? fs i ≡ some f
    → total (set fs i f') + length f.recv_ops ≡ total fs + length f'.recv_ops
total-set [] i f f' e = cc
total-set (g ∷ fs) zero f f' e =
    let h : length g.recv_ops ≡ length f.recv_ops =
      ap (λ (o : Option SocketFork). elim o [ none ↦ 0 | some x ↦ length x.recv_ops ]) e in
    omega arith
total-set (g ∷ fs) (suc i) f f' e = omega (arith, total-set fs i f f' e)

pub total-append :
    (fs : List SocketFork) (f : SocketFork) → total (fs ++ (f ∷ [])) ≡ total fs + length f.recv_ops
total-append [] f = omega arith
total-append (g ∷ fs) f = omega (arith, total-append fs f)

total-clear_forks : (fs : List SocketFork) → total (clear_forks fs) ≡ 0
unfolding clear_forks
total-clear_forks [] = refl
total-clear_forks (f ∷ fs) = omega (arith, total-clear_forks fs)

-- A fork is replaced by one with as many receives.
pub set_fork-CountOk :
    (s : Sched) (i : ℕ) (f f' : SocketFork)
    → CountOk s
    → get_elem? s.forks i ≡ some f
    → length f'.recv_ops ≡ length f.recv_ops
    → CountOk (set_fork s i f')
set_fork-CountOk s i f f' v e h = omega (arith, total-set s.forks i f f' e)

pub cancel-CountOk :
    (c : Caller) (e : ErrorCode) (s : Sched) → CountOk s → Every CountOk (cancel c e s)
unfolding cancel close_recver close_sender first_error
cancel-CountOk Caller.sender e s v =
    Every-if CountOk (fails s.ec) _ _ (λ _. v)
      (λ _. Every-if CountOk (fails e) _ _ (λ _. v) (λ _. tt))
cancel-CountOk Caller.recver e s v =
    Every-if CountOk (fails s.ec) _ _ (λ _. sym (total-clear_forks s.forks))
      (λ _. Every-if CountOk (fails e) _ _ (λ _. sym (total-clear_forks s.forks)) (λ _. tt))
cancel-CountOk Caller.extern e s v =
    Every-if CountOk (fails s.ec) _ _ (λ _. v)
      (λ _. Every-if CountOk (fails e) _ _ (λ _. v) (λ _. tt))
