-- ===== src/Sched/Flush/Counts.antt =====
-- SocketScheduler.cpp and SocketFork.h: how often the operations hold a flush token.
use mathlib.Core.Path.{subst}
use coproto.Prelude.{
  ℕ, zero, suc, ◌+◌, ◌≤◌, ◌<◌, ◌≡◌, ◌≢◌, refl, ap, inl, inr, Option, none, some, List, [], ◌∷◌,
  ◌++◌, arith, ◌==◌, if◌then◌else◌, length, get_elem?, set, remove_at, Bool-cases, ==→eq,
}
use coproto.Sched.Flush.{occurs, in_queue, use_count, pending, add_back, add_flush, released}

pub occurs-append : (t : ℕ) (xs ys : List ℕ) → occurs t (xs ++ ys) ≡ occurs t xs + occurs t ys
occurs-append t [] ys = omega arith
occurs-append t (x ∷ xs) ys = omega (arith, occurs-append t xs ys)

pub in_queue-append :
    (t : ℕ) (p q : List (List ℕ)) → in_queue t (p ++ q) ≡ in_queue t p + in_queue t q
in_queue-append t [] q = omega arith
in_queue-append t (op ∷ p) q = omega (arith, in_queue-append t p q)

pub use_count-append :
    (t : ℕ) (p q : List (List (List ℕ))) → use_count t (p ++ q) ≡ use_count t p + use_count t q
use_count-append t [] q = omega arith
use_count-append t (x ∷ p) q = omega (arith, use_count-append t p q)

pub in_queue-remove_at :
    (t : ℕ) (q : List (List ℕ)) (n : ℕ) (op : List ℕ)
    → get_elem? q n ≡ some op
    → in_queue t (remove_at n q) + occurs t op ≡ in_queue t q
in_queue-remove_at t [] n op e = cc
in_queue-remove_at t (o ∷ q) zero op e = ground (arith, e)
in_queue-remove_at t (o ∷ q) (suc n) op e = omega (arith, in_queue-remove_at t q n op e)

pub use_count-set :
    (t : ℕ) (qs : List (List (List ℕ))) (i : ℕ) (q r : List (List ℕ))
    → get_elem? qs i ≡ some q
    → use_count t (set qs i r) + in_queue t q ≡ use_count t qs + in_queue t r
use_count-set t [] i q r e = cc
use_count-set t (x ∷ qs) zero q r e = ground (arith, e)
use_count-set t (x ∷ qs) (suc i) q r e = omega (arith, use_count-set t qs i q r e)

-- A new token goes to every queue that is not empty, and no other token moves.
pub in_queue-add_back :
    (t u : ℕ) (q : List (List ℕ))
    → in_queue t (add_back u q)
      ≡ in_queue t q + (if t == u then (if length q == 0 then 0 else 1) else 0)
in_queue-add_back t u [] = ground arith
in_queue-add_back t u (op ∷ []) = ground (arith, occurs-append t op (u ∷ []))
in_queue-add_back t u (op ∷ o ∷ q) = ground (arith, in_queue-add_back t u (o ∷ q))

pub other-add_flush :
    (t u : ℕ) (qs : List (List (List ℕ))) → t ≢ u → use_count t (add_flush u qs) ≡ use_count t qs
other-add_flush t u [] ne = refl
other-add_flush t u (q ∷ qs) ne =
    ground (arith, ne, in_queue-add_back t u q, other-add_flush t u qs ne)

pub new-add_flush :
    (u : ℕ) (qs : List (List (List ℕ))) → 0 < pending qs → 0 < use_count u (add_flush u qs)
new-add_flush u [] lt = absurd (omega (arith, lt))
new-add_flush u (q ∷ qs) lt = elim (Bool-cases (length q == 0)) [
  | inl e ↦ ground (arith, e, in_queue-add_back u u q, new-add_flush u qs (ground (arith, e, lt)))
  | inr e ↦ ground (arith, e, in_queue-add_back u u q)
]

-- What is released occurs once if the operation held it and no other does.
pub occurs-released :
    (t : ℕ) (ts : List ℕ) (qs : List (List (List ℕ)))
    → occurs t (released ts qs) ≡ (if use_count t qs == 0 then occurs t ts else 0)
occurs-released t [] qs = ground arith
occurs-released t (u ∷ ts) qs = elim (Bool-cases (t == u)) [
  | inl e ↦ ground (arith, e, ap (λ x. use_count x qs) (==→eq t u e), occurs-released t ts qs)
  | inr e ↦ ground (arith, e, occurs-released t ts qs)
]

-- No operation holds the token twice.
abbrev pub OnceIn : ℕ → List (List ℕ) → Type 0
OnceIn t [] = Unit {0}
OnceIn t (op ∷ q) = (occurs t op ≤ 1) × OnceIn t q

abbrev pub Once : ℕ → List (List (List ℕ)) → Type 0
Once t [] = Unit {0}
Once t (q ∷ qs) = OnceIn t q × Once t qs

pub OnceIn-get :
    (t : ℕ) (q : List (List ℕ)) (n : ℕ) (op : List ℕ)
    → OnceIn t q
    → get_elem? q n ≡ some op
    → occurs t op ≤ 1
OnceIn-get t [] n op v e = cc
OnceIn-get t (o ∷ q) zero op v e = ground (arith, v, e)
OnceIn-get t (o ∷ q) (suc n) op v e = OnceIn-get t q n op v.1 e

pub OnceIn-remove_at : (t : ℕ) (q : List (List ℕ)) (n : ℕ) → OnceIn t q → OnceIn t (remove_at n q)
OnceIn-remove_at t [] n v = tt
OnceIn-remove_at t (o ∷ q) zero v = v.1
OnceIn-remove_at t (o ∷ q) (suc n) v = (v.0, OnceIn-remove_at t q n v.1)

pub OnceIn-snoc : (t : ℕ) (q : List (List ℕ)) → OnceIn t q → OnceIn t (q ++ ([] ∷ []))
OnceIn-snoc t [] v = (omega arith, tt)
OnceIn-snoc t (o ∷ q) v = (v.0, OnceIn-snoc t q v.1)

pub OnceIn-add_back :
    (t u : ℕ) (q : List (List ℕ))
    → OnceIn t q
    → (t ≡ u → in_queue t q ≡ 0)
    → OnceIn t (add_back u q)
OnceIn-add_back t u [] v z = tt
OnceIn-add_back t u (o ∷ []) v z = elim (Bool-cases (t == u)) [
  | inl e ↦ (ground (arith, v, e, z (==→eq t u e), occurs-append t o (u ∷ [])), tt)
  | inr e ↦ (ground (arith, v, e, occurs-append t o (u ∷ [])), tt)
]
OnceIn-add_back t u (o ∷ p ∷ q) v z =
    (v.0, OnceIn-add_back t u (p ∷ q) v.1 (λ e. omega (arith, z e)))

pub Once-get :
    (t : ℕ) (qs : List (List (List ℕ))) (i : ℕ) (q : List (List ℕ))
    → Once t qs
    → get_elem? qs i ≡ some q
    → OnceIn t q
Once-get t [] i q v e = cc
Once-get t (x ∷ qs) zero q v e =
    subst (λ (o : Option (List (List ℕ))). elim o [ none ↦ Unit {0} | some q ↦ OnceIn t q ]) e v.0
Once-get t (x ∷ qs) (suc i) q v e = Once-get t qs i q v.1 e

pub Once-set :
    (t : ℕ) (qs : List (List (List ℕ))) (i : ℕ) (r : List (List ℕ))
    → Once t qs
    → OnceIn t r
    → Once t (set qs i r)
Once-set t [] i r v w = tt
Once-set t (x ∷ qs) zero r v w = (w, v.1)
Once-set t (x ∷ qs) (suc i) r v w = (v.0, Once-set t qs i r v.1 w)

pub Once-append : (t : ℕ) (qs : List (List (List ℕ))) → Once t qs → Once t (qs ++ ([] ∷ [] ∷ []))
Once-append t [] v = (tt, (tt, tt))
Once-append t (x ∷ qs) v = (v.0, Once-append t qs v.1)

pub Once-add_flush :
    (t u : ℕ) (qs : List (List (List ℕ)))
    → Once t qs
    → (t ≡ u → use_count t qs ≡ 0)
    → Once t (add_flush u qs)
Once-add_flush t u [] v z = tt
Once-add_flush t u (q ∷ qs) v z = (
  OnceIn-add_back t u q v.0 (λ e. omega (arith, z e)),
  Once-add_flush t u qs v.1 (λ e. omega (arith, z e)),
)
