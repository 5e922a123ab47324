-- ===== src/Executor/ExecutionQueue/Steps.antt =====
-- Executor.h, `ExecutionQueue`: the operations of the handles, one after another.
use mathlib.Core.Path.{subst}
use coproto.Prelude.{
  ℕ, ◌≡◌, refl, inl, inr, Option, none, some, List, [], ◌∷◌, ◌++◌, arith, ◌==◌, ◌>>=◌, length,
  get_elem?, Option-cases, Bool-cases,
}
use coproto.Executor.ExecutionQueue.{
  Stage, Handle, ExecutionQueue, set_handle, push_back, push_back_fn, unlock, queued_by, holder,
  push_ring, ring_capacity,
}
use coproto.Executor.ExecutionQueue.Handles.{own_cbs, own_fns}
use coproto.Executor.ExecutionQueue.Order.{
  Inv, same-Inv, free-Inv, held, holder-some, snoc_own, snoc_shared, own_order, changed-Inv,
  alone_own, shared-Inv,
}

-- What has been pushed was put at the end of a ring with room for it.
room :
    {A : Type 0} (xs : List A) (x : A) (f : List A → ExecutionQueue) (r : ExecutionQueue)
    → (push_ring xs x >>= λ ys. some (f ys)) ≡ some r
    → f (xs ++ (x ∷ [])) ≡ r
room xs x f r e = elim (Bool-cases (length xs == ring_capacity)) [
  | inl k ↦ absurd (ground (arith, e, k))
  | inr k ↦ ground (arith, e, k)
]

pub push_back-Inv :
    (i : ℕ) (ex : Option ℕ) (c : ℕ) (q r : ExecutionQueue)
    → Inv q
    → push_back i ex c q ≡ some r
    → Inv r
unfolding push_back
push_back-Inv i ex c q r v e = elim (Option-cases (holder q i)) [
  | inl n ↦ absurd (ground (arith, e, n))
  | inr (h, n) ↦ let at = holder-some q i h n in by_kind h at.0 at.1 ex (rw n at e)
]
  where
    by_kind :
        (h : Handle)
        → q.mutex ≡ some i
        → get_elem? q.handles i ≡ some h
        → (ex : Option ℕ) → queued_by q i h ex c ≡ some r
        → Inv r
    by_kind h m at (some x) p =
        let h' : Handle = record h { xcbs = h.xcbs ++ ((x, c) ∷ []) } in
        subst Inv (room h.xcbs (x, c) (λ xs. set_handle q i (record h { xcbs = xs })) r p)
          (same-Inv q i h h' q.resumed v at refl refl refl refl)
    by_kind h m at none p = elim (Bool-cases h.acquired) [
      | inl a ↦
          let o = own_order q i h v at a in
          let h' : Handle = record h { cbs = h.cbs ++ (c ∷ []) } in
          let k =
            room h.cbs c
              (λ cs. record (set_handle q i (record h { cbs = cs })) {
                queued = q.queued ++ (c ∷ []);
              })
              r (ground (arith, p, a)) in
          subst Inv k (
            changed-Inv q i h v at a h' q.cbs q.fns (q.queued ++ (c ∷ [])) q.taken q.queued_fns
              q.called_fns q.resumed a
              (snoc_own q.taken h.cbs q.cbs q.queued c (alone_own q i h v at a m).0 o.0) o.1
              (omega arith) (inr (refl, refl)))
      | inr a ↦
          let k =
            room q.cbs c (λ cs. record q { cbs = cs; queued = q.queued ++ (c ∷ []) }) r
              (ground (arith, p, a)) in
          subst Inv k (
            shared-Inv q i h (q.cbs ++ (c ∷ [])) q.fns (q.queued ++ (c ∷ [])) q.queued_fns v m at a
              (snoc_shared q.taken (own_cbs q.handles) q.cbs q.queued c v.order) v.order_fns)
    ]

pub push_back_fn-Inv :
    (i f : ℕ) (q r : ExecutionQueue) → Inv q → push_back_fn i f q ≡ some r → Inv r
unfolding push_back_fn
push_back_fn-Inv i f q r v e = elim (Option-cases (holder q i)) [
  | inl n ↦ absurd (ground (arith, e, n))
  | inr (h, n) ↦
      let at = holder-some q i h n in
      elim (Bool-cases h.acquired) [
        | inl a ↦
            let o = own_order q i h v at.1 a in
            let h' : Handle = record h { fns = h.fns ++ (f ∷ []) } in
            let k =
              room h.fns f
                (λ fs. record (set_handle q i (record h { fns = fs })) {
                  queued_fns = q.queued_fns ++ (f ∷ []);
                })
                r (ground (arith, e, n, a)) in
            subst Inv k (
              changed-Inv q i h v at.1 a h' q.cbs q.fns q.queued q.taken (q.queued_fns ++ (f ∷ []))
                q.called_fns q.resumed a o.0
                (snoc_own q.called_fns h.fns q.fns q.queued_fns f (alone_own q i h v at.1 a at.0).1
                  o.1)
                (omega arith) (inr (refl, refl)))
        | inr a ↦
            let k =
              room q.fns f (λ fs. record q { fns = fs; queued_fns = q.queued_fns ++ (f ∷ []) }) r
                (ground (arith, e, n, a)) in
            subst Inv k (
              shared-Inv q i h q.cbs (q.fns ++ (f ∷ [])) q.queued (q.queued_fns ++ (f ∷ [])) v at.0
                at.1 a v.order
                (snoc_shared q.called_fns (own_fns q.handles) q.fns q.queued_fns f v.order_fns))
      ]
]

pub unlock-Inv : (i : ℕ) (q r : ExecutionQueue) → Inv q → unlock i q ≡ some r → Inv r
unfolding unlock
unlock-Inv i q r v e = elim (Option-cases (holder q i)) [
  | inl n ↦ absurd (ground (arith, e, n))
  | inr (h, n) ↦
      let at = holder-some q i h n in
      let h' = record h { stage = Stage.running } in
      subst Inv (ground (arith, e, n)) (
        free-Inv (set_handle q i h') (same-Inv q i h h' q.resumed v at.1 refl refl refl refl)
          (held q i v at.0))
]
