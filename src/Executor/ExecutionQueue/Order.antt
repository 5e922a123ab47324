-- ===== src/Executor/ExecutionQueue/Order.antt =====
-- Executor.h, `ExecutionQueue`: who runs the callbacks, and in which order.
use mathlib.Core.Path.{subst}
use coproto.Prelude.{
  ℕ, ◌+◌, ◌≡◌, refl, sym, ap, ◌∙◌, ◌⊎◌, inl, inr, true, false, not, none, some, List, [], ◌∷◌, ◌++◌,
  arith, append-nil, append_assoc, length, get_elem?, set, Option-cases, get_elem?-append_last,
  get_elem?-set_cases,
}
use coproto.Executor.ExecutionQueue.{Stage, Handle, ExecutionQueue, set_handle, acquire, holder}
use coproto.Executor.ExecutionQueue.Handles.{
  one_if, runners, HandleOk, AllOk, own_cbs, own_fns, count_next, kept, AllOk-get, AllOk-set,
  AllOk-append, runners-set, runners-append, kept-set, kept-append, own_set, own_same, own-append,
  runner_there,
}

pub record Inv (q : ExecutionQueue) : Type 0 where
  pub all_ok : AllOk q.handles
  pub one_runner : runners q.handles ≡ one_if q.has_runner
  pub idle : (q.has_runner ≡ true) ⊎ ((q.cbs ≡ []) × (q.fns ≡ []) × (q.mutex ≡ none))
  pub order : q.taken ++ (own_cbs q.handles ++ q.cbs) ≡ q.queued
  pub order_fns : q.called_fns ++ (own_fns q.handles ++ q.fns) ≡ q.queued_fns
  pub counted : length q.taken ≡ length q.resumed + kept q.handles
  pub alone :
      (i : ℕ) (h : Handle)
      → q.mutex ≡ some i
      → get_elem? q.handles i ≡ some h
      → (h.acquired ≡ false) ⊎ ((q.cbs ≡ []) × (q.fns ≡ []))

-- The mutex's holder, where a handle is replaced by one that holds the queue as it did.
alone-set :
    (q : ExecutionQueue) (i : ℕ) (h h' : Handle)
    → Inv q
    → get_elem? q.handles i ≡ some h
    → h'.acquired ≡ h.acquired
    → (j : ℕ) (g : Handle) → q.mutex ≡ some j
    → get_elem? (set q.handles i h') j ≡ some g
    → (g.acquired ≡ false) ⊎ ((q.cbs ≡ []) × (q.fns ≡ []))
alone-set q i h h' v e a j g m f = elim (get_elem?-set_cases q.handles i j h' f) [
  | inl (p, w) ↦ elim (v.alone j h m (ap (get_elem? q.handles) (sym p) ∙ e)) [
    | inl x ↦ inl (ap (λ (h : Handle). h.acquired) (sym w) ∙ a ∙ x)
    | inr x ↦ inr x
  ]
  | inr (_, w) ↦ v.alone j g m w
]

HandleOk-same :
    (h h' : Handle)
    → HandleOk h
    → h'.acquired ≡ h.acquired
    → h'.cbs ≡ h.cbs
    → h'.fns ≡ h.fns
    → HandleOk h'
HandleOk-same h h' v a p q = ground (arith, v, a, p, q)

-- A handle is replaced by one with the same queues, and its last callback is resumed or stays.
pub same-Inv :
    (q : ExecutionQueue) (i : ℕ) (h h' : Handle) (r : List ℕ)
    → Inv q
    → get_elem? q.handles i ≡ some h
    → h'.acquired ≡ h.acquired
    → h'.cbs ≡ h.cbs
    → h'.fns ≡ h.fns
    → length r + count_next h'.next ≡ length q.resumed + count_next h.next
    → Inv (record (set_handle q i h') { resumed = r })
same-Inv q i h h' r v e a p w n =
    let o = own_same q.handles i h h' e p w in
    record {
      all_ok =
          AllOk-set q.handles i h' v.all_ok
            (HandleOk-same h h' (AllOk-get q.handles i h v.all_ok e) a p w);
      one_runner = omega (arith, runners-set q.handles i h h' e, ap one_if a, v.one_runner);
      idle = v.idle;
      order = ap (λ o. q.taken ++ (o ++ q.cbs)) o.0 ∙ v.order;
      order_fns = ap (λ o. q.called_fns ++ (o ++ q.fns)) o.1 ∙ v.order_fns;
      counted = omega (arith, kept-set q.handles i h h' e, n, v.counted);
      alone = alone-set q i h h' v e a;
    }

-- Behind the critical section.
pub free-Inv :
    (q : ExecutionQueue) → Inv q → (q.has_runner ≡ true) → Inv (record q { mutex = none })
free-Inv q v r = record {
  all_ok = v.all_ok;
  one_runner = v.one_runner;
  idle = inl r;
  order = v.order;
  order_fns = v.order_fns;
  counted = v.counted;
  alone = λ i h m e. cc;
}

pub held : (q : ExecutionQueue) (i : ℕ) → Inv q → q.mutex ≡ some i → q.has_runner ≡ true
held q i v m = ground (arith, v.idle, m)

pub holder-some :
    (q : ExecutionQueue) (i : ℕ) (h : Handle)
    → holder q i ≡ some h
    → (q.mutex ≡ some i) × (get_elem? q.handles i ≡ some h)
holder-some q i h e = ground (arith, e)

pub acquire-Inv : (q r : ExecutionQueue) → Inv q → acquire q ≡ some r → Inv r
unfolding acquire
acquire-Inv q r v e = elim (Option-cases q.mutex) [
  | inr (j, m) ↦ absurd (ground (arith, e, m))
  | inl m ↦
      let h : Handle = record {
        acquired = not q.has_runner;
        xcbs = [];
        cbs = [];
        fns = [];
        next = none;
        stage = Stage.locked;
      } in
      let t : ExecutionQueue = record q {
        has_runner = true;
        mutex = some (length q.handles);
        handles = q.handles ++ (h ∷ []);
      } in
      let o = own-append q.handles h refl refl in
      let w : Inv t = record {
        all_ok = AllOk-append q.handles h v.all_ok (ground arith);
        one_runner = ground (arith, runners-append q.handles h, v.one_runner);
        idle = inl refl;
        order = ap (λ o. q.taken ++ (o ++ q.cbs)) o.0 ∙ v.order;
        order_fns = ap (λ o. q.called_fns ++ (o ++ q.fns)) o.1 ∙ v.order_fns;
        counted = omega (arith, kept-append q.handles h, v.counted);
        alone = λ i g n f.
            let p : length q.handles ≡ i = cc in
            let k : some h ≡ some g =
              sym (get_elem?-append_last q.handles h)
              ∙ ap (get_elem? (q.handles ++ (h ∷ []))) p
              ∙ f in
            ground (arith, k, v.idle);
      } in
      subst Inv (ground (arith, e, m)) w
]

-- Queues in a row: one grows at its end, one gives its first away, and one is passed on.
pub snoc_own :
    (t o s q : List ℕ) (c : ℕ)
    → s ≡ []
    → t ++ (o ++ s) ≡ q
    → t ++ ((o ++ (c ∷ [])) ++ s) ≡ q ++ (c ∷ [])
snoc_own t o s q c e h =
    ap (λ s. t ++ ((o ++ (c ∷ [])) ++ s)) e
    ∙ ap (◌++◌ t) (append-nil (o ++ (c ∷ [])))
    ∙ sym (append_assoc t o (c ∷ []))
    ∙ ap (λ x. x ++ (c ∷ []))
        (ap (◌++◌ t) (sym (append-nil o)) ∙ ap (λ s. t ++ (o ++ s)) (sym e) ∙ h)

pub snoc_shared :
    (t o s q : List ℕ) (c : ℕ) → t ++ (o ++ s) ≡ q → t ++ (o ++ (s ++ (c ∷ []))) ≡ q ++ (c ∷ [])
snoc_shared t o s q c h =
    ap (◌++◌ t) (sym (append_assoc o s (c ∷ [])))
    ∙ sym (append_assoc t (o ++ s) (c ∷ []))
    ∙ ap (λ x. x ++ (c ∷ [])) h

-- The handle that has acquired the queue changes what it holds.
module _ (q : ExecutionQueue) (i : ℕ) (h : Handle) (v : Inv q) (at : get_elem? q.handles i ≡ some h)
    (a : h.acquired ≡ true) where
  pub has_runner : q.has_runner ≡ true
  has_runner = ground (arith, v.one_runner, runner_there q.handles i h at a)

  pub one : runners q.handles ≡ 1
  one = v.one_runner ∙ ap one_if has_runner

  pub own_order :
      (q.taken ++ (h.cbs ++ q.cbs) ≡ q.queued) × (q.called_fns ++ (h.fns ++ q.fns) ≡ q.queued_fns)
  own_order =
      let o = own_set q.handles i h h v.all_ok one at a in
      (
        ap (λ o. q.taken ++ (o ++ q.cbs)) (sym o.2) ∙ v.order,
        ap (λ o. q.called_fns ++ (o ++ q.fns)) (sym o.3) ∙ v.order_fns,
      )

  pub changed-Inv :
      (h' : Handle) (cs fs qd tk qf cf rs : List ℕ)
      → h'.acquired ≡ true
      → tk ++ (h'.cbs ++ cs) ≡ qd
      → cf ++ (h'.fns ++ fs) ≡ qf
      → length tk + length q.resumed + count_next h.next
        ≡ length rs + count_next h'.next + length q.taken
      → (q.mutex ≡ none) ⊎ ((cs ≡ q.cbs) × (fs ≡ q.fns))
      → Inv (record (set_handle q i h') {
        cbs = cs;
        fns = fs;
        queued = qd;
        taken = tk;
        queued_fns = qf;
        called_fns = cf;
        resumed = rs;
      })
  changed-Inv h' cs fs qd tk qf cf rs a' p w n m =
      let o = own_set q.handles i h h' v.all_ok one at a in
      record {
        all_ok = AllOk-set q.handles i h' v.all_ok (ground (arith, a'));
        one_runner =
            omega (arith, runners-set q.handles i h h' at, ap one_if a, ap one_if a', v.one_runner);
        idle = inl has_runner;
        order = ap (λ o. tk ++ (o ++ cs)) o.0 ∙ p;
        order_fns = ap (λ o. cf ++ (o ++ fs)) o.1 ∙ w;
        counted = omega (arith, kept-set q.handles i h h' at, n, v.counted);
        alone = λ j g k f. elim m [
          | inl z ↦ absurd (ground (arith, z, k))
          | inr (y, z) ↦ elim (alone-set q i h h' v at (a' ∙ sym a) j g k f) [
            | inl x ↦ inl x
            | inr (x, x') ↦ inr (y ∙ x, z ∙ x')
          ]
        ];
      }

  -- What the holder of the mutex sees.
  pub alone_own : q.mutex ≡ some i → (q.cbs ≡ []) × (q.fns ≡ [])
  alone_own m = elim (v.alone i h m at) [ inl x ↦ absurd (ground (arith, x, a)) | inr x ↦ x ]

-- The shared queues grow, pushed by a handle that has not acquired the queue.
pub shared-Inv :
    (q : ExecutionQueue) (i : ℕ) (h : Handle) (cs fs qd qf : List ℕ)
    → Inv q
    → q.mutex ≡ some i
    → get_elem? q.handles i ≡ some h
    → h.acquired ≡ false
    → q.taken ++ (own_cbs q.handles ++ cs) ≡ qd
    → q.called_fns ++ (own_fns q.handles ++ fs) ≡ qf
    → Inv (record q { cbs = cs; fns = fs; queued = qd; queued_fns = qf })
shared-Inv q i h cs fs qd qf v m at a p w = record {
  all_ok = v.all_ok;
  one_runner = v.one_runner;
  idle = inl (held q i v m);
  order = p;
  order_fns = w;
  counted = v.counted;
  alone = λ j g k f. inl (ground (arith, m, k, f, at, a));
}
