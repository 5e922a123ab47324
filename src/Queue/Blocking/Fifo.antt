-- ===== src/Queue/Blocking/Fifo.antt =====
-- Queue.h, `BlockingQueue`, against a list of the values, oldest first.
use mathlib.Core.List.{reverse, reverse-cons}
use coproto.Prelude.{
  ℕ, ◌≡◌, refl, sym, ap, ◌∙◌, inl, inr, Option-cases, Option, none, some, List, [], ◌∷◌, ◌++◌,
  arith, ◌>>=◌, length, length-append,
}
use coproto.Queue.Blocking.{back, pop_back, push, pop, try_pop, pop_with_size, clear}

pub data Op {ℓ} (A : Type ℓ) : Type ℓ where
  pushes : A → Op A
  pops try_pops pops_with_size clears : Op A

-- What a call returns.
pub data Reply {ℓ} (A : Type ℓ) : Type ℓ where
  done nothing : Reply A
  popped : A → Reply A
  popped_of : A → ℕ → Reply A

module _ {ℓ} {A : Type ℓ} where
  abbrev pub try_reply : Option A → Reply A
  try_reply none = nothing
  try_reply (some a) = popped a

  unfoldable pub step : Op A → List A → Option (Reply A × List A)
  unfolding push pop try_pop pop_with_size clear
  step (pushes a) q = some (done, push a q)
  step pops q = pop q >>= λ (a, q'). some (popped a, q')
  step try_pops q = some (try_reply ((try_pop q).0), (try_pop q).1)
  step pops_with_size q = pop_with_size q >>= λ (a, n, q'). some (popped_of a n, q')
  step clears q = some (done, clear q)

  -- The calls on a list that takes at its end and gives from its beginning.
  unfoldable pub fifo_step : Op A → List A → Option (Reply A × List A)
  fifo_step (pushes a) xs = some (done, xs ++ (a ∷ []))
  fifo_step pops [] = none
  fifo_step pops (x ∷ xs) = some (popped x, xs)
  fifo_step try_pops [] = some (nothing, [])
  fifo_step try_pops (x ∷ xs) = some (popped x, xs)
  fifo_step pops_with_size [] = none
  fifo_step pops_with_size (x ∷ xs) = some (popped_of x (length xs), xs)
  fifo_step clears xs = some (done, [])

  -- The replies to a sequence of calls, and the list behind them.
  unfoldable pub run :
      (Op A → List A → Option (Reply A × List A))
      → List (Op A)
      → List A
      → Option (List (Reply A) × List A)
  run f [] q = some ([], q)
  run f (op ∷ ops) q = f op q >>= λ (r, q'). run f ops q' >>= λ (rs, q''). some (r ∷ rs, q'')

  -- The values of the deque, oldest first.
  abbrev pub view {κ} : {B : Type κ} → Option (B × List A) → Option (B × List A)
  view none = none
  view (some (b, q)) = some (b, reverse q)

  length-reverse : (xs : List A) → length (reverse xs) ≡ length xs
  length-reverse [] = refl
  length-reverse (x ∷ xs) =
      ap length (reverse-cons x xs)
      ∙ length-append (reverse xs) (x ∷ [])
      ∙ omega (arith, length-reverse xs)

  -- The back is the oldest value.
  reverse-pop_back :
      (a : A) (r : List A)
      → (x : A) × (back (a ∷ r) ≡ some x) × (reverse (a ∷ r) ≡ x ∷ reverse (pop_back (a ∷ r)))
  reverse-pop_back a [] = (a, refl, refl)
  reverse-pop_back a (b ∷ r) =
      let (x, p, q) = reverse-pop_back b r in
      (
        x,
        p,
        reverse-cons a (b ∷ r)
            ∙ ap (λ xs. xs ++ (a ∷ [])) q
            ∙ ap (◌∷◌ x) (sym (reverse-cons a (pop_back (b ∷ r)))),
      )

  step-fifo_step : (op : Op A) (q : List A) → view (step op q) ≡ fifo_step op (reverse q)
  unfolding step fifo_step
  step-fifo_step (pushes a) q = ap (λ xs. some (done, xs)) (reverse-cons a q)
  step-fifo_step clears q = refl
  step-fifo_step pops [] = refl
  step-fifo_step try_pops [] = refl
  step-fifo_step pops_with_size [] = refl
  step-fifo_step pops (a ∷ r) = let (x, p, e) = reverse-pop_back a r in rw (p, e) refl
  step-fifo_step try_pops (a ∷ r) = let (x, p, e) = reverse-pop_back a r in rw (p, e) refl
  step-fifo_step pops_with_size (a ∷ r) =
      let (x, p, e) = reverse-pop_back a r in
      rw (p, e)
        (ap (λ n. some (popped_of x n, reverse (pop_back (a ∷ r))))
          (sym (length-reverse (pop_back (a ∷ r)))))

  -- Any sequence of calls on a blocking queue has the replies that the list of its values, oldest
  -- first, gives, waits where that one has no value, and leaves the same values.
  pub run-fifo_step :
      (ops : List (Op A)) (q : List A) → view (run step ops q) ≡ run fifo_step ops (reverse q)
  unfolding run
  run-fifo_step [] q = refl
  run-fifo_step (op ∷ ops) q = elim (Option-cases (step op q)) [
    | inl e ↦ rw (e, sym (step-fifo_step op q) ∙ ap view e) refl
    | inr ((r, q'), e) ↦ elim (Option-cases (run step ops q')) [
      | inl h ↦
          rw (e, h, sym (step-fifo_step op q) ∙ ap view e, sym (run-fifo_step ops q') ∙ ap view h)
            refl
      | inr ((rs, q''), h) ↦
          rw (e, h, sym (step-fifo_step op q) ∙ ap view e, sym (run-fifo_step ops q') ∙ ap view h)
            refl
    ]
  ]
