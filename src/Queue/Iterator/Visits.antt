-- ===== src/Queue/Iterator/Visits.antt =====
-- Queue.h, `Iterator`: a loop over the queue, against the values that its blocks hold.
use mathlib.Core.Path.{subst}
use coproto.Prelude.{
  ℕ, zero, suc, ◌+◌, ◌-◌, ◌≤◌, ◌<◌, ◌≡◌, refl, sym, ap, ◌∙◌, ◌⊎◌, inl, inr, true, false, not,
  Option, none, some, List, [], ◌∷◌, ◌++◌, arith, is_some, ◌>>=◌, length, Option-cases,
}
use coproto.Queue.{Block, Queue, entry, is_valid}
use coproto.Queue.Window.{inc64, window, ◌+?◌}
use coproto.Queue.Chain.{chain_items, items, IsChain, IsQueue, chain_front}
use coproto.Queue.Iterator.{Iterator, null, at, next_block, is_hole, increment, deref, begin, visit}
use coproto.Queue.Iterator.Standing.{
  inc64_same, Flat, occupied_all, Standing, count, behind, Settled, occupied-Flat, standing,
  next_block-Settled,
}

module _ {ℓ} {A : Type ℓ} where
  -- The iterator stands at a value, in front of `xs`, or there is none left.
  Stops : Iterator A → List A → ℕ → Type ℓ
  Stops it xs ticks =
      ((it ≡ null) × (xs ≡ []))
      ⊎ ((s : Standing it xs) × (count it xs s ≤ ticks)
          × (a : A) × (entry s.block it.index ≡ some a))

  settles :
      (it : Iterator A) (xs : List A) (s : Standing it xs) (ticks : ℕ)
      → count it xs s ≤ suc ticks
      → Settled (next_block it.block (inc64 it.index)) (behind it xs s) ticks
  settles it xs s ticks k =
      subst
        (λ (j : Iterator A). Settled (next_block j.block (inc64 it.index)) (behind it xs s) ticks)
        (sym s.place)
        (subst (λ i. Settled (next_block (s.block ∷ s.rest) i) (behind it xs s) ticks)
          (sym (inc64_same it.index (omega (arith, s.ends, s.end_lt))))
          (next_block-Settled s.block s.rest (it.index + 1) s.left ticks s.flat
            (omega (arith, s.above)) (omega (arith, s.ends)) s.end_lt (omega arith)))

  increment_value :
      (n : ℕ) (it : Iterator A)
      → is_hole (next_block it.block (inc64 it.index)) ≡ false
      → increment (suc n) it ≡ some (next_block it.block (inc64 it.index))
  unfolding increment
  increment_value n it h = rw h refl

  increment_hole :
      (n : ℕ) (it : Iterator A)
      → is_hole (next_block it.block (inc64 it.index)) ≡ true
      → increment (suc n) it ≡ increment n (next_block it.block (inc64 it.index))
  unfolding increment
  increment_hole n it h = rw h refl

  is_hole-at :
      (b : Block A) (r : List (Block A)) (i : ℕ) (o : Option A)
      → entry b i ≡ o
      → is_hole (at (b ∷ r) i) ≡ not (is_some o)
  is_hole-at b r i o h = rw h refl

  -- One step from an occupied entry, value or hole, to the next value.
  increment-Stops :
      (n ticks : ℕ) (it : Iterator A) (xs : List A) (s : Standing it xs)
      → count it xs s ≤ suc ticks
      → ticks < n
      → (it' : Iterator A) × (increment n it ≡ some it') × Stops it' (behind it xs s) ticks
  unfolding Stops Settled
  increment-Stops zero ticks it xs s c k = absurd (omega arith)
  increment-Stops (suc n) ticks it xs s c k =
      let it' = next_block it.block (inc64 it.index) in
      elim (settles it xs s ticks c) [
        | inl (e, z) ↦ (it', increment_value n it (ap is_hole e), inl (e, z))
        | inr (s', c') ↦ elim (Option-cases (entry s'.block it'.index)) [
          | inl h ↦
              let (j, e, st) =
                increment-Stops n (ticks - 1) it' (behind it xs s) s' (omega arith) (omega arith) in
              let same : behind it xs s ≡ behind it' (behind it xs s) s' =
                s'.holds ∙ ap (λ o. o +? behind it' (behind it xs s) s') h in
              (
                j,
                increment_hole n it
                      (ap is_hole s'.place ∙ is_hole-at s'.block s'.rest it'.index none h)
                    ∙ e,
                subst (λ ys. Stops j ys ticks) (sym same)
                    (looser j _ (ticks - 1) ticks (omega arith) st),
              )
          | inr (a, h) ↦ (
            it',
            increment_value n it
                (ap is_hole s'.place ∙ is_hole-at s'.block s'.rest it'.index (some a) h),
            inr (s', c', a, h),
          )
        ]
      ]
    where
      looser : (j : Iterator A) (ys : List A) (m l : ℕ) → m ≤ l → Stops j ys m → Stops j ys l
      looser j ys m l p (inl e) = inl e
      looser j ys m l p (inr (s, c, a, h)) = inr (s, omega arith, a, h)

  visit_value :
      (n : ℕ) (b : Block A) (r : List (Block A)) (i : ℕ) (a : A)
      → deref (at (b ∷ r) i) ≡ some a
      → visit (suc n) (at (b ∷ r) i)
        ≡ (increment n (at (b ∷ r) i) >>= λ it'. visit n it' >>= λ xs. some (a ∷ xs))
  unfolding visit
  visit_value n b r i a d = rw d refl

  deref_value :
      (b : Block A) (r : List (Block A)) (i : ℕ) (a : A)
      → b.begin ≤ i
      → entry b i ≡ some a
      → deref (at (b ∷ r) i) ≡ some a
  unfolding deref is_valid
  deref_value b r i a p h = ground (arith, h)

  visit-Stops :
      (n ticks : ℕ) (it : Iterator A) (xs : List A)
      → Stops it xs ticks
      → ticks < n
      → visit n it ≡ some xs
  unfolding Stops visit
  visit-Stops zero ticks it xs st k = absurd (omega arith)
  visit-Stops (suc n) ticks it xs (inl (e, z)) k = ap (visit (suc n)) e ∙ ap some (sym z)
  visit-Stops (suc n) ticks it xs (inr (s, c, a, h)) k =
      let (it', e, st) = increment-Stops n (ticks - 1) it xs s (omega arith) (omega arith) in
      ap (visit (suc n)) s.place
      ∙ visit_value n s.block s.rest it.index a (deref_value s.block s.rest it.index a s.above h)
      ∙ ap (λ o. o >>= λ j. visit n j >>= λ ys. some (a ∷ ys)) (ap (increment n) (sym s.place) ∙ e)
      ∙ ap (λ o. o >>= λ ys. some (a ∷ ys))
          (visit-Stops n (ticks - 1) it' (behind it xs s) st (omega arith))
      ∙ ap some (sym (s.holds ∙ ap (λ o. o +? behind it xs s) h))

  begin_empty : (q : Queue A) → q.size ≡ 0 → begin q ≡ some null
  unfolding begin
  begin_empty q z = rw z refl

  begin_at :
      (q : Queue A) (b : Block A) (r : List (Block A)) (a : A)
      → 0 < q.size
      → q.chain ≡ b ∷ r
      → entry b b.begin ≡ some a
      → begin q ≡ some (at (b ∷ r) b.begin)
  unfolding begin is_valid
  begin_at q b r a p e h = ground (arith, e, h)

  -- In a queue whose indices have not wrapped, `begin` succeeds, and a loop from there to `end` sees the
  -- values of the queue, oldest first, with no hole. Fuel of one more than the occupied entries is
  -- enough.
  pub visit-begin :
      (q : Queue A)
      → IsQueue q
      → Flat q.chain
      → (it : Iterator A) × (begin q ≡ some it)
        × (visit (suc (occupied_all q.chain)) it ≡ some (items q))
  unfolding Stops
  visit-begin q v t = by_chain q.chain refl v.chained t
    where
      Visits : List (Block A) → Type ℓ
      Visits bs =
          (it : Iterator A) × (begin q ≡ some it)
          × (visit (suc (occupied_all bs)) it ≡ some (chain_items bs))

      by_chain : (bs : List (Block A)) → q.chain ≡ bs → IsChain bs → Flat bs → Visits bs
      by_chain [] e c t = absurd c
      by_chain (b ∷ r) e c (x, y, t) = elim (chain_front b r c) [
        | inl (z, o) ↦ (
          null,
          begin_empty q (v.sized ∙ ap length (ap chain_items e ∙ z)),
          visit-Stops (suc (occupied_all (b ∷ r))) 0 null (chain_items (b ∷ r)) (inl (refl, z))
              (omega arith),
        )
        | inr f ↦
            let n : suc f.left ≡ b.end - b.begin = sym f.count ∙ occupied-Flat b x y in
            let w : window b.slots b.size_mask b.begin (suc f.left) ++ chain_items r
                ≡ chain_items (b ∷ r) =
              ap (λ n. window b.slots b.size_mask b.begin n ++ chain_items r) (sym f.count) in
            let len : length (items q)
                ≡ suc
                    (length (window b.slots b.size_mask (inc64 b.begin) f.left ++ chain_items r)) =
              ap length (
                ap chain_items e
                ∙ sym w
                ∙ ap
                    (λ o. (o +? window b.slots b.size_mask (inc64 b.begin) f.left) ++ chain_items r)
                    f.holds) in
            let s = standing b r b.begin f.left t (omega arith) (omega arith) y in
            (
              at (b ∷ r) b.begin,
              begin_at q b r f.first (omega (arith, v.sized, len)) e f.holds,
              visit-Stops (suc (occupied_all (b ∷ r))) (occupied_all (b ∷ r)) (at (b ∷ r) b.begin) _
                    (inr (s, omega arith, f.first, f.holds)) (omega arith)
                  ∙ ap some w,
            )
      ]
