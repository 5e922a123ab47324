-- ===== src/Queue/Refine.antt =====
-- Queue.h as a first-in-first-out list: what the chain of blocks holds, the invariant, and
-- `push_back`, `front` and `pop_front` against that list.
use native.Mathlib.Decide.{dec_lt}
use native.Mathlib.Nat.{pow-suc}
use coproto.Prelude.{
  ℕ, suc, ◌*◌, ◌%◌, ◌^◌, ◌≤◌, ◌<◌, ◌≡◌, refl, sym, ap, ◌∙◌, ◌⊎◌, inl, inr, Option, none, some, List,
  [], ◌∷◌, ◌++◌, arith, ◌==◌, length, length-append, append-nil, append_assoc, Bool-cases, ==→eq,
  ==→ne,
}
use coproto.Prelude.Word.{u64_mod, pow-pos}
use coproto.Queue.Window.{inc64, dec64}
use coproto.Queue.{
  Block, Queue, new_block, occupied, capacity, vacant, put, push_chain, empty_queue, push_back,
  front_entry, front, drain, reset_front, pop_front,
}
use coproto.Queue.Blocks.{
  IsBlock, block_items, capacity-pow, vacant-add-occupied, new_block-IsBlock, occupied-put,
  put-IsBlock, items-put, put-HasFront,
}
use coproto.Queue.Chain.{
  chain_items, items, IsTail, IsChain, last_capacity, IsQueue, items_of_empty, chain_front,
  pop-IsChain,
}

occupied-new_block {ℓ} : (A : Type ℓ) (n : ℕ) → occupied (new_block {A = A} n) ≡ 0
unfolding occupied new_block
occupied-new_block A n = refl

module _ {ℓ} {A : Type ℓ} where
  abbrev head? : List A → Option A
  head? [] = none
  head? (x ∷ xs) = some x

  front_chain :
      (size : ℕ) (chain : List (Block A))
      → IsChain chain
      → size ≡ length (chain_items chain)
      → front (record { size = size; chain = chain }) ≡ head? (chain_items chain)
  unfolding front front_entry
  front_chain size (b ∷ r) v e = elim (chain_front b r v) [
    | inl (z, o) ↦ ground (arith, ap length z, ap head? z)
    | inr f ↦ ground (arith, ap length (pop-IsChain b r v f).1, ap head? (pop-IsChain b r v f).1)
  ]
  front_chain size [] v e = absurd v

  -- `front` is the oldest value, and fails on the empty queue only.
  pub front_lem : (q : Queue A) → IsQueue q → front q ≡ head? (items q)
  front_lem q v = front_chain q.size q.chain v.chained v.sized

  pop_queue :
      (size : ℕ) (chain : List (Block A)) (x : A) (xs : List A)
      → IsQueue (record { size = size; chain = chain })
      → chain_items chain ≡ x ∷ xs
      → (q : Queue A) × (pop_front (record { size = size; chain = chain }) ≡ some q)
        × (items q ≡ xs)
        × IsQueue q
  unfolding pop_front
  pop_queue size [] x xs v e = absurd v.chained
  pop_queue size (b ∷ r) x xs v e = elim (chain_front b r v.chained) [
    | inl (z, o) ↦ absurd (ground (arith, sym e ∙ z))
    | inr f ↦
        let p = pop-IsChain b r v.chained f in
        let after : Queue A = record { size = dec64 size; chain = drain (reset_front (b ∷ r)) } in
        (
          after,
          rw (front_chain size (b ∷ r) v.chained v.sized, e),
          ground (arith, sym e ∙ p.1),
          record {
            chained = p.0;
            sized = omega (arith, v.sized, v.bound, ap length p.1);
            bound = omega arith;
          },
        )
  ]

  -- `pop_front` takes the oldest value away and keeps the invariant; on the empty queue it fails.
  pub pop_front_lem :
      (q : Queue A)
      → IsQueue q
      → ((items q ≡ []) × (pop_front q ≡ none))
        ⊎ ((x : A) × (q' : Queue A) × (pop_front q ≡ some q')
            × (items q ≡ x ∷ items q')
            × IsQueue q')
  pop_front_lem q v = by_items (items q) refl
    where
      by_items :
          (xs : List A)
          → items q ≡ xs
          → ((items q ≡ []) × (pop_front q ≡ none))
            ⊎ ((x : A) × (q' : Queue A) × (pop_front q ≡ some q')
                × (items q ≡ x ∷ items q')
                × IsQueue q')
      by_items [] e = inl (e, unfold pop_front in rw (front_lem q v, e))
      by_items (x ∷ xs) e =
          let p = pop_queue q.size q.chain x xs v e in
          inr (x, p.0, p.1, e ∙ ap (◌∷◌ x) (sym p.2), p.3)

  -- The block that `push_back` allocates, with its first value.
  fresh : Block A → A → Block A
  fresh b a = put (new_block (2 * capacity b % u64_mod)) a

  fresh_lem :
      (b : Block A) (a : A)
      → IsBlock b
      → capacity b < 2 ^ 63
      → IsBlock (fresh b a) × (0 < occupied (fresh b a)) × (block_items (fresh b a) ≡ a ∷ [])
  unfolding fresh
  fresh_lem b a v room = rw doubled (
    put-IsBlock a w gap,
    omega (arith, occupied-put a w gap),
    rw (items-put a w gap)
        (ap (λ xs. xs ++ (a ∷ [])) (items_of_empty _ (occupied-new_block A (2 ^ suc v.k)))),
  )
    where
      grows : suc v.k ≤ 63
      grows = elim (dec_lt v.k 63) [
        | yes p ↦ p
        | no n ↦
            let top : v.k ≡ 63 = omega arith in
            absurd (omega (arith, capacity-pow v, ap (λ k. 2 ^ k) top))
      ]

      doubled : 2 * capacity b % u64_mod ≡ 2 ^ suc v.k
      doubled = omega (arith, capacity-pow v, pow-suc 2 v.k)

      w : IsBlock (new_block {A = A} (2 ^ suc v.k))
      w = new_block-IsBlock (suc v.k) grows

      gap : occupied (new_block {A = A} (2 ^ suc v.k)) < 2 ^ w.k
      gap = omega (arith, occupied-new_block A (2 ^ suc v.k), pow-pos w.k)

  -- At the last block: it has room, or it is full and gets a successor.
  last_cases :
      (b : Block A) (a : A)
      → (v : IsBlock b) → capacity b < 2 ^ 63
      → ((occupied b < 2 ^ v.k) × (push_chain (b ∷ []) a ≡ some (put b a ∷ [])))
        ⊎ ((0 < occupied b) × (push_chain (b ∷ []) a ≡ some (b ∷ fresh b a ∷ [])))
  unfolding push_chain fresh
  last_cases b a v room = elim (Bool-cases (vacant b == 0)) [
    | inl full ↦ inr (omega (arith, ==→eq _ 0 full, vacant-add-occupied v, pow-pos v.k), rw full)
    | inr free ↦ inl (omega (arith, ==→ne _ 0 free, vacant-add-occupied v), rw free)
  ]

  push-IsTail :
      (c : Block A) (r : List (Block A)) (a : A)
      → IsTail (c ∷ r)
      → last_capacity (c ∷ r) < 2 ^ 63
      → (d : Block A) × (s : List (Block A)) × (push_chain (c ∷ r) a ≡ some (d ∷ s))
        × IsTail (d ∷ s)
        × (chain_items (d ∷ s) ≡ chain_items (c ∷ r) ++ (a ∷ []))
  unfolding push_chain
  push-IsTail c [] a (v, p, t) room = elim (last_cases c a v room) [
    | inl (gap, e) ↦ (
      put c a,
      [],
      e,
      (put-IsBlock a v gap, omega (arith, occupied-put a v gap), tt),
      append-nil (block_items (put c a))
          ∙ items-put a v gap
          ∙ ap (λ xs. xs ++ (a ∷ [])) (sym (append-nil (block_items c))),
    )
    | inr (full, e) ↦
        let f = fresh_lem c a v room in
        (
          c,
          fresh c a ∷ [],
          e,
          (v, p, (f.0, f.1, tt)),
          ap (λ xs. block_items c ++ (xs ++ [])) f.2
              ∙ ap (λ xs. xs ++ (a ∷ [])) (sym (append-nil (block_items c))),
        )
  ]
  push-IsTail c (d ∷ r) a (v, p, t) room =
      let ih = push-IsTail d r a t room in
      (
        c,
        ih.0 ∷ ih.1,
        rw ih.2,
        (v, p, ih.3),
        ap (λ xs. block_items c ++ xs) ih.4
            ∙ sym (append_assoc (block_items c) (chain_items (d ∷ r)) (a ∷ [])),
      )

  push_queue :
      (b : Block A) (r : List (Block A)) (a : A)
      → IsChain (b ∷ r)
      → last_capacity (b ∷ r) < 2 ^ 63
      → (chain : List (Block A)) × (push_chain (b ∷ r) a ≡ some chain)
        × IsChain chain
        × (chain_items chain ≡ chain_items (b ∷ r) ++ (a ∷ []))
  unfolding push_chain
  push_queue b [] a (v, h, l, t) room = elim (last_cases b a v room) [
    | inl (gap, e) ↦ (
      put b a ∷ [],
      e,
      (put-IsBlock a v gap, put-HasFront a v gap h, tt, tt),
      append-nil (block_items (put b a))
          ∙ items-put a v gap
          ∙ ap (λ xs. xs ++ (a ∷ [])) (sym (append-nil (block_items b))),
    )
    | inr (full, e) ↦
        let f = fresh_lem b a v room in
        (
          b ∷ fresh b a ∷ [],
          e,
          (v, h, full, (f.0, f.1, tt)),
          ap (λ xs. block_items b ++ (xs ++ [])) f.2
              ∙ ap (λ xs. xs ++ (a ∷ [])) (sym (append-nil (block_items b))),
        )
  ]
  push_queue b (c ∷ r) a (v, h, l, t) room =
      let ih = push-IsTail c r a t room in
      (
        b ∷ ih.0 ∷ ih.1,
        rw ih.2,
        (v, h, l, ih.3),
        ap (λ xs. block_items b ++ xs) ih.4
            ∙ sym (append_assoc (block_items b) (chain_items (c ∷ r)) (a ∷ [])),
      )

  push_sized :
      (size : ℕ) (chain : List (Block A)) (a : A)
      → IsQueue (record { size = size; chain = chain })
      → last_capacity chain < 2 ^ 63
      → suc size < u64_mod
      → (q : Queue A) × (push_back (record { size = size; chain = chain }) a ≡ some q)
        × (items q ≡ chain_items chain ++ (a ∷ []))
        × IsQueue q
  unfolding push_back
  push_sized size [] a v room small = absurd v.chained
  push_sized size (b ∷ r) a v room small =
      let p = push_queue b r a v.chained room in
      (
        record { size = inc64 size; chain = p.0 },
        rw p.1,
        p.3,
        record {
          chained = p.2;
          sized =
              omega (arith, v.sized, ap length p.3, length-append (chain_items (b ∷ r)) (a ∷ []));
          bound = omega arith;
        },
      )

  -- `push_back` adds its value behind the others and keeps the invariant, as long as the last block
  -- can still double and the count does not wrap.
  pub push_back_lem :
      (q : Queue A) (a : A)
      → IsQueue q
      → last_capacity q.chain < 2 ^ 63
      → suc q.size < u64_mod
      → (q' : Queue A) × (push_back q a ≡ some q') × (items q' ≡ items q ++ (a ∷ [])) × IsQueue q'
  push_back_lem q a v room small = push_sized q.size q.chain a v room small

  pub empty_queue-IsQueue : IsQueue (empty_queue {A = A})
  unfolding empty_queue occupied
  empty_queue-IsQueue = record {
    chained = (new_block-IsBlock 3 (omega arith), inl refl, tt, tt);
    sized = refl;
    bound = omega arith;
  }
