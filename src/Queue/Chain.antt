-- ===== src/Queue/Chain.antt =====
-- Queue.h: the chain of blocks, its invariant and the values in it, and what popping leaves.
use native.Mathlib.Decide.{dec_lt}
use coproto.Prelude.{
  ℕ, suc, ◌-◌, ◌<◌, ◌≡◌, refl, sym, ap, ◌∙◌, ◌⊎◌, inl, inr, true, Option, none, some, List, [], ◌∷◌,
  ◌++◌, arith, ◌==◌, length, is_some, Bool-cases, ==→eq, ==→ne, ne→==,
}
use coproto.Prelude.Word.{u64_mod}
use coproto.Queue.Window.{window}
use coproto.Queue.{Block, Queue, occupied, capacity, entry, set_entry, skip, drain, reset_front}
use coproto.Queue.Blocks.{
  IsBlock, block_items, HasFront, skip-Skipped, reset-IsBlock, items-reset, occupied-set_entry,
}

module _ {ℓ} {A : Type ℓ} where
  abbrev pub chain_items : List (Block A) → List A
  chain_items [] = []
  chain_items (b ∷ r) = block_items b ++ chain_items r

  -- The values of a queue, oldest first.
  abbrev pub items : Queue A → List A
  items q = chain_items q.chain

  -- Behind the first block every block has an occupied entry.
  abbrev pub IsTail : List (Block A) → Type 0
  IsTail [] = Unit {0}
  IsTail (c ∷ r) = IsBlock c × (0 < occupied c) × IsTail r

  -- A first block with a successor has an occupied entry too.
  abbrev pub Leads : Block A → List (Block A) → Type 0
  Leads b [] = Unit {0}
  Leads b (c ∷ r) = 0 < occupied b

  abbrev pub IsChain : List (Block A) → Type 0
  IsChain [] = ⊥
  IsChain (b ∷ r) = IsBlock b × HasFront b × Leads b r × IsTail r

  abbrev pub last_capacity : List (Block A) → ℕ
  last_capacity [] = 0
  last_capacity (b ∷ []) = capacity b
  last_capacity (b ∷ c ∷ r) = last_capacity (c ∷ r)

  pub record IsQueue (q : Queue A) : Type 0 where
    pub chained : IsChain q.chain
    pub sized : q.size ≡ length (items q)
    pub bound : q.size < u64_mod

  pub items_of_empty : (b : Block A) → occupied b ≡ 0 → block_items b ≡ []
  items_of_empty b e = ap (window b.slots b.size_mask b.begin) e

  pub Leads-of_pos : (b : Block A) (r : List (Block A)) → 0 < occupied b → Leads b r
  Leads-of_pos b [] p = tt
  Leads-of_pos b (c ∷ r) p = p

  -- The chains hold the same values, and the second has a value at its front.
  Drained : List (Block A) → List (Block A) → Type ℓ
  Drained chain chain' = IsChain chain' × (chain_items chain' ≡ chain_items chain)

  drain_lem :
      (b : Block A) (r : List (Block A))
      → IsBlock b
      → Leads b r
      → IsTail r
      → Drained (b ∷ r) (drain (b ∷ r))
  unfolding drain Drained
  drain_lem b [] v l t =
      let s = skip-Skipped (occupied b) b v refl in
      ((s.block, s.settled, tt, tt), ap (λ xs. xs ++ []) s.same)
  drain_lem b (c ∷ r) v l t =
      let next = drain_lem c r t.0 (Leads-of_pos c r t.1) t.2 in
      let s = skip-Skipped (occupied b) b v refl in
      elim (Bool-cases (occupied (skip (occupied b) b) == 0)) [
        | inl emptied ↦
            rw (ne→== (occupied b) 0 (omega arith), emptied)
              (
                next.0,
                next.1
                    ∙ ap (λ xs. xs ++ chain_items (c ∷ r))
                        (sym (items_of_empty (skip (occupied b) b) (==→eq _ 0 emptied)) ∙ s.same),
              )
        | inr left ↦
            rw (ne→== (occupied b) 0 (omega arith), left)
              (
                (s.block, s.settled, omega (arith, ==→ne _ 0 left), t),
                ap (λ xs. xs ++ chain_items (c ∷ r)) s.same,
              )
      ]

  -- The first value, and what taking it away leaves.
  pub record FrontOf (b : Block A) (r : List (Block A)) : Type ℓ where
    pub first : A
    pub left : ℕ
    pub holds : entry b b.begin ≡ some first
    pub count : occupied b ≡ suc left

  pub first_of_entry : (o : Option A) → is_some o ≡ true → (a : A) × (o ≡ some a)
  first_of_entry none e = cc
  first_of_entry (some a) e = (a, refl)

  pub chain_front :
      (b : Block A) (r : List (Block A))
      → IsChain (b ∷ r)
      → ((chain_items (b ∷ r) ≡ []) × (occupied b ≡ 0)) ⊎ FrontOf b r
  chain_front b [] (v, inl e, l, t) = inl (ap (λ xs. xs ++ []) (items_of_empty b e), e)
  chain_front b (c ∷ r) (v, inl e, l, t) = absurd (omega arith)
  chain_front b r (v, inr e, l, t) = elim (dec_lt 0 (occupied b)) [
    | yes p ↦
        let f = first_of_entry (entry b b.begin) e in
        inr (record { first = f.0; left = occupied b - 1; holds = f.1; count = omega arith })
    | no n ↦ none_left r l (omega arith)
  ]
    where
      none_left :
          (r : List (Block A))
          → Leads b r
          → occupied b ≡ 0
          → ((chain_items (b ∷ r) ≡ []) × (occupied b ≡ 0)) ⊎ FrontOf b r
      none_left [] l z = inl (ap (λ xs. xs ++ []) (items_of_empty b z), z)
      none_left (c ∷ r) l z = absurd (omega arith)

  pub Leads-same :
      (b c : Block A) (r : List (Block A)) → occupied c ≡ occupied b → Leads b r → Leads c r
  Leads-same b c [] e l = tt
  Leads-same b c (d ∷ r) e l = omega (arith, e)

  pub pop-IsChain :
      (b : Block A) (r : List (Block A)) (v : IsChain (b ∷ r)) (f : FrontOf b r)
      → IsChain (drain (reset_front (b ∷ r)))
        × (chain_items (b ∷ r) ≡ f.first ∷ chain_items (drain (reset_front (b ∷ r))))
  unfolding reset_front Drained
  pop-IsChain b r (v, h, l, t) f =
      let hollow = set_entry b b.begin none in
      let d =
        drain_lem hollow r (reset-IsBlock b.begin v)
          (Leads-same b hollow r (occupied-set_entry b b.begin none) l) t in
      (
        d.0,
        ap (λ xs. xs ++ chain_items r) (items-reset b f.left f.first v f.count f.holds)
            ∙ ap (◌∷◌ f.first) (sym d.1),
      )
