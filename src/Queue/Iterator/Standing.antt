-- ===== src/Queue/Iterator/Standing.antt =====
-- Queue.h, `Iterator`: where an iterator can stand, and the inner loop of `operator++`.
use mathlib.Core.Path.{subst}
use coproto.Prelude.{
  ℕ, zero, suc, ◌+◌, ◌-◌, ◌≤◌, ◌<◌, ◌≡◌, refl, sym, ap, ◌∙◌, ◌⊎◌, inl, inr, true, false, Option,
  none, some, List, [], ◌∷◌, ◌++◌, arith, ◌==◌, eq→==, ne→==,
}
use coproto.Prelude.Word.{u64_mod}
use coproto.Queue.{Block, occupied, entry}
use coproto.Queue.Window.{inc64, window, ◌+?◌}
use coproto.Queue.Chain.{chain_items}
use coproto.Queue.Iterator.{Iterator, null, at, next_block}

pub inc64_same : (i : ℕ) → i + 1 < u64_mod → inc64 i ≡ i + 1
inc64_same i p = omega arith

module _ {ℓ} {A : Type ℓ} where
  -- The indices of the blocks have not wrapped.
  abbrev pub Flat : List (Block A) → Type 0
  Flat [] = Unit {0}
  Flat (b ∷ r) = (b.begin ≤ b.end) × (b.end < u64_mod) × Flat r

  -- The occupied entries of a chain.
  abbrev pub occupied_all : List (Block A) → ℕ
  occupied_all [] = 0
  occupied_all (b ∷ r) = b.end - b.begin + occupied_all r

  -- The iterator stands at an occupied entry, with `left` more behind it in the same block.
  pub record Standing (it : Iterator A) (xs : List A) : Type ℓ where
    pub block : Block A
    pub rest : List (Block A)
    pub left : ℕ
    pub place : it ≡ at (block ∷ rest) it.index
    pub flat : Flat rest
    pub above : block.begin ≤ it.index
    pub ends : it.index + suc left ≡ block.end
    pub end_lt : block.end < u64_mod
    pub holds :
        xs
        ≡ entry block it.index
          +? (window block.slots block.size_mask (it.index + 1) left ++ chain_items rest)

  -- The occupied entries from the iterator on, and the values behind it.
  abbrev pub count : (it : Iterator A) (xs : List A) → Standing it xs → ℕ
  count it xs s = suc s.left + occupied_all s.rest

  abbrev pub behind : (it : Iterator A) (xs : List A) → Standing it xs → List A
  behind it xs s =
      window s.block.slots s.block.size_mask (it.index + 1) s.left ++ chain_items s.rest

  -- Either there is nothing left or the iterator stands at an occupied entry.
  unfoldable pub Settled : Iterator A → List A → ℕ → Type ℓ
  Settled it xs ticks = ((it ≡ null) × (xs ≡ [])) ⊎ ((s : Standing it xs) × (count it xs s ≤ ticks))

  pub +?-append : (o : Option A) (xs ys : List A) → (o +? xs) ++ ys ≡ o +? (xs ++ ys)
  +?-append none xs ys = refl
  +?-append (some a) xs ys = refl

  pub occupied-Flat :
      (b : Block A) → b.begin ≤ b.end → b.end < u64_mod → occupied b ≡ b.end - b.begin
  unfolding occupied
  occupied-Flat b p q = omega arith

  abbrev pub standing :
      (b : Block A) (r : List (Block A)) (i n : ℕ)
      → Flat r
      → b.begin ≤ i
      → i + suc n ≡ b.end
      → b.end < u64_mod
      → Standing (at (b ∷ r) i) (window b.slots b.size_mask i (suc n) ++ chain_items r)
  standing b r i n t p e q = record {
    block = b;
    rest = r;
    left = n;
    place = refl;
    flat = t;
    above = p;
    ends = e;
    end_lt = q;
    holds =
        ap (λ j. (entry b i +? window b.slots b.size_mask j n) ++ chain_items r)
          (inc64_same i (omega arith))
        ∙ +?-append (entry b i) _ (chain_items r);
  }

  -- The inner loop is over, or it goes on to the next block.
  pub next_block_stays :
      (b : Block A) (r : List (Block A)) (i : ℕ)
      → (i == b.end) ≡ false
      → next_block (b ∷ r) i ≡ at (b ∷ r) i
  unfolding next_block
  next_block_stays b [] i h = rw h refl
  next_block_stays b (c ∷ r) i h = rw h refl

  pub next_block_goes :
      (b c : Block A) (r : List (Block A)) (i : ℕ)
      → (i == b.end) ≡ true
      → next_block (b ∷ c ∷ r) i ≡ next_block (c ∷ r) c.begin
  unfolding next_block
  next_block_goes b c r i h = rw h refl

  pub next_block_ends : (b : Block A) (i : ℕ) → (i == b.end) ≡ true → next_block (b ∷ []) i ≡ null
  unfolding next_block
  next_block_ends b i h = rw h refl

  pub next_block-Settled :
      (b : Block A) (r : List (Block A)) (i n ticks : ℕ)
      → Flat r
      → b.begin ≤ i
      → i + n ≡ b.end
      → b.end < u64_mod
      → n + occupied_all r ≤ ticks
      → Settled (next_block (b ∷ r) i) (window b.slots b.size_mask i n ++ chain_items r) ticks
  unfolding Settled
  next_block-Settled b [] i zero ticks t p e q k =
      inl (next_block_ends b i (eq→== i b.end (omega arith)), refl)
  next_block-Settled b (c ∷ r) i zero ticks (u, v, t) p e q k =
      subst (λ it. Settled it (chain_items (c ∷ r)) ticks)
        (sym (next_block_goes b c r i (eq→== i b.end (omega arith))))
        (subst
          (λ n.
            Settled (next_block (c ∷ r) c.begin)
              (window c.slots c.size_mask c.begin n ++ chain_items r) ticks)
          (sym (occupied-Flat c u v))
          (next_block-Settled c r c.begin (c.end - c.begin) ticks t (omega arith) (omega arith) v
            (omega arith)))
  next_block-Settled b r i (suc n) ticks t p e q k =
      subst (λ it. Settled it (window b.slots b.size_mask i (suc n) ++ chain_items r) ticks)
        (sym (next_block_stays b r i (ne→== i b.end (omega arith))))
        (inr (standing b r i n t p e q, k))
