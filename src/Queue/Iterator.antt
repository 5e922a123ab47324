-- ===== src/Queue/Iterator.antt =====
-- Queue.h, `Iterator`. A pointer to a block is what the chain holds from that block on; the null pointer
-- is the empty chain. `none` is an exception or a failed assertion, or that the fuel has run out.
pub mod Standing
pub mod Visits
use coproto.Prelude.{
  ℕ, zero, suc, Bool, true, false, not, Option, none, some, List, [], ◌∷◌, ◌==◌, ◌&&◌,
  if◌then◌else◌, is_some, ◌>>=◌,
}
use coproto.Queue.{Block, Queue, entry, is_valid}
use coproto.Queue.Window.{inc64, dec64}

pub record Iterator {ℓ} (A : Type ℓ) : Type ℓ where
  pub block : List (Block A)
  pub index : ℕ

module _ {ℓ} {A : Type ℓ} where
  abbrev pub null : Iterator A
  null = record { block = []; index = 0 }

  abbrev pub at : List (Block A) → ℕ → Iterator A
  at block index = record { block = block; index = index }

  -- The inner loop of `operator++`: at the end of a block the iterator goes to the next one.
  unfoldable pub next_block : List (Block A) → ℕ → Iterator A
  next_block [] index = at [] index
  next_block (b ∷ []) index = if index == b.end then null else at (b ∷ []) index
  next_block (b ∷ c ∷ r) index =
      let rest = next_block (c ∷ r) c.begin in if index == b.end then rest else at (b ∷ c ∷ r) index

  abbrev pub is_hole : Iterator A → Bool
  is_hole it = elim it.block [ [] ↦ false | b ∷ r ↦ not (is_some (entry b it.index)) ]

  -- `operator++`; the fuel bounds the outer loop.
  unfoldable pub increment : ℕ → Iterator A → Option (Iterator A)
  unfolding next_block
  increment zero it = none
  increment (suc n) it =
      let it' = next_block it.block (inc64 it.index) in
      let rest = increment n it' in if is_hole it' then rest else some it'

  -- `operator*`
  unfoldable pub deref : Iterator A → Option A
  unfolding is_valid
  deref it = elim it.block [
    | [] ↦ none
    | b ∷ r ↦ if is_valid b it.index then entry b it.index else none
  ]

  abbrev pub is_end : Iterator A → Bool
  is_end it = elim it.block [ [] ↦ it.index == 0 | b ∷ r ↦ false ]

  -- `begin()`, with the assertion of the constructor.
  unfoldable pub begin : Queue A → Option (Iterator A)
  unfolding is_valid
  begin q = if q.size == 0 then some null else elim q.chain [
    | [] ↦ none
    | b ∷ r ↦ if is_valid b b.begin then some (at (b ∷ r) b.begin) else none
  ]

  abbrev last_block : List (Block A) → List (Block A)
  last_block [] = []
  last_block (b ∷ []) = b ∷ []
  last_block (b ∷ c ∷ r) = last_block (c ∷ r)

  -- `back_iterator()`, with the assertion of the constructor.
  unfoldable pub back_iterator : Queue A → Option (Iterator A)
  unfolding is_valid
  back_iterator q = if q.size == 0 then some null else elim (last_block q.chain) [
    | [] ↦ none
    | b ∷ r ↦ if is_valid b (dec64 b.end) then some (at (b ∷ r) (dec64 b.end)) else none
  ]

  -- `operator++(int)` moves a copy: what it returns, and the iterator itself.
  unfoldable pub post_increment : ℕ → Iterator A → Option (Iterator A × Iterator A)
  unfolding increment
  post_increment n it = increment n it >>= λ it'. some (it', it)

  -- The values that a loop from an iterator to `end()` sees.
  unfoldable pub visit : ℕ → Iterator A → Option (List A)
  unfolding deref increment
  visit zero it = none
  visit (suc n) it = elim (is_end it) [
    | true ↦ some []
    | false ↦ deref it >>= λ a. increment n it >>= λ it'. visit n it' >>= λ xs. some (a ∷ xs)
  ]
