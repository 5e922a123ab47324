-- ===== src/Queue.antt =====
-- coproto/Common/Queue.h: the queue of linked blocks, each a ring of a power of two of entries.
-- A pointer to a block is its place in the chain from `mBegin`; `mLast` is the last of the chain.
-- `none` is a failed assertion, an empty `optional` that is read, or an exception.
pub mod Window
pub mod Blocks
pub mod Chain
pub mod Refine
pub mod Erase
pub mod Iterator
pub mod Reserve
pub mod Blocking
use Prim.Native.Nat.{bit_and}
use coproto.Prelude.{
  ℕ, zero, suc, ◌+◌, ◌-◌, ◌*◌, ◌%◌, ◌^◌, Bool, true, false, ◌&&◌, Option, none, some, List, [], ◌∷◌,
  ◌==◌, leb, if◌then◌else◌, is_some, ◌>>=◌, get_or, set, replicate,
}
use coproto.Prelude.Word.{u64_mod}
use Window.{inc64, dec64}

-- `Entry` is an optional value; an entry that is not constructed reads as `none`.
pub record Block {ℓ} (A : Type ℓ) : Type ℓ where
  pub slots : List (Option A)
  pub size_mask : ℕ
  pub begin : ℕ
  pub end : ℕ

pub record Queue {ℓ} (A : Type ℓ) : Type ℓ where
  pub size : ℕ
  pub chain : List (Block A)

abbrev pub default_capacity : ℕ
default_capacity = 8

module _ {ℓ} {A : Type ℓ} where
  unfoldable pub new_block : ℕ → Block A
  new_block capacity = record {
    slots = replicate capacity none;
    size_mask = capacity - 1;
    begin = 0;
    end = 0;
  }

  unfoldable pub occupied : Block A → ℕ
  occupied b = (b.end + u64_mod - b.begin) % u64_mod

  unfoldable pub capacity : Block A → ℕ
  capacity b = (b.size_mask + 1) % u64_mod

  pub vacant : Block A → ℕ
  unfolding capacity occupied
  vacant b = (capacity b + u64_mod - occupied b) % u64_mod

  -- `data()[i & mSizeMask]`
  abbrev pub entry : Block A → ℕ → Option A
  entry b i = get_or b.slots (bit_and i b.size_mask) none

  abbrev pub set_entry : Block A → ℕ → Option A → Block A
  set_entry b i v = record b { slots = set b.slots (bit_and i b.size_mask) v }

  unfoldable pub empty_queue : Queue A
  unfolding new_block
  empty_queue = record { size = 0; chain = new_block default_capacity ∷ [] }

  -- Constructs an entry at the end of a block that has room.
  pub put : Block A → A → Block A
  put b a = record (set_entry b b.end (some a)) { end = inc64 b.end }

  -- `push_back` at the last block of the chain: a full one gets a successor of twice the capacity.
  push_chain : List (Block A) → A → Option (List (Block A))
  unfolding vacant capacity put new_block
  push_chain [] a = none
  push_chain (b ∷ []) a =
      if vacant b == 0
      then some (b ∷ put (new_block (2 * capacity b % u64_mod)) a ∷ [])
      else some (put b a ∷ [])
  push_chain (b ∷ c ∷ r) a = push_chain (c ∷ r) a >>= λ r'. some (b ∷ r')

  pub push_back : Queue A → A → Option (Queue A)
  push_back q a =
      push_chain q.chain a >>= λ chain. some (record { size = inc64 q.size; chain = chain })

  pub front_entry : Queue A → Option A
  unfolding occupied
  front_entry q = elim q.chain [
    | [] ↦ none
    | b ∷ r ↦ if occupied b == 0 then none else entry b b.begin
  ]

  pub front : Queue A → Option A
  unfolding front_entry
  front q = if q.size == 0 then none else front_entry q

  back_entry : List (Block A) → Option A
  back_entry [] = none
  back_entry (b ∷ []) = entry b (dec64 b.end)
  back_entry (b ∷ c ∷ r) = back_entry (c ∷ r)

  pub back : Queue A → Option A
  back q = if q.size == 0 then none else back_entry q.chain

  -- The loop of `pop_front` inside one block: it passes the entries that hold no value. The fuel is
  -- the number of occupied entries.
  pub skip : ℕ → Block A → Block A
  skip zero b = b
  skip (suc n) b = elim (entry b b.begin) [
    | none ↦ skip n (record b { begin = inc64 b.begin })
    | some a ↦ b
  ]

  -- The whole loop: a block that has run empty is left for its successor, if there is one.
  pub drain : List (Block A) → List (Block A)
  unfolding occupied skip
  drain [] = []
  drain (b ∷ []) = skip (occupied b) b ∷ []
  drain (b ∷ c ∷ r) =
      let rest = drain (c ∷ r) in
      let b' = skip (occupied b) b in
      if occupied b == 0 then b ∷ c ∷ r else if occupied b' == 0 then rest else b' ∷ c ∷ r

  pub reset_front : List (Block A) → List (Block A)
  reset_front [] = []
  reset_front (b ∷ r) = set_entry b b.begin none ∷ r

  pub pop_front : Queue A → Option (Queue A)
  unfolding front
  pop_front q =
      front q >>= λ _. some (record { size = dec64 q.size; chain = drain (reset_front q.chain) })

  -- `clear` pops until nothing is left; the count of rounds is the size.
  pop_all : ℕ → Queue A → Option (Queue A)
  pop_all zero q = some q
  pop_all (suc n) q = pop_front q >>= pop_all n

  pub clear : Queue A → Option (Queue A)
  clear q = pop_all q.size q

  unfoldable pub block_at : List (Block A) → ℕ → Option (Block A)
  block_at [] i = none
  block_at (b ∷ r) zero = some b
  block_at (b ∷ r) (suc i) = block_at r i

  -- `Iterator::valid`, for the iterator at a block and an index.
  pub is_valid : Block A → ℕ → Bool
  is_valid b index = leb b.begin index && is_some (entry b index)

  reset_at : List (Block A) → ℕ → ℕ → List (Block A)
  reset_at [] i index = []
  reset_at (b ∷ r) zero index = set_entry b index none ∷ r
  reset_at (b ∷ r) (suc i) index = b ∷ reset_at r i index

  -- `&front() == &*iter`: the same block and the same slot.
  is_front : List (Block A) → ℕ → ℕ → Bool
  is_front [] i index = false
  is_front (b ∷ r) zero index = bit_and index b.size_mask == bit_and b.begin b.size_mask
  is_front (b ∷ r) (suc i) index = false

  -- `erase(Iterator)`
  pub erase : Queue A → ℕ → ℕ → Option (Queue A)
  unfolding is_valid block_at is_front reset_at front pop_front
  erase q i index =
      if q.size == 0
      then none
      else (block_at q.chain i >>= λ b.
          if is_valid b index
          then (front q >>= λ _.
              if is_front q.chain i index
              then pop_front q
              else some (record { size = dec64 q.size; chain = reset_at q.chain i index }))
          else none)

  -- `erase(T*)`: the pointer lies in slot `slot` of block `i`, and the slot serves as the index.
  pub erase_ptr : Queue A → ℕ → ℕ → Option (Queue A)
  unfolding erase
  erase_ptr q i slot = erase q i slot
