-- ===== src/Queue/Reserve.antt =====
-- Queue.h, `reserve` and the constructor that takes a capacity.
use Prim.Native.Nat.{bit_and, bit_or, ◌/◌}
use mathlib.Core.Path.{subst}
use coproto.Prelude.{
  ℕ, ◌*◌, ◌%◌, ◌<◌, ◌^◌, ◌≡◌, refl, inl, inr, true, Option, none, some, List, [], ◌∷◌, ◌++◌, arith,
  ◌==◌, ltb, if◌then◌else◌, Bool-cases, lt→ltb, eq→==,
}
use coproto.Prelude.Word.{u64_mod}
use coproto.Queue.{
  Block, Queue, new_block, capacity, occupied, vacant, put, push_back, push_chain, front,
  front_entry,
}
use coproto.Queue.Window.{inc64, dec64}
use coproto.Queue.Chain.{items, IsQueue, IsChain, Leads, last_capacity, chain_front}

-- `v |= v >> k`
abbrev pub or_shift : ℕ → ℕ → ℕ
or_shift k v = bit_or v (v / 2 ^ k)

-- The shifts go up to 16.
unfoldable pub round_up : ℕ → ℕ
round_up c = inc64 (or_shift 16 (or_shift 8 (or_shift 4 (or_shift 2 (or_shift 1 (dec64 c))))))

module _ {ℓ} {A : Type ℓ} where
  -- `allocateBlock(size)`: the constructor of `Block` asserts a power of two, which it takes 0 for.
  unfoldable pub allocate : ℕ → Queue A → Option (Queue A)
  unfolding new_block
  allocate size q =
      if bit_and size (dec64 size) == 0
      then some (record q {
        chain = q.chain ++ (record (new_block size) { size_mask = dec64 size } ∷ []);
      })
      else none

  unfoldable pub reserve : ℕ → Queue A → Option (Queue A)
  unfolding round_up allocate
  reserve c q = elim q.chain [
    | [] ↦ allocate (round_up c) q
    | b ∷ r ↦ if ltb (last_capacity q.chain) (round_up c) then allocate (round_up c) q else some q
  ]

  -- `Queue(u64 capacity)`
  unfoldable pub with_capacity : ℕ → Option (Queue A)
  unfolding reserve
  with_capacity c = reserve c (record { size = 0; chain = [] })

  abbrev next_block : ℕ → Block A
  next_block size = record (new_block size) { size_mask = dec64 size }

  reserve_grows :
      (c : ℕ) (q : Queue A) (b : Block A)
      → q.chain ≡ b ∷ []
      → last_capacity q.chain < round_up c
      → bit_and (round_up c) (dec64 (round_up c)) ≡ 0
      → reserve c q ≡ some (record q { chain = b ∷ next_block (round_up c) ∷ [] })
  unfolding reserve allocate
  reserve_grows c q b e lt pow =
      let l : ltb (capacity b) (round_up c) ≡ true =
        lt→ltb _ _ (subst (λ bs. last_capacity bs < round_up c) e lt) in
      rw (e, l, eq→== _ _ pow) refl

  -- A value for the second block leaves the first one as it is.
  push_second :
      (b c : Block A) (a : A) → (r : List (Block A)) × (push_chain (b ∷ c ∷ []) a ≡ some (b ∷ r))
  unfolding push_chain
  push_second b c a = elim (Bool-cases (vacant c == 0)) [
    | inl h ↦ (c ∷ put (new_block (2 * capacity c % u64_mod)) a ∷ [], rw h refl)
    | inr h ↦ (put c a ∷ [], rw h refl)
  ]

  front_of_empty :
      (q : Queue A) (b : Block A) (r : List (Block A))
      → q.chain ≡ b ∷ r
      → occupied b ≡ 0
      → front q ≡ none
  unfolding front front_entry
  front_of_empty q b r e o = ground (arith, e, o)

  -- An empty queue that grows by `reserve` and then gets a value: its first block stays empty, so the
  -- assertion of `front` on that block fails.
  pub front-reserve :
      (c : ℕ) (q : Queue A) (a : A)
      → IsQueue q
      → items q ≡ []
      → last_capacity q.chain < round_up c
      → bit_and (round_up c) (dec64 (round_up c)) ≡ 0
      → (q1 : Queue A) × (q2 : Queue A) × (reserve c q ≡ some q1)
        × (push_back q1 a ≡ some q2)
        × (front q2 ≡ none)
  unfolding push_back
  front-reserve c q a v e lt pow = by_chain q.chain refl v.chained
    where
      Fails : Type ℓ
      Fails =
          (q1 : Queue A) × (q2 : Queue A) × (reserve c q ≡ some q1)
          × (push_back q1 a ≡ some q2)
          × (front q2 ≡ none)

      alone : (b : Block A) → q.chain ≡ b ∷ [] → occupied b ≡ 0 → Fails
      alone b p o =
          let (r, h) = push_second b (next_block (round_up c)) a in
          let q2 : Queue A = record { size = inc64 q.size; chain = b ∷ r } in
          (
            record q { chain = b ∷ next_block (round_up c) ∷ [] },
            q2,
            reserve_grows c q b p lt pow,
            rw h refl,
            front_of_empty q2 b r refl o,
          )

      by_chain : (bs : List (Block A)) → q.chain ≡ bs → IsChain bs → Fails
      by_chain [] p w = absurd w
      by_chain (b ∷ r) p w = elim (chain_front b r w) [
        | inl (z, o) ↦ only r p w.2 o
        | inr f ↦ absurd (ground (arith, e, p, f.count, f.holds))
      ]
        where
          only : (r : List (Block A)) → q.chain ≡ b ∷ r → Leads b r → occupied b ≡ 0 → Fails
          only [] p l o = alone b p o
          only (c ∷ r) p l o = absurd (omega (arith, l))
