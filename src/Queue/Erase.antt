-- ===== src/Queue/Erase.antt =====
-- Queue.h: `erase` through a pointer to the value.
use native.Mathlib.Decide.{dec_lt}
use coproto.Prelude.{
  ℕ, ◌≡◌, ◌<◌, ◌↔◌, inl, inr, ◌≢◌, true, false, none, some, arith, Bool-cases, ne→==, length, ap,
  ◌∙◌,
}
use coproto.Queue.{
  Block, Queue, entry, front, pop_front, block_at, is_valid, is_front, erase, erase_ptr,
}
use coproto.Queue.Chain.{IsQueue}
use coproto.Queue.Refine.{front_lem, pop_front_lem}

module _ {ℓ} {A : Type ℓ} where
  invalid_of_lt : (b : Block A) (slot : ℕ) → slot < b.begin → is_valid b slot ≡ false
  unfolding is_valid
  invalid_of_lt b slot h = ground arith

  valid_of_le :
      (b : Block A) (slot : ℕ) (a : A)
      → entry b slot ≡ some a
      → ¬ (slot < b.begin)
      → is_valid b slot ≡ true
  unfolding is_valid
  valid_of_le b slot a e h = ground arith

  -- With a value in the queue, neither `front` nor `pop_front` fails.
  front_and_pop :
      (q : Queue A)
      → IsQueue q
      → q.size ≢ 0
      → ((a : A) × (front q ≡ some a)) × ((q' : Queue A) × (pop_front q ≡ some q'))
  front_and_pop q v h = elim (pop_front_lem q v) [
    | inl (e, _) ↦ absurd (h (v.sized ∙ ap length e))
    | inr (x, q', p, e, _) ↦ ((x, ground (arith, front_lem q v)), (q', p))
  ]

  erase_ok :
      (q : Queue A) (i slot : ℕ) (b : Block A)
      → IsQueue q
      → q.size ≢ 0
      → block_at q.chain i ≡ some b
      → is_valid b slot ≡ true
      → erase q i slot ≢ none
  unfolding erase
  erase_ok q i slot b v h at valid e =
      let f = front_and_pop q v h in
      elim (Bool-cases (is_front q.chain i slot)) [
        | inl first ↦ ground (arith, f.0.1, f.1.1)
        | inr later ↦ ground (arith, f.0.1)
      ]

  -- Erasing a value that the queue holds by a pointer to it fails exactly where its slot lies
  -- below the block's begin index, as happens once the ring of the block has gone round.
  pub erase_ptr-none_iff :
      (q : Queue A) (i slot : ℕ) (b : Block A) (a : A)
      → IsQueue q
      → q.size ≢ 0
      → block_at q.chain i ≡ some b
      → entry b slot ≡ some a
      → (erase_ptr q i slot ≡ none) ↔ (slot < b.begin)
  unfolding erase_ptr
  erase_ptr-none_iff q i slot b a v h at live = (fails, invalid)
    where
      fails : erase_ptr q i slot ≡ none → slot < b.begin
      fails e = elim (dec_lt slot b.begin) [
        | yes p ↦ p
        | no n ↦ absurd (erase_ok q i slot b v h at (valid_of_le b slot a live n) e)
      ]

      invalid : slot < b.begin → erase_ptr q i slot ≡ none
      invalid p = rw (ne→== q.size 0 h, at, invalid_of_lt b slot p, erase)
