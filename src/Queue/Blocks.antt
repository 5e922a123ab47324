-- ===== src/Queue/Blocks.antt =====
-- Queue.h: one block. What its entries hold, and how `put`, a reset and the skipping loop of
-- `pop_front` change that. The indices wrap at 2^64.
use Prim.Native.Nat.{bit_and}
use native.Mathlib.Decide.{dec_lt}
use native.Mathlib.Nat.{pow-le-pow_right, mod-lt}
use coproto.Prelude.{
  ℕ, zero, suc, ◌+◌, ◌%◌, ◌^◌, ◌≤◌, ◌<◌, ◌≡◌, refl, sym, ap, ap₂, ◌∙◌, ◌⊎◌, inl, inr, ◌≢◌, true,
  Option, none, some, List, [], ◌∷◌, ◌++◌, arith, length, set, length-set, get_or, get_or-set_self,
  get_or-set_ne, length-replicate, is_some, Option-cases,
}
use coproto.Prelude.Word.{u64_mod, pow-pos, bit_and-mask, wrap-mod}
use coproto.Queue.Window.{inc64, ◌+?◌, window, ring_ne, window-push, window-set_front}
use coproto.Queue.{Block, new_block, occupied, capacity, vacant, entry, set_entry, put, skip}

-- The mask is one below a power of two, and at most that many entries are occupied.
pub record IsBlock {ℓ} {A : Type ℓ} (b : Block A) : Type 0 where
  pub k : ℕ
  pub small : k ≤ 63
  pub pow : b.size_mask + 1 ≡ 2 ^ k
  pub slots_len : length b.slots ≡ 2 ^ k
  pub begin_lt : b.begin < u64_mod
  pub end_lt : b.end < u64_mod
  pub fits : occupied b ≤ 2 ^ k

-- The values of a block, oldest first.
abbrev pub block_items {ℓ} : {A : Type ℓ} → Block A → List A
block_items b = window b.slots b.size_mask b.begin (occupied b)

-- The entry at the front holds a value, unless nothing is occupied.
abbrev pub HasFront {ℓ} : {A : Type ℓ} → Block A → Type 0
HasFront b = (occupied b ≡ 0) ⊎ (is_some (entry b b.begin) ≡ true)

pow_bound : (k : ℕ) → k ≤ 63 → 2 ^ k ≤ 2 ^ 63
pow_bound k h = pow-le-pow_right {n = 2} (omega arith) h

module _ {ℓ} {A : Type ℓ} where
  pub capacity-pow : {b : Block A} (v : IsBlock b) → capacity b ≡ 2 ^ v.k
  unfolding capacity
  capacity-pow v = omega (arith, pow_bound v.k v.small)

  pub vacant-add-occupied : {b : Block A} (v : IsBlock b) → vacant b + occupied b ≡ 2 ^ v.k
  unfolding vacant
  vacant-add-occupied v = omega (arith, capacity-pow v, pow_bound v.k v.small)

  pub new_block-IsBlock : (k : ℕ) → k ≤ 63 → IsBlock (new_block {A = A} (2 ^ k))
  unfolding new_block occupied
  new_block-IsBlock k h = record {
    k = k;
    small = h;
    pow = omega (arith, pow-pos k);
    slots_len = length-replicate (2 ^ k) none;
    begin_lt = omega arith;
    end_lt = omega arith;
    fits = omega arith;
  }

  end_at : {b : Block A} (v : IsBlock b) → b.end % 2 ^ v.k ≡ (b.begin + occupied b) % 2 ^ v.k
  unfolding occupied
  end_at {b} v =
      ap (λ t. t % 2 ^ v.k) e ∙ wrap-mod v.k (b.begin + occupied b) (omega (arith, v.small))
    where
      e : b.end ≡ (b.begin + occupied b) % u64_mod
      e = omega (arith, v.begin_lt, v.end_lt)

  pub occupied-put :
      {b : Block A} (a : A)
      → (v : IsBlock b) → occupied b < 2 ^ v.k
      → occupied (put b a) ≡ suc (occupied b)
  unfolding put occupied
  occupied-put a v h = omega (arith, pow_bound v.k v.small)

  pub put-IsBlock :
      {b : Block A} (a : A) → (v : IsBlock b) → occupied b < 2 ^ v.k → IsBlock (put b a)
  unfolding put
  put-IsBlock {b} a v h = record {
    k = v.k;
    small = v.small;
    pow = v.pow;
    slots_len = length-set b.slots (bit_and b.end b.size_mask) (some a) ∙ v.slots_len;
    begin_lt = v.begin_lt;
    end_lt = omega arith;
    fits = omega (arith, occupied-put a v h);
  }

  -- `put` adds its value at the end of what the block holds.
  pub items-put :
      {b : Block A} (a : A)
      → (v : IsBlock b) → occupied b < 2 ^ v.k
      → block_items (put b a) ≡ block_items b ++ (a ∷ [])
  unfolding put
  items-put {b} a v h =
      ap (window (put b a).slots b.size_mask b.begin) (occupied-put a v h)
      ∙ window-push v.k b.size_mask (omega (arith, v.small)) v.pow b.slots (occupied b) b.begin
          b.end a v.slots_len (end_at v) h

  -- Moving the front index on leaves one entry fewer.
  occupied-advance :
      {b : Block A} (n : ℕ)
      → IsBlock b
      → occupied b ≡ suc n
      → occupied (record b { begin = inc64 b.begin }) ≡ n
  unfolding occupied
  occupied-advance n v e = omega (arith, pow_bound v.k v.small)

  advance-IsBlock :
      {b : Block A} (n : ℕ)
      → IsBlock b
      → occupied b ≡ suc n
      → IsBlock (record b { begin = inc64 b.begin })
  advance-IsBlock {b} n v e = record {
    k = v.k;
    small = v.small;
    pow = v.pow;
    slots_len = v.slots_len;
    begin_lt = omega arith;
    end_lt = v.end_lt;
    fits = omega (arith, occupied-advance n v e, v.fits);
  }

  items-suc :
      (b : Block A) (n : ℕ)
      → occupied b ≡ suc n
      → block_items b ≡ entry b b.begin +? window b.slots b.size_mask (inc64 b.begin) n
  items-suc b n e = ap (window b.slots b.size_mask b.begin) e

  items-advance :
      (b : Block A) (n : ℕ)
      → IsBlock b
      → occupied b ≡ suc n
      → entry b b.begin ≡ none
      → block_items (record b { begin = inc64 b.begin }) ≡ block_items b
  items-advance b n v e hole =
      ap (window b.slots b.size_mask (inc64 b.begin)) (occupied-advance n v e)
      ∙ sym (items-suc b n e ∙ ap (λ o. o +? window b.slots b.size_mask (inc64 b.begin) n) hole)

  -- What the skipping loop leaves: the same values, and a front that holds one.
  pub record Skipped (b b' : Block A) : Type ℓ where
    pub block : IsBlock b'
    pub same : block_items b' ≡ block_items b
    pub settled : HasFront b'

  pub skip-Skipped : (n : ℕ) (b : Block A) → IsBlock b → occupied b ≡ n → Skipped b (skip n b)
  unfolding skip
  skip-Skipped zero b v e = record { block = v; same = refl; settled = inl e }
  skip-Skipped (suc n) b v e = elim (Option-cases (entry b b.begin)) [
    | inl hole ↦
        let ih =
          skip-Skipped n (record b { begin = inc64 b.begin }) (advance-IsBlock n v e)
            (occupied-advance n v e) in
        rw (hole, skip)
          (record {
            block = ih.block;
            same = ih.same ∙ items-advance b n v e hole;
            settled = ih.settled;
          })
    | inr (a, full) ↦
        rw (full, skip) (record { block = v; same = refl; settled = inr (ap is_some full) })
  ]

  -- Taking the value out of the front entry takes the first value away.
  pub reset-IsBlock : {b : Block A} (i : ℕ) → IsBlock b → IsBlock (set_entry b i none)
  unfolding occupied
  reset-IsBlock {b} i v = record {
    k = v.k;
    small = v.small;
    pow = v.pow;
    slots_len = length-set b.slots (bit_and i b.size_mask) none ∙ v.slots_len;
    begin_lt = v.begin_lt;
    end_lt = v.end_lt;
    fits = v.fits;
  }

  pub occupied-set_entry :
      (b : Block A) (i : ℕ) (v : Option A) → occupied (set_entry b i v) ≡ occupied b
  unfolding occupied
  occupied-set_entry b i v = refl

  pub items-reset :
      (b : Block A) (n : ℕ) (a : A)
      → IsBlock b
      → occupied b ≡ suc n
      → entry b b.begin ≡ some a
      → block_items b ≡ a ∷ block_items (set_entry b b.begin none)
  items-reset b n a v e full =
      items-suc b n e
      ∙ ap (λ o. o +? window b.slots b.size_mask (inc64 b.begin) n) full
      ∙ ap (◌∷◌ a) (
          sym (
            ap (window hollow b.size_mask b.begin) (occupied-set_entry b b.begin none ∙ e)
            ∙ ap₂ ◌+?◌
                (get_or-set_self b.slots (bit_and b.begin b.size_mask) none none (
                  omega (
                    arith,
                    bit_and-mask v.k b.begin b.size_mask v.pow,
                    v.slots_len,
                    mod-lt b.begin (pow-pos v.k),
                  )))
                (window-set_front v.k b.size_mask (omega (arith, v.small)) v.pow b.slots none n
                  b.begin (omega (arith, v.fits)))))
    where
      hollow : List (Option A)
      hollow = set b.slots (bit_and b.begin b.size_mask) none

  put_front_new : {b : Block A} (a : A) → (v : IsBlock b) → occupied b ≡ 0 → HasFront (put b a)
  unfolding put
  put_front_new {b} a v e = inr (
      ap (λ i. is_some (get_or written i none)) same
      ∙ ap is_some (
          get_or-set_self b.slots slot (some a) none
            (omega (arith, at_end, v.slots_len, mod-lt b.end (pow-pos v.k)))))
    where
      slot : ℕ
      slot = bit_and b.end b.size_mask

      written : List (Option A)
      written = set b.slots slot (some a)

      at_end : slot ≡ b.end % 2 ^ v.k
      at_end = bit_and-mask v.k b.end b.size_mask v.pow

      same : bit_and b.begin b.size_mask ≡ slot
      same =
          bit_and-mask v.k b.begin b.size_mask v.pow
          ∙ ap (λ t. t % 2 ^ v.k) (omega (arith, e))
          ∙ sym (end_at v)
          ∙ sym at_end

  put_front_kept :
      {b : Block A} (a : A)
      → (v : IsBlock b) → occupied b < 2 ^ v.k
      → 0 < occupied b
      → is_some (entry b b.begin) ≡ true
      → HasFront (put b a)
  unfolding put
  put_front_kept {b} a v h p e = inr (
      ap is_some (
        get_or-set_ne b.slots (bit_and b.end b.size_mask) (bit_and b.begin b.size_mask) (some a)
          none apart)
      ∙ e)
    where
      apart : bit_and b.end b.size_mask ≢ bit_and b.begin b.size_mask
      apart q = ring_ne (2 ^ v.k) b.begin (occupied b) p h (
          sym (end_at v)
          ∙ sym (bit_and-mask v.k b.end b.size_mask v.pow)
          ∙ q
          ∙ bit_and-mask v.k b.begin b.size_mask v.pow)

  -- A block that has just been given a value holds one at its front.
  pub put-HasFront :
      {b : Block A} (a : A)
      → (v : IsBlock b) → occupied b < 2 ^ v.k
      → HasFront b
      → HasFront (put b a)
  put-HasFront a v h (inl e) = put_front_new a v e
  put-HasFront {b} a v h (inr e) = elim (dec_lt 0 (occupied b)) [
    | yes p ↦ put_front_kept a v h p e
    | no n ↦ put_front_new a v (omega arith)
  ]
