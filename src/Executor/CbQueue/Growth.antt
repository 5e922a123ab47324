-- ===== src/Executor/CbQueue/Growth.antt =====
-- Executor.h, `CBQueue::push_back` on a full ring: the copying loop and the write behind it.
use Prim.Native.Nat.{bit_and}
use native.Mathlib.Decide.{dec_lt}
use native.Mathlib.Nat.{mod_self, mod-eq_of_lt, add-mod_right, pow-suc, pow-le-pow_right}
use coproto.Prelude.{
  ℕ, zero, suc, ◌+◌, ◌-◌, ◌*◌, ◌%◌, ◌^◌, ◌≤◌, ◌<◌, max, ◌≡◌, refl, sym, ap, ◌∙◌, false, Option,
  none, some, List, [], ◌∷◌, arith, length, get_or, set, replicate, eq→==, length-replicate,
  length-set, get_or-set_self, get_or-set_ne,
}
use coproto.Prelude.Word.{u64_mod, pow-pos, bit_and-mask, wrap-mod}
use coproto.Queue.Window.{inc64, window, ◌+?◌}
use coproto.Executor.CbQueue.{CbQueue, vec, size, push_back, grow, copy_loop}
use coproto.Executor.CbQueue.Fifo.{items, IsRing}

copy_loop_stops {ℓ} :
    {A : Type ℓ} (f mask : ℕ) (old v : List (Option A)) (i end j : ℕ)
    → i ≡ end
    → copy_loop f mask old i end j v ≡ v
unfolding copy_loop
copy_loop_stops zero mask old v i end j e = refl
copy_loop_stops (suc f) mask old v i end j e = rw (eq→== i end e)

module _ {ℓ} {A : Type ℓ} where
  get_or-replicate : (n i : ℕ) → get_or (replicate {A = Option A} n none) i none ≡ none
  get_or-replicate zero i = refl
  get_or-replicate (suc n) zero = refl
  get_or-replicate (suc n) (suc i) = get_or-replicate n i

  -- Behind its first element the grown buffer is null.
  window_null :
      (s : List (Option A)) (m k n h : ℕ)
      → m + 1 ≡ 2 ^ k
      → h + n ≤ 2 ^ k
      → 2 ^ k < u64_mod
      → 0 < h
      → ((i : ℕ) → 0 < i → get_or s i none ≡ none)
      → window s m h n ≡ []
  window_null s m k zero h p q r z null = refl
  window_null s m k (suc n) h p q r z null =
      let here : bit_and h m ≡ h = bit_and-mask k h m p ∙ mod-eq_of_lt (omega arith) in
      let next : inc64 h ≡ h + 1 = omega arith in
      rw (here, null h z, next) (window_null s m k n (h + 1) p (omega arith) r (omega arith) null)

  abbrev new_length : CbQueue A → ℕ
  new_length q = max (length (vec q) * 2) (2 ^ 6)

  abbrev grown : CbQueue A → A → CbQueue A
  grown q h = record {
    head = inc64 (size q);
    tail = 0;
    array_backing = q.array_backing;
    vec_backing = set (replicate (new_length q) none) 0 (some h);
    on_array = false;
  }

  at_full :
      (q : CbQueue A) (v : IsRing q)
      → size q ≡ 2 ^ v.k
      → q.head ≡ (q.tail + length (vec q)) % u64_mod
  unfolding size
  at_full q v e = omega (arith, v.vec_len, v.head_lt, v.tail_lt)

  same_slot :
      (q : CbQueue A) (v : IsRing q)
      → size q ≡ 2 ^ v.k
      → bit_and q.tail (length (vec q) - 1) ≡ bit_and q.head (length (vec q) - 1)
  same_slot q v e =
      bit_and-mask v.k q.tail (length (vec q) - 1) m
      ∙ sym (add-mod_right q.tail (2 ^ v.k))
      ∙ sym (wrap-mod v.k (q.tail + 2 ^ v.k) (omega (arith, v.small)))
      ∙ ap (λ t. t % 2 ^ v.k) (sym (at_full q v e ∙ ap (λ n. (q.tail + n) % u64_mod) v.vec_len))
      ∙ sym (bit_and-mask v.k q.head (length (vec q) - 1) m)
    where
      m : length (vec q) - 1 + 1 ≡ 2 ^ v.k
      m = omega (arith, v.vec_len, pow-pos v.k)

  first_slot :
      (q : CbQueue A) (v : IsRing q) → size q ≡ 2 ^ v.k → bit_and (size q) (length (vec q) - 1) ≡ 0
  first_slot q v e =
      bit_and-mask v.k (size q) (length (vec q) - 1) (omega (arith, v.vec_len, pow-pos v.k))
      ∙ ap (λ t. t % 2 ^ v.k) e
      ∙ mod_self (2 ^ v.k)

  -- The ring as the full branch leaves it: a buffer of nulls, with the old size.
  abbrev emptied : CbQueue A → CbQueue A
  emptied q = record q {
    vec_backing = replicate (new_length q) none;
    on_array = false;
    head = size q;
    tail = 0;
  }

  grow-emptied : (q : CbQueue A) (v : IsRing q) → size q ≡ 2 ^ v.k → grow q ≡ emptied q
  unfolding grow size
  grow-emptied q v e =
      ap (λ b. record q { vec_backing = b; on_array = false; head = size q; tail = 0 })
        (copy_loop_stops _ _ (vec q) (replicate (new_length q) none) _ _ 0 (same_slot q v e))

  push-grown : (q : CbQueue A) (h : A) (v : IsRing q) → size q ≡ 2 ^ v.k → push_back q h ≡ grown q h
  unfolding push_back
  push-grown q h v e =
      rw (eq→== _ _ (at_full q v e), grow-emptied q v e)
        (ap
          (λ i. record (emptied q) {
            head = inc64 (size q);
            vec_backing = set (replicate (new_length q) none) i (some h);
          })
          (first_slot q v e))

  -- The new buffer is a power of two with room for one more.
  new_pow :
      (q : CbQueue A) (v : IsRing q)
      → (k : ℕ) × (new_length q ≡ 2 ^ k) × (2 ^ k < u64_mod) × (1 + 2 ^ v.k ≤ 2 ^ k)
  new_pow q v = elim (dec_lt 5 v.k) [
    | yes p ↦
        let big = pow-le-pow_right {n = 2} (omega arith) p in
        let small = pow-le-pow_right {n = 2} (omega arith) v.small in
        (
          suc v.k,
          omega (arith, v.vec_len, pow-suc 2 v.k, big),
          omega (arith, pow-suc 2 v.k, small),
          omega (arith, pow-suc 2 v.k, pow-pos v.k),
        )
    | no n ↦
        let small = pow-le-pow_right {n = 2} (omega arith) {i = v.k} {j = 5} (omega arith) in
        (6, omega (arith, v.vec_len, small), omega arith, omega (arith, small))
  ]

  null_behind :
      (n : ℕ) (h : A) (i : ℕ) → 0 < i → get_or (set (replicate n none) 0 (some h)) i none ≡ none
  null_behind n h i p =
      get_or-set_ne (replicate n none) 0 i (some h) none (omega arith) ∙ get_or-replicate n i

  size-grown : (q : CbQueue A) (h : A) (v : IsRing q) → size (grown q h) ≡ suc (size q)
  unfolding size
  size-grown q h v = omega (arith, v.fits, pow-le-pow_right {n = 2} (omega arith) v.small)

  items-grown :
      (q : CbQueue A) (h : A) (v : IsRing q) → size q ≡ 2 ^ v.k → items (grown q h) ≡ h ∷ []
  items-grown q h v e =
      let n = new_pow q v in
      let buffer = set (replicate (new_length q) none) 0 (some h) in
      let len : length buffer ≡ new_length q =
        length-set (replicate (new_length q) none) 0 (some h)
        ∙ length-replicate (new_length q) none in
      let mask : length buffer - 1 + 1 ≡ 2 ^ n.0 = omega (arith, len, n.1, pow-pos n.0) in
      let zero_slot : bit_and 0 (length buffer - 1) ≡ 0 =
        bit_and-mask n.0 0 _ mask ∙ mod-eq_of_lt (pow-pos n.0) in
      ap (window buffer (length buffer - 1) 0) (size-grown q h v)
      ∙ ap (λ i. get_or buffer i none +? window buffer (length buffer - 1) 1 (size q)) zero_slot
      ∙ ap (λ o. o +? window buffer (length buffer - 1) 1 (size q))
          (get_or-set_self (replicate (new_length q) none) 0 (some h) none
            (omega (arith, len, n.1, n.3, length-replicate {A = Option A} (new_length q) none)))
      ∙ ap (◌∷◌ h) (
          window_null buffer (length buffer - 1) n.0 (size q) 1 mask (omega (arith, n.3, e)) n.2
            (omega arith) (null_behind (new_length q) h))

  -- A push onto a full ring keeps none of the callbacks that were queued: the new one is all that
  -- the ring then holds, although its size says one more than before.
  pub push_back_full :
      (q : CbQueue A) (h : A) (v : IsRing q)
      → size q ≡ 2 ^ v.k
      → (items (push_back q h) ≡ h ∷ []) × (size (push_back q h) ≡ suc (size q))
  push_back_full q h v e = rw (push-grown q h v e) (items-grown q h v e, size-grown q h v)
