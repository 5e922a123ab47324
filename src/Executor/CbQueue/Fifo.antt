-- ===== src/Executor/CbQueue/Fifo.antt =====
-- Executor.h, `CBQueue`: the ring below its capacity, as a list.
use Prim.Native.Nat.{bit_and}
use native.Mathlib.Nat.{pow-le-pow_right}
use coproto.Prelude.{
  ℕ, zero, suc, ◌+◌, ◌-◌, ◌%◌, ◌^◌, ◌≤◌, ◌<◌, ◌≡◌, sym, ap, ap₂, ◌∙◌, ◌⊎◌, inl, inr, false, Option,
  none, some, List, [], ◌∷◌, ◌++◌, arith, ◌==◌, length, get_or, set, length-set, length-append,
  Bool-cases, Option-cases, ne→==, ==→eq, ==→ne,
}
use coproto.Prelude.Word.{u64_mod, pow-pos, wrap-mod}
use coproto.Queue.Window.{inc64, window, window-push, ◌+?◌}
use coproto.Executor.CbQueue.{
  CbQueue, vec, write_vec, size, push_back, pop_front, swap, move_assign, empty_ring,
}

pow_bound : (k : ℕ) → k ≤ 62 → 2 ^ k ≤ 2 ^ 62
pow_bound k h = pow-le-pow_right {n = 2} (omega arith) h

module _ {ℓ} {A : Type ℓ} where
  -- The callbacks of a ring, oldest first.
  abbrev pub items : CbQueue A → List A
  items q = window (vec q) (length (vec q) - 1) q.tail (size q)

  -- The buffer is a power of two, and every occupied element holds a callback.
  pub record IsRing (q : CbQueue A) : Type 0 where
    pub k : ℕ
    pub small : k ≤ 62
    pub vec_len : length (vec q) ≡ 2 ^ k
    pub head_lt : q.head < u64_mod
    pub tail_lt : q.tail < u64_mod
    pub fits : size q ≤ 2 ^ k
    pub full : length (items q) ≡ size q

  pub vec-write_vec :
      (q : CbQueue A) (i : ℕ) (v : Option A) → vec (write_vec q i v) ≡ set (vec q) i v
  vec-write_vec q i v = ground arith

  not_full :
      (q : CbQueue A) (v : IsRing q)
      → size q < 2 ^ v.k
      → (q.head == (q.tail + length (vec q)) % u64_mod) ≡ false
  unfolding size
  not_full q v h = ne→== _ _ (omega (arith, v.vec_len, v.head_lt, v.tail_lt, pow_bound v.k v.small))

  head_at : (q : CbQueue A) (v : IsRing q) → q.head % 2 ^ v.k ≡ (q.tail + size q) % 2 ^ v.k
  unfolding size
  head_at q v =
      let e : q.head ≡ (q.tail + size q) % u64_mod = omega (arith, v.head_lt, v.tail_lt) in
      ap (λ t. t % 2 ^ v.k) e ∙ wrap-mod v.k (q.tail + size q) (omega (arith, v.small))

  -- The ring after a push without growth.
  abbrev pushed : CbQueue A → A → CbQueue A
  pushed q h = record (write_vec q (bit_and q.head (length (vec q) - 1)) (some h)) {
    head = inc64 q.head;
  }

  vec-pushed :
      (q : CbQueue A) (h : A)
      → vec (pushed q h) ≡ set (vec q) (bit_and q.head (length (vec q) - 1)) (some h)
  vec-pushed q h = ground arith

  tail-pushed : (q : CbQueue A) (h : A) → (pushed q h).tail ≡ q.tail
  tail-pushed q h = ground arith

  size-pushed :
      (q : CbQueue A) (h : A) (v : IsRing q) → size q < 2 ^ v.k → size (pushed q h) ≡ suc (size q)
  unfolding size
  size-pushed q h v r = omega (arith, tail-pushed q h, v.head_lt, v.tail_lt, pow_bound v.k v.small)

  items-pushed :
      (q : CbQueue A) (h : A) (v : IsRing q)
      → size q < 2 ^ v.k
      → items (pushed q h) ≡ items q ++ (h ∷ [])
  items-pushed q h v r =
      ap (λ s. window s (length s - 1) (pushed q h).tail (size (pushed q h))) (vec-pushed q h)
      ∙ ap₂ (λ m t. window written m t (size (pushed q h)))
          (ap (λ n. n - 1) (length-set (vec q) _ _)) (tail-pushed q h)
      ∙ ap (window written (length (vec q) - 1) q.tail) (size-pushed q h v r)
      ∙ window-push v.k (length (vec q) - 1) (omega (arith, v.small))
          (omega (arith, v.vec_len, pow-pos v.k)) (vec q) (size q) q.tail q.head h v.vec_len
          (head_at q v) r
    where
      written : List (Option A)
      written = set (vec q) (bit_and q.head (length (vec q) - 1)) (some h)

  pushed-IsRing : (q : CbQueue A) (h : A) (v : IsRing q) → size q < 2 ^ v.k → IsRing (pushed q h)
  pushed-IsRing q h v r = record {
    k = v.k;
    small = v.small;
    vec_len = ap length (vec-pushed q h) ∙ length-set (vec q) _ _ ∙ v.vec_len;
    head_lt = omega arith;
    tail_lt = omega (arith, tail-pushed q h, v.tail_lt);
    fits = omega (arith, size-pushed q h v r);
    full = omega (
      arith,
      size-pushed q h v r,
      ap length (items-pushed q h v r),
      v.full,
      length-append (items q) (h ∷ []),
    );
  }

  -- While the ring has room a push adds its callback behind the others and keeps the invariant.
  pub items-push_back :
      (q : CbQueue A) (h : A) (v : IsRing q)
      → size q < 2 ^ v.k
      → (items (push_back q h) ≡ items q ++ (h ∷ [])) × IsRing (push_back q h)
  unfolding push_back
  items-push_back q h v r = rw (not_full q v r) (items-pushed q h v r, pushed-IsRing q h v r)

  length-window : (s : List (Option A)) (m t n : ℕ) → length (window s m t n) ≤ n
  length-window s m t zero = omega arith
  length-window s m t (suc n) =
      ground (arith, length-window s m (inc64 t) n, Option-cases (get_or s (bit_and t m) none))

  abbrev advanced : CbQueue A → CbQueue A
  advanced q = record q { tail = inc64 q.tail }

  size-advanced : (q : CbQueue A) (v : IsRing q) (n : ℕ) → size q ≡ suc n → size (advanced q) ≡ n
  unfolding size
  size-advanced q v n e = omega (arith, v.head_lt, v.tail_lt)

  abbrev oldest : CbQueue A → Option A
  oldest q = get_or (vec q) (bit_and q.tail (length (vec q) - 1)) none

  -- A ring that is not empty splits into its oldest callback and the ring behind it.
  items-suc :
      (q : CbQueue A) (v : IsRing q) (n : ℕ)
      → size q ≡ suc n
      → items q ≡ oldest q +? items (advanced q)
  items-suc q v n e =
      ap (window (vec q) (length (vec q) - 1) q.tail) e
      ∙ ap (λ m. oldest q +? window (vec q) (length (vec q) - 1) (inc64 q.tail) m)
          (sym (size-advanced q v n e))

  oldest-some :
      (q : CbQueue A) (v : IsRing q) (n : ℕ) → size q ≡ suc n → (h : A) × (oldest q ≡ some h)
  oldest-some q v n e = elim (Option-cases (oldest q)) [
    | inl z ↦ absurd (
        omega (
          arith,
          e,
          v.full,
          ap length (items-suc q v n e ∙ ap (λ o. o +? items (advanced q)) z),
          length-window (vec q) (length (vec q) - 1) (inc64 q.tail) (size (advanced q)),
          size-advanced q v n e,
        ))
    | inr found ↦ found
  ]

  advanced-IsRing :
      (q : CbQueue A) (v : IsRing q) (n : ℕ) (h : A)
      → size q ≡ suc n
      → items q ≡ h ∷ items (advanced q)
      → IsRing (advanced q)
  advanced-IsRing q v n h e split = record {
    k = v.k;
    small = v.small;
    vec_len = v.vec_len;
    head_lt = v.head_lt;
    tail_lt = omega arith;
    fits = omega (arith, size-advanced q v n e, v.fits);
    full = omega (arith, size-advanced q v n e, v.full, ap length split);
  }

  -- A pop takes the oldest callback and keeps the invariant; on an empty ring it fails.
  pub items-pop_front :
      (q : CbQueue A)
      → IsRing q
      → ((items q ≡ []) × (pop_front q ≡ none))
        ⊎ ((h : A) × (q' : CbQueue A) × (pop_front q ≡ some (some h, q'))
            × (items q ≡ h ∷ items q')
            × IsRing q')
  unfolding pop_front
  items-pop_front q v = elim (Bool-cases (size q == 0)) [
    | inl e ↦
        inl
          (ap (window (vec q) (length (vec q) - 1) q.tail) (==→eq (size q) 0 e), rw (e, pop_front))
    | inr e ↦
        let c : size q ≡ suc (size q - 1) = omega (arith, ==→ne (size q) 0 e) in
        let o = oldest-some q v (size q - 1) c in
        let split = items-suc q v (size q - 1) c ∙ ap (λ o. o +? items (advanced q)) o.1 in
        inr (
          o.0,
          advanced q,
          rw (e, pop_front) (ap (λ h. some (h, advanced q)) o.1),
          split,
          advanced-IsRing q v (size q - 1) o.0 c split,
        )
  ]

  -- Move assignment carries the callbacks over in order and leaves the source empty.
  pub items-move_assign :
      (self o : CbQueue A)
      → (items (move_assign self o).0 ≡ items o) × (items (move_assign self o).1 ≡ [])
  unfolding move_assign size
  items-move_assign self o = ground arith

  -- `std::swap` exchanges the callbacks of two rings.
  pub items-swap :
      (a b : CbQueue A) → (items (swap a b).0 ≡ items b) × (items (swap a b).1 ≡ items a)
  unfolding swap
  items-swap a b = (
    (items-move_assign (move_assign empty_ring a).1 b).0,
    (items-move_assign (move_assign (move_assign empty_ring a).1 b).1
          (move_assign empty_ring a).0).0
        ∙ (items-move_assign empty_ring a).0,
  )
