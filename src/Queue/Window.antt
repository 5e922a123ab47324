-- ===== src/Queue/Window.antt =====
-- Queue.h: what the ring of one block holds, the values of its occupied entries, oldest first.
use Prim.Native.Nat.{bit_and}
use native.Mathlib.Decide.{dec_lt}
use native.Mathlib.Nat.{mod-add-mod, mod-eq_of_lt, mod-eq-sub-mod, mod-lt}
use coproto.Prelude.{
  ℕ, zero, suc, ◌+◌, ◌-◌, ◌%◌, ◌^◌, ◌≤◌, ◌<◌, ◌≡◌, refl, sym, ap, ap₂, ◌∙◌, ◌≢◌, Option, none, some,
  List, [], ◌∷◌, ◌++◌, arith, length, get_or, set, get_or-set_self, get_or-set_ne,
}
use coproto.Prelude.Word.{u64_mod, pow-pos, bit_and-mask, wrap-mod}

-- `++x` and `--x` on a u64.
abbrev pub inc64 : ℕ → ℕ
inc64 x = (x + 1) % u64_mod

abbrev pub dec64 : ℕ → ℕ
dec64 x = (x + u64_mod - 1) % u64_mod

module _ {ℓ} {A : Type ℓ} where
  -- A value in front of a list, if there is one.
  infixr 67 ◌+?◌
  abbrev pub ◌+?◌ : Option A → List A → List A
  none +? xs = xs
  some a +? xs = a ∷ xs

  -- The values of `n` entries from index `h` on.
  abbrev pub window : List (Option A) → ℕ → ℕ → ℕ → List A
  window slots mask h zero = []
  window slots mask h (suc n) = get_or slots (bit_and h mask) none +? window slots mask (inc64 h) n

  +?-append : (o : Option A) (xs ys : List A) → (o +? xs) ++ ys ≡ o +? (xs ++ ys)
  +?-append none xs ys = refl
  +?-append (some a) xs ys = refl

-- Fewer than `c` steps round a ring of `c` slots do not come back to the start.
pub ring_ne : (c y d : ℕ) → 0 < d → d < c → (y + d) % c ≢ y % c
ring_ne c y d h0 h1 = elim (dec_lt (y % c + d) c) [
  | yes p ↦ omega (arith, mod-add-mod y c d, mod-eq_of_lt p)
  | no p ↦ omega (
    arith,
    mod-add-mod y c d,
    mod-lt y {m = c} (omega arith),
    mod-eq-sub-mod {n = y % c + d} {m = c} (omega arith),
    mod-eq_of_lt {n = y % c + d - c} {m = c} (omega (arith, mod-lt y {m = c} (omega arith))),
  )
]

-- A step of an index that wraps at 2^64 is a step round a ring of 2^k slots.
pub shift : (k : ℕ) → k ≤ 64 → (h j : ℕ) → (inc64 h + j) % 2 ^ k ≡ (h + suc j) % 2 ^ k
shift k small h j =
    sym (mod-add-mod (inc64 h) (2 ^ k) j)
    ∙ ap (λ t. (t + j) % 2 ^ k) (wrap-mod k (h + 1) small)
    ∙ mod-add-mod (h + 1) (2 ^ k) j
    ∙ ap (λ t. t % 2 ^ k) (omega arith)

module _ {ℓ} {A : Type ℓ} (k mask : ℕ) (small : k ≤ 64) (pow : mask + 1 ≡ 2 ^ k) where
  -- A write outside a window leaves it alone.
  pub window-set_ne :
      (slots : List (Option A)) (i : ℕ) (v : Option A) (n h : ℕ)
      → ((j : ℕ) → j < n → (h + j) % 2 ^ k ≢ i)
      → window (set slots i v) mask h n ≡ window slots mask h n
  window-set_ne slots i v zero h out = refl
  window-set_ne slots i v (suc n) h out =
      ap₂ ◌+?◌ (get_or-set_ne slots i (bit_and h mask) v none λ e. out 0 (omega arith) (first e)) (
        window-set_ne slots i v n (inc64 h)
          λ j p e. out (suc j) (omega arith) (sym (shift k small h j) ∙ e))
    where
      first : i ≡ bit_and h mask → (h + 0) % 2 ^ k ≡ i
      first e = let z : h + 0 ≡ h = omega arith in rw z (omega (arith, bit_and-mask k h mask pow))

  -- The last entry of a window stands at its end.
  pub window-suc :
      (slots : List (Option A)) (n h e : ℕ)
      → e % 2 ^ k ≡ (h + n) % 2 ^ k
      → window slots mask h (suc n)
        ≡ window slots mask h n ++ (get_or slots (bit_and e mask) none +? [])
  window-suc slots zero h e p =
      ap (λ i. get_or slots i none +? [])
        (bit_and-mask k h mask pow
          ∙ ap (λ t. t % 2 ^ k) (omega arith)
          ∙ sym p
          ∙ sym (bit_and-mask k e mask pow))
  window-suc slots (suc n) h e p =
      ap (λ xs. get_or slots (bit_and h mask) none +? xs)
        (window-suc slots n (inc64 h) e (p ∙ sym (shift k small h n)))
      ∙ sym (+?-append (get_or slots (bit_and h mask) none) _ _)

  -- A value written at the end of a window, round a ring with room, is the window's last.
  pub window-push :
      (slots : List (Option A)) (n h e : ℕ) (a : A)
      → length slots ≡ 2 ^ k
      → e % 2 ^ k ≡ (h + n) % 2 ^ k
      → n < 2 ^ k
      → window (set slots (bit_and e mask) (some a)) mask h (suc n)
        ≡ window slots mask h n ++ (a ∷ [])
  window-push slots n h e a len p room =
      window-suc (set slots (bit_and e mask) (some a)) n h e p
      ∙ ap₂ ◌++◌ (window-set_ne slots (bit_and e mask) (some a) n h apart) (
          ap (λ o. o +? [])
            (get_or-set_self slots (bit_and e mask) (some a) none
              (omega (arith, at_end, len, mod-lt e (pow-pos k)))))
    where
      at_end : bit_and e mask ≡ e % 2 ^ k
      at_end = bit_and-mask k e mask pow

      apart : (j : ℕ) → j < n → (h + j) % 2 ^ k ≢ bit_and e mask
      apart j q r =
          let split : h + n ≡ h + j + (n - j) = omega arith in
          ring_ne (2 ^ k) (h + j) (n - j) (omega arith) (omega (arith, room))
            (ap (λ t. t % 2 ^ k) (sym split) ∙ sym p ∙ sym at_end ∙ sym r)

  -- A window behind the first entry does not see a write to that entry.
  pub window-set_front :
      (slots : List (Option A)) (v : Option A) (n h : ℕ)
      → n < 2 ^ k
      → window (set slots (bit_and h mask) v) mask (inc64 h) n ≡ window slots mask (inc64 h) n
  window-set_front slots v n h room = window-set_ne slots (bit_and h mask) v n (inc64 h) λ j p e.
      ring_ne (2 ^ k) h (suc j) (omega arith) (omega arith)
        (sym (shift k small h j) ∙ e ∙ bit_and-mask k h mask pow)
